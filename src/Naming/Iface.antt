-- ===== src/Naming/Iface.antt =====
-- labtris_api/naming.py: what a guest calls its ports. A port's index is not negative.
pub mod Distinct
use labtris.Prelude.{text_eq}
use labtris.Netd.Params.{optional, starts_with}
use labtris.Prelude.{
  none, ◌*◌, if◌then◌else◌, some, zero, ◌+◌, ◌++◌, codes, ◌∷◌, suc, Option, [], String, List, ℕ,
  Text,
}
use labtris.Naming.Device.{decimal}

pub record IfaceScheme : Type 0 where
  pub id : Text
  pub label : Text
  pub template : Text
  pub start : ℕ
  pub step : ℕ
  pub first_names : List Text

-- `template.format(n=…)`, given the text of the number: of the characters behind, the first `skip`
-- belong to a field that has been replaced
unfoldable pub format : ℕ → Text → Text → Text
format skip [] number = []
format (suc skip) (c ∷ s) number = format skip s number
format zero (c ∷ s) number =
    let replaced = number ++ format 2 s number in
    let kept = c ∷ format 0 s number in if starts_with (codes "{n}") (c ∷ s) then replaced else kept

unfoldable pub template_name : IfaceScheme → ℕ → Text
unfolding format
template_name s idx = format 0 s.template (decimal (s.start + idx * s.step))

-- the names in `first_names`, and behind them the template's
unfoldable pub port_name : IfaceScheme → List Text → ℕ → Text
unfolding template_name
port_name s [] idx = template_name s idx
port_name s (f ∷ fs) zero = f
port_name s (f ∷ fs) (suc idx) = port_name s fs idx

unfoldable pub scheme_name : IfaceScheme → ℕ → Text
unfolding port_name
scheme_name s idx = port_name s s.first_names idx

abbrev pub scheme : String → String → String → ℕ → ℕ → List Text → IfaceScheme
scheme id label template start step first_names = record {
  id = codes id;
  label = codes label;
  template = codes template;
  start = start;
  step = step;
  first_names = first_names;
}

abbrev pub eth : IfaceScheme
eth = scheme "eth" "eth0, eth1 — containers and older Linux" "eth{n}" 0 1 []

abbrev pub paloalto : IfaceScheme
paloalto =
    scheme "paloalto" "mgmt, eth1/1, eth1/2 — Palo Alto PAN-OS" "eth1/{n}" 1 1 (codes "mgmt" ∷ [])

abbrev pub nxos : IfaceScheme
nxos = scheme "nxos" "Mgmt0, E1/1, E1/2 — Cisco Nexus 9000v" "E1/{n}" 1 1 (codes "Mgmt0" ∷ [])

abbrev pub swp : IfaceScheme
swp = scheme "swp" "eth0, swp1, swp2 — Cumulus Linux" "swp{n}" 1 1 (codes "eth0" ∷ [])

abbrev pub other_schemes : List IfaceScheme
other_schemes =
    scheme "ens" "ens3, ens4 — Ubuntu/Debian on QEMU virtio" "ens{n}" 3 1 []
    ∷ scheme "enp" "enp0s3, enp0s4 — predictable names on some boards" "enp0s{n}" 3 1 []
    ∷ scheme "vmware" "ens192, ens224 — VMware VMXNET3" "ens{n}" 192 32 []
    ∷ scheme "srl" "ethernet-1/1 — Nokia SR Linux" "ethernet-1/{n}" 1 1 []
    ∷ scheme "ios" "GigabitEthernet0/0 — Cisco IOS" "GigabitEthernet0/{n}" 0 1 []
    ∷ paloalto
    ∷ nxos
    ∷ scheme "s" "s1, s2 — bmv2 P4 switch ports" "s{n}" 1 1 []
    ∷ swp
    ∷ []

abbrev pub iface_schemes : List IfaceScheme
iface_schemes = eth ∷ other_schemes

-- `IFACE_SCHEMES.get(id, IFACE_SCHEMES["eth"])`
unfoldable pub find_scheme : List IfaceScheme → Text → IfaceScheme
find_scheme [] id = eth
find_scheme (s ∷ ss) id = let rest = find_scheme ss id in if text_eq s.id id then s else rest

-- `scheme or DEFAULT_IFACE_SCHEME`
abbrev pub scheme_or_default : Option Text → Text
scheme_or_default none = codes "eth"
scheme_or_default (some []) = codes "eth"
scheme_or_default (some (c ∷ s)) = c ∷ s

unfoldable pub guest_iface_name : Option Text → ℕ → Text
unfolding find_scheme scheme_name
guest_iface_name scheme idx = scheme_name (find_scheme iface_schemes (scheme_or_default scheme)) idx
