-- ===== src/Naming/Tests.antt =====
-- Runs of the names at concrete inputs.
use labtris.Prelude.{
  arith, ◌≢◌, some, none, ℕ, ◌+◌, ◌*◌, ◌≤◌, ◌≡◌, refl, Text, All, length, codes, [], ◌∷◌, ◌++◌,
  true,
}
use labtris.Prelude.Int.{pos}
use labtris.Prelude.Result.{ok}
use labtris.Netd.Protocol.{matches_ifname}
use labtris.Netd.Protocol.Gate.{IsWord}
use labtris.Naming.Digits.{value}
use labtris.Naming.Device.{decimal, slug, slug_max, device_hint, base36, host_ifname, veth}
use labtris.Naming.Device.Legal.{alph_value, device_hint-IsWord, host_ifname_total, value-base36}
use labtris.Naming.Iface.{format, template_name, port_name, scheme_name, guest_iface_name}
use labtris.Naming.Iface.Distinct.{guest_iface_name-apart, guest_iface_name-apart}

-- a digest of a text: the sum of its characters, scaled
abbrev sum_digest : Text → ℕ
sum_digest [] = 7
sum_digest (c ∷ s) = c * 65537 + sum_digest s

device_hint-IsWord_example :
    (head : Text) × (device_hint (codes "Core-1") (codes "eth0") ≡ head ++ slug (codes "eth0") 5)
    × All IsWord (device_hint (codes "Core-1") (codes "eth0"))
    × (length (device_hint (codes "Core-1") (codes "eth0")) ≤ slug_max)
device_hint-IsWord_example = device_hint-IsWord (codes "Core-1") (codes "eth0")

host_ifname_total_example :
    (name : Text) × (host_ifname sum_digest veth (codes "net-1") 2 (codes "Core-1") ≡ ok name)
    × (matches_ifname name ≡ true)
    × (length name ≤ 15)
host_ifname_total_example = host_ifname_total sum_digest veth (codes "net-1") 2 (codes "Core-1")

value-base36_example :
    (s : Text) × (base36 (pos 46655) ≡ ok s) × (value 36 alph_value 0 s ≡ 46655) × All IsWord s
value-base36_example = value-base36 46655

core_hint : device_hint (codes "Core-1") (codes "eth0") ≡ codes "core1eth0"
unfolding device_hint
core_hint = refl

cumulus_ports :
    (guest_iface_name (some (codes "swp")) 0 ≡ codes "eth0")
    × (guest_iface_name (some (codes "vmware")) 2 ≡ codes "ens256")
    × (guest_iface_name none 10 ≡ codes "eth10")
unfolding guest_iface_name scheme_name port_name template_name format decimal
cumulus_ports = (refl, refl, refl)

guest_iface_name-apart_example :
    guest_iface_name (some (codes "swp")) 0 ≢ guest_iface_name (some (codes "swp")) 1
guest_iface_name-apart_example = guest_iface_name-apart (some (codes "swp")) 0 1 (omega arith)
