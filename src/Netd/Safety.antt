-- ===== src/Netd/Safety.antt =====
-- labtris_netd/verbs.py: what the arguments of a call on the kernel have to satisfy. The proofs are in
-- the modules below.
pub mod Validators
pub mod Calls
pub mod Replies
use labtris.Prelude.{text_eq}
use labtris.Prelude.{
  Bool, ◌-◌, String, inl, inr, Option-cases, subst, ◌⊎◌, ℕ, ◌≤◌, ◌<◌, ◌^◌, Text, List, [], ◌∷◌,
  true, false, Option, none, some, All, ◌≡◌, refl, arith, codes, length,
}
use labtris.Prelude.Result.{◌>>=◌, Result, ok, err}
use labtris.Netd.Protocol.{matches_ifname}
use labtris.Netd.Json.{nil, get_default, num, get, as_dict, as_list, items, Json, Fields}
use labtris.Netd.Check.{
  matches_host_ifname, matches_key, matches_mac, matches_target, require_ifname,
  require_host_ifname, require_key, require_prefix, require_vid, require_vids, int_in, traverse,
}
use labtris.Netd.Address.{
  require_ipv4, require_cidr, require_hosts, require_host, matches_ipv4, matches_cidr, all_octets,
  split_on, head_part,
}
use labtris.Ip.{Net, ip_network, ip_address, contains}
use text.Mathlib.Text.{◌==◌ as str_eq}
use labtris.Netd.Verb.{Verb}
use labtris.Netd.Call.{Call}
use labtris.Netd.Params.{or_else, uplinks, none_of, is_meta, starts_with, positive}
use labtris.Netd.Make.{names, call, call_plain, call_segment, ethertype}
use labtris.Prelude.Int.{pos}

-- a name that this daemon may own
abbrev pub OwnName : Text → Type 0
OwnName s = matches_ifname s ≡ true

-- a name of a host interface, but not the loopback's
abbrev pub HostName : Text → Type 0
HostName s = (matches_host_ifname s ≡ true) × (text_eq s (codes "lo") ≡ false)

abbrev pub Key : Text → Type 0
Key s = matches_key s ≡ true

abbrev pub Vid : ℕ → Type 0
Vid n = (1 ≤ n) × (n ≤ 4094)

abbrev pub Given {ℓ} : {A : Type ℓ} → (A → Type 0) → Option A → Type 0
Given P none = Unit
Given P (some a) = P a

-- a namespace with a name and a process
abbrev pub Namespace : String × ℕ → Type 0
Namespace (key, pid) = (str_eq key "" ≡ false) × (0 < pid)

module _ (decimal : ℕ → Option ℕ) where
  -- four octets of decimal digits, each at most 255
  abbrev pub Address : Text → Type 0
  Address s = (matches_ipv4 decimal s ≡ true) × (all_octets decimal (split_on b'.' s) ≡ true)

  abbrev pub Subnet : Text → Type 0
  Subnet s =
      (matches_cidr decimal s ≡ true)
      × (all_octets decimal (split_on b'.' (head_part (split_on b'/' s))) ≡ true)

  abbrev pub Host : Text × Text → Type 0
  Host (mac, ip) = (matches_mac mac ≡ true) × Address ip

  -- under "manual", a network, and a gateway in it
  abbrev pub Addressed : Bool → Json → Json → Type 0
  Addressed false a g = Unit
  Addressed true (Json.str a) (Json.str g) =
      Subnet a
      × Address g
      × ((net : Net) × (n : ℕ) × (ip_network a ≡ some net)
          × (ip_address g ≡ some n)
          × (contains net n ≡ true))
  Addressed true _ _ = ⊥

  -- what holds of the arguments of every call, by its method. The values that the two methods for
  -- sysctls take are not validated here: they are any texts.
  abbrev pub IsSafe : Call → Type 0
  IsSafe (Call.bridge_create n) = OwnName n
  IsSafe (Call.bridge_delete n) = OwnName n
  IsSafe (Call.tap_create n uid mq) = OwnName n
  IsSafe (Call.tap_delete n) = OwnName n
  IsSafe (Call.iface_attach n b) = OwnName n × HostName b
  IsSafe (Call.iface_detach n) = OwnName n
  IsSafe (Call.iface_set_state n up) = OwnName n
  IsSafe (Call.iface_delete n) = OwnName n
  IsSafe (Call.iface_inspect ns) = All OwnName ns
  IsSafe (Call.iface_counters ns) = All OwnName ns
  IsSafe (Call.addr_replace n a l) = OwnName n × Address a × (l ≤ 32)
  IsSafe (Call.addr_flush n) = OwnName n
  IsSafe (Call.nat_enable s b) = Subnet s × OwnName b
  IsSafe (Call.nat_disable s b) = Subnet s × OwnName b
  IsSafe (Call.bridge_vlan_aware n on t) = OwnName n × ((t ≡ 0x8100) ⊎ (t ≡ 0x88a8))
  IsSafe (Call.bridge_port_vlan n pvid tagged untagged) =
      OwnName n × Given Vid pvid × All Vid tagged × All Vid untagged
  IsSafe (Call.dhcp_start k b g l f la dns hosts) =
      Key k
      × OwnName b
      × Address g
      × (l ≤ 32)
      × Address f
      × Address la
      × Given Address dns
      × All Host hosts
  IsSafe (Call.dhcp_stop k) = Key k
  IsSafe (Call.dhcp_leases k) = Key k
  IsSafe (Call.nat_sessions s) = Subnet s
  IsSafe (Call.tc_read n) = OwnName n
  IsSafe (Call.tc_clear n) = OwnName n
  IsSafe (Call.tc_set n spec) = OwnName n
  IsSafe (Call.veth_create n m) = OwnName n × OwnName m
  IsSafe (Call.ovs_bridge_create n) = OwnName n
  IsSafe (Call.ovs_bridge_delete n) = OwnName n
  IsSafe (Call.netns_move n pid to mac up) =
      OwnName n × (0 < pid) × Given (λ s. 0 < length s) to × Given (λ s. matches_mac s ≡ true) mac
  IsSafe (Call.capture_start n bpf) = OwnName n × (none_of is_meta bpf ≡ true)
  IsSafe (Call.capture_stop n) = OwnName n
  IsSafe (Call.capture_read n) = OwnName n
  IsSafe (Call.inspect_bridge n) = HostName n
  IsSafe (Call.configure_management manual i a g dns kind) =
      HostName i × Addressed manual a g × All Address dns
  IsSafe (Call.netns_links pids) = (1 ≤ length pids) × (length pids ≤ 512) × All Namespace pids
  IsSafe (Call.configure_uplinks nics) = All HostName nics
  IsSafe (Call.cloud_attach n b force) = HostName n × OwnName b
  IsSafe (Call.cloud_confirm n) = HostName n
  IsSafe (Call.cloud_detach n) = HostName n
  IsSafe (Call.vxlan_create n vni remote local port) =
      OwnName n
      × (0 < vni)
      × (vni < 2 ^ 24)
      × (matches_ipv4 decimal remote ≡ true)
      × Given (λ s. matches_ipv4 decimal s ≡ true) local
      × (0 < port)
      × (port < 65536)
  IsSafe (Call.vxlan_delete n) = OwnName n
  IsSafe (Call.hook_ping pid t c s) =
      (0 < pid) × (matches_target t ≡ true) × (1 ≤ c) × (c ≤ 20) × (1 ≤ s) × (s ≤ 60)
  IsSafe (Call.hook_http pid u s) =
      (0 < pid)
      × ((starts_with (codes "http://") u ≡ true) ⊎ (starts_with (codes "https://") u ≡ true))
      × (1 ≤ s)
      × (s ≤ 60)
  IsSafe _ = Unit

abbrev pub Ensures : (Call → Type 0) → Result Call → Type 0
Ensures P (ok c) = P c
Ensures P (err e) = Unit
