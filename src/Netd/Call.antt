-- ===== src/Netd/Call.antt =====
-- labtris_netd/verbs.py: the methods of NetOps with their arguments, as the verbs call them.
use labtris.Prelude.{ℕ, String, Text, List, Bool, Option}
use labtris.Prelude.Int.{ℤ}
use labtris.Netd.Json.{Json, Fields}

-- `str` of a value: a text itself, or the text of another value
pub data Shown : Type 0 where
  text : Text → Shown
  shown : Json → Shown

-- `pong` is the answer that takes no call
pub data Call : Type 0 where
  pong : Call
  bridge_create bridge_delete : Text → Call
  bridge_list : Call
  -- owner_uid and multi_queue
  tap_create : Text → ℤ → Bool → Call
  tap_delete : Text → Call
  -- the interface and the bridge
  iface_attach : Text → Text → Call
  iface_detach : Text → Call
  iface_set_state : Text → Bool → Call
  iface_delete : Text → Call
  iface_inspect iface_counters : List Text → Call
  -- address and prefix
  addr_replace : Text → Text → ℕ → Call
  addr_flush : Text → Call
  -- the subnet and the bridge
  nat_enable nat_disable : Text → Text → Call
  -- on, and the ethertype
  bridge_vlan_aware : Text → Bool → ℕ → Call
  -- pvid, tagged and untagged
  bridge_port_vlan : Text → Option ℕ → List ℕ → List ℕ → Call
  -- key, bridge, gateway, prefix, first, last, dns, hosts
  dhcp_start : Text → Text → Text → ℕ → Text → Text → Option Text → List (Text × Text) → Call
  dhcp_stop dhcp_leases : Text → Call
  nat_sessions : Text → Call
  tc_read tc_clear : Text → Call
  tc_set : Text → Fields → Call
  veth_create : Text → Text → Call
  ovs_available : Call
  ovs_bridge_create ovs_bridge_delete : Text → Call
  netns_links : List (String × ℕ) → Call
  -- name, pid, rename_to, mac, up
  netns_move : Text → ℕ → Option Text → Option Text → Bool → Call
  capture_start : Text → Text → Call
  capture_stop capture_read : Text → Call
  host_tune : List (String × Shown) → Call
  host_tuning_read : List Shown → Call
  host_capabilities host_interfaces : Call
  inspect_bridge : Text → Call
  management_probe uplink_probe : Call
  -- mode is manual, interface, address, gateway, dns, kind is bridge
  configure_management : Bool → Text → Json → Json → List Text → Bool → Call
  configure_uplinks : List Text → Call
  cloud_attach : Text → Text → Bool → Call
  cloud_confirm cloud_detach : Text → Call
  -- name, vni, remote, local, dstport
  vxlan_create : Text → ℕ → Text → Option Text → ℕ → Call
  vxlan_delete : Text → Call
  -- pid, target, count, timeout
  hook_ping : ℕ → Text → ℕ → ℕ → Call
  hook_http : ℕ → Text → ℕ → Call
