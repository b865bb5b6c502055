-- ===== src/Netd/Verb.antt =====
-- labtris_netd/verbs.py: the set VERBS.
use labtris.Prelude.{text_eq}
use labtris.Prelude.{Text, codes, Option, none, some, if◌then◌else◌}

-- the members of VERBS
pub data Verb : Type 0 where
  ping bridge_create bridge_delete bridge_list ovs_available ovs_bridge_create ovs_bridge_delete :
      Verb
  tap_create tap_delete iface_attach iface_detach iface_set_state iface_delete veth_create : Verb
  netns_move netns_links iface_inspect tc_set tc_read tc_clear capture_start capture_stop : Verb
  capture_read host_tune host_tuning_read host_capabilities host_interfaces host_inspect_bridge :
      Verb
  host_management_probe host_configure_management host_uplink_probe host_configure_uplinks : Verb
  cloud_attach cloud_confirm cloud_detach vxlan_create vxlan_delete addr_replace addr_flush : Verb
  nat_enable nat_disable bridge_vlan_aware bridge_port_vlan dhcp_start dhcp_stop dhcp_leases : Verb
  nat_sessions hook_ping hook_http iface_counters : Verb

-- the verb of that name, if it is in VERBS
unfoldable pub to_verb : Text → Option Verb
to_verb s =
    if text_eq s (codes "ping")
    then some ping
    else if text_eq s (codes "bridge.create")
    then some bridge_create
    else if text_eq s (codes "bridge.delete")
    then some bridge_delete
    else if text_eq s (codes "bridge.list")
    then some bridge_list
    else if text_eq s (codes "ovs.available")
    then some ovs_available
    else if text_eq s (codes "ovs.bridge_create")
    then some ovs_bridge_create
    else if text_eq s (codes "ovs.bridge_delete")
    then some ovs_bridge_delete
    else if text_eq s (codes "tap.create")
    then some tap_create
    else if text_eq s (codes "tap.delete")
    then some tap_delete
    else if text_eq s (codes "iface.attach")
    then some iface_attach
    else if text_eq s (codes "iface.detach")
    then some iface_detach
    else if text_eq s (codes "iface.set_state")
    then some iface_set_state
    else if text_eq s (codes "iface.delete")
    then some iface_delete
    else if text_eq s (codes "veth.create")
    then some veth_create
    else if text_eq s (codes "netns.move")
    then some netns_move
    else if text_eq s (codes "netns.links")
    then some netns_links
    else if text_eq s (codes "iface.inspect")
    then some iface_inspect
    else if text_eq s (codes "tc.set")
    then some tc_set
    else if text_eq s (codes "tc.read")
    then some tc_read
    else if text_eq s (codes "tc.clear")
    then some tc_clear
    else if text_eq s (codes "capture.start")
    then some capture_start
    else if text_eq s (codes "capture.stop")
    then some capture_stop
    else if text_eq s (codes "capture.read")
    then some capture_read
    else if text_eq s (codes "host.tune")
    then some host_tune
    else if text_eq s (codes "host.tuning_read")
    then some host_tuning_read
    else if text_eq s (codes "host.capabilities")
    then some host_capabilities
    else if text_eq s (codes "host.interfaces")
    then some host_interfaces
    else if text_eq s (codes "host.inspect_bridge")
    then some host_inspect_bridge
    else if text_eq s (codes "host.management_probe")
    then some host_management_probe
    else if text_eq s (codes "host.configure_management")
    then some host_configure_management
    else if text_eq s (codes "host.uplink_probe")
    then some host_uplink_probe
    else if text_eq s (codes "host.configure_uplinks")
    then some host_configure_uplinks
    else if text_eq s (codes "cloud.attach")
    then some cloud_attach
    else if text_eq s (codes "cloud.confirm")
    then some cloud_confirm
    else if text_eq s (codes "cloud.detach")
    then some cloud_detach
    else if text_eq s (codes "vxlan.create")
    then some vxlan_create
    else if text_eq s (codes "vxlan.delete")
    then some vxlan_delete
    else if text_eq s (codes "addr.replace")
    then some addr_replace
    else if text_eq s (codes "addr.flush")
    then some addr_flush
    else if text_eq s (codes "nat.enable")
    then some nat_enable
    else if text_eq s (codes "nat.disable")
    then some nat_disable
    else if text_eq s (codes "bridge.vlan_aware")
    then some bridge_vlan_aware
    else if text_eq s (codes "bridge.port_vlan")
    then some bridge_port_vlan
    else if text_eq s (codes "dhcp.start")
    then some dhcp_start
    else if text_eq s (codes "dhcp.stop")
    then some dhcp_stop
    else if text_eq s (codes "dhcp.leases")
    then some dhcp_leases
    else if text_eq s (codes "nat.sessions")
    then some nat_sessions
    else if text_eq s (codes "hook.ping")
    then some hook_ping
    else if text_eq s (codes "hook.http")
    then some hook_http
    else if text_eq s (codes "iface.counters")
    then some iface_counters
    else none
