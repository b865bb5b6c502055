-- ===== src/Netd/Make.antt =====
-- labtris_netd/verbs.py: `_call`, which validates a verb's parameters and makes its call. Each clause
-- is a branch of its chain of tests on the verb.
use labtris.Prelude.{text_eq}
use labtris.Prelude.{
  map, String, ◌∷◌, ◌-◌, ℕ, ◌^◌, Text, codes, List, [], Bool, true, false, ◌&&◌, ◌||◌, ltb, leb,
  if◌then◌else◌, Option, none, some, length,
}
use labtris.Prelude.Int.{pos}
use labtris.Prelude.Result.{Result, ok, err, einval, type_error, ◌>>=◌, ◌>>◌, guard}
use labtris.Netd.Json.{
  Json, Fields, bool, num, str, arr, obj, nil, get, get_default, as_bool, as_int, as_list, as_dict,
}
use labtris.Netd.Params.{
  optional, positive, text_with, starts_with, link_pids, fields_length, is_meta, none_of, uplinks,
  either_text, or_else, is_inside, if_truthy,
}
use labtris.Netd.Check.{
  traverse, require_ifname, require_host_ifname, require_key, require_prefix, require_vid,
  require_vids, int_in, matches_mac, matches_target,
}
use labtris.Netd.Address.{require_ipv4, require_cidr, require_hosts, matches_ipv4}
use labtris.Netd.Verb.{Verb}
use labtris.Netd.Call.{Call, Shown}

-- `none` is NetdFault("EINVAL", …)
abbrev pub valid {ℓ} : {A : Type ℓ} → Option A → Result A
valid none = err einval
valid (some a) = ok a

-- `proto not in ETHERTYPES` hashes `proto`
unfoldable pub ethertype : Json → Result ℕ
ethertype (str s) =
    if text_eq s (codes "802.1Q")
    then ok 0x8100
    else if text_eq s (codes "802.1ad")
    then ok 0x88a8
    else err einval
ethertype (arr vs) = err type_error
ethertype (obj fs) = err type_error
ethertype _ = err einval

abbrev pub name : Fields → Result Text
name p = valid (require_ifname (get "name" p))

abbrev pub host_name : Fields → Result Text
host_name p = valid (require_host_ifname (get "name" p))

abbrev pub bridge : Fields → Result Text
bridge p = valid (require_ifname (get "bridge" p))

-- `isinstance(names, list)`, then every name
abbrev pub names : Fields → Result (List Text)
names p = do vs ← valid (as_list (get "names" p)); valid (traverse require_ifname vs)

-- `str(v)`
abbrev pub to_shown : Json → Shown
to_shown (str s) = Shown.text s
to_shown v = Shown.shown v

-- `{str(k): str(v) for …}`; a key is a text
abbrev pub shown_fields : Fields → List (String × Shown)
shown_fields Fields.end = []
shown_fields (Fields.field k v fs) = (k, to_shown v) ∷ shown_fields fs

module _ (decimal : ℕ → Option ℕ) where
  -- the verbs that take nothing, or names alone
  unfoldable pub call_plain : Verb → Fields → Result Call
  call_plain Verb.ping p = ok Call.pong
  call_plain Verb.bridge_create p = do n ← name p; ok (Call.bridge_create n)
  call_plain Verb.bridge_delete p = do n ← name p; ok (Call.bridge_delete n)
  call_plain Verb.bridge_list p = ok Call.bridge_list
  call_plain Verb.tap_create p = do
    uid ← valid (as_int (get "owner_uid" p))
    mq ← valid (as_bool (get_default "multi_queue" (bool false) p))
    n ← name p
    ok (Call.tap_create n uid mq)
  call_plain Verb.tap_delete p = do n ← name p; ok (Call.tap_delete n)
  call_plain Verb.iface_attach p = do
    n ← name p
    b ← valid (require_host_ifname (get "bridge" p))
    ok (Call.iface_attach n b)
  call_plain Verb.iface_detach p = do n ← name p; ok (Call.iface_detach n)
  call_plain Verb.iface_set_state p = do
    up ← valid (as_bool (get "up" p))
    n ← name p
    ok (Call.iface_set_state n up)
  call_plain Verb.iface_delete p = do n ← name p; ok (Call.iface_delete n)
  call_plain Verb.iface_inspect p = do ns ← names p; ok (Call.iface_inspect ns)
  call_plain Verb.iface_counters p = do ns ← names p; ok (Call.iface_counters ns)
  call_plain Verb.tc_read p = do n ← name p; ok (Call.tc_read n)
  call_plain Verb.veth_create p = do
    n ← name p
    m ← valid (require_ifname (get "peer" p))
    ok (Call.veth_create n m)
  call_plain Verb.ovs_available p = ok Call.ovs_available
  call_plain Verb.ovs_bridge_create p = do n ← name p; ok (Call.ovs_bridge_create n)
  call_plain Verb.ovs_bridge_delete p = do n ← name p; ok (Call.ovs_bridge_delete n)
  call_plain Verb.tc_set p = do
    spec ← valid (as_dict (get "spec" p))
    n ← name p
    ok (Call.tc_set n spec)
  call_plain Verb.tc_clear p = do n ← name p; ok (Call.tc_clear n)
  call_plain Verb.capture_start p = do
    bpf ← valid (text_with (none_of is_meta) (or_else (get "bpf" p) (str [])))
    n ← name p
    ok (Call.capture_start n bpf)
  call_plain Verb.capture_stop p = do n ← name p; ok (Call.capture_stop n)
  call_plain Verb.capture_read p = do n ← name p; ok (Call.capture_read n)
  call_plain Verb.host_tune p = do
    s ← valid (as_dict (get "sysctls" p))
    ok (Call.host_tune (shown_fields s))
  call_plain Verb.host_tuning_read p = do
    ks ← valid (as_list (or_else (get "keys" p) (arr nil)))
    ok (Call.host_tuning_read (map to_shown ks))
  call_plain Verb.host_capabilities p = ok Call.host_capabilities
  call_plain Verb.host_interfaces p = ok Call.host_interfaces
  call_plain Verb.host_inspect_bridge p = do n ← host_name p; ok (Call.inspect_bridge n)
  call_plain Verb.host_management_probe p = ok Call.management_probe
  call_plain Verb.host_uplink_probe p = ok Call.uplink_probe
  call_plain Verb.cloud_confirm p = do n ← host_name p; ok (Call.cloud_confirm n)
  call_plain Verb.cloud_detach p = do n ← host_name p; ok (Call.cloud_detach n)
  call_plain Verb.vxlan_delete p = do n ← name p; ok (Call.vxlan_delete n)
  call_plain _ p = err einval

  -- the verbs of addresses, VLANs and DHCP
  unfoldable pub call_segment : Verb → Fields → Result Call
  call_segment Verb.addr_replace p = do
    n ← name p
    a ← valid (require_ipv4 decimal (get "address" p))
    l ← valid (require_prefix (get "prefix" p))
    ok (Call.addr_replace n a l)
  call_segment Verb.addr_flush p = do n ← name p; ok (Call.addr_flush n)
  call_segment Verb.nat_enable p = do
    s ← valid (require_cidr decimal (get "subnet" p))
    b ← bridge p
    ok (Call.nat_enable s b)
  call_segment Verb.nat_disable p = do
    s ← valid (require_cidr decimal (get "subnet" p))
    b ← bridge p
    ok (Call.nat_disable s b)
  call_segment Verb.bridge_vlan_aware p = do
    on ← valid (as_bool (get "on" p))
    t ← ethertype (get_default "proto" (str (codes "802.1Q")) p)
    n ← name p
    ok (Call.bridge_vlan_aware n on t)
  call_segment Verb.bridge_port_vlan p = do
    pvid ← valid (optional require_vid (get "pvid" p))
    n ← name p
    tagged ← valid (require_vids (get "tagged" p))
    untagged ← valid (require_vids (get "untagged" p))
    ok (Call.bridge_port_vlan n pvid tagged untagged)
  call_segment Verb.dhcp_start p = do
    k ← valid (require_key (get "key" p))
    b ← bridge p
    gateway ← valid (require_ipv4 decimal (get "gateway" p))
    l ← valid (require_prefix (get "prefix" p))
    first ← valid (require_ipv4 decimal (get "first" p))
    last ← valid (require_ipv4 decimal (get "last" p))
    dns ← valid (if_truthy (require_ipv4 decimal) (get "dns" p))
    hosts ← valid (require_hosts decimal (get "hosts" p))
    ok (Call.dhcp_start k b gateway l first last dns hosts)
  call_segment Verb.dhcp_stop p = do k ← valid (require_key (get "key" p)); ok (Call.dhcp_stop k)
  call_segment Verb.nat_sessions p = do
    s ← valid (require_cidr decimal (get "subnet" p))
    ok (Call.nat_sessions s)
  call_segment Verb.dhcp_leases p = do
    k ← valid (require_key (get "key" p))
    ok (Call.dhcp_leases k)
  call_segment v p = call_plain v p

  -- the address, gateway and DNS servers of `host.configure_management`
  unfoldable pub manual_address : Bool → Fields → Result (Unit {0})
  manual_address false p = ok tt
  manual_address true p = do
    address ← valid (require_cidr decimal (get "address" p))
    gateway ← valid (require_ipv4 decimal (get "gateway" p))
    valid (is_inside gateway address)

  -- the verbs of namespaces, of the host's uplinks, of tunnels and of hooks
  unfoldable pub call : Verb → Fields → Result Call
  unfolding call_segment
  call Verb.netns_links p = do
    pids ← valid (as_dict (get "pids" p))
    guard (ltb 0 (fields_length pids) && leb (fields_length pids) 512) einval
    clean ← valid (link_pids pids)
    ok (Call.netns_links clean)
  call Verb.netns_move p = do
    pid ← valid (positive (get "pid" p))
    rename_to ← valid (optional (text_with (λ s. ltb 0 (length s))) (get "rename_to" p))
    mac ← valid (optional (text_with matches_mac) (get "mac" p))
    up ← valid (as_bool (get_default "up" (bool true) p))
    n ← name p
    ok (Call.netns_move n pid rename_to mac up)
  call Verb.host_configure_management p = do
    manual ← valid (either_text (codes "dhcp") (codes "manual") (get "mode" p))
    interface ← valid (require_host_ifname (get "interface" p))
    dns_raw ← valid (as_list (or_else (get "dns" p) (arr nil)))
    manual_address manual p
    dns ← valid (traverse (require_ipv4 decimal) dns_raw)
    kind ←
        valid
          (either_text (codes "nic") (codes "bridge") (get_default "kind" (str (codes "nic")) p))
    ok (Call.configure_management manual interface (get "address" p) (get "gateway" p) dns kind)
  call Verb.host_configure_uplinks p = do
    pairs ← valid (as_list (or_else (get "pairs" p) (arr nil)))
    nics ← valid (uplinks [] pairs)
    ok (Call.configure_uplinks nics)
  call Verb.cloud_attach p = do
    force ← valid (as_bool (get_default "force" (bool false) p))
    n ← host_name p
    b ← bridge p
    ok (Call.cloud_attach n b force)
  call Verb.vxlan_create p = do
    vni ← valid (int_in 1 (2 ^ 24 - 1) (get "vni" p))
    remote ← valid (text_with (matches_ipv4 decimal) (get "remote" p))
    local ← valid (optional (text_with (matches_ipv4 decimal)) (get "local" p))
    port ← valid (int_in 1 65535 (get_default "dstport" (num (pos 4789)) p))
    n ← name p
    ok (Call.vxlan_create n vni remote local port)
  call Verb.hook_ping p = do
    pid ← valid (positive (get "pid" p))
    target ← valid (text_with matches_target (get "target" p))
    count ← valid (int_in 1 20 (get_default "count" (num (pos 3)) p))
    timeout ← valid (int_in 1 60 (get_default "timeout_s" (num (pos 5)) p))
    ok (Call.hook_ping pid target count timeout)
  call Verb.hook_http p = do
    pid ← valid (positive (get "pid" p))
    url ← valid (
        text_with (λ s. starts_with (codes "http://") s || starts_with (codes "https://") s)
          (get "url" p))
    timeout ← valid (int_in 1 60 (get_default "timeout_s" (num (pos 10)) p))
    ok (Call.hook_http pid url timeout)
  call v p = call_segment v p
