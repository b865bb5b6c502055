-- ===== src/Netd/Safety/Calls.antt =====
-- Every call has validated arguments.
use labtris.Prelude.{
  codes, Bool, ◌-◌, String, inl, inr, Option-cases, ℕ, ◌≤◌, ◌<◌, ◌^◌, Text, List, [], Option, none,
  some, All, ◌≡◌, refl, arith,
}
use labtris.Prelude.Result.{Result-cases, ◌>>=◌, ◌>>◌, ok}
use labtris.Netd.Json.{nil, get_default, num, get, as_list, as_dict, Json, Fields}
use labtris.Netd.Check.{
  require_ifname, require_host_ifname, require_key, require_prefix, require_vid, require_vids,
  int_in, traverse,
}
use labtris.Netd.Address.{require_ipv4, require_cidr, require_hosts}
use labtris.Netd.Verb.{Verb}
use labtris.Netd.Call.{Call}
use labtris.Netd.Params.{either_text, link_pids, or_else, uplinks, positive}
use labtris.Netd.Make.{valid, manual_address, names, call, call_plain, call_segment, ethertype}
use labtris.Prelude.Int.{pos}
use labtris.Netd.Safety.{OwnName, HostName, Key, Vid, Given, Address, Subnet, Host, IsSafe, Ensures}
use labtris.Netd.Safety.Validators.{
  require_ifname-OwnName, require_host_ifname-HostName, require_key-Key, int_in_bounds,
  positive-pos, traverse-All, require_vids-All, require_ipv4-Address, require_cidr-Subnet,
  require_hosts-All, uplinks-All, names-All, link_pids-All, manual_address-Addressed,
}

-- of a value that may be missing, or of the value of a validator that may refuse
Given-map : {A : Type 0} {P : A → Type 0} (m : Option A) → ((a : A) → m ≡ some a → P a) → Given P m
Given-map none k = tt
Given-map (some a) k = k a refl

module _ (decimal : ℕ → Option ℕ) (p : Fields) where
  name-Given : (k : String) → Given OwnName (require_ifname (get k p))
  name-Given k = Given-map (require_ifname (get k p)) (λ s e. require_ifname-OwnName (get k p) e)

  HostName-Given : (k : String) → Given HostName (require_host_ifname (get k p))
  HostName-Given k =
      Given-map (require_host_ifname (get k p)) (λ s e. require_host_ifname-HostName (get k p) e)

  Vid-Given : (v : Json) → Given Vid (require_vid v)
  unfolding require_vid
  Vid-Given v = Given-map (require_vid v) (λ n e. int_in_bounds 1 4094 v e)

  prefix-Given : (v : Json) → Given (λ n. n ≤ 32) (require_prefix v)
  unfolding require_prefix
  prefix-Given v = Given-map (require_prefix v) (λ n e. (int_in_bounds 0 32 v e).1)

  Key-Given : (v : Json) → Given Key (require_key v)
  Key-Given v = Given-map (require_key v) (λ n e. require_key-Key v e)

  vids-Given : (v : Json) → Given (All Vid) (require_vids v)
  vids-Given v = Given-map (require_vids v) (λ n e. require_vids-All v e)

  ipv4-Given : (k : String) → Given (Address decimal) (require_ipv4 decimal (get k p))
  ipv4-Given k =
      Given-map (require_ipv4 decimal (get k p)) (λ n e. require_ipv4-Address decimal (get k p) e)

  cidr-Given : (k : String) → Given (Subnet decimal) (require_cidr decimal (get k p))
  cidr-Given k =
      Given-map (require_cidr decimal (get k p)) (λ n e. require_cidr-Subnet decimal (get k p) e)

  hosts-Given : (v : Json) → Given (All (Host decimal)) (require_hosts decimal v)
  hosts-Given v = Given-map (require_hosts decimal v) (λ n e. require_hosts-All decimal v e)

  int-Given : (lo hi : ℕ) (v : Json) → Given (λ n. (lo ≤ n) × (n ≤ hi)) (int_in lo hi v)
  int-Given lo hi v = Given-map (int_in lo hi v) (λ n e. int_in_bounds lo hi v e)

  positive-Given : (v : Json) → Given (λ n. 0 < n) (positive v)
  positive-Given v = Given-map (positive v) (λ n e. positive-pos v e)

  addresses-Given :
      (vs : List Json) → Given (All (Address decimal)) (traverse (require_ipv4 decimal) vs)
  addresses-Given vs = Given-map (traverse (require_ipv4 decimal) vs) (λ as' e.
      traverse-All (Address decimal) (require_ipv4 decimal)
        (λ v s q. require_ipv4-Address decimal v q) vs e)

  uplinks-Given : (vs : List Json) → Given (All HostName) (uplinks [] vs)
  uplinks-Given vs = Given-map (uplinks [] vs) (λ ns e. uplinks-All vs [] e)

  -- a list of names, and what is done with it
  names-IsSafe :
      (f : List Text → Call)
      → ((ns : List Text) → All OwnName ns → IsSafe decimal (f ns))
      → Ensures (IsSafe decimal) (do ns ← names p; ok (f ns))
  names-IsSafe f safe = elim (Option-cases (as_list (get "names" p))) [
    | inr e ↦ rw e tt
    | inl (vs, e) ↦ rw e (elim (Option-cases (traverse require_ifname vs)) [
      | inr q ↦ rw q tt
      | inl (ns, q) ↦ rw q (safe ns (names-All vs q))
    ])
  ]

  call_plain-IsSafe : (v : Verb) → Ensures (IsSafe decimal) (call_plain decimal v p)
  unfolding call_plain
  call_plain-IsSafe Verb.ping = tt
  call_plain-IsSafe Verb.iface_inspect = names-IsSafe Call.iface_inspect (λ ns h. h)
  call_plain-IsSafe Verb.iface_counters = names-IsSafe Call.iface_counters (λ ns h. h)
  call_plain-IsSafe _ =
      ground (
        arith,
        name-Given "name",
        name-Given "peer",
        HostName-Given "bridge",
        HostName-Given "name",
      )

  call_segment-IsSafe : (v : Verb) → Ensures (IsSafe decimal) (call_segment decimal v p)
  unfolding call_segment ethertype
  call_segment-IsSafe Verb.addr_replace =
      ground (arith, name-Given "name", ipv4-Given "address", prefix-Given (get "prefix" p))
  call_segment-IsSafe Verb.addr_flush = ground (arith, name-Given "name")
  call_segment-IsSafe Verb.nat_enable = ground (arith, name-Given "bridge", cidr-Given "subnet")
  call_segment-IsSafe Verb.nat_disable = ground (arith, name-Given "bridge", cidr-Given "subnet")
  call_segment-IsSafe Verb.bridge_vlan_aware = ground (arith, name-Given "name")
  call_segment-IsSafe Verb.bridge_port_vlan = ground (
    arith,
    name-Given "name",
    Vid-Given (get "pvid" p),
    vids-Given (get "tagged" p),
    vids-Given (get "untagged" p),
  )
  call_segment-IsSafe Verb.dhcp_start = ground (
    arith,
    Key-Given (get "key" p),
    name-Given "bridge",
    ipv4-Given "gateway",
    prefix-Given (get "prefix" p),
    ipv4-Given "first",
    ipv4-Given "last",
    ipv4-Given "dns",
    hosts-Given (get "hosts" p),
  )
  call_segment-IsSafe Verb.dhcp_stop = ground (arith, Key-Given (get "key" p))
  call_segment-IsSafe Verb.dhcp_leases = ground (arith, Key-Given (get "key" p))
  call_segment-IsSafe Verb.nat_sessions = ground (arith, cidr-Given "subnet")
  call_segment-IsSafe v = call_plain-IsSafe v

  -- the rest of `host.configure_management`, over its mode
  management-IsSafe :
      (manual : Bool) (dns_raw : Option (List Json))
      → Ensures (IsSafe decimal) (do
        interface ← valid (require_host_ifname (get "interface" p))
        raw ← valid dns_raw
        manual_address decimal manual p
        dns ← valid (traverse (require_ipv4 decimal) raw)
        kind ← valid (
            either_text
              (codes "nic")
              (codes "bridge")
              (get_default "kind" (Json.str (codes "nic")) p))
        ok (
            Call.configure_management manual interface
              (get "address" p)
              (get "gateway" p)
              dns
              kind))
  management-IsSafe manual none = ground arith
  management-IsSafe manual (some raw) = elim (Result-cases (manual_address decimal manual p)) [
    | inr (x, e) ↦ ground (arith, e)
    | inl (_, e) ↦ ground (
      arith,
      e,
      manual_address-Addressed decimal manual p e,
      HostName-Given "interface",
      addresses-Given raw,
    )
  ]

  -- Every call that a verb makes, for any parameters, has validated arguments: own or host interface
  -- names as the method wants, addresses and subnets, a gateway inside its network, namespaces with a
  -- name and a process, VLAN ids, ports and limits in range. The values for sysctls may be any.
  pub call-IsSafe : (v : Verb) → Ensures (IsSafe decimal) (call decimal v p)
  unfolding call
  call-IsSafe Verb.netns_links = elim (Option-cases (as_dict (get "pids" p))) [
    | inr e ↦ ground (arith, e)
    | inl (fs, e) ↦ elim (Option-cases (link_pids fs)) [
      | inr q ↦ ground (arith, e, q)
      | inl (ps, q) ↦ let (safe, count) = link_pids-All fs q in ground (arith, e, q, safe, count)
    ]
  ]
  call-IsSafe Verb.netns_move = ground (arith, positive-Given (get "pid" p), name-Given "name")
  call-IsSafe Verb.host_configure_management =
      elim (Option-cases (either_text (codes "dhcp") (codes "manual") (get "mode" p))) [
        | inr m ↦ rw m tt
        | inl (manual, m) ↦
            rw m (management-IsSafe manual (as_list (or_else (get "dns" p) (Json.arr nil))))
      ]
  call-IsSafe Verb.host_configure_uplinks =
      elim (Option-cases (as_list (or_else (get "pairs" p) (Json.arr nil)))) [
        | inr e ↦ ground (arith, e)
        | inl (vs, e) ↦ ground (arith, e, uplinks-Given vs)
      ]
  call-IsSafe Verb.cloud_attach = ground (arith, name-Given "bridge", HostName-Given "name")
  call-IsSafe Verb.vxlan_create = ground (
    arith,
    int-Given 1 (2 ^ 24 - 1) (get "vni" p),
    int-Given 1 65535 (get_default "dstport" (num (pos 4789)) p),
    name-Given "name",
  )
  call-IsSafe Verb.hook_ping = ground (
    arith,
    positive-Given (get "pid" p),
    int-Given 1 20 (get_default "count" (num (pos 3)) p),
    int-Given 1 60 (get_default "timeout_s" (num (pos 5)) p),
  )
  call-IsSafe Verb.hook_http = ground (
    arith,
    positive-Given (get "pid" p),
    int-Given 1 60 (get_default "timeout_s" (num (pos 10)) p),
  )
  call-IsSafe v = call_segment-IsSafe v
