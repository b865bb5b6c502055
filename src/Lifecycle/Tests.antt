-- ===== src/Lifecycle/Tests.antt =====
-- Runs of the search for a port at concrete inputs.
use labtris.Prelude.{◌^◌, ◌*◌, Text, false, [], some, ◌∷◌, none, ◌≡◌, codes, ℕ, List, refl}
use labtris.Lifecycle.{
  Text, false, [], some, none, ℕ, guest_iface_name, List, Interface, taken_idx, taken_name,
  slot_taken, next_free_iface_slot, next_iface_idx,
}
use labtris.Lifecycle.Slot.{next_free_iface_slot-ends, next_iface_idx-ends}
use labtris.Naming.Iface.{format, template_name, port_name, scheme_name, guest_iface_name}
use labtris.Netd.Protocol.{matches_ifname}
use labtris.Naming.Device.{Kind, decimal, base36, check_ifname, ifname_of, slug, rjust}
use labtris.Lifecycle.Registry.{allocate, rows_of, registered, try_allocate_ifname, Row}
use labtris.Lifecycle.Registry.Unique.{try_allocate_ifname-stable, AreDistinct}
use labtris.Prelude.Result.{ok}

-- the first port has the name of the second
abbrev ports : List Interface
ports = record { idx = 0; name = codes "eth1" } ∷ record { idx = 3; name = codes "mgmt" } ∷ []

skips_name : next_free_iface_slot ports none 5 ≡ some 2
unfolding next_free_iface_slot slot_taken taken_idx taken_name guest_iface_name scheme_name
    port_name template_name format decimal
skips_name = refl

next_free_iface_slot-ends_example :
    (k : ℕ) × (next_free_iface_slot ports none 5 ≡ some k)
    × (taken_idx ports k ≡ false)
    × (taken_name ports (guest_iface_name none k) ≡ false)
next_free_iface_slot-ends_example = next_free_iface_slot-ends ports none

next_iface_idx-ends_example :
    (k : ℕ) × (next_iface_idx ports 3 ≡ some k) × (taken_idx ports k ≡ false)
next_iface_idx-ends_example = next_iface_idx-ends ports

-- a digest that the last digit of the salt alone decides: every owner begins with the same names
abbrev last_code : Text → ℕ
last_code [] = 0
last_code (c ∷ []) = c * 36 ^ 4
last_code (c ∷ d ∷ s) = last_code (d ∷ s)

abbrev rows : List Row
rows = record { host_ifname = codes "tcore-001c"; kind = Kind.tap; owner_id = codes "ann" } ∷ []

-- the first name is ann's, so bob gets the second
second_name :
    (try_allocate_ifname last_code Kind.tap (codes "bob") (codes "core") rows).0
    ≡ ok (codes "tcore-001d")
unfolding try_allocate_ifname allocate labtris.Naming.Device.host_ifname base36 decimal check_ifname
    matches_ifname ifname_of slug rjust
second_name = refl

rows-AreDistinct : AreDistinct rows
unfolding registered
rows-AreDistinct = (refl, tt)

try_allocate_ifname-stable_example :
    (rows_of Kind.tap
        (codes "bob")
        (try_allocate_ifname last_code Kind.tap (codes "bob") (codes "core") rows).1
      ≡ codes "tcore-001d" ∷ [])
    × AreDistinct (try_allocate_ifname last_code Kind.tap (codes "bob") (codes "core") rows).1
    × (try_allocate_ifname last_code Kind.tap
          (codes "bob")
          (codes "edge")
          (try_allocate_ifname last_code Kind.tap (codes "bob") (codes "core") rows).1
        ≡ (
          ok (codes "tcore-001d"),
          (try_allocate_ifname last_code Kind.tap (codes "bob") (codes "core") rows).1,
        ))
try_allocate_ifname-stable_example =
    try_allocate_ifname-stable last_code Kind.tap (codes "bob") (codes "core") rows
      (codes "tcore-001d") (codes "edge") rows-AreDistinct second_name
