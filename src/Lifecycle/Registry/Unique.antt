-- ===== src/Lifecycle/Registry/Unique.antt =====
-- No name is given out twice, and an owner keeps its name.

use labtris.Prelude.{
  text_eq_refl, zero, Bool-cases, inl, inr, suc, arith, [], true, false, ℕ, ◌≡◌, ◌∷◌, Text, List,
  refl,
}
use labtris.Lifecycle.Registry.{
  try_allocate_ifname, allocate_unless, host_ifname, suc, [], ok, false, ℕ, ◌∷◌, Kind, Text, List,
  Row, same_kind, rows_of, registered, allocate, salts,
}
use labtris.Naming.Device.{Kind, host_ifname}
use labtris.Prelude.Result.{Result-cases, ok}

-- no two rows of one name
abbrev pub AreDistinct : List Row → Type 0
AreDistinct [] = Unit
AreDistinct (row ∷ rows) = (registered row.host_ifname rows ≡ false) × AreDistinct rows

same_kind_refl : (k : Kind) → same_kind k k ≡ true
unfolding same_kind
same_kind_refl Kind.tap = refl
same_kind_refl Kind.bridge = refl
same_kind_refl Kind.veth = refl
same_kind_refl Kind.vxlan = refl

-- a new row
abbrev row_of : Kind → Text → Text → Row
row_of kind owner name = record { host_ifname = name; kind = kind; owner_id = owner }

module _ (digest : Text → ℕ) (kind : Kind) (owner hint : Text) where
  -- an attempt that succeeds adds one row, of a new name
  allocate-row :
      (n salt : ℕ) (rows : List Row) {name : Text}
      → (allocate digest kind owner hint n salt rows).0 ≡ ok name
      → (registered name rows ≡ false)
        × ((allocate digest kind owner hint n salt rows).1 ≡ row_of kind owner name ∷ rows)
  unfolding allocate
  allocate-row zero salt rows h = cc
  allocate-row (suc n) salt rows {name} h =
      elim (Result-cases (host_ifname digest kind owner salt hint)) [
        | inr (e, q) ↦ absurd (ground (arith, q))
        | inl (m, q) ↦ elim (Bool-cases (registered m rows)) [
          | inl r ↦ rw (q, r) (allocate-row n (suc salt) rows (ground (arith, q, r)))
          | inr r ↦ ground (arith, q, r)
        ]
      ]

  -- what an allocation that succeeds leaves
  Kept : Text → List Row → List Row → Type 0
  Kept name rows rows' = (rows_of kind owner rows' ≡ name ∷ []) × AreDistinct rows'

  allocate-Kept :
      (rows : List Row) {name : Text}
      → rows_of kind owner rows ≡ []
      → AreDistinct rows
      → (allocate digest kind owner hint salts 0 rows).0 ≡ ok name
      → Kept name rows (allocate digest kind owner hint salts 0 rows).1
  unfolding Kept rows_of
  allocate-Kept rows {name} none_yet distinct h =
      let (new, e) = allocate-row salts 0 rows h in
      rw e (ground (arith, none_yet, text_eq_refl owner, same_kind_refl kind), (new, distinct))

  allocate_unless-Kept :
      (names : List Text) (rows : List Row) {name : Text}
      → rows_of kind owner rows ≡ names
      → AreDistinct rows
      → (allocate_unless digest kind owner hint names rows).0 ≡ ok name
      → Kept name rows (allocate_unless digest kind owner hint names rows).1
  unfolding Kept
  allocate_unless-Kept [] rows none_yet distinct h = allocate-Kept rows none_yet distinct h
  allocate_unless-Kept (m ∷ []) rows mine distinct h = (cc (mine, h), distinct)
  allocate_unless-Kept (m ∷ n ∷ names) rows mine distinct h = cc

  -- If no two rows have one name, an allocation that returns a name leaves the owner with that one
  -- row of its kind, and still no two rows of one name; and to allocate again, with any hint, gives
  -- that name and changes nothing.
  pub try_allocate_ifname-stable :
      (rows : List Row) (name hint' : Text)
      → AreDistinct rows
      → (try_allocate_ifname digest kind owner hint rows).0 ≡ ok name
      → (rows_of kind owner (try_allocate_ifname digest kind owner hint rows).1 ≡ name ∷ [])
        × AreDistinct (try_allocate_ifname digest kind owner hint rows).1
        × (try_allocate_ifname digest kind owner hint'
              (try_allocate_ifname digest kind owner hint rows).1
            ≡ (ok name, (try_allocate_ifname digest kind owner hint rows).1))
  unfolding try_allocate_ifname Kept
  try_allocate_ifname-stable rows name hint' distinct h =
      let (one, distinct') = allocate_unless-Kept (rows_of kind owner rows) rows refl distinct h in
      (one, distinct', rw one refl)
