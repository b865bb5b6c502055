-- ===== src/Lifecycle.antt =====
-- labtris_api/lifecycle.py: the next port of a node. A node's interfaces are their indexes and names.
pub mod Slot
pub mod Registry
mod Tests
use labtris.Prelude.{text_eq}
use labtris.Prelude.{
  zero, if◌then◌else◌, [], ◌==◌, some, suc, ◌∷◌, ◌||◌, none, false, Option, Bool, Text, List, ℕ,
}
use labtris.Naming.Iface.{guest_iface_name}

pub record Interface : Type 0 where
  pub idx : ℕ
  pub name : Text

-- `idx in {i.idx for i in node.interfaces}`
unfoldable pub taken_idx : List Interface → ℕ → Bool
taken_idx [] k = false
taken_idx (i ∷ is) k = i.idx == k || taken_idx is k

unfoldable pub taken_name : List Interface → Text → Bool
taken_name [] s = false
taken_name (i ∷ is) s = text_eq i.name s || taken_name is s

-- The loop `while taken(idx): idx += 1` from `idx` on; `none` when `fuel` rounds did not end it.
unfoldable pub search : (ℕ → Bool) → ℕ → ℕ → Option ℕ
search taken zero idx = none
search taken (suc fuel) idx =
    let rest = search taken fuel (suc idx) in if taken idx then rest else some idx

unfoldable pub next_iface_idx : List Interface → ℕ → Option ℕ
unfolding search
next_iface_idx is fuel = search (taken_idx is) fuel 0

unfoldable pub slot_taken : List Interface → Option Text → ℕ → Bool
slot_taken is scheme k = taken_idx is k || taken_name is (guest_iface_name scheme k)

unfoldable pub next_free_iface_slot : List Interface → Option Text → ℕ → Option ℕ
unfolding search
next_free_iface_slot is scheme fuel = search (slot_taken is scheme) fuel 0

-- `requested if requested else guest_iface_name(scheme, idx)`
unfoldable pub guest_name : ℕ → Option Text → Option Text → Text
guest_name idx none scheme = guest_iface_name scheme idx
guest_name idx (some []) scheme = guest_iface_name scheme idx
guest_name idx (some (c ∷ s)) scheme = c ∷ s
