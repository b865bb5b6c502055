-- ===== src/Lifecycle/Slot.antt =====
-- The loops that look for a free port end.
use labtris.Prelude.{text_eq}
use labtris.Lifecycle.{
  some, guest_iface_name, ◌∷◌, false, suc, Bool, text_eq, Option, List, ℕ, Text, Interface,
  taken_idx, taken_name, search, slot_taken, next_iface_idx, next_free_iface_slot,
}
use labtris.Prelude.{
  text_eq-eq, refl, if◌then◌else◌, sym, ==→eq, zero, length-append, inr, inl, All-append, ◌∙◌, ap,
  arith, [], ◌==◌, ◌<◌, Bool-cases, ◌||◌, ◌+◌, some, ◌++◌, ◌≤◌, ◌≢◌, ◌∷◌, false, true, suc, ◌≡◌,
  length, All, Bool, Option, List, ℕ, Text,
}
use labtris.Naming.Iface.{guest_iface_name}
use labtris.Naming.Iface.Distinct.{guest_iface_name-apart}

-- what one thing takes is one number at most
abbrev TakesOne : (ℕ → Bool) → Type 0
TakesOne p = (i j : ℕ) → p i ≡ true → p j ≡ true → i ≡ j

-- taken by one of these
abbrev any_takes : List (ℕ → Bool) → ℕ → Bool
any_takes [] k = false
any_takes (p ∷ ps) k = p k || any_takes ps k

-- these, less the first that takes `k`
abbrev without : ℕ → List (ℕ → Bool) → List (ℕ → Bool)
without k [] = []
without k (p ∷ ps) = let rest = without k ps in if p k then ps else p ∷ rest

length-without :
    (k : ℕ) (ps : List (ℕ → Bool)) → any_takes ps k ≡ true → suc (length (without k ps)) ≡ length ps
length-without k [] h = cc
length-without k (p ∷ ps) h = elim (Bool-cases (p k)) [
  | inl e ↦ rw e refl
  | inr e ↦ rw e (ap suc (length-without k ps (ground (arith, e))))
]

All-without : (k : ℕ) (ps : List (ℕ → Bool)) → All TakesOne ps → All TakesOne (without k ps)
All-without k [] h = tt
All-without k (p ∷ ps) (o, h) = elim (Bool-cases (p k)) [
  | inl e ↦ rw e h
  | inr e ↦ rw e (o, All-without k ps h)
]

-- what another number is taken by is left
any_takes-without :
    (k j : ℕ) (ps : List (ℕ → Bool))
    → All TakesOne ps
    → k ≢ j
    → any_takes ps j ≡ true
    → any_takes (without k ps) j ≡ true
any_takes-without k j [] o n h = h
any_takes-without k j (p ∷ ps) (o, os) n h = elim (Bool-cases (p k)) [
  | inl e ↦ elim (Bool-cases (p j)) [
    | inl f ↦ absurd (n (o k j e f))
    | inr f ↦ rw e (ground (arith, f))
  ]
  | inr e ↦ elim (Bool-cases (p j)) [
    | inl f ↦ rw e (ground (arith, f))
    | inr f ↦ rw e (ground (arith, f, any_takes-without k j ps os n))
  ]
]

-- a search ends after one round more than there are things that take a number
search-ends :
    (taken : ℕ → Bool) (ps : List (ℕ → Bool)) (fuel i : ℕ)
    → All TakesOne ps
    → ((j : ℕ) → i ≤ j → taken j ≡ true → any_takes ps j ≡ true)
    → length ps < fuel
    → (k : ℕ) × (search taken fuel i ≡ some k) × (taken k ≡ false)
unfolding search
search-ends taken ps zero i o cover h = absurd (omega arith)
search-ends taken ps (suc fuel) i o cover h = elim (Bool-cases (taken i)) [
  | inr e ↦ (i, rw e refl, e)
  | inl e ↦
      let (k, s, f) =
        search-ends taken (without i ps) fuel (suc i) (All-without i ps o)
          (λ j l t. any_takes-without i j ps o (omega arith) (cover j (omega arith) t))
          (omega (arith, length-without i ps (cover i (omega arith) e))) in
      (k, rw e s, f)
]

-- what the interfaces take by index, and by name
abbrev by_idx : List Interface → List (ℕ → Bool)
by_idx [] = []
by_idx (x ∷ xs) = (λ k. x.idx == k) ∷ by_idx xs

abbrev by_name : Option Text → List Interface → List (ℕ → Bool)
by_name scheme [] = []
by_name scheme (x ∷ xs) = (λ k. text_eq x.name (guest_iface_name scheme k)) ∷ by_name scheme xs

by_idx-TakesOne : (xs : List Interface) → All TakesOne (by_idx xs)
by_idx-TakesOne [] = tt
by_idx-TakesOne (x ∷ xs) = (λ i j p q. ground (arith, p, q), by_idx-TakesOne xs)

name-TakesOne :
    (scheme : Option Text) (s : Text) → TakesOne (λ k. text_eq s (guest_iface_name scheme k))
name-TakesOne scheme s i j p q = elim (Bool-cases (i == j)) [
  | inl e ↦ ==→eq i j e
  | inr e ↦ absurd (
      guest_iface_name-apart scheme i j (ground (arith, e))
        (sym (text_eq-eq s _ p) ∙ text_eq-eq s _ q))
]

by_name-TakesOne : (scheme : Option Text) (xs : List Interface) → All TakesOne (by_name scheme xs)
by_name-TakesOne scheme [] = tt
by_name-TakesOne scheme (x ∷ xs) = (name-TakesOne scheme x.name, by_name-TakesOne scheme xs)

length-by_idx : (xs : List Interface) → length (by_idx xs) ≡ length xs
length-by_idx [] = refl
length-by_idx (x ∷ xs) = ap suc (length-by_idx xs)

length-by_name :
    (scheme : Option Text) (xs : List Interface) → length (by_name scheme xs) ≡ length xs
length-by_name scheme [] = refl
length-by_name scheme (x ∷ xs) = ap suc (length-by_name scheme xs)

any_takes-by_idx : (xs : List Interface) (k : ℕ) → any_takes (by_idx xs) k ≡ taken_idx xs k
unfolding taken_idx
any_takes-by_idx [] k = refl
any_takes-by_idx (x ∷ xs) k = rw (any_takes-by_idx xs k) refl

any_takes-by_name :
    (scheme : Option Text) (xs : List Interface) (k : ℕ)
    → any_takes (by_name scheme xs) k ≡ taken_name xs (guest_iface_name scheme k)
unfolding taken_name
any_takes-by_name scheme [] k = refl
any_takes-by_name scheme (x ∷ xs) k = rw (any_takes-by_name scheme xs k) refl

any_takes-append :
    (ps qs : List (ℕ → Bool)) (k : ℕ) → any_takes (ps ++ qs) k ≡ (any_takes ps k || any_takes qs k)
any_takes-append [] qs k = refl
any_takes-append (p ∷ ps) qs k = ground (arith, any_takes-append ps qs k)

-- The loop of `next_iface_idx` ends within one round more than the node has interfaces, at an index
-- that none of them has.
pub next_iface_idx-ends :
    (xs : List Interface)
    → (k : ℕ) × (next_iface_idx xs (suc (length xs)) ≡ some k) × (taken_idx xs k ≡ false)
unfolding next_iface_idx
next_iface_idx-ends xs =
    search-ends (taken_idx xs) (by_idx xs) (suc (length xs)) 0 (by_idx-TakesOne xs)
      (λ j _ t. any_takes-by_idx xs j ∙ t) (omega (arith, length-by_idx xs))

-- The loop of `next_free_iface_slot` ends within one round more than twice the number of interfaces,
-- at an index that none of them has and whose name under the scheme none of them has.
pub next_free_iface_slot-ends :
    (xs : List Interface) (scheme : Option Text)
    → (k : ℕ) × (next_free_iface_slot xs scheme (suc (length xs + length xs)) ≡ some k)
      × (taken_idx xs k ≡ false)
      × (taken_name xs (guest_iface_name scheme k) ≡ false)
unfolding next_free_iface_slot slot_taken
next_free_iface_slot-ends xs scheme =
    let ps = by_idx xs ++ by_name scheme xs in
    let (k, e, f) =
      search-ends (slot_taken xs scheme) ps (suc (length xs + length xs)) 0
        (All-append TakesOne (by_idx xs) (by_name scheme xs) (by_idx-TakesOne xs)
          (by_name-TakesOne scheme xs))
        (λ j _ t.
          any_takes-append (by_idx xs) (by_name scheme xs) j
          ∙ rw (any_takes-by_idx xs j, any_takes-by_name scheme xs j) t)
        (omega (
          arith,
          length-append (by_idx xs) (by_name scheme xs),
          length-by_idx xs,
          length-by_name scheme xs,
        )) in
    (k, e, ground (arith, f), ground (arith, f))
