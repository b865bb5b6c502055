-- ===== src/Nat/Pick.antt =====
-- A subnet that is picked shares no address with another.
use labtris.Nat.{
  none, true, ◌∷◌, some, suc, ok, false, Option, ℕ, broadcast, Text, List, contains, size, Net,
  pick_subnet, overlaps, clashes, existing, first_free, check_wanted, candidate, auto_count, Parsed,
  v4, v6,
}
use labtris.Ip.{contains, size, Net}
use labtris.Prelude.{
  refl, ==→eq, ap, ◌==◌, inr, inl, [], zero, true, none, Bool-cases, ◌∷◌, ◌-◌, ◌+◌, some, suc, All,
  arith, ◌^◌, ◌≤◌, false, ◌<◌, ◌&&◌, Option, ◌≡◌, ℕ, Text, List,
}
use labtris.Prelude.Result.{succeeds, ok}

-- no address lies in both
abbrev pub Apart : Net → Parsed → Type 0
Apart n v6 = Unit
Apart n (v4 e) = (a : ℕ) → (contains e a && contains n a) ≡ false

size-pos : (p : ℕ) → 0 < size p
unfolding size
size-pos p = pow-pos (32 - p)
  where
    pow-pos : (k : ℕ) → 0 < 2 ^ k
    pow-pos zero = omega arith
    pow-pos (suc k) = omega (arith, pow-pos k)

overlaps-Apart : (e : Parsed) (n : Net) → overlaps e n ≡ false → Apart n e
unfolding overlaps contains broadcast
overlaps-Apart v6 n h = tt
overlaps-Apart (v4 e) n h = λ a. ground (arith, size-pos e.prefix, size-pos n.prefix)

clashes-Apart : (es : List Parsed) (n : Net) → clashes es n ≡ false → All (Apart n) es
unfolding clashes
clashes-Apart [] n h = tt
clashes-Apart (e ∷ es) n h = (overlaps-Apart e n (ground arith), clashes-Apart es n (ground arith))

first_free-free :
    (es : List Parsed) (k i : ℕ) {n : Net}
    → first_free es k i ≡ ok n
    → (clashes es n ≡ false) × (n.prefix ≤ 30)
unfolding first_free
first_free-free es zero i h = cc
first_free-free es (suc k) i h = elim (Bool-cases (clashes es (candidate i))) [
  | inl e ↦ first_free-free es k (suc i) (ground (arith, e))
  | inr e ↦ ground (arith, e)
]

check_wanted-free :
    (es : List Parsed) (o : Option Parsed) {n : Net}
    → check_wanted es o ≡ ok n
    → (clashes es n ≡ false) × (n.prefix ≤ 30)
unfolding check_wanted
check_wanted-free es none h = cc
check_wanted-free es (some v6) h = cc
check_wanted-free es (some (v4 n)) h = ground arith

first_free-finds :
    (es : List Parsed) (k i j : ℕ)
    → i ≤ j
    → j < i + k
    → clashes es (candidate j) ≡ false
    → succeeds (first_free es k i) ≡ true
unfolding first_free
first_free-finds es zero i j l u f = absurd (omega arith)
first_free-finds es (suc k) i j l u f = elim (Bool-cases (i == j)) [
  | inl e ↦ ground (arith, f, ap (λ m. clashes es (candidate m)) (==→eq i j e))
  | inr e ↦ elim (Bool-cases (clashes es (candidate i))) [
    | inl c ↦ rw c (first_free-finds es k (suc i) j (ground (arith, e)) (omega arith) f)
    | inr c ↦ rw c refl
  ]
]

module _ (ip_network : Text → Option Parsed) where
  picked-free :
      (rows : List Text) (wanted : Option Text) {n : Net}
      → pick_subnet ip_network rows wanted ≡ ok n
      → (clashes (existing ip_network rows) n ≡ false) × (n.prefix ≤ 30)
  unfolding pick_subnet
  picked-free rows none h = first_free-free (existing ip_network rows) auto_count 0 h
  picked-free rows (some []) h = first_free-free (existing ip_network rows) auto_count 0 h
  picked-free rows (some (c ∷ s)) h =
      check_wanted-free (existing ip_network rows) (ip_network (c ∷ s)) h

  -- A subnet that is picked, asked for or not, shares no address with a subnet of the rows, and has
  -- a prefix of at most 30 bits.
  pub pick_subnet-Apart :
      (rows : List Text) (wanted : Option Text) {n : Net}
      → pick_subnet ip_network rows wanted ≡ ok n
      → All (Apart n) (existing ip_network rows) × (n.prefix ≤ 30)
  pick_subnet-Apart rows wanted {n} h =
      let (free, small) = picked-free rows wanted h in
      (clashes-Apart (existing ip_network rows) n free, small)

  -- If one of the 256 candidates is free, a subnet is picked for a caller who names none.
  pub pick_subnet-finds :
      (rows : List Text) (j : ℕ)
      → j < auto_count
      → clashes (existing ip_network rows) (candidate j) ≡ false
      → succeeds (pick_subnet ip_network rows none) ≡ true
  unfolding pick_subnet
  pick_subnet-finds rows j h f =
      first_free-finds (existing ip_network rows) auto_count 0 j (omega arith) (omega arith) f
