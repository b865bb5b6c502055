-- ===== src/Topology/FatTree/Layout.antt =====
-- The cells of a fat tree.
use labtris.Topology.FatTree.{
  at_least_one, half, pods_across, span, core_rows, origin_col, origin_row, core_place, agg_place,
  edge_place, host_place,
}
use labtris.Topology.Builder.{Place, at, in_row}
use labtris.Prelude.{
  ◌∙◌, sym, ◌≢◌, ℕ, zero, suc, ◌+◌, ◌*◌, ◌-◌, ◌/◌, ◌%◌, ◌≡◌, ◌<◌, ◌≤◌, ap, refl, arith,
}
use native.Mathlib.Nat.{mod-lt, div-add-mod', div-add-mod}
use native.Mathlib.Decide.{dec_lt}

-- A node of the tree: a core, or the row of a pod that is 0 for its aggregation switches, 1 for its edge
-- switches and 2 + h for the hosts number h of these, with its column.
pub data Spot : Type 0 where
  core : ℕ → Spot
  in_pod : ℕ → ℕ → ℕ → Spot

abbrev pub place_of : ℕ → Spot → Place
place_of k (core i) = core_place k i
place_of k (in_pod pod a zero) = agg_place k pod a
place_of k (in_pod pod e (suc zero)) = edge_place k pod e
place_of k (in_pod pod e (suc (suc h))) = host_place k pod e h

-- the nodes of the tree of k
abbrev pub IsSpot : ℕ → Spot → Type 0
IsSpot k (core i) = i < half k * half k
IsSpot k (in_pod pod a row) = (pod < k) × (a < half k) × (row < 2 + half k)

abbrev column : Place → ℕ
column (at c r) = c
column (in_row r c w) = 0

abbrev row_of : Place → ℕ
row_of (at c r) = r
row_of (in_row r c w) = 0

-- a number of two digits has one way to be written
digits_unique : (n q r a b : ℕ) → a < n → b < n → q * n + a ≡ r * n + b → (q ≡ r) × (a ≡ b)
digits_unique n zero zero a b la lb e = (refl, omega (arith, e))
digits_unique n zero (suc r) a b la lb e = absurd (grind arith)
digits_unique n (suc q) zero a b la lb e = absurd (grind arith)
digits_unique n (suc q) (suc r) a b la lb e =
    let (x, y) = digits_unique n q r a b la lb (grind arith) in (ap suc x, y)

-- the same quotient and remainder
same_number : (n a b : ℕ) → 0 < n → a / n ≡ b / n → a % n ≡ b % n → a ≡ b
same_number n a b l p q = grind (arith, div-add-mod a n, div-add-mod b n)

across_pos : (k : ℕ) → 0 < pods_across k
unfolding pods_across
across_pos k = ground arith

span_pos : (k : ℕ) → 0 < span k
unfolding span
span_pos k = grind (arith, across_pos k)

pod_place :
    (k pod a row : ℕ)
    → place_of k (in_pod pod a row) ≡ at (origin_col k pod + a) (origin_row k pod + row)
unfolding agg_place edge_place host_place
pod_place k pod a zero = ap (at (origin_col k pod + a)) (omega arith)
pod_place k pod a (suc zero) = refl
pod_place k pod a (suc (suc h)) = ap (at (origin_col k pod + a)) (omega arith)

-- a quotient that is rounded up is above the quotients of the numbers before
below_ceiling : (n i s : ℕ) → 0 < s → i < n → i / s < (n + (s - 1)) / s
below_ceiling n i s l li =
    let up = (n + (s - 1)) / s in
    let low = i / s in
    let above : n + (s - 1) < up * s + s =
      omega (arith, div-add-mod' (n + (s - 1)) s, mod-lt (n + (s - 1)) l) in
    let under : low * s ≤ i = omega (arith, div-add-mod' i s) in
    elim (dec_lt low up) as (λ _. low < up) [
      | yes h ↦ h
      | no h ↦ absurd (grind (arith, above, under, h))
    ]

at_least_one-le : (n : ℕ) → n ≤ at_least_one n
at_least_one-le n = ground arith

-- the cores are above the pods
core_above : (k i : ℕ) → i < half k * half k → i / span k < core_rows k
unfolding core_rows
core_above k i l = omega (
  arith,
  below_ceiling (half k * half k) i (span k) (span_pos k) l,
  at_least_one-le ((half k * half k + (span k - 1)) / span k),
)

core-in_pod :
    (k i pod a row : ℕ) → i < half k * half k → place_of k (core i) ≢ place_of k (in_pod pod a row)
unfolding core_place origin_row
core-in_pod k i pod a row l e =
    omega (arith, core_above k i l, ap row_of (e ∙ pod_place k pod a row))

place_of-injective :
    (k : ℕ) (s t : Spot) → IsSpot k s → IsSpot k t → place_of k s ≡ place_of k t → s ≡ t
unfolding core_place origin_col origin_row
place_of-injective k (core i) (core j) li lj e =
    ap core (same_number (span k) i j (span_pos k) (ap row_of e) (ap column e))
place_of-injective k (core i) (in_pod p a r) l _ e = absurd (core-in_pod k i p a r l e)
place_of-injective k (in_pod p a r) (core i) _ l e = absurd (core-in_pod k i p a r l (sym e))
place_of-injective k (in_pod p a r) (in_pod q b t) (lp, la, lr) (lq, lb, lt) e =
    let same = sym (pod_place k p a r) ∙ e ∙ pod_place k q b t in
    let (cols, a_b) =
      digits_unique (half k + 1) (p % pods_across k) (q % pods_across k) a b (omega arith)
        (omega arith) (ap column same) in
    let (rows, r_t) =
      digits_unique (2 + half k + 1) (p / pods_across k) (q / pods_across k) r t (omega arith)
        (omega arith) (omega (arith, ap row_of same)) in
    let p_q = same_number (pods_across k) p q (across_pos k) rows cols in cc

-- No two nodes of a fat tree are drawn in one cell of the grid.
pub place_of-distinct :
    (k : ℕ) (s t : Spot) → IsSpot k s → IsSpot k t → s ≢ t → place_of k s ≢ place_of k t
place_of-distinct k s t hs ht apart same = apart (place_of-injective k s t hs ht same)
