-- ===== src/Topology/Clos/Sessions.antt =====
-- labtris_api/topology_gen.py: the AS numbers that the two ends of a spine-leaf fabric configure.
use labtris.Prelude.{text_eq}
use labtris.Topology.Frr.{Neighbor, peer, with, range_from, spine_frr_conf, leaf_frr_conf}
use labtris.Naming.Device.{decimal}
use labtris.Prelude.{
  text_eq-eq, text_eq_refl, ℕ, zero, suc, ◌+◌, ◌<◌, ◌≤◌, Text, codes, List, [], ◌∷◌, map, ◌==◌,
  ◌&&◌, ltb, if◌then◌else◌, Bool, true, false, Option, none, some, ◌≡◌, refl, ap, arith, ltb→lt,
  lt→ltb,
}
use mathlib.Core.Logic.{◌↔◌}

-- the AS that a router expects on a port
abbrev pub remote_at : ℕ → List Neighbor → Option Text
remote_at port [] = none
remote_at port (n ∷ ns) = if n.port == port then some n.remote_as else remote_at port ns

remote_at-range :
    (remote : ℕ → Text) (port i n : ℕ)
    → i ≤ port
    → port < i + n
    → remote_at port (map (λ j. peer (remote j) j) (range_from i n)) ≡ some (remote port)
unfolding range_from
remote_at-range remote port i zero l h = absurd (omega arith)
remote_at-range remote port i (suc n) l h = ground (arith, remote_at-range remote port (suc i) n)

abbrev agrees : Bool → Bool → Bool
agrees true b = b
agrees false true = false
agrees false false = true

-- the spine's number for leaf `j`, and the leaf's own, are the same exactly for the first nine
agree_on_nine : ℕ → Bool
agree_on_nine j = agrees (text_eq (with "6500" (j + 1)) (decimal (65000 + (j + 1)))) (ltb j 9)

all_below : ℕ → Bool
all_below zero = true
all_below (suc n) = agree_on_nine n && all_below n

all_below_lem : (n j : ℕ) → all_below n ≡ true → j < n → agree_on_nine j ≡ true
unfolding all_below
all_below_lem zero j h l = absurd (omega arith)
all_below_lem (suc n) j h l = ground (arith, all_below_lem n j)

leaves_table : all_below 64 ≡ true
unfolding all_below agree_on_nine decimal
leaves_table = refl

agrees_right : (a b : Bool) → a ≡ true → agrees a b ≡ true → b ≡ true
agrees_right a b h k = ground (arith, h, k)

agrees_left : (a b : Bool) → b ≡ true → agrees a b ≡ true → a ≡ true
agrees_left a b h k = ground (arith, h, k)

eq_iff_below : (s t : Text) (j n : ℕ) → agrees (text_eq s t) (ltb j n) ≡ true → (s ≡ t) ↔ (j < n)
eq_iff_below s t j n h = (
  λ e. ltb→lt j n (agrees_right (text_eq s t) (ltb j n) (rw e (text_eq_refl t)) h),
  λ l. text_eq-eq s t (agrees_left (text_eq s t) (ltb j n) (lt→ltb j n l) h),
)

same_as_iff : (j : ℕ) → j < 64 → (with "6500" (j + 1) ≡ decimal (65000 + (j + 1))) ↔ (j < 9)
unfolding agree_on_nine
same_as_iff j l =
    eq_iff_below (with "6500" (j + 1)) (decimal (65000 + (j + 1))) j 9
      (all_below_lem 64 j leaves_table l)

of_some : Text → Option Text → Text
of_some d none = d
of_some d (some t) = t

some_iff : (s t : Text) (P : Type 0) → (s ≡ t) ↔ P → (some s ≡ some t) ↔ P
unfolding of_some
some_iff s t P h = (λ e. h.0 (ap (of_some s) e), λ p. ap some (h.1 p))

-- For each leaf of at most 64: it names the AS of every spine, and a spine names the leaf's own AS exactly
-- where the leaf is one of the first nine.
pub spine_leaf-sessions :
    (spine leaf spines leaves : ℕ)
    → spine < spines
    → leaf < leaves
    → leaves ≤ 64
    → (remote_at spine (leaf_frr_conf (leaf + 1) spines).neighbors
        ≡ some (spine_frr_conf (spine + 1) leaves).asn)
      × ((remote_at leaf (spine_frr_conf (spine + 1) leaves).neighbors
            ≡ some (leaf_frr_conf (leaf + 1) spines).asn)
          ↔ (leaf < 9))
unfolding spine_frr_conf leaf_frr_conf
spine_leaf-sessions spine leaf spines leaves ls ll le = (
  remote_at-range (λ _. codes "65000") spine 0 spines (omega arith) (omega arith),
  rw (remote_at-range (λ i. with "6500" (i + 1)) leaf 0 leaves (omega arith) (omega arith))
      (some_iff _ _ (leaf < 9) (same_as_iff leaf (omega arith))),
)
