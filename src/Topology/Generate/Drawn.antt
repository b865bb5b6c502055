-- ===== src/Topology/Generate/Drawn.antt =====
-- What a lab that is generated amounts to.
use labtris.Topology.Rows.{Builder, empty}
use labtris.Topology.Generate.{GenerateOut, counted}
use labtris.Topology.Builder.{M}
use labtris.Topology.Builder.Draw.{At, Makes, Returns, Returns-map, spread}
use labtris.Topology.Builder.Egress.{Serves}
use labtris.Topology.Builder.Sound.{Cable, cables, IsSound}
use labtris.Topology.Request.{Pattern}
use labtris.Prelude.{zero, suc, ℕ, List, [], ◌∷◌, ◌+◌, ◌*◌, ◌≡◌, refl, arith, length, length-append}
use labtris.Prelude.Result.{err, Result, ok}

-- The answer counts `w` nodes, `l` links and `g` networks besides theirs; the rows are sound and draw
-- exactly these cables.
pub record Drawn (p : Pattern) (w l g : ℕ) (ks : List Cable) (r : Result (GenerateOut × Builder))
    : Type 0 where
  pub rows : Builder
  pub answered :
      r ≡ ok (record { pattern = p; node_count = w; link_count = l; network_count = l + g }, rows)
  pub drawn : cables rows ≡ ks
  pub sound : IsSound rows

add_zero_left : (n : ℕ) → 0 + n ≡ n
add_zero_left n = omega arith

Drawn-counted :
    (p : Pattern) (w l g : ℕ) (ks : List Cable) (r : Result (Unit {0} × Builder))
    → length ks ≡ l
    → Returns r (λ _ t. At (0 + g) (0 + w) ks t)
    → Drawn p w l g ks (counted p r)
Drawn-counted p w l g ks (ok (_, t)) n h = record {
  rows = t;
  answered = rw (h.size, h.linked, h.counted, n, add_zero_left w, add_zero_left g) refl;
  drawn = h.drawn;
  sound = h.sound;
}
Drawn-counted p w l g ks (err _) n h = absurd h

empty-At : At 0 0 [] empty
unfolding cables
empty-At = record {
  size = refl;
  drawn = refl;
  linked = refl;
  counted = refl;
  sound = record { homes = tt; ranked = tt; wired = omega arith };
}

pub Serves-Drawn :
    (p : Pattern) (w l g : ℕ) (ks : List Cable) (act : M (Unit {0}))
    → length ks ≡ l
    → Serves g 0 w ks act
    → Drawn p w l g ks (counted p (act empty))
Serves-Drawn p w l g ks act n h = Drawn-counted p w l g ks (act empty) n (h 0 [] empty empty-At)

pub Makes-Drawn :
    (p : Pattern) (w l : ℕ) (ks : List Cable) (act : M (Unit {0}))
    → length ks ≡ l
    → Makes 0 w ks tt act
    → Drawn p w l 0 ks (counted p (act empty))
Makes-Drawn p w l ks act n h = Drawn-counted p w l 0 ks (act empty) n (
    Returns-map (act empty) (λ y t. (y ≡ tt) × At 0 (0 + w) ks t) _ (λ _ t r. r.1)
      (h 0 [] empty empty-At))

-- loops whose rounds draw the same number of cables
pub length-spread :
    (i n c : ℕ) (f : ℕ → List Cable) → ((j : ℕ) → length (f j) ≡ c) → length (spread i n f) ≡ n * c
unfolding spread
length-spread i zero c f h = omega arith
length-spread i (suc n) c f h =
    omega (arith, length-append (f i) (spread (suc i) n f), h i, length-spread (suc i) n c f h)

-- a loop that draws one
pub length-spread_one : (n : ℕ) (f : ℕ → Cable) → length (spread 0 n (λ j. f j ∷ [])) ≡ n
length-spread_one n f = omega (arith, length-spread 0 n 1 (λ j. f j ∷ []) (λ j. refl))

-- two loops
pub length-spread_two :
    (n m : ℕ) (f : ℕ → ℕ → Cable) → length (spread 0 n (λ i. spread 0 m (λ j. f i j ∷ []))) ≡ n * m
length-spread_two n m f = length-spread 0 n m _ (λ i. length-spread_one m (f i))
