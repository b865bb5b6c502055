-- ===== src/Topology/Builder/Loops.antt =====
-- Loops of a builder.

use labtris.Topology.Builder.{
  pick, connect, ℕ, for_from, for_range, collect_from, collect, for_each_from, for_each, return,
  skip, M, ◌>>=◌,
}
use labtris.Topology.Builder.Sound.{Cable}
use labtris.Prelude.{ap, refl, ◌<◌, arith, ◌∷◌, zero, ◌≤◌, ◌*◌, suc, ◌++◌, ◌+◌, ◌≡◌, [], List, ℕ}
use mathlib.Core.List.{append-nil}
use labtris.Topology.Builder.Draw.{
  Makes, spread, tabulate, Makes-cast, Makes-return, Makes-bind, cable, Makes-connect,
}

module _ (m w top : ℕ) (f : ℕ → List Cable) where
  times_step : (i n : ℕ) → w + n * w ≡ suc n * w
  times_step i n = omega arith

  next_start : (i : ℕ) → m + suc i * w ≡ m + i * w + w
  next_start i = omega arith

  pub Makes-for_from :
      (n i : ℕ) (body : ℕ → M (Unit {0}))
      → i + n ≤ top
      → ((j : ℕ) → j < top → Makes (m + j * w) w (f j) tt (body j))
      → Makes (m + i * w) (n * w) (spread i n f) tt (for_from i n body)
  unfolding for_from spread
  Makes-for_from zero i body le h =
      Makes-cast (m + i * w) (m + i * w) 0 (0 * w) [] [] tt tt skip refl (omega arith) refl refl
        (Makes-return (m + i * w) tt)
  Makes-for_from (suc n) i body le h =
      Makes-cast (m + i * w) (m + i * w) (w + n * w) (suc n * w) _ _ tt tt _ refl (times_step i n)
        refl refl
        (Makes-bind (m + i * w) w (n * w) (f i) (spread (suc i) n f) tt tt (body i) _
          (h i (omega arith))
          (Makes-cast (m + suc i * w) (m + i * w + w) (n * w) (n * w) _ _ tt tt _ (next_start i)
            refl refl refl (Makes-for_from n (suc i) body (omega arith) h)))

  module _ {A : Type 0} (x : ℕ → A) where
    pub Makes-collect_from :
        (n i : ℕ) (act : ℕ → M A)
        → i + n ≤ top
        → ((j : ℕ) → j < top → Makes (m + j * w) w (f j) (x j) (act j))
        → Makes (m + i * w) (n * w) (spread i n f) (tabulate i n x) (collect_from i n act)
    unfolding collect_from spread
    Makes-collect_from zero i act le h =
        Makes-cast (m + i * w) (m + i * w) 0 (0 * w) [] [] [] [] (return []) refl (omega arith) refl
          refl (Makes-return (m + i * w) [])
    Makes-collect_from (suc n) i act le h =
        Makes-cast (m + i * w) (m + i * w) (w + (n * w + 0)) (suc n * w) _ _ _ _ _ refl
          (omega arith) (ap (λ l. f i ++ l) (append-nil (spread (suc i) n f))) refl
          (Makes-bind (m + i * w) w (n * w + 0) (f i) (spread (suc i) n f ++ []) (x i)
            (x i ∷ tabulate (suc i) n x) (act i) _ (h i (omega arith))
            (Makes-bind (m + i * w + w) (n * w) 0 (spread (suc i) n f) [] (tabulate (suc i) n x)
              (x i ∷ tabulate (suc i) n x) _ _
              (Makes-cast (m + suc i * w) (m + i * w + w) (n * w) (n * w) _ _ _ _ _ (next_start i)
                refl refl refl (Makes-collect_from n (suc i) act (omega arith) h))
              (Makes-return (m + i * w + w + n * w) (x i ∷ tabulate (suc i) n x))))

    pub Makes-for_each_from :
        (n i : ℕ) (body : ℕ → A → M (Unit {0}))
        → i + n ≤ top
        → ((j : ℕ) → j < top → Makes (m + j * w) w (f j) tt (body j (x j)))
        → Makes (m + i * w) (n * w) (spread i n f) tt (for_each_from i (tabulate i n x) body)
    unfolding for_each_from spread
    Makes-for_each_from zero i body le h =
        Makes-cast (m + i * w) (m + i * w) 0 (0 * w) [] [] tt tt skip refl (omega arith) refl refl
          (Makes-return (m + i * w) tt)
    Makes-for_each_from (suc n) i body le h =
        Makes-cast (m + i * w) (m + i * w) (w + n * w) (suc n * w) _ _ tt tt _ refl (times_step i n)
          refl refl
          (Makes-bind (m + i * w) w (n * w) (f i) (spread (suc i) n f) tt tt (body i (x i)) _
            (h i (omega arith))
            (Makes-cast (m + suc i * w) (m + i * w + w) (n * w) (n * w) _ _ tt tt _ (next_start i)
              refl refl refl (Makes-for_each_from n (suc i) body (omega arith) h)))

-- the loops, from 0 on
module _ (m w n : ℕ) (f : ℕ → List Cable) where
  pub Makes-for_range :
      (body : ℕ → M (Unit {0}))
      → ((j : ℕ) → j < n → Makes (m + j * w) w (f j) tt (body j))
      → Makes m (n * w) (spread 0 n f) tt (for_range n body)
  unfolding for_range
  Makes-for_range body h =
      Makes-cast (m + 0 * w) m (n * w) (n * w) _ _ tt tt _ (omega arith) refl refl refl
        (Makes-for_from m w n f n 0 body (omega arith) h)

  module _ {A : Type 0} (x : ℕ → A) where
    pub Makes-collect :
        (act : ℕ → M A)
        → ((j : ℕ) → j < n → Makes (m + j * w) w (f j) (x j) (act j))
        → Makes m (n * w) (spread 0 n f) (tabulate 0 n x) (collect n act)
    unfolding collect
    Makes-collect act h =
        Makes-cast (m + 0 * w) m (n * w) (n * w) _ _ _ _ _ (omega arith) refl refl refl
          (Makes-collect_from m w n f x n 0 act (omega arith) h)

    pub Makes-for_each :
        (body : ℕ → A → M (Unit {0}))
        → ((j : ℕ) → j < n → Makes (m + j * w) w (f j) tt (body j (x j)))
        → Makes m (n * w) (spread 0 n f) tt (for_each (tabulate 0 n x) body)
    unfolding for_each
    Makes-for_each body h =
        Makes-cast (m + 0 * w) m (n * w) (n * w) _ _ tt tt _ (omega arith) refl refl refl
          (Makes-for_each_from m w n f x n 0 body (omega arith) h)

pub spread_nil : (i n : ℕ) → spread i n (λ _. []) ≡ []
unfolding spread
spread_nil i zero = refl
spread_nil i (suc n) = spread_nil (suc i) n

-- `n` nodes, one in each round
pub Makes-nodes :
    (m n : ℕ) (x : ℕ → ℕ) (act : ℕ → M ℕ)
    → ((j : ℕ) → m + j ≡ x j)
    → ((j p : ℕ) → Makes p 1 [] p (act j))
    → Makes m n [] (tabulate 0 n x) (collect n act)
Makes-nodes m n x act e h =
    Makes-cast m m (n * 1) n _ [] _ _ _ refl (omega arith) (spread_nil 0 n) refl (
      Makes-collect m 1 n (λ _. []) x act
        (λ j _.
          Makes-cast (m + j) (m + j * 1) 1 1 [] [] (m + j) (x j) (act j) (omega arith) refl refl
            (e j) (h j (m + j))))

-- a loop whose rounds add one node each
pub Makes-uplinks :
    (m n : ℕ) (f : ℕ → List Cable) (body : ℕ → M (Unit {0}))
    → ((j : ℕ) → j < n → Makes (m + j) 1 (f j) tt (body j))
    → Makes m n (spread 0 n f) tt (for_range n body)
Makes-uplinks m n f body h = Makes-cast m m (n * 1) n _ _ tt tt _ refl (omega arith) refl refl (
    Makes-for_range m 1 n f body
      (λ j l. Makes-cast (m + j) (m + j * 1) 1 1 _ _ tt tt _ (omega arith) refl refl refl (h j l)))

-- a loop that adds no node
pub Makes-wires :
    {A : Type 0} (m n : ℕ) (f : ℕ → List Cable) (x : ℕ → A) (body : ℕ → A → M (Unit {0}))
    → ((j : ℕ) → j < n → Makes m 0 (f j) tt (body j (x j)))
    → Makes m 0 (spread 0 n f) tt (for_each (tabulate 0 n x) body)
Makes-wires m n f x body h = Makes-cast m m (n * 0) 0 _ _ tt tt _ refl (omega arith) refl refl (
    Makes-for_each m 0 n f x body
      (λ j l. Makes-cast m (m + j * 0) 0 0 _ _ tt tt _ (omega arith) refl refl refl (h j l)))

-- a new node and its uplink to a node that is there
pub Makes-uplink :
    (m a : ℕ) (act : M ℕ)
    → a < m
    → Makes m 1 [] m act
    → Makes m 1 (cable a m ∷ []) tt (act >>= λ x. connect a x)
Makes-uplink m a act la h =
    Makes-bind m 1 0 [] (cable a m ∷ []) m tt act _ h
      (Makes-connect (m + 1) a m (omega arith) (omega arith))

-- a counted loop that adds no node
pub Makes-range :
    (m n : ℕ) (f : ℕ → List Cable) (body : ℕ → M (Unit {0}))
    → ((j : ℕ) → j < n → Makes m 0 (f j) tt (body j))
    → Makes m 0 (spread 0 n f) tt (for_range n body)
Makes-range m n f body h = Makes-cast m m (n * 0) 0 _ _ tt tt _ refl (omega arith) refl refl (
    Makes-for_range m 0 n f body
      (λ j l. Makes-cast m (m + j * 0) 0 0 _ _ tt tt _ (omega arith) refl refl refl (h j l)))

-- an index into a list that a loop has built
pub pick-tabulate :
    (i n j : ℕ) (x : ℕ → ℕ) (m : ℕ) → j < n → Makes m 0 [] (x (i + j)) (pick (tabulate i n x) j)
unfolding pick
pick-tabulate i zero j x m h = absurd (omega arith)
pick-tabulate i (suc n) zero x m h =
    Makes-cast m m 0 0 [] [] (x i) (x (i + 0)) (return (x i)) refl refl refl (ap x (omega arith))
      (Makes-return m (x i))
pick-tabulate i (suc n) (suc j) x m h =
    Makes-cast m m 0 0 [] [] (x (suc i + j)) (x (i + suc j)) (pick (tabulate (suc i) n x) j) refl
      refl refl (ap x (omega arith)) (pick-tabulate (suc i) n j x m (omega arith))

-- a new node with its link to a node that is there
pub Makes-downlink :
    (m a : ℕ) (act : M ℕ)
    → a < m
    → Makes m 1 [] m act
    → Makes m 1 (cable m a ∷ []) tt (act >>= λ x. connect x a)
Makes-downlink m a act la h =
    Makes-bind m 1 0 [] (cable m a ∷ []) m tt act _ h
      (Makes-connect (m + 1) m a (omega arith) (omega arith))
