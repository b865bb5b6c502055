-- ===== src/Prelude/Dict.antt =====
-- A Python `dict` with integer keys, in insertion order.
pub mod Laws
use Prim.Native.Nat.{ℕ}
use mathlib.Core.List.{List, [], ◌∷◌}
use mathlib.Core.Option.{Option, none, some}
use mathlib.Core.Logic.{◌≢◌}
use labtris.Prelude.Tests.{◌==◌, if◌then◌else◌}

abbrev pub Dict {ℓ} : Type ℓ → Type ℓ
Dict V = List (ℕ × V)

module _ {ℓ} {V : Type ℓ} where
  -- `d.get(k)`
  unfoldable pub get : ℕ → Dict V → Option V
  get k [] = none
  get k ((j, v) ∷ d) = if j == k then some v else get k d

  -- `d[k] = v`: an old key keeps its place, a new one goes last
  unfoldable pub put : ℕ → V → Dict V → Dict V
  put k v [] = (k, v) ∷ []
  put k v ((j, w) ∷ d) = if j == k then (k, v) ∷ d else (j, w) ∷ put k v d

  -- `d.pop(k, None)`, without its result; a dict holds a key once
  unfoldable pub remove : ℕ → Dict V → Dict V
  remove k [] = []
  remove k ((j, v) ∷ d) = if j == k then d else (j, v) ∷ remove k d

  -- a change to the object stored under `k`, which does nothing if the dict has dropped it
  unfoldable pub replace : ℕ → V → Dict V → Dict V
  replace k v [] = []
  replace k v ((j, w) ∷ d) = if j == k then (j, v) ∷ d else (j, w) ∷ replace k v d

  -- every key and value satisfies a predicate
  abbrev pub Every {κ} : (ℕ → V → Type κ) → Dict V → Type κ
  Every P [] = Unit
  Every P ((k, v) ∷ d) = P k v × Every P d

  abbrev pub Lacks : ℕ → Dict V → Type 0
  Lacks k [] = Unit
  Lacks k ((j, v) ∷ d) = (j ≢ k) × Lacks k d

  -- what every dict satisfies
  abbrev pub Distinct : Dict V → Type 0
  Distinct [] = Unit
  Distinct ((k, v) ∷ d) = Lacks k d × Distinct d
