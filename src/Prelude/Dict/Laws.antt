-- ===== src/Prelude/Dict/Laws.antt =====
-- How the dict's operations act on lookups, on what every entry satisfies, and on an entry in place.
use Prim.Native.Nat.{ℕ}
use mathlib.Core.Path.{◌≡◌, refl, subst}
use mathlib.Core.List.{[], ◌∷◌, ◌++◌}
use mathlib.Core.Option.{none, some}
use mathlib.Core.Logic.{◌≢◌, inl, inr}
use native.Mathlib.Omega.{arith}
use labtris.Prelude.Tests.{◌==◌, if◌then◌else◌, Bool-cases, ==→eq}
use labtris.Prelude.Dict.{Dict, get, put, remove, replace, Every, Lacks, Distinct}

module _ {ℓ} {V : Type ℓ} where
  pub get-Lacks : (k : ℕ) (d : Dict V) → Lacks k d → get k d ≡ none
  unfolding get
  get-Lacks k [] h = refl
  get-Lacks k ((j, v) ∷ d) (n, h) = ground (arith, get-Lacks k d h)

  pub get-remove :
      (k j : ℕ) (d : Dict V) → Distinct d → get j (remove k d) ≡ (if k == j then none else get j d)
  unfolding get remove
  get-remove k j [] h = ground arith
  get-remove k j ((i, v) ∷ d) (l, h) = ground (arith, get-remove k j d h, get-Lacks i d l)

  pub get-put :
      (k j : ℕ) (v : V) (d : Dict V) → get j (put k v d) ≡ (if k == j then some v else get j d)
  unfolding get put
  get-put k j v [] = ground arith
  get-put k j v ((i, w) ∷ d) = ground (arith, get-put k j v d)

  pub Lacks-remove : (k j : ℕ) (d : Dict V) → Lacks j d → Lacks j (remove k d)
  unfolding remove
  Lacks-remove k j [] h = tt
  Lacks-remove k j ((i, v) ∷ d) (n, h) = ground (arith, Lacks-remove k j d h)

  pub Distinct-remove : (k : ℕ) (d : Dict V) → Distinct d → Distinct (remove k d)
  unfolding remove
  Distinct-remove k [] h = tt
  Distinct-remove k ((i, v) ∷ d) (l, h) =
      ground (arith, Distinct-remove k d h, Lacks-remove k i d l)

  pub Lacks-replace : (k j : ℕ) (v : V) (d : Dict V) → Lacks j d → Lacks j (replace k v d)
  unfolding replace
  Lacks-replace k j v [] h = tt
  Lacks-replace k j v ((i, w) ∷ d) (n, h) = ground (arith, Lacks-replace k j v d h)

  pub Distinct-replace : (k : ℕ) (v : V) (d : Dict V) → Distinct d → Distinct (replace k v d)
  unfolding replace
  Distinct-replace k v [] h = tt
  Distinct-replace k v ((i, w) ∷ d) (l, h) =
      ground (arith, Distinct-replace k v d h, Lacks-replace k i v d l)

  pub Lacks-put : (k j : ℕ) (v : V) (d : Dict V) → k ≢ j → Lacks j d → Lacks j (put k v d)
  unfolding put
  Lacks-put k j v [] n h = (n, tt)
  Lacks-put k j v ((i, w) ∷ d) n (m, h) = ground (arith, Lacks-put k j v d n h)

  pub Distinct-put : (k : ℕ) (v : V) (d : Dict V) → Distinct d → Distinct (put k v d)
  unfolding put
  Distinct-put k v [] h = (tt, tt)
  Distinct-put k v ((i, w) ∷ d) (l, h) = ground (arith, Distinct-put k v d h, Lacks-put k i v d)

  -- a new key goes last
  pub put-new : (k : ℕ) (v : V) (d : Dict V) → Lacks k d → put k v d ≡ d ++ (k, v) ∷ []
  unfolding put
  put-new k v [] h = refl
  put-new k v ((j, w) ∷ d) (n, h) = ground (arith, put-new k v d h)

  -- the entry behind a prefix that lacks its key
  pub get-middle : (k : ℕ) (v : V) (d r : Dict V) → Lacks k d → get k (d ++ (k, v) ∷ r) ≡ some v
  unfolding get
  get-middle k v [] r h = ground arith
  get-middle k v ((j, w) ∷ d) r (n, h) = ground (arith, get-middle k v d r h)

  pub remove-middle :
      (k : ℕ) (v : V) (d r : Dict V) → Lacks k d → remove k (d ++ (k, v) ∷ r) ≡ d ++ r
  unfolding remove
  remove-middle k v [] r h = ground arith
  remove-middle k v ((j, w) ∷ d) r (n, h) = ground (arith, remove-middle k v d r h)

  pub replace-middle :
      (k : ℕ) (v w : V) (d r : Dict V) → Lacks k d → replace k w (d ++ (k, v) ∷ r) ≡ d ++ (k, w) ∷ r
  unfolding replace
  replace-middle k v w [] r h = ground arith
  replace-middle k v w ((j, u) ∷ d) r (n, h) = ground (arith, replace-middle k v w d r h)

module _ {ℓ κ} {V : Type ℓ} (P : ℕ → V → Type κ) where
  pub Every-remove : (k : ℕ) (d : Dict V) → Every P d → Every P (remove k d)
  unfolding remove
  Every-remove k [] h = tt
  Every-remove k ((i, v) ∷ d) (p, h) = elim (Bool-cases (i == k)) [
    | inl e ↦ rw e h
    | inr e ↦ rw e (p, Every-remove k d h)
  ]

  pub Every-replace : (k : ℕ) (v : V) (d : Dict V) → P k v → Every P d → Every P (replace k v d)
  unfolding replace
  Every-replace k v [] p h = tt
  Every-replace k v ((i, w) ∷ d) p (q, h) = elim (Bool-cases (i == k)) [
    | inl e ↦ rw e (rw (==→eq i k e) p, h)
    | inr e ↦ rw e (q, Every-replace k v d p h)
  ]

  pub Every-put : (k : ℕ) (v : V) (d : Dict V) → P k v → Every P d → Every P (put k v d)
  unfolding put
  Every-put k v [] p h = (p, tt)
  Every-put k v ((i, w) ∷ d) p (q, h) = elim (Bool-cases (i == k)) [
    | inl e ↦ rw e (p, h)
    | inr e ↦ rw e (q, Every-put k v d p h)
  ]

  pub Every-get : (k : ℕ) {v : V} (d : Dict V) → Every P d → get k d ≡ some v → P k v
  unfolding get
  Every-get k [] h e = cc
  Every-get k {v} ((i, w) ∷ d) (p, h) e = elim (Bool-cases (i == k)) [
    | inl t ↦ subst (λ x. P k x) (ground arith) (rw (==→eq i k t) at p)
    | inr t ↦ Every-get k d h (ground arith)
  ]
