-- ===== src/Topology/Builder/Draw.antt =====
-- Runs of a builder: how many nodes a part of a generator adds, and which cables it draws.
use labtris.Topology.Rows.{Builder, Impair, Kind, kind_of}
use labtris.Topology.Builder.{
  connect, Script, Result, ℕ, Place, add_node, connect_with, return, M, continue, ◌>>=◌,
}
use labtris.Topology.Builder.Connect.{length_snoc, connect_with_lem}
use labtris.Topology.Builder.Sound.{
  IsSound, Cable, cables, connected-IsSound, cables-connected, with_node-IsSound,
}
use labtris.Prelude.{
  ◌∙◌, some, Option, Text, none, ap, refl, ◌<◌, sym, arith, ◌∷◌, zero, subst, suc, ◌++◌, ◌+◌, ◌≡◌,
  length, [], List, ℕ,
}
use labtris.Prelude.Result.{err, ok, Result}
use mathlib.Core.List.{append_assoc, append-nil}
use labtris.Topology.Frr.{Script}

-- `m` nodes, these cables, a network for each cable and `e` others
pub record At (e m : ℕ) (ds : List Cable) (s : Builder) : Type 0 where
  pub size : length s.nodes ≡ m
  pub drawn : cables s ≡ ds
  pub linked : length s.links ≡ length ds
  pub counted : length s.networks ≡ length ds + e
  pub sound : IsSound s

abbrev pub Returns : {A : Type 0} → Result (A × Builder) → (A → Builder → Type 0) → Type 0
Returns (ok (a, s)) Q = Q a s
Returns (err e) Q = ⊥

pub Returns-map :
    {A : Type 0} (r : Result (A × Builder)) (P Q : A → Builder → Type 0)
    → ((a : A) (s : Builder) → P a s → Q a s)
    → Returns r P
    → Returns r Q
Returns-map (ok (a, s)) P Q f h = f a s h
Returns-map (err e) P Q f h = h

-- From `m` nodes, the part returns `x`, adds `w` nodes and draws these cables behind the others.
abbrev pub Makes : {A : Type 0} → ℕ → ℕ → List Cable → A → M A → Type 0
Makes m w ks x act =
    (e : ℕ) (ds : List Cable) (s : Builder)
    → At e m ds s
    → Returns (act s) (λ y t. (y ≡ x) × At e (m + w) (ds ++ ks) t)

-- what the parts of a loop draw, of `n` rounds from `i` on
unfoldable pub spread : ℕ → ℕ → (ℕ → List Cable) → List Cable
spread i zero f = []
spread i (suc n) f = f i ++ spread (suc i) n f

-- `x i`, … of `n` rounds from `i` on
abbrev pub tabulate : {A : Type 0} → ℕ → ℕ → (ℕ → A) → List A
tabulate i zero x = []
tabulate i (suc n) x = x i ∷ tabulate (suc i) n x

module _ {A : Type 0} where
  pub Makes-cast :
      (m n w v : ℕ) (ks ls : List Cable) (x y : A) (act : M A)
      → m ≡ n
      → w ≡ v
      → ks ≡ ls
      → x ≡ y
      → Makes m w ks x act
      → Makes n v ls y act
  Makes-cast m n w v ks ls x y act p q r t h =
      subst (λ k. Makes k v ls y act) p
        (subst (λ k. Makes m k ls y act) q
          (subst (λ k. Makes m w k y act) r (subst (λ k. Makes m w ks k act) t h)))

  pub Makes-return : (m : ℕ) (x : A) → Makes m 0 [] x (return x)
  Makes-return m x e ds s h = (
    refl,
    subst (λ k. At e k (ds ++ []) s) (omega arith)
        (subst (λ k. At e m k s) (sym (append-nil ds)) h),
  )

module _ {A B : Type 0} where
  pub continue-Returns :
      (r : Result (A × Builder)) (f : A → M B) (x : A) (e m : ℕ) (ds : List Cable)
      (Q : B → Builder → Type 0)
      → Returns r (λ y t. (y ≡ x) × At e m ds t)
      → ((t : Builder) → At e m ds t → Returns (f x t) Q)
      → Returns (continue f r) Q
  continue-Returns (ok (y, t)) f x e m ds Q (same, h) k =
      subst (λ z. Returns (f z t) Q) (sym same) (k t h)
  continue-Returns (err _) f x e m ds Q h k = h

  -- one part behind another
  pub Makes-bind :
      (m w v : ℕ) (ks ls : List Cable) (x : A) (y : B) (act : M A) (f : A → M B)
      → Makes m w ks x act
      → Makes (m + w) v ls y (f x)
      → Makes m (w + v) (ks ++ ls) y (act >>= f)
  Makes-bind m w v ks ls x y act f h k e ds s at =
      continue-Returns (act s) f x e (m + w) (ds ++ ks) _ (h e ds s at) (λ t at'.
        subst (λ n. Returns (f x t) (λ z u. (z ≡ y) × At e n (ds ++ (ks ++ ls)) u)) {x = m + w + v}
          (omega arith)
          (subst (λ l. Returns (f x t) (λ z u. (z ≡ y) × At e (m + w + v) l u))
            (append_assoc ds ks ls) (k e (ds ++ ks) t at')))

abbrev pub cable : ℕ → ℕ → Cable
cable a b = record { a = a; b = b; ab = none; ba = none }

-- a kind that is among _KINDS
abbrev pub IsKind : Text → Type 0
IsKind k = (kind : Kind) × (kind_of k ≡ some kind)

pub Makes-add_node :
    (m : ℕ) (name kind : Text) (place : Place) (program : Option Text) (config : Option Script)
    → IsKind kind
    → Makes m 1 [] m (add_node name kind place program config)
unfolding add_node cables
Makes-add_node m name kind place program config (k, known) e ds s h = rw known (
  h.size,
  record {
    size = length_snoc s.nodes _ ∙ omega (arith, h.size);
    drawn = h.drawn ∙ sym (append-nil ds);
    linked = h.linked ∙ ap length (sym (append-nil ds));
    counted = omega (arith, h.counted, ap length (append-nil ds));
    sound = with_node-IsSound s _ h.sound;
  },
)

pub Makes-connect_with :
    (m a b : ℕ) (ab ba : Option Impair)
    → a < m
    → b < m
    → Makes m 0 (record { a = a; b = b; ab = ab; ba = ba } ∷ []) tt (connect_with a b ab ba)
Makes-connect_with m a b ab ba la lb e ds s h = rw (connect_with_lem a b ab ba s) (
  refl,
  record {
    size = omega (arith, h.size);
    drawn =
        cables-connected a b ab ba s h.sound
        ∙ ap (λ l. l ++ record { a = a; b = b; ab = ab; ba = ba } ∷ []) h.drawn;
    linked = length_snoc s.links _ ∙ ap suc h.linked ∙ sym (length_snoc ds _);
    counted =
        length_snoc s.networks _
        ∙ omega (arith, h.counted, length_snoc ds (record { a = a; b = b; ab = ab; ba = ba }));
    sound = connected-IsSound a b ab ba s h.sound (omega (arith, h.size)) (omega (arith, h.size));
  },
)

-- one part behind another, up to what the sums amount to
pub Makes-then :
    {A B : Type 0} (m w n v u : ℕ) (ks ls js : List Cable) (x : A) (y : B) (act : M A) (f : A → M B)
    → m + w ≡ n
    → w + v ≡ u
    → ks ++ ls ≡ js
    → Makes m w ks x act
    → Makes n v ls y (f x)
    → Makes m u js y (act >>= f)
Makes-then m w n v u ks ls js x y act f p q r h k =
    Makes-cast m m (w + v) u (ks ++ ls) js y y (act >>= f) refl q r refl (
      Makes-bind m w v ks ls x y act f h
        (Makes-cast n (m + w) v v ls ls y y (f x) (sym p) refl refl refl k))

pub Makes-connect : (m a b : ℕ) → a < m → b < m → Makes m 0 (cable a b ∷ []) tt (connect a b)
Makes-connect m a b la lb = Makes-connect_with m a b none none la lb
