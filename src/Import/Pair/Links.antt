-- ===== src/Import/Pair/Links.antt =====
-- The links that are found are the cables.
use labtris.Import.Pair.{End, same_key, holds}
use labtris.Import.Pair.Order.{In, same_key_refl}
use labtris.Import.Pair.Cable.{IsCable, InLinks, NoEnd, Separate, flip}
use labtris.Prelude.{
  List, [], ◌∷◌, ◌++◌, true, false, ◌≡◌, ◌≢◌, ◌⊎◌, inl, inr, refl, ap, sym, subst, Bool-cases,
}

pub holds-In :
    (e : End) (seen : List End)
    → holds e seen ≡ true
    → (x : End) × In x seen × (same_key x e ≡ true)
unfolding holds
holds-In e [] h = cc h
holds-In e (f ∷ seen) h = elim (Bool-cases (same_key f e)) [
  | inl b ↦ (f, inl refl, b)
  | inr b ↦ let (x, m, k) = holds-In e seen (rw b at h) in (x, inr m, k)
]

pub not-holds : (e : End) (seen : List End) → holds e seen ≡ false → In e seen → ⊥
unfolding holds
not-holds e [] h m = m
not-holds e (f ∷ seen) h m = elim (Bool-cases (same_key f e)) [
  | inl b ↦ cc (rw b at h)
  | inr b ↦ other m b (not-holds e seen (rw b at h))
]
  where
    other : (e ≡ f) ⊎ In e seen → same_key f e ≡ false → (In e seen → ⊥) → ⊥
    other (inl p) b n = cc (same_key_refl e, ap (λ x. same_key x e) p)
    other (inr m') b n = n m'

-- what the loop keeps, of its links and its seen ends
module _ (ends : List End) where
  pub record Inv (ls : List (End × End)) (seen : List End) : Type 0 where
    pub cables : (e f : End) → InLinks e f ls → IsCable ends e f × In e seen × In f seen
    pub linked :
        (e : End) → In e seen → (f : End) × IsCable ends e f × (InLinks e f ls ⊎ InLinks f e ls)
    pub separate : Separate ls

InLinks-left : (e f : End) (ls ks : List (End × End)) → InLinks e f ls → InLinks e f (ls ++ ks)
InLinks-left e f [] ks m = absurd m
InLinks-left e f (l ∷ ls) ks (inl p) = inl p
InLinks-left e f (l ∷ ls) ks (inr m) = inr (InLinks-left e f ls ks m)

InLinks-last : (e f : End) (ls : List (End × End)) → InLinks e f (ls ++ (e, f) ∷ [])
InLinks-last e f [] = inl (refl, refl)
InLinks-last e f (l ∷ ls) = inr (InLinks-last e f ls)

InLinks-split :
    (e f a b : End) (ls : List (End × End))
    → InLinks e f (ls ++ (a, b) ∷ [])
    → InLinks e f ls ⊎ ((e ≡ a) × (f ≡ b))
InLinks-split e f a b [] (inl p) = inr p
InLinks-split e f a b [] (inr n) = absurd n
InLinks-split e f a b (l ∷ ls) (inl p) = inl (inl p)
InLinks-split e f a b (l ∷ ls) (inr m) = later (InLinks-split e f a b ls m)
  where
    later : InLinks e f ls ⊎ ((e ≡ a) × (f ≡ b)) → InLinks e f (l ∷ ls) ⊎ ((e ≡ a) × (f ≡ b))
    later (inl n) = inl (inr n)
    later (inr p) = inr p

NoEnd-seen :
    (e : End) (ls : List (End × End)) (seen : List End)
    → ((a b : End) → InLinks a b ls → In a seen × In b seen)
    → (In e seen → ⊥)
    → NoEnd e ls
NoEnd-seen e [] seen h n = tt
NoEnd-seen e ((a, b) ∷ ls) seen h n = (
  λ p. n (subst (λ x. In x seen) (sym p) (h a b (inl (refl, refl))).0),
  λ p. n (subst (λ x. In x seen) (sym p) (h a b (inl (refl, refl))).1),
  NoEnd-seen e ls seen (λ x y m. h x y (inr m)) n,
)

NoEnd-snoc :
    (x e f : End) (ls : List (End × End)) → NoEnd x ls → x ≢ e → x ≢ f → NoEnd x (ls ++ (e, f) ∷ [])
NoEnd-snoc x e f [] h p q = (p, q, tt)
NoEnd-snoc x e f ((a, b) ∷ ls) (m, n, h) p q = (m, n, NoEnd-snoc x e f ls h p q)

Separate-snoc :
    (e f : End) (ls : List (End × End))
    → Separate ls
    → NoEnd e ls
    → NoEnd f ls
    → Separate (ls ++ (e, f) ∷ [])
Separate-snoc e f [] s he hf = (tt, tt, tt)
Separate-snoc e f ((a, b) ∷ ls) (na, nb, s) (ea, eb, he) (fa, fb, hf) = (
  NoEnd-snoc a e f ls na (λ p. ea (sym p)) (λ p. fa (sym p)),
  NoEnd-snoc b e f ls nb (λ p. eb (sym p)) (λ p. fb (sym p)),
  Separate-snoc e f ls s he hf,
)

-- a new link
pub Inv-link :
    (ends : List End) (e f : End) (ls : List (End × End)) (seen : List End)
    → Inv ends ls seen
    → IsCable ends e f
    → (In e seen → ⊥)
    → Inv ends (ls ++ (e, f) ∷ []) (f ∷ e ∷ seen)
Inv-link ends e f ls seen inv c fresh = record {
  cables = λ a b m. old_or_new a b (InLinks-split a b e f ls m);
  linked = λ x m. of_seen x m;
  separate =
      Separate-snoc e f ls inv.separate (NoEnd-seen e ls seen (λ a b m. ends_seen a b m) fresh)
        (NoEnd-seen f ls seen (λ a b m. ends_seen a b m) fresh_f);
}
  where
    ends_seen : (a b : End) → InLinks a b ls → In a seen × In b seen
    ends_seen a b m = let (_, p, q) = inv.cables a b m in (p, q)

    other : (y : End) → (y ≡ e) → InLinks f y ls ⊎ InLinks y f ls → In e seen
    other y p (inl m) = subst (λ x. In x seen) p (ends_seen f y m).1
    other y p (inr m) = subst (λ x. In x seen) p (ends_seen y f m).0

    fresh_f : In f seen → ⊥
    fresh_f m = let (y, d, ms) = inv.linked f m in fresh (other y (c.only_here y d.there d.fit) ms)

    old_or_new :
        (a b : End)
        → InLinks a b ls ⊎ ((a ≡ e) × (b ≡ f))
        → IsCable ends a b × In a (f ∷ e ∷ seen) × In b (f ∷ e ∷ seen)
    old_or_new a b (inl m) = let (d, p, q) = inv.cables a b m in (d, inr (inr p), inr (inr q))
    old_or_new a b (inr (p, q)) = (
      subst (λ x. IsCable ends x b) (sym p) (subst (IsCable ends e) (sym q) c),
      inr (inl p),
      inl q,
    )

    grown :
        (x y : End)
        → InLinks x y ls ⊎ InLinks y x ls
        → InLinks x y (ls ++ (e, f) ∷ []) ⊎ InLinks y x (ls ++ (e, f) ∷ [])
    grown x y (inl m) = inl (InLinks-left x y ls _ m)
    grown x y (inr m) = inr (InLinks-left y x ls _ m)

    of_seen :
        (x : End)
        → In x (f ∷ e ∷ seen)
        → (y : End) × IsCable ends x y
          × (InLinks x y (ls ++ (e, f) ∷ []) ⊎ InLinks y x (ls ++ (e, f) ∷ []))
    of_seen x (inl p) = (
      e,
      subst (λ z. IsCable ends z e) (sym p) (flip c),
      inr (subst (λ z. InLinks e z (ls ++ (e, f) ∷ [])) (sym p) (InLinks-last e f ls)),
    )
    of_seen x (inr (inl p)) = (
      f,
      subst (λ z. IsCable ends z f) (sym p) c,
      inl (subst (λ z. InLinks z f (ls ++ (e, f) ∷ [])) (sym p) (InLinks-last e f ls)),
    )
    of_seen x (inr (inr m)) = let (y, d, ms) = inv.linked x m in (y, d, grown x y ms)
