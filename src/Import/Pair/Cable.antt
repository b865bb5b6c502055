-- ===== src/Import/Pair/Cable.antt =====
-- The cables: the pairs of ends that fit each other and nothing else.
use labtris.Import.Pair.{End, same_key, fits, candidates, is_only}
use labtris.Import.Pair.Order.{
  In, Distinct, Lacks-In, same_key_refl, fits_sym, In-candidates, candidates-In,
}
use labtris.Prelude.{
  List, [], ◌∷◌, true, false, ◌≡◌, ◌≢◌, ◌⊎◌, inl, inr, refl, ap, sym, ◌∙◌, subst, Bool-cases,
}

-- Two ends that fit each other, and of all ends nothing else.
pub record IsCable (ends : List End) (e f : End) : Type 0 where
  pub here : In e ends
  pub there : In f ends
  pub fit : fits e f ≡ true
  pub only_there : (g : End) → In g ends → fits e g ≡ true → g ≡ f
  pub only_here : (g : End) → In g ends → fits f g ≡ true → g ≡ e

abbrev pub InLinks : End → End → List (End × End) → Type 0
InLinks e f [] = ⊥
InLinks e f ((a, b) ∷ ls) = ((e ≡ a) × (f ≡ b)) ⊎ InLinks e f ls

-- an end of no link
abbrev pub NoEnd : End → List (End × End) → Type 0
NoEnd e [] = Unit
NoEnd e ((a, b) ∷ ls) = (e ≢ a) × (e ≢ b) × NoEnd e ls

-- no end is in two links
abbrev pub Separate : List (End × End) → Type 0
Separate [] = Unit
Separate ((a, b) ∷ ls) = NoEnd a ls × NoEnd b ls × Separate ls

pub flip : {ends : List End} {e f : End} → IsCable ends e f → IsCable ends f e
flip {ends} {e} {f} c = record {
  here = c.there;
  there = c.here;
  fit = fits_sym e f c.fit;
  only_there = c.only_here;
  only_here = c.only_there;
}

only_same : (e g : End) (cs : List End) → is_only e cs ≡ true → In e cs → In g cs → g ≡ e
only_same e g [] h m n = cc h
only_same e g (x ∷ []) h (inl p) (inl q) = q ∙ sym p
only_same e g (x ∷ []) h (inl p) (inr n) = absurd n
only_same e g (x ∷ []) h (inr m) n = absurd m
only_same e g (x ∷ y ∷ cs) h m n = cc h

only_one : (f g : End) (cs : List End) → cs ≡ f ∷ [] → In g cs → g ≡ f
only_one f g cs e m = only (subst (In g) e m)
  where
    only : (g ≡ f) ⊎ ⊥ → g ≡ f
    only (inl p) = p
    only (inr n) = absurd n

pub candidates-cable :
    (ends : List End) (e f : End)
    → In e ends
    → candidates e ends ≡ f ∷ []
    → is_only e (candidates f ends) ≡ true
    → IsCable ends e f
candidates-cable ends e f m cs only =
    let found = candidates-In e f ends (subst (In f) (sym cs) (inl refl)) in
    record {
      here = m;
      there = found.0;
      fit = found.1;
      only_there = λ g n h. only_one f g (candidates e ends) cs (In-candidates e g ends n h);
      only_here = λ g n h.
          only_same e g (candidates f ends) only (In-candidates f e ends m (fits_sym e f found.1))
            (In-candidates f g ends n h);
    }

none_fit :
    (e : End) (ends : List End) → ((g : End) → In g ends → fits e g ≢ true) → candidates e ends ≡ []
unfolding candidates
none_fit e [] n = refl
none_fit e (f ∷ ends) n = elim (Bool-cases (fits e f)) [
  | inl b ↦ absurd (n f (inl refl) b)
  | inr b ↦ rw b (none_fit e ends (λ g m. n g (inr m)))
]

one_fits :
    (e f : End) (ends : List End)
    → Distinct ends
    → In f ends
    → fits e f ≡ true
    → ((g : End) → In g ends → fits e g ≡ true → g ≡ f)
    → candidates e ends ≡ f ∷ []
unfolding candidates
one_fits e f [] d m h only = absurd m
one_fits e f (x ∷ ends) (l, d) m h only = elim (Bool-cases (fits e x)) [
  | inl b ↦ rw b (
      let same = only x (inl refl) b in
      let alone = none_fit e ends (λ g n k.
        cc (
          same_key_refl x,
          Lacks-In x g ends l n,
          ap (same_key x) (only g (inr n) k ∙ sym same),
        )) in
      cc (same, alone))
  | inr b ↦ rw b (one_fits e f ends d (later m b) h (λ g n. only g (inr n)))
]
  where
    later : (f ≡ x) ⊎ In f ends → fits e x ≡ false → In f ends
    later (inl p) b = cc (ap (fits e) p)
    later (inr n) b = n

pub cable-candidates :
    (ends : List End) (e f : End)
    → Distinct ends
    → IsCable ends e f
    → (candidates e ends ≡ f ∷ []) × (is_only e (candidates f ends) ≡ true)
cable-candidates ends e f d c = (
  one_fits e f ends d c.there c.fit c.only_there,
  rw (one_fits f e ends d c.here (fits_sym e f c.fit) c.only_here) (same_key_refl e),
)
