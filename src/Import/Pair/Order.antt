-- ===== src/Import/Pair/Order.antt =====
-- The ends of an import: which ones there are, each with its own key, and in what order they are visited.
use labtris.Import.Pair.{
  Row, NodeLinks, End, same_key, put_end, is_skipped, add_rows, ends_of, fits, candidates, key_lt,
  insert, sort,
}
use labtris.Prelude.{
  subst, Text, List, [], ◌∷◌, true, false, ◌≡◌, ◌≢◌, ◌⊎◌, inl, inr, refl, ap, sym, ◌∙◌, arith,
  text_eq, text_eq-eq, text_eq_refl, Bool-cases, ==→eq,
}

abbrev pub In : End → List End → Type 0
In e [] = ⊥
In e (f ∷ fs) = (e ≡ f) ⊎ In e fs

-- no end of the list has this one's key
abbrev pub Lacks : End → List End → Type 0
Lacks e [] = Unit
Lacks e (f ∷ fs) = (same_key e f ≡ false) × Lacks e fs

abbrev pub Distinct : List End → Type 0
Distinct [] = Unit
Distinct (e ∷ es) = Lacks e es × Distinct es

text_eq_sym : (s t : Text) → text_eq s t ≡ text_eq t s
text_eq_sym [] [] = refl
text_eq_sym [] (d ∷ t) = refl
text_eq_sym (c ∷ s) [] = refl
text_eq_sym (c ∷ s) (d ∷ t) = ground (arith, text_eq_sym s t)

same_key_sym : (e f : End) → same_key e f ≡ same_key f e
same_key_sym e f = ground (arith, text_eq_sym e.node f.node)

pub same_key_refl : (e : End) → same_key e e ≡ true
same_key_refl e = ground (arith, text_eq_refl e.node)

same_key_trans : (e f g : End) → same_key e f ≡ true → same_key f g ≡ same_key e g
same_key_trans e f g h = let (n, i) = parts h in ground (arith, ap (λ t. text_eq t g.node) n, i)
  where
    parts : same_key e f ≡ true → (e.node ≡ f.node) × (e.idx ≡ f.idx)
    parts k = (text_eq-eq e.node f.node (ground arith), ==→eq e.idx f.idx (ground arith))

pub fits_sym : (e f : End) → fits e f ≡ true → fits f e ≡ true
fits_sym e f h = ground (arith, h, text_eq_sym e.node f.node)

pub Lacks-In : (e f : End) (es : List End) → Lacks e es → In f es → same_key e f ≡ false
Lacks-In e f [] h m = absurd m
Lacks-In e f (g ∷ es) (n, h) (inl same) = rw same n
Lacks-In e f (g ∷ es) (n, h) (inr m) = Lacks-In e f es h m

-- of distinct ends, two with one key are one
pub same_end :
    (es : List End) (e f : End) → Distinct es → In e es → In f es → same_key e f ≡ true → e ≡ f
same_end [] e f d m n h = absurd m
same_end (g ∷ es) e f (l, d) (inl p) (inl q) h = p ∙ sym q
same_end (g ∷ es) e f (l, d) (inl p) (inr n) h = cc (Lacks-In g f es l n, ap (λ x. same_key x f) p)
same_end (g ∷ es) e f (l, d) (inr m) (inl q) h =
    cc (Lacks-In g e es l m, same_key_sym e f, ap (λ x. same_key x e) q)
same_end (g ∷ es) e f (l, d) (inr m) (inr n) h = same_end es e f d m n h

Lacks-put_end :
    (g e : End) (es : List End) → same_key g e ≡ false → Lacks g es → Lacks g (put_end e es)
unfolding put_end
Lacks-put_end g e [] n h = (n, tt)
Lacks-put_end g e (f ∷ es) n (m, h) = elim (Bool-cases (same_key f e)) [
  | inl b ↦ rw b (n, h)
  | inr b ↦ rw b (m, Lacks-put_end g e es n h)
]

Lacks-same : (e f : End) (es : List End) → same_key e f ≡ true → Lacks e es → Lacks f es
Lacks-same e f [] h l = tt
Lacks-same e f (g ∷ es) h (n, l) = (same_key_trans e f g h ∙ n, Lacks-same e f es h l)

Distinct-put_end : (e : End) (es : List End) → Distinct es → Distinct (put_end e es)
unfolding put_end
Distinct-put_end e [] d = (tt, tt)
Distinct-put_end e (f ∷ es) (l, d) = elim (Bool-cases (same_key f e)) [
  | inl b ↦ rw b (Lacks-same f e es b l, d)
  | inr b ↦ rw b (Lacks-put_end f e es b l, Distinct-put_end e es d)
]

Distinct-add_rows :
    (node : Text) (rows : List Row) (es : List End) → Distinct es → Distinct (add_rows node rows es)
unfolding add_rows
Distinct-add_rows node [] es d = d
Distinct-add_rows node (row ∷ rows) es d = elim (Bool-cases (is_skipped row)) [
  | inl b ↦ rw b (Distinct-add_rows node rows es d)
  | inr b ↦ rw b (Distinct-add_rows node rows _ (Distinct-put_end _ es d))
]

pub Distinct-ends_of :
    (nodes : List (Text × NodeLinks)) (es : List End) → Distinct es → Distinct (ends_of nodes es)
unfolding ends_of
Distinct-ends_of [] es d = d
Distinct-ends_of ((node, links) ∷ nodes) es d = elim (Bool-cases links.error) [
  | inl b ↦ rw b (Distinct-ends_of nodes es d)
  | inr b ↦ rw b (
      Distinct-ends_of nodes (add_rows node links.interfaces es)
        (Distinct-add_rows node links.interfaces es d))
]

insert-here : (e : End) (es : List End) → In e (insert e es)
unfolding insert
insert-here e [] = inl refl
insert-here e (f ∷ es) = elim (Bool-cases (key_lt f e)) [
  | inl b ↦ rw b (inr (insert-here e es))
  | inr b ↦ rw b (inl refl)
]

insert-there : (x e : End) (es : List End) → In x es → In x (insert e es)
unfolding insert
insert-there x e [] m = absurd m
insert-there x e (f ∷ es) (inl p) = elim (Bool-cases (key_lt f e)) [
  | inl b ↦ rw b (inl p)
  | inr b ↦ rw b (inr (inl p))
]
insert-there x e (f ∷ es) (inr m) = elim (Bool-cases (key_lt f e)) [
  | inl b ↦ rw b (inr (insert-there x e es m))
  | inr b ↦ rw b (inr (inr m))
]

map_right : {A B C : Type 0} → (B → C) → A ⊎ B → A ⊎ C
map_right g (inl a) = inl a
map_right g (inr b) = inr (g b)

swap_left : {A B C : Type 0} → A ⊎ (B ⊎ C) → B ⊎ (A ⊎ C)
swap_left (inl a) = inr (inl a)
swap_left (inr (inl b)) = inl b
swap_left (inr (inr c)) = inr (inr c)

insert-In : (x e : End) (es : List End) → In x (insert e es) → (x ≡ e) ⊎ In x es
unfolding insert
insert-In x e [] = λ m. m
insert-In x e (f ∷ es) = elim (Bool-cases (key_lt f e)) [
  | inl b ↦ rw b (λ m. swap_left (map_right (insert-In x e es) m))
  | inr b ↦ rw b (λ m. m)
]

pub In-sort : (x : End) (es : List End) → In x es → In x (sort es)
unfolding sort
In-sort x [] m = m
In-sort x (e ∷ es) (inl p) =
    subst (λ y. In y (insert e (sort es))) (sym p) (insert-here e (sort es))
In-sort x (e ∷ es) (inr m) = insert-there x e (sort es) (In-sort x es m)

pub sort-In : (x : End) (es : List End) → In x (sort es) → In x es
unfolding sort
sort-In x [] m = m
sort-In x (e ∷ es) m = map_right (sort-In x es) (insert-In x e (sort es) m)

no_fit : (e g f : End) → fits e g ≡ true → fits e f ≡ false → g ≢ f
no_fit e g f h b p = cc (ap (fits e) p)

not_first : {A B : Type 0} → (A → ⊥) → A ⊎ B → B
not_first n (inl a) = absurd (n a)
not_first n (inr b) = b

pub In-candidates :
    (e g : End) (ends : List End) → In g ends → fits e g ≡ true → In g (candidates e ends)
unfolding candidates
In-candidates e g [] m h = m
In-candidates e g (f ∷ ends) m h = elim (Bool-cases (fits e f)) [
  | inl b ↦ rw b (map_right (λ n. In-candidates e g ends n h) m)
  | inr b ↦ rw b (In-candidates e g ends (not_first (no_fit e g f h b) m) h)
]

pub candidates-In :
    (e g : End) (ends : List End) → In g (candidates e ends) → In g ends × (fits e g ≡ true)
unfolding candidates
candidates-In e g [] = λ m. absurd m
candidates-In e g (f ∷ ends) = elim (Bool-cases (fits e f)) [
  | inl b ↦ rw b (λ m. found (candidates-In e g ends) m b)
  | inr b ↦ rw b (λ m. (inr (candidates-In e g ends m).0, (candidates-In e g ends m).1))
]
  where
    found :
        (In g (candidates e ends) → In g ends × (fits e g ≡ true))
        → (g ≡ f) ⊎ In g (candidates e ends)
        → fits e f ≡ true
        → In g (f ∷ ends) × (fits e g ≡ true)
    found ih (inl p) b = (inl p, ap (fits e) p ∙ b)
    found ih (inr m) b = (inr (ih m).0, (ih m).1)
