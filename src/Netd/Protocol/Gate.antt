-- ===== src/Netd/Protocol/Gate.antt =====
-- What the gate for interface names lets through.
use labtris.Prelude.{
  ◌&&◌, Bool, Bool-cases, ap, inr, inl, ℕ, zero, suc, ◌+◌, ◌≤◌, Text, [], ◌∷◌, ◌++◌, true, ◌||◌,
  ◌==◌, All, length, ◌≡◌, ◌⊎◌, arith, refl,
}
use labtris.Netd.Protocol.{
  Bool, is_word, newline, at_end, is_kind, word_run, label_run, readable, matches_ifname,
}

-- a letter, a digit or a dash
abbrev pub IsSafe : ℕ → Type 0
IsSafe c = (is_word c || c == b'-') ≡ true

-- at most `n` safe characters, and perhaps a newline behind them
abbrev pub Within : ℕ → Text → Type 0
Within n s = (t : Text) × All IsSafe t × (length t ≤ n) × ((s ≡ t) ⊎ (s ≡ t ++ newline ∷ []))

at_end-Within : (s : Text) → at_end s ≡ true → Within 0 s
unfolding at_end
at_end-Within [] h = ([], tt, omega arith, inl refl)
at_end-Within (c ∷ []) h = ([], tt, omega arith, inr (ground arith))
at_end-Within (c ∷ d ∷ s) h = cc

Within-cons : (n c : ℕ) (s : Text) → IsSafe c → Within n s → Within (suc n) (c ∷ s)
Within-cons n c s p (t, safe, le, inl e) = (c ∷ t, (p, safe), omega arith, inl (ap (λ x. c ∷ x) e))
Within-cons n c s p (t, safe, le, inr e) = (c ∷ t, (p, safe), omega arith, inr (ap (λ x. c ∷ x) e))

word_run-Within : (n : ℕ) (s : Text) → word_run n s ≡ true → Within n s
unfolding word_run
word_run-Within zero s h = at_end-Within s h
word_run-Within (suc n) [] h = cc
word_run-Within (suc n) (c ∷ s) h =
    Within-cons n c s (ground arith) (word_run-Within n s (ground arith))

Within-weaken : (m n : ℕ) (s : Text) → m ≤ n → Within m s → Within n s
Within-weaken m n s h (t, safe, le, e) = (t, safe, omega arith, e)

-- the dash and the four characters behind it
dash-Within :
    (n c : ℕ) (s : Text) → (c == b'-') ≡ true → word_run 4 s ≡ true → Within (n + 5) (c ∷ s)
unfolding is_word
dash-Within n c s d h =
    Within-weaken 5 (n + 5) (c ∷ s) (omega arith)
      (Within-cons 4 c s (ground arith) (word_run-Within 4 s h))

label_run-Within : (n : ℕ) (s : Text) → label_run n s ≡ true → Within (n + 5) s
unfolding label_run
label_run-Within zero [] h = cc
label_run-Within (suc n) [] h = cc
label_run-Within zero (c ∷ s) h = dash-Within 0 c s (ground arith) (ground arith)
label_run-Within (suc n) (c ∷ s) h = elim (Bool-cases (c == b'-')) [
  | inl d ↦ dash-Within (suc n) c s d (ground arith)
  | inr d ↦
      Within-weaken (suc (n + 5)) (suc n + 5) (c ∷ s) (omega arith)
        (Within-cons (n + 5) c s (ground arith) (label_run-Within n s (ground arith)))
]

kind-IsSafe : (c : ℕ) → is_kind c ≡ true → IsSafe c
unfolding is_kind is_word
kind-IsSafe c h = ground arith

-- A name that the gate accepts begins with a kind letter and holds nothing but letters, digits and
-- dashes, at most fifteen of them; a newline may follow.
matches_ifname-Within :
    (c : ℕ) (s : Text) → matches_ifname (c ∷ s) ≡ true → (is_kind c ≡ true) × Within 15 (c ∷ s)
unfolding matches_ifname readable
matches_ifname-Within c s h = (
  ground arith,
  elim (Bool-cases (word_run 8 s)) [
    | inl p ↦
        Within-weaken 9 15 (c ∷ s) (omega arith)
          (Within-cons 8 c s (kind-IsSafe c (ground arith)) (word_run-Within 8 s p))
    | inr p ↦ Within-cons 14 c s (kind-IsSafe c (ground arith)) (readable-Within s (ground arith))
  ],
)
  where
    readable-Within : (s : Text) → readable s ≡ true → Within 14 s
    readable-Within [] h = cc
    readable-Within (d ∷ r) h =
        Within-cons 13 d r (ground arith) (label_run-Within 8 r (ground arith))

-- a safe character is no newline
at_end-append : (s : Text) → All IsSafe s → at_end s ≡ true → at_end (s ++ newline ∷ []) ≡ true
unfolding at_end is_word
at_end-append [] a h = refl
at_end-append (c ∷ []) a h = absurd (ground arith)
at_end-append (c ∷ d ∷ s) a h = cc

word_run-append :
    (n : ℕ) (s : Text) → All IsSafe s → word_run n s ≡ true → word_run n (s ++ newline ∷ []) ≡ true
unfolding word_run
word_run-append zero s a h = at_end-append s a h
word_run-append (suc n) [] a h = cc
word_run-append (suc n) (c ∷ s) (p, a) h = ground (arith, word_run-append n s a)

label_run-append :
    (n : ℕ) (s : Text)
    → All IsSafe s
    → label_run n s ≡ true
    → label_run n (s ++ newline ∷ []) ≡ true
unfolding label_run
label_run-append zero [] a h = cc
label_run-append (suc n) [] a h = cc
label_run-append zero (c ∷ s) (p, a) h = ground (arith, word_run-append 4 s a)
label_run-append (suc n) (c ∷ s) (p, a) h =
    ground (arith, word_run-append 4 s a, label_run-append n s a)

readable-append :
    (s : Text) → All IsSafe s → readable s ≡ true → readable (s ++ newline ∷ []) ≡ true
unfolding readable
readable-append [] a h = cc
readable-append (c ∷ s) (p, a) h = ground (arith, label_run-append 8 s a)

-- `k && (a || b)` grows with `a` and `b`
and_or_mono :
    (k a b c d : Bool)
    → (a ≡ true → c ≡ true)
    → (b ≡ true → d ≡ true)
    → (k && (a || b)) ≡ true
    → (k && (c || d)) ≡ true
and_or_mono k a b c d f g h = ground arith

-- Every name of letters, digits and dashes that the gate accepts, it accepts with a newline behind it
-- too.
pub matches_ifname-newline :
    (s : Text) → All IsSafe s → matches_ifname s ≡ true → matches_ifname (s ++ newline ∷ []) ≡ true
unfolding matches_ifname
matches_ifname-newline [] a h = cc
matches_ifname-newline (c ∷ s) (p, a) h =
    and_or_mono (is_kind c) (word_run 8 s) (readable s) (word_run 8 (s ++ newline ∷ []))
      (readable (s ++ newline ∷ [])) (word_run-append 8 s a) (readable-append s a) h

abbrev pub IsWord : ℕ → Type 0
IsWord c = is_word c ≡ true

pub word_run-IsWord : (s : Text) → All IsWord s → word_run (length s) s ≡ true
unfolding word_run
word_run-IsWord [] h = refl
word_run-IsWord (c ∷ s) (p, h) = ground (arith, word_run-IsWord s h)

pub label_run-IsWord :
    (n : ℕ) (s t : Text)
    → All IsWord s
    → length s ≤ n
    → word_run 4 t ≡ true
    → label_run n (s ++ b'-' ∷ t) ≡ true
unfolding label_run is_word
label_run-IsWord zero [] t h le w = ground arith
label_run-IsWord (suc n) [] t h le w = ground arith
label_run-IsWord zero (c ∷ s) t h le w = absurd (omega arith)
label_run-IsWord (suc n) (c ∷ s) t (p, h) le w = ground (arith, label_run-IsWord n s t h)
