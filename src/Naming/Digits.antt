-- ===== src/Naming/Digits.antt =====
-- Positional numerals: `base36` of naming.py, and the decimal text of a number in an f-string.
use mathlib.Core.WellFounded.{Acc, Acc-prop}
use mathlib.Core.WellFounded
use mathlib.Core.Logic.{if_neg, if_pos, ite, dite}
use native.Mathlib.Decide.{dec_lt}
use labtris.Prelude.Order.{lt_wf}
use labtris.Prelude.{ap, ◌∙◌, [], ◌+◌, All, ◌*◌, ℕ, ◌/◌, ◌%◌, ◌<◌, Text, ◌∷◌, ◌≡◌, arith}
use native.Mathlib.Nat.{div-add-mod', mod-lt}

-- The loop `while n: n, r = divmod(n, base); chars.append(digit(r))`; the accumulator holds `chars`
-- reversed.
module _ (base : ℕ) (big : 1 < base) (digit : ℕ → ℕ) where
  pub quotient-lt : (n : ℕ) → 0 < n → n / base < n
  quotient-lt n h = grind arith

  emit : (n : ℕ) → Acc ◌<◌ n → Text → Text
  emit n (Acc.intro _ smaller) out =
      dite (dec_lt 0 n)
        (λ h. emit (n / base) (smaller (n / base) (quotient-lt n h)) (digit (n % base) ∷ out))
        (λ _. out)

  unfoldable pub digits : ℕ → Text → Text
  unfolding emit lt_wf dec_lt
  digits n = emit n (lt_wf.apply n)

  emit_step :
      (n : ℕ) (w : Acc ◌<◌ n) (w' : Acc ◌<◌ (n / base)) (out : Text)
      → emit n w out ≡ ite (dec_lt 0 n) (emit (n / base) w' (digit (n % base) ∷ out)) out
  unfolding emit
  emit_step n (Acc.intro _ smaller) w' out = λ i.
      dite (dec_lt 0 n)
        (λ h.
          emit (n / base) (Acc-prop (smaller (n / base) (quotient-lt n h)) w' i)
            (digit (n % base) ∷ out))
        (λ _. out)

  pub digits_step :
      (n : ℕ) (out : Text)
      → digits n out ≡ ite (dec_lt 0 n) (digits (n / base) (digit (n % base) ∷ out)) out
  unfolding digits
  digits_step n out = emit_step n (lt_wf.apply n) (lt_wf.apply (n / base)) out

-- the number that digits spell behind `n`
abbrev pub value : ℕ → (ℕ → ℕ) → ℕ → Text → ℕ
value base undigit n [] = n
value base undigit n (c ∷ s) = value base undigit (n * base + undigit c) s

module _ (base : ℕ) (big : 1 < base) (digit undigit : ℕ → ℕ)
    (read : (r : ℕ) → r < base → undigit (digit r) ≡ r) where
  -- reading the last digit of `n` after those before it gives `n`
  last_digit : (n : ℕ) → n / base * base + undigit (digit (n % base)) ≡ n
  last_digit n = omega (arith, read (n % base) (mod-lt n (omega arith)), div-add-mod' n base)

  -- The digits of a number spell that number.
  pub value-digits :
      (n : ℕ) (out : Text)
      → value base undigit 0 (digits base big digit n out) ≡ value base undigit n out
  value-digits n =
      WellFounded.induction lt_wf
        {C = λ m.
          (out : Text)
          → value base undigit 0 (digits base big digit m out) ≡ value base undigit m out}
        n
        λ m ih out. rw (digits_step base big digit m out) (elim (dec_lt 0 m) [
          | yes p ↦ rw (if_pos _ p) (
              ih (m / base) (quotient-lt base big digit m p) (digit (m % base) ∷ out)
              ∙ ap (λ k. value base undigit k out) (last_digit m))
          | no p ↦ rw (if_neg _ p) (ap (λ k. value base undigit k out) (omega arith))
        ])

module _ (base : ℕ) (big : 1 < base) (digit : ℕ → ℕ) (P : ℕ → Type 0)
    (right : (r : ℕ) → r < base → P (digit r)) where
  pub digits-All : (n : ℕ) (out : Text) → All P out → All P (digits base big digit n out)
  digits-All n =
      WellFounded.induction lt_wf
        {C = λ m. (out : Text) → All P out → All P (digits base big digit m out)} n
        λ m ih out h. rw (digits_step base big digit m out) (elim (dec_lt 0 m) [
          | yes p ↦ rw (if_pos _ p) (
              ih (m / base) (quotient-lt base big digit m p) (digit (m % base) ∷ out)
                (right (m % base) (mod-lt m (omega arith)), h))
          | no p ↦ rw (if_neg _ p) h
        ])
