-- ===== src/Prelude/Texts.antt =====
-- Equality of texts, as a test.

use mathlib.Core.List.{[], ◌∷◌}
use mathlib.Core.Bool.{Bool, true, false, ◌&&◌}
use mathlib.Core.Path.{◌≡◌, refl}
use native.Mathlib.Omega.{arith}
use labtris.Prelude.Tests.{◌==◌}
use labtris.Prelude.Lists.{Text}

abbrev pub text_eq : Text → Text → Bool
text_eq [] [] = true
text_eq (a ∷ s) (b ∷ t) = a == b && text_eq s t
text_eq _ _ = false

pub text_eq-eq : (s t : Text) → text_eq s t ≡ true → s ≡ t
text_eq-eq [] [] h = refl
text_eq-eq [] (b ∷ t) h = cc
text_eq-eq (a ∷ s) [] h = cc
text_eq-eq (a ∷ s) (b ∷ t) h = ground (arith, text_eq-eq s t)

pub text_eq_refl : (s : Text) → text_eq s s ≡ true
text_eq_refl [] = refl
text_eq_refl (c ∷ s) = ground (arith, text_eq_refl s)
