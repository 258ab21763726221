-- ===== src/Base/Texts.antt =====
-- Texts as the lists of their code points, with Python's comparisons.
use Prim.Native.Nat.{ℕ, compare, Ordering}
use mathlib.Core.Bool.{Bool, true, false, ◌&&◌}
use mathlib.Core.List.{List, [], ◌∷◌}
use mathlib.Core.Path.{◌≡◌, refl}
use native.Mathlib.Omega.{arith}
use gasu_schedule_bot.Base.Tests.{◌==◌, &&-eq-true, ==_refl}

abbrev pub Text : Type 0
Text = List ℕ

abbrev pub text_eq : Text → Text → Bool
text_eq [] [] = true
text_eq [] (d ∷ t) = false
text_eq (c ∷ s) [] = false
text_eq (c ∷ s) (d ∷ t) = c == d && text_eq s t

pub text_eq_refl : (t : Text) → text_eq t t ≡ true
text_eq_refl [] = refl
text_eq_refl (c ∷ t) = rw (==_refl c, text_eq_refl t) refl

pub text_eq_sound : (s t : Text) → text_eq s t ≡ true → s ≡ t
text_eq_sound [] [] h = refl
text_eq_sound [] (d ∷ t) h = cc
text_eq_sound (c ∷ s) [] h = cc
text_eq_sound (c ∷ s) (d ∷ t) h =
    let (same, rest) = &&-eq-true (c == d) (text_eq s t) h in
    let e : c ≡ d = ground (arith, same) in let tails = text_eq_sound s t rest in cc

-- The comparison of tuples: the first components that differ decide.
infixr 5 ◌⊕◌
abbrev pub ◌⊕◌ : Ordering → Ordering → Ordering
Ordering.eq ⊕ next = next
Ordering.lt ⊕ next = Ordering.lt
Ordering.gt ⊕ next = Ordering.gt

abbrev pub is_less : Ordering → Bool
is_less Ordering.lt = true
is_less Ordering.eq = false
is_less Ordering.gt = false

-- `<` on `str`: by code points, a proper prefix first.
unfoldable pub text_compare : Text → Text → Ordering
text_compare [] [] = Ordering.eq
text_compare [] (d ∷ t) = Ordering.lt
text_compare (c ∷ s) [] = Ordering.gt
text_compare (c ∷ s) (d ∷ t) = compare c d ⊕ text_compare s t
