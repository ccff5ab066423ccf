-- ===== src/Prelude/Chars.antt =====
-- Texts that the program takes apart, as lists of characters, and their equality.
use Prim.Native.Nat.{ℕ, zero, suc}
use mathlib.Core.Path.{◌≡◌, refl}
use mathlib.Core.Bool.{Bool, true, false, ◌&&◌}
use mathlib.Core.List.{List, [], ◌∷◌}
use native.Mathlib.Omega.{arith}
use godeye.Prelude.Tests.{◌==◌}

abbrev pub Text : Type 0
Text = List ℕ

-- `slice(0, n)`
abbrev pub take : ℕ → Text → Text
take zero w = []
take (suc n) [] = []
take (suc n) (c ∷ cs) = c ∷ take n cs

unfoldable pub same_text : Text → Text → Bool
same_text [] [] = true
same_text (c ∷ cs) (d ∷ ds) = c == d && same_text cs ds
same_text _ _ = false

pub same_text_refl : (w : Text) → same_text w w ≡ true
unfolding same_text
same_text_refl [] = refl
same_text_refl (c ∷ cs) = ground (arith, same_text_refl cs)

pub same_text-eq : (v w : Text) → same_text v w ≡ true → v ≡ w
unfolding same_text
same_text-eq [] [] h = refl
same_text-eq [] (d ∷ ds) h = ground arith
same_text-eq (c ∷ cs) [] h = ground arith
same_text-eq (c ∷ cs) (d ∷ ds) h = ground (arith, same_text-eq cs ds)
