-- ===== src/Prelude/Strings.antt =====
-- std::string's comparison; a character is its code.
use Prim.Native.Nat.{ℕ}
use mathlib.Core.Path.{◌≡◌, refl}
use mathlib.Core.Bool.{Bool, true, false}
use mathlib.Core.List.{List, [], ◌∷◌}
use native.Mathlib.Omega.{arith}
use kung_fu_chess.Prelude.Tests.{◌==◌, if◌then◌else◌}

unfoldable pub string_eq : List ℕ → List ℕ → Bool
string_eq [] [] = true
string_eq (x ∷ xs) (y ∷ ys) = let rest = string_eq xs ys in if x == y then rest else false
string_eq _ _ = false

pub string_eq_lem : (a b : List ℕ) → string_eq a b ≡ true → a ≡ b
unfolding string_eq
string_eq_lem [] [] e = refl
string_eq_lem (x ∷ xs) (y ∷ ys) e = ground (arith, string_eq_lem xs ys)
string_eq_lem [] (y ∷ ys) e = cc
string_eq_lem (x ∷ xs) [] e = cc

pub string_eq_self : (a : List ℕ) → string_eq a a ≡ true
unfolding string_eq
string_eq_self [] = refl
string_eq_self (x ∷ xs) = ground (arith, string_eq_self xs)
