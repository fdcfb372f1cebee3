-- ===== src/Scripts/Numbers.antt =====
-- A number that is printed in decimals is read as that number: its digits are all there.
use kung_fu_chess.Prelude.{
  ℕ, zero, suc, ◌+◌, ◌-◌, ◌*◌, ◌/◌, ◌%◌, ◌<◌, ◌≡◌, refl, true, ltb, Bool-cases, inl, inr, none,
  some, subst, [], ◌∷◌, ◌++◌, arith,
}
use kung_fu_chess.Io.{Text}
use kung_fu_chess.Io.MoveLog.{decimal_within, decimal}
use kung_fu_chess.Scripts.Processor.{is_digit, digits}

digits-append :
    (k m c : ℕ) (s : Text)
    → digits k s ≡ some m
    → is_digit c ≡ true
    → digits k (s ++ c ∷ []) ≡ some (m * 10 + (c - 48))
unfolding digits
digits-append k m c [] e d = let same : k ≡ m = cc in rw (d, same) refl
digits-append k m c (x ∷ s) e d = elim (Bool-cases (is_digit x)) [
  | inl a ↦ rw a (digits-append (k * 10 + (x - 48)) m c s (rw a at e) d)
  | inr a ↦ let never : none ≡ some m = rw a at e in absurd (cc)
]

digits-decimal_within : (fuel n : ℕ) → n < fuel → digits 0 (decimal_within fuel n) ≡ some n
unfolding decimal_within digits
digits-decimal_within zero n x = absurd (omega (arith, x))
digits-decimal_within (suc fuel) n x = elim (Bool-cases (ltb n 10)) [
  | inl a ↦ rw a (
      subst (λ m. digits 0 ((48 + n) ∷ []) ≡ some m) (omega arith)
        (digits-append 0 0 (48 + n) [] refl (ground (arith, a))))
  | inr a ↦ rw a (
      subst (λ m. digits 0 (decimal_within fuel (n / 10) ++ (48 + n % 10) ∷ []) ≡ some m)
        (ground (arith, a))
        (digits-append 0 (n / 10) (48 + n % 10) (decimal_within fuel (n / 10))
          (digits-decimal_within fuel (n / 10) (ground (arith, a, x))) (ground arith)))
]

pub digits-decimal : (n : ℕ) → digits 0 (decimal n) ≡ some n
unfolding decimal
digits-decimal n = digits-decimal_within (suc n) n (omega arith)
