-- ===== src/Base/Decimal.antt =====
-- The fuel of `decimal` is enough: the digits that it prints read back as the number.
use Prim.Native.Char.{Char, code}
use Prim.Native.Nat.{ℕ, zero, suc, ◌+◌, ◌-◌, ◌*◌, ◌/◌, ◌%◌, ◌<◌}
use Prim.Native.String.{String, ◌++◌}
use Prim.Native.String.append
use mathlib.Core.Path.{◌≡◌, refl, ap, ◌∙◌}
use mathlib.Core.Logic.{inl, inr}
use mathlib.Core.Bool.{Bool, true, ◌&&◌}
use native.Mathlib.Omega.{arith}
use sftpgo_operator.Base.Tests.{ltb, leb, Bool-cases}
use sftpgo_operator.Base.Int.{pos}
use sftpgo_operator.Base.Text.{digit, decimal_loop, decimal}

-- What the digits of a text say after the number `n`.
abbrev pub value : ℕ → String → ℕ
value n String.[] = n
value n (String.◌∷◌ c s) = value (n * 10 + (code c - 48)) s

abbrev pub is_digit : Char → Bool
is_digit c = leb 48 (code c) && leb (code c) 57

abbrev pub are_digits : String → Bool
are_digits String.[] = true
are_digits (String.◌∷◌ c s) = is_digit c && are_digits s

digit-value :
    (d m : ℕ) (out : String)
    → d < 10
    → (value m (digit d ++ out) ≡ value (m * 10 + d) out)
      × (are_digits (digit d ++ out) ≡ are_digits out)
unfolding digit
digit-value zero m out h = rw (append.cons, append.nil) (refl, refl)
digit-value (suc zero) m out h = rw (append.cons, append.nil) (refl, refl)
digit-value (suc (suc zero)) m out h = rw (append.cons, append.nil) (refl, refl)
digit-value (suc (suc (suc zero))) m out h = rw (append.cons, append.nil) (refl, refl)
digit-value (suc (suc (suc (suc zero)))) m out h = rw (append.cons, append.nil) (refl, refl)
digit-value (suc (suc (suc (suc (suc zero))))) m out h = rw (append.cons, append.nil) (refl, refl)
digit-value (suc (suc (suc (suc (suc (suc zero)))))) m out h =
    rw (append.cons, append.nil) (refl, refl)
digit-value (suc (suc (suc (suc (suc (suc (suc zero))))))) m out h =
    rw (append.cons, append.nil) (refl, refl)
digit-value (suc (suc (suc (suc (suc (suc (suc (suc zero)))))))) m out h =
    rw (append.cons, append.nil) (refl, refl)
digit-value (suc (suc (suc (suc (suc (suc (suc (suc (suc zero))))))))) m out h =
    rw (append.cons, append.nil) (refl, refl)
digit-value (suc (suc (suc (suc (suc (suc (suc (suc (suc (suc d)))))))))) m out h =
    absurd (omega arith)

loop-value :
    (fuel n : ℕ) (out : String)
    → n < fuel
    → (value 0 (decimal_loop fuel n out) ≡ value n out)
      × (are_digits (decimal_loop fuel n out) ≡ are_digits out)
unfolding decimal_loop
loop-value zero n out h = absurd (omega arith)
loop-value (suc fuel) n out h = elim (Bool-cases (ltb n 10)) [
  | inl small ↦
      let (reads, spelt) = digit-value n 0 out (ground arith) in
      rw small (reads ∙ ap (λ k. value k out) (omega arith), spelt)
  | inr large ↦
      let (reads, spelt) = digit-value (n % 10) (n / 10) out (omega arith) in
      let (outer, all) = loop-value fuel (n / 10) (digit (n % 10) ++ out) (ground arith) in
      rw large (outer ∙ reads ∙ ap (λ k. value k out) (omega arith), all ∙ spelt)
]

-- A number is printed in digits, and they read back as it, however large it is.
pub decimal-value :
    (n : ℕ) → (value 0 (decimal (pos n)) ≡ n) × (are_digits (decimal (pos n)) ≡ true)
unfolding decimal
decimal-value n = loop-value (n + 1) n "" (omega arith)
