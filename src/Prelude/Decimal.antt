-- ===== src/Prelude/Decimal.antt =====
-- The standard library's `{}` of an unsigned number of 64 bits or less, which has 20 digits at
-- most.
use Prim.Native.Nat.{ℕ, zero, suc, ◌+◌, ◌*◌, ◌-◌, ◌<◌, ◌/◌, ◌%◌, ◌^◌}
use mathlib.Core.Path.{◌≡◌, refl, sym, ap, ◌∙◌}
use mathlib.Core.Logic.{inl, inr}
use mathlib.Core.List.{[], ◌∷◌, ◌++◌}
use native.Mathlib.Omega.{arith}
use simb.Prelude.Tests.{ltb, if◌then◌else◌, Bool-cases}
use simb.Prelude.Text.{Str}

-- The digits of a number below 10 to the power `suc fuel`.
unfoldable pub decimal_digits : ℕ → ℕ → Str
decimal_digits zero n = (48 + n) ∷ []
decimal_digits (suc fuel) n =
    let more = decimal_digits fuel (n / 10) in
    if ltb n 10 then (48 + n) ∷ [] else more ++ (48 + n % 10) ∷ []

unfoldable pub decimal : ℕ → Str
unfolding decimal_digits
decimal n = decimal_digits 19 n

-- What a text of digits says, after the number that those before it say.
unfoldable digits_value : ℕ → Str → ℕ
digits_value acc [] = acc
digits_value acc (c ∷ s) = digits_value (acc * 10 + (c - 48)) s

digits_value-append :
    (acc : ℕ) (s : Str) (c : ℕ)
    → digits_value acc (s ++ c ∷ []) ≡ digits_value acc s * 10 + (c - 48)
unfolding digits_value
digits_value-append acc [] c = refl
digits_value-append acc (d ∷ s) c = digits_value-append (acc * 10 + (d - 48)) s c

-- What so many digits can show.
cap : ℕ → ℕ
cap zero = 10
cap (suc fuel) = 10 * cap fuel

value-decimal_digits : (fuel n : ℕ) → n < cap fuel → digits_value 0 (decimal_digits fuel n) ≡ n
unfolding decimal_digits digits_value cap
value-decimal_digits zero n low = omega arith
value-decimal_digits (suc fuel) n low = elim (Bool-cases (ltb n 10)) [
  | inl e ↦ rw (e, decimal_digits) (omega arith)
  | inr e ↦
      rw (e, decimal_digits)
        (digits_value-append 0 (decimal_digits fuel (n / 10)) (48 + n % 10)
          ∙ rw (value-decimal_digits fuel (n / 10) (omega arith)) (omega arith))
]

-- Two numbers of 64 bits that are shown alike are the same.
pub decimal-injective : (m n : ℕ) → m < 2 ^ 64 → n < 2 ^ 64 → decimal m ≡ decimal n → m ≡ n
unfolding decimal cap
decimal-injective m n fits fits' e =
    sym (value-decimal_digits 19 m (omega arith))
    ∙ ap (digits_value 0) e
    ∙ value-decimal_digits 19 n (omega arith)
