-- ===== src/Rpc/Hex.antt =====
-- The standard library, as src/rpc.rs uses it: `u64::from_str_radix(_, 16)` and `format!("0x{:x}",
-- _)`.
use simb.Prelude.{
  ℕ, zero, suc, ◌+◌, ◌*◌, ◌/◌, ◌%◌, ◌<◌, ◌-◌, ◌≡◌, refl, sym, ap, ◌∙◌, [], ◌∷◌, ◌++◌, Option, none,
  some, false, ◌&&◌, ◌==◌, arith, Str, ltb, leb, if◌then◌else◌, Bool-cases, inl, inr,
}
use simb.External.{u64_mod}

-- The digits 0-9 and a-f, and A-F where a text is read.
abbrev pub digit_char : ℕ → ℕ
digit_char d = if ltb d 10 then 48 + d else 87 + d

abbrev pub to_digit : ℕ → Option ℕ
to_digit c =
    if leb 48 c && leb c 57
    then some (c - 48)
    else if leb 97 c && leb c 102
    then some (c - 87)
    else if leb 65 c && leb c 70
    then some (c - 55)
    else none

-- The digits of a number below 16 to the power `suc fuel`.
unfoldable pub hex_digits : ℕ → ℕ → Str
hex_digits zero n = digit_char n ∷ []
hex_digits (suc fuel) n =
    let more = hex_digits fuel (n / 16) in
    if ltb n 16 then digit_char n ∷ [] else more ++ digit_char (n % 16) ∷ []

-- `{:x}` of a u64, which has 16 digits at most.
unfoldable pub hex : ℕ → Str
unfolding hex_digits
hex n = hex_digits 15 n

-- One digit more, where it is a digit and the number stays a u64.
abbrev pub push_digit : ℕ → ℕ → Option ℕ
push_digit acc c = elim (to_digit c) [
  | none ↦ none
  | some d ↦ if ltb (acc * 16 + d) u64_mod then some (acc * 16 + d) else none
]

unfoldable pub read_digits : Option ℕ → Str → Option ℕ
read_digits none s = none
read_digits (some acc) [] = some acc
read_digits (some acc) (c ∷ s) = read_digits (push_digit acc c) s

-- A sign `+` (43) may stand first; there must be a digit.
unfoldable pub from_str_radix : Str → Option ℕ
unfolding read_digits
from_str_radix [] = none
from_str_radix (c ∷ []) = read_digits (some 0) (c ∷ [])
from_str_radix (c ∷ d ∷ s) = read_digits (some 0) (if c == 43 then d ∷ s else c ∷ d ∷ s)

abbrev then_digit : Option ℕ → ℕ → Option ℕ
then_digit none c = none
then_digit (some n) c = push_digit n c

read_digits_nil : (o : Option ℕ) → read_digits o [] ≡ o
unfolding read_digits
read_digits_nil none = refl
read_digits_nil (some n) = refl

read_digits-none : (s : Str) → read_digits none s ≡ none
unfolding read_digits
read_digits-none s = refl

read_digits-append :
    (o : Option ℕ) (s : Str) (c : ℕ) → read_digits o (s ++ c ∷ []) ≡ then_digit (read_digits o s) c
unfolding read_digits
read_digits-append none s c = refl
read_digits-append (some acc) [] c = read_digits_nil (push_digit acc c)
read_digits-append (some acc) (d ∷ s) c = read_digits-append (push_digit acc d) s c

push_digit_lem :
    (n d : ℕ) → d < 16 → n * 16 + d < u64_mod → push_digit n (digit_char d) ≡ some (n * 16 + d)
push_digit_lem n d low fits = ground arith

-- What so many digits can show.
cap : ℕ → ℕ
cap zero = 16
cap (suc fuel) = 16 * cap fuel

one_digit : (n : ℕ) → n < 16 → read_digits (some 0) (digit_char n ∷ []) ≡ some n
unfolding read_digits
one_digit n low =
    read_digits_nil (push_digit 0 (digit_char n))
    ∙ push_digit_lem 0 n low (omega arith)
    ∙ ap some (omega arith)

hex_digits_lem :
    (fuel n : ℕ) → n < cap fuel → n < u64_mod → read_digits (some 0) (hex_digits fuel n) ≡ some n
unfolding hex_digits cap
hex_digits_lem zero n low fits = one_digit n low
hex_digits_lem (suc fuel) n low fits = elim (Bool-cases (ltb n 16)) [
  | inl e ↦ rw (e, hex_digits) (one_digit n (ground arith))
  | inr e ↦
      let whole : n / 16 * 16 + n % 16 ≡ n = omega arith in
      rw (e, hex_digits)
        (read_digits-append (some 0) (hex_digits fuel (n / 16)) (digit_char (n % 16))
          ∙ rw (hex_digits_lem fuel (n / 16) (omega arith) (omega arith))
              (push_digit_lem (n / 16) (n % 16) (omega arith) (omega arith) ∙ ap some whole))
]

-- The text of a number starts with a digit: neither a sign nor a byte inside a character.
abbrev IsDigit : ℕ → Type 0
IsDigit c = ((c == 43) ≡ false) × (leb 128 c ≡ false)

digit_char-IsDigit : (d : ℕ) → d < 16 → IsDigit (digit_char d)
digit_char-IsDigit d low = (ground arith, ground arith)

hex_digits_head :
    (fuel n : ℕ) → n < cap fuel → (c : ℕ) × (s : Str) × (hex_digits fuel n ≡ c ∷ s) × IsDigit c
unfolding hex_digits cap
hex_digits_head zero n low = (digit_char n, [], refl, digit_char-IsDigit n low)
hex_digits_head (suc fuel) n low = elim (Bool-cases (ltb n 16)) [
  | inl e ↦ (digit_char n, [], rw (e, hex_digits) refl, digit_char-IsDigit n (ground arith))
  | inr e ↦
      let (c, s, same, digit) = hex_digits_head fuel (n / 16) (omega arith) in
      (c, s ++ digit_char (n % 16) ∷ [], rw (e, hex_digits) (rw same refl), digit)
]

pub hex_head :
    (n : ℕ)
    → n < u64_mod
    → (c : ℕ) × (s : Str) × (hex n ≡ c ∷ s) × ((c == 43) ≡ false) × (leb 128 c ≡ false)
unfolding hex cap
hex_head n fits =
    let (c, s, same, digit) = hex_digits_head 15 n fits in (c, s, same, digit.0, digit.1)

from_str_radix_lem :
    (c : ℕ) (s : Str) → (c == 43) ≡ false → from_str_radix (c ∷ s) ≡ read_digits (some 0) (c ∷ s)
unfolding from_str_radix
from_str_radix_lem c [] e = refl
from_str_radix_lem c (d ∷ s) e = rw (e, from_str_radix) refl

-- The hexadecimal text that a u64 is shown as is read as that number.
pub from_str_radix-hex : (n : ℕ) → n < u64_mod → from_str_radix (hex n) ≡ some n
unfolding hex cap
from_str_radix-hex n fits =
    let (c, s, same, no_sign, _) = hex_head n fits in
    ap from_str_radix same
    ∙ from_str_radix_lem c s no_sign
    ∙ ap (read_digits (some 0)) (sym same)
    ∙ hex_digits_lem 15 n fits fits
