-- ===== src/Prelude/Result.antt =====
-- `Result<A, E>` of the program with one more outcome, a panic.
use mathlib.Core.Path.{◌≡◌, refl}
use mathlib.Core.Logic.{◌⊎◌, inl, inr}
use mathlib.Core.Option.{Option, none, some}

pub data Result {ℓ κ} (E : Type ℓ) (A : Type κ) : Type (ℓ ⊔ κ) where
  ok : A → Result E A
  err : E → Result E A
  panic : Result E A

-- `e?` followed by the rest.
abbrev pub and_then {ℓ κ ι} :
    {E : Type ℓ} {A : Type κ} {B : Type ι} → Result E A → (A → Result E B) → Result E B
and_then (ok a) f = f a
and_then (err e) f = err e
and_then panic f = panic

infixl 5 ◌>>=◌
abbrev pub ◌>>=◌ {ℓ κ ι} :
    {E : Type ℓ} {A : Type κ} {B : Type ι} → Result E A → (A → Result E B) → Result E B
m >>= f = and_then m f

-- The conversion of the error that `?` makes.
abbrev pub map_err {ℓ κ ι} :
    {E : Type ℓ} {F : Type κ} {A : Type ι} → (E → F) → Result E A → Result F A
map_err g (ok a) = ok a
map_err g (err e) = err (g e)
map_err g panic = panic

pub map_err-and_then {ℓ} :
    {E F A B : Type ℓ} (g : E → F) (m : Result E A) (f : A → Result E B)
    → map_err g (and_then m f) ≡ and_then (map_err g m) (λ a. map_err g (f a))
map_err-and_then g (ok a) f = refl
map_err-and_then g (err e) f = refl
map_err-and_then g panic f = refl

-- `Result::unwrap` and `Result::expect`: an error becomes a panic.
abbrev pub unwrap {ℓ κ ι} : {E : Type ℓ} {F : Type κ} {A : Type ι} → Result E A → Result F A
unwrap (ok a) = ok a
unwrap (err e) = panic
unwrap panic = panic

-- `Option::expect`.
abbrev pub expect {ℓ κ} : {E : Type ℓ} {A : Type κ} → Option A → Result E A
expect none = panic
expect (some a) = ok a

-- Where what comes next panics, so does an `unwrap` of the whole.
pub unwrap-panic {ℓ κ ι} :
    {E : Type ℓ} {F : Type κ} {A B : Type ι} (m : Result E A) (f : A → Result E B)
    → ((a : A) → f a ≡ panic)
    → unwrap {F = F} (and_then m f) ≡ panic
unwrap-panic (ok a) f e = rw (e a) refl
unwrap-panic (err x) f e = refl
unwrap-panic panic f e = refl

-- Conversions at each step are one conversion of the whole.
module _ {ℓ κ} {E F : Type ℓ} {A B D : Type κ} (c : E → F) where
  pub and_then-map_err :
      (m : Result E A) (f : A → Result E B) (k : B → Result F D)
      → and_then (map_err c m) (λ a. and_then (map_err c (f a)) k)
        ≡ and_then (map_err c (and_then m f)) k
  and_then-map_err (ok a) f k = refl
  and_then-map_err (err e) f k = refl
  and_then-map_err panic f k = refl

pub and_then_assoc {ℓ κ} :
    {E : Type ℓ} {A B C : Type κ} (m : Result E A) (f : A → Result E B) (g : B → Result E C)
    → and_then (and_then m f) g ≡ and_then m (λ a. and_then (f a) g)
and_then_assoc (ok a) f g = refl
and_then_assoc (err e) f g = refl
and_then_assoc panic f g = refl

-- What holds of the value of a result that has one.
abbrev pub AllOk {ℓ κ ι} : {E : Type ℓ} {A : Type κ} → (A → Type ι) → Result E A → Type ι
AllOk Q (ok a) = Q a
AllOk Q (err e) = Unit
AllOk Q panic = Unit

pub AllOk-and_then {ℓ κ} :
    {E A : Type ℓ} {B : Type ℓ} (Q : A → Type κ) (Q' : B → Type κ) (m : Result E A)
    (f : A → Result E B)
    → AllOk Q m
    → ((a : A) → Q a → AllOk Q' (f a))
    → AllOk Q' (and_then m f)
AllOk-and_then Q Q' (ok a) f here more = more a here
AllOk-and_then Q Q' (err e) f here more = tt
AllOk-and_then Q Q' panic f here more = tt

pub Result-cases {ℓ} :
    {E A : Type ℓ} (m : Result E A)
    → ((a : A) × (m ≡ ok a)) ⊎ (((e : E) × (m ≡ err e)) ⊎ (m ≡ panic))
Result-cases (ok a) = inl (a, refl)
Result-cases (err e) = inr (inl (e, refl))
Result-cases panic = inr (inr refl)
