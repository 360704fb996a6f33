-- ===== src/Prelude/Exec.antt =====
-- Code that changes a state and may fail.
use mathlib.Core.Path.{◌≡◌, refl}
use simb.Prelude.Result.{Result, ok, err, panic, and_then, unwrap as unwrap_result}

-- Code that changes a state: what was written before an error or a panic stays written.
abbrev pub Exec {ℓ} : Type ℓ → Type ℓ → Type ℓ → Type ℓ
Exec S E A = S → Result E A × S

module _ {ℓ} {S E A B : Type ℓ} where
  abbrev pub continue : Result E A → (A → Exec S E B) → Exec S E B
  continue (ok a) f s = f a s
  continue (err e) f s = (err e, s)
  continue panic f s = (panic, s)

  infixl 5 ◌>>=◌
  abbrev pub ◌>>=◌ : Exec S E A → (A → Exec S E B) → Exec S E B
  ◌>>=◌ m f s = continue (m s).0 f (m s).1

module _ {ℓ} {S E A : Type ℓ} where
  abbrev pub pure : A → Exec S E A
  pure a s = (ok a, s)

  -- Code that only reads the state.
  abbrev pub reads : (S → Result E A) → Exec S E A
  reads f s = (f s, s)

pub continue-pure {ℓ} :
    {S E A B : Type ℓ} (r : Result E A) (b : B) (s : S)
    → continue r (λ _. pure b) s ≡ (and_then r (λ _. ok b), s)
continue-pure (ok a) b s = refl
continue-pure (err e) b s = refl
continue-pure panic b s = refl

-- `unwrap` on the result of a call that changes the state.
abbrev pub unwrap {ℓ} : {S E F A : Type ℓ} → Exec S E A → Exec S F A
unwrap m s = (unwrap_result (m s).0, (m s).1)

-- Code that changes one of two states.
module _ {ℓ} {S T E A : Type ℓ} where
  abbrev pub on_first : Exec S E A → Exec (S × T) E A
  on_first m s = ((m s.0).0, ((m s.0).1, s.1))

  abbrev pub on_second : Exec T E A → Exec (S × T) E A
  on_second m s = ((m s.1).0, (s.0, (m s.1).1))
