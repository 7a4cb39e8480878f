-- ===== src/Base/Result.antt =====
-- A value or an error: Go's `(T, error)` where the value is not used beside an error.
use mathlib.Core.Path.{◌≡◌, refl}
use mathlib.Core.Bool.{Bool, true, false}

pub data Result (E A : Type 0) : Type 0 where
  err : E → Result E A
  ok : A → Result E A

module _ {E A B : Type 0} where
  -- `if err != nil { return err }`
  infixl 5 ◌>>=◌
  abbrev pub ◌>>=◌ : Result E A → (A → Result E B) → Result E B
  err e >>= rest = err e
  ok value >>= rest = rest value

  -- What a chain that succeeded went through.
  pub through :
      (first : Result E A) (rest : A → Result E B) {last : B}
      → (first >>= rest) ≡ ok last
      → (middle : A) × (first ≡ ok middle) × (rest middle ≡ ok last)
  through (err e) rest same = cc
  through (ok value) rest same = (value, refl, same)

-- `if bad { return err }` before the rest
abbrev pub unless : {E A : Type 0} → Bool → E → Result E A → Result E A
unless true e rest = err e
unless false e rest = rest

pub unless_ok :
    {E A : Type 0} (bad : Bool) (e : E) (rest : Result E A) {last : A}
    → unless bad e rest ≡ ok last
    → (bad ≡ false) × (rest ≡ ok last)
unless_ok true e rest same = absurd cc
unless_ok false e rest same = (refl, same)

pub unless_not :
    {E A : Type 0} (bad : Bool) (e : E) (rest : Result E A) → bad ≡ false → unless bad e rest ≡ rest
unless_not true e rest same = absurd cc
unless_not false e rest same = refl
