-- ===== src/Base/Results.antt =====
-- `Result<A, E>`, with the `?` operator as `>>=`.
use mathlib.Core.Path.{◌≡◌, refl}
use mathlib.Core.Bool.{Bool, true, false}

pub data Result {ℓ} (E A : Type ℓ) : Type ℓ where
  ok : A → Result E A
  err : E → Result E A

infixl 5 ◌>>=◌
abbrev pub ◌>>=◌ {ℓ} : {E A B : Type ℓ} → Result E A → (A → Result E B) → Result E B
ok a >>= f = f a
err e >>= f = err e

-- `is_ok`
abbrev pub is_ok {ℓ} : {E A : Type ℓ} → Result E A → Bool
is_ok (ok a) = true
is_ok (err e) = false

-- Where a chain succeeds, its first part returned a value that the rest accepts.
abbrev pub HasValue {ℓ} : {E A B : Type ℓ} → Result E A → (A → Result E B) → B → Type ℓ
HasValue {A = A} first rest b = (a : A) × (first ≡ ok a) × (rest a ≡ ok b)

pub >>=-HasValue {ℓ} :
    {E A B : Type ℓ} (first : Result E A) (rest : A → Result E B) {b : B}
    → (first >>= rest) ≡ ok b
    → HasValue first rest b
>>=-HasValue (err e) rest done = cc
>>=-HasValue (ok a) rest done = (a, refl, done)
