-- ===== src/Common/Outcome.antt =====
-- What a Go function returns: a value, an error with its message, or a run-time panic.
use Prim.Native.String.{String}
use mathlib.Core.Path.{◌≡◌, refl}
use mathlib.Core.Option.{Option, none, some}
use mathlib.Core.Logic.{◌⊎◌, inl, inr}
use native.Mathlib.Omega.{arith}

pub data Result {ℓ} (A : Type ℓ) : Type ℓ where
  ok : A → Result A
  err : String → Result A
  panic : Result A

-- The next call is made only if the one before it answered a value.
infixl 10 ◌>>=◌
abbrev pub ◌>>=◌ {ℓ κ} : {X : Type ℓ} {Y : Type κ} → Result X → (X → Result Y) → Result Y
panic >>= next = panic
err msg >>= next = err msg
ok x >>= next = next x

-- `errors.Wrap(err, msg)` around a failing call: the message is put in front.
abbrev pub wrap {ℓ} : {A : Type ℓ} → String → Result A → Result A
wrap msg (ok a) = ok a
wrap msg (err e) = err msg
wrap msg panic = panic

-- A call that answers "absent" turned into an error.
abbrev pub or_err {ℓ} : {A : Type ℓ} → String → Option A → Result A
or_err msg none = err msg
or_err msg (some a) = ok a

pub >>=-eq-ok {ℓ κ} :
    {X : Type ℓ} {Y : Type κ} (r : Result X) (next : X → Result Y) {y : Y}
    → (r >>= next) ≡ ok y
    → (x : X) × (r ≡ ok x) × (next x ≡ ok y)
>>=-eq-ok panic next e = ground arith
>>=-eq-ok (err msg) next e = ground arith
>>=-eq-ok (ok x) next e = (x, refl, e)

pub wrap-eq-ok {ℓ} :
    {A : Type ℓ} (msg : String) (m : Result A) {a : A} → wrap msg m ≡ ok a → m ≡ ok a
wrap-eq-ok msg (ok a) h = h
wrap-eq-ok msg (err e) h = ground arith
wrap-eq-ok msg panic h = ground arith

pub or_err-eq-ok {ℓ} :
    {A : Type ℓ} (msg : String) (o : Option A) {a : A} → or_err msg o ≡ ok a → o ≡ some a
or_err-eq-ok msg none h = ground arith
or_err-eq-ok msg (some a) h = ground arith

-- The value of a successful call; a call that fails has the default.
abbrev pub value_or {ℓ} : {A : Type ℓ} → A → Result A → A
value_or d (ok a) = a
value_or d (err e) = d
value_or d panic = d

pub Result-cases {ℓ} :
    {A : Type ℓ} (m : Result A)
    → ((a : A) × (m ≡ ok a)) ⊎ ((e : String) × (m ≡ err e)) ⊎ (m ≡ panic)
Result-cases (ok a) = inl (a, refl)
Result-cases (err e) = inr (inl (e, refl))
Result-cases panic = inr (inr refl)
