-- ===== src/Base/Flow.antt =====
-- Fallible code. `Option` stands for a call that may abort (a failed assertion, `abort()` or a
-- read through NULL give `none`); `Outcome` is for functions that also return an error code.
use mathlib.Core.Path.{◌≡◌, refl}
use mathlib.Core.Bool.{Bool, true, false}
use cbgp.Base.Tests.{if◌then◌else◌}
use mathlib.Core.Option.{Option, none, some}

infixl 5 ◌>>=◌
abbrev pub ◌>>=◌ {ℓ κ} : {A : Type ℓ} {B : Type κ} → Option A → (A → Option B) → Option B
none >>= f = none
some a >>= f = f a

pub data Outcome {ℓ} (A : Type ℓ) : Type ℓ where
  ok : A → Outcome A
  -- the function returns -1 (or NULL)
  error : Outcome A
  -- the process is aborted
  aborted : Outcome A

abbrev pub and_then {ℓ κ} : {A : Type ℓ} {B : Type κ} → Outcome A → (A → Outcome B) → Outcome B
and_then (ok a) f = f a
and_then error f = error
and_then aborted f = aborted

-- Where a chain of calls returns a result, its first call returned one.
pub and_then-ok {ℓ κ} :
    {A : Type ℓ} {B : Type κ} (o : Outcome A) (f : A → Outcome B) (b : B)
    → and_then o f ≡ ok b
    → (a : A) × (o ≡ ok a) × (f a ≡ ok b)
and_then-ok (ok a) f b e = (a, refl, e)
and_then-ok error f b e = absurd (cc)
and_then-ok aborted f b e = absurd (cc)

pub if_error-ok {ℓ} :
    {A : Type ℓ} (t : Bool) (o : Outcome A) (b : A)
    → (if t then error else o) ≡ ok b
    → (t ≡ false) × (o ≡ ok b)
if_error-ok true o b e = absurd (cc)
if_error-ok false o b e = (refl, e)

pub ok_injective {ℓ} : {A : Type ℓ} (a b : A) → ok a ≡ ok b → a ≡ b
ok_injective a b e = cc

pub >>=-some {ℓ κ} :
    {A : Type ℓ} {B : Type κ} (o : Option A) (f : A → Option B) (b : B)
    → (o >>= f) ≡ some b
    → (a : A) × (o ≡ some a) × (f a ≡ some b)
>>=-some (some a) f b e = (a, refl, e)
>>=-some none f b e = absurd (cc)

pub some_injective {ℓ} : {A : Type ℓ} (a b : A) → some a ≡ some b → a ≡ b
some_injective a b e = cc

pub bind_some {ℓ κ} :
    {A : Type ℓ} {B : Type κ} (o : Option A) (a : A) (f : A → Option B)
    → o ≡ some a
    → (o >>= f) ≡ f a
bind_some o a f e = rw e refl
