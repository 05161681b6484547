-- ===== src/Common/Errors.antt =====
-- `hm_error_t` of common.h, and the result of a fallible call.
use mathlib.Core.Path.{◌≡◌, refl, ap}
use mathlib.Core.Logic.{◌⊎◌, inl, inr}
use mathlib.Core.Bool.{Bool, true, false}
use native.Mathlib.Omega.{arith}

-- The codes of common.h that stand for a failure.
pub data HmError : Type 0 where
  bad_alignment small_place no_masks bad_value bad_range bad_size : HmError

-- `ok` is HM_SUCCESS with what the call writes through its output pointers. `undefined` is
-- behaviour that C leaves undefined, and `exhausted` says that a loop's fuel ran out.
pub data Outcome {ℓ} (A : Type ℓ) : Type ℓ where
  ok : A → Outcome A
  err : HmError → Outcome A
  undefined exhausted : Outcome A

-- A call whose result the rest of the function goes on with; any other outcome ends the function.
infixl 5 ◌>>=◌ ◌>>◌
abbrev pub ◌>>=◌ {ℓ ℓ'} : {A : Type ℓ} {B : Type ℓ'} → Outcome A → (A → Outcome B) → Outcome B
exhausted >>= rest = exhausted
undefined >>= rest = undefined
err code >>= rest = err code
ok result >>= rest = rest result

-- A call that has no result but its code.
abbrev pub ◌>>◌ {ℓ} : {B : Type ℓ} → Outcome (Unit {0}) → Outcome B → Outcome B
call >> rest = call >>= (λ _. rest)

-- `if (bad) return e;`
abbrev pub fail_if : Bool → HmError → Outcome (Unit {0})
fail_if true e = err e
fail_if false e = ok tt

-- A function that succeeds had a first call that did.
pub >>=-eq-ok {ℓ ℓ'} :
    {A : Type ℓ} {B : Type ℓ'} (call : Outcome A) (rest : A → Outcome B) {final : B}
    → call >>= rest ≡ ok final
    → (result : A) × (call ≡ ok result) × (rest result ≡ ok final)
>>=-eq-ok exhausted rest h = cc
>>=-eq-ok undefined rest h = cc
>>=-eq-ok (err code) rest h = cc
>>=-eq-ok (ok result) rest h = (result, refl, h)

pub fail_if-eq-ok : (b : Bool) (e : HmError) {u : Unit {0}} → fail_if b e ≡ ok u → b ≡ false
fail_if-eq-ok true e h = cc
fail_if-eq-ok false e h = refl

-- Inversion of a bind that fails.
pub >>=-eq-err {ℓ κ} :
    {A : Type ℓ} {B : Type κ} (m : Outcome A) (f : A → Outcome B) {e : HmError}
    → (m >>= f) ≡ err e
    → (m ≡ err e) ⊎ ((a : A) × (m ≡ ok a) × (f a ≡ err e))
>>=-eq-err (ok a) f h = inr (a, refl, h)
>>=-eq-err (err d) f h = inl (cc)
>>=-eq-err undefined f h = cc
>>=-eq-err exhausted f h = cc

pub fail_if-eq-err : (b : Bool) (d e : HmError) → fail_if b d ≡ err e → (b ≡ true) × (d ≡ e)
fail_if-eq-err true d e h = ground arith
fail_if-eq-err false d e h = cc

-- The result of a call that has one.
abbrev result_or {ℓ} : {A : Type ℓ} → A → Outcome A → A
result_or a (ok result) = result
result_or a _ = a

pub ok_inj {ℓ} : {A : Type ℓ} {a b : A} → ok a ≡ ok b → a ≡ b
ok_inj {a = a} h = ap (result_or a) h
