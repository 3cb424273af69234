-- ===== src/Prelude/Results.antt =====
-- Results of code that throws, and the exception classes that the source throws. The text of a
-- message is left out; the class is what a handler catches by.
use mathlib.Core.Path.{◌≡◌, refl}
use mathlib.Core.Bool.{Bool, true, false}
use mathlib.Core.Logic.{◌⊎◌, inl, inr}
use native.Mathlib.Omega.{arith}

pub data Exception : Type 0 where
  invalid_argument out_of_range length_error logic_error runtime_error overflow_error : Exception

pub data Result {ℓ κ} (E : Type ℓ) (A : Type κ) : Type (ℓ ⊔ κ) where
  err : E → Result E A
  ok : A → Result E A

-- A function of the source that may throw.
abbrev pub Throws {κ} : Type κ → Type κ
Throws A = Result Exception A

-- `if (bad) throw e;`, and `if (bad) return e;` where errors are values.
abbrev pub fail_if {ℓ} : {E : Type ℓ} → Bool → E → Result E (Unit {0})
fail_if bad failure = elim bad [ true ↦ err failure | false ↦ ok tt ]

-- The statement after one that may throw, with what that one returned.
infixl 5 ◌>>=◌
abbrev pub ◌>>=◌ {ℓ κ μ} :
    {E : Type ℓ} {A : Type κ} {B : Type μ} → Result E A → (A → Result E B) → Result E B
run >>= next = elim run [ err failure ↦ err failure | ok value ↦ next value ]

infixl 5 ◌>>◌
abbrev pub ◌>>◌ {ℓ κ} : {E : Type ℓ} {B : Type κ} → Result E (Unit {0}) → Result E B → Result E B
check >> rest = elim check [ err failure ↦ err failure | ok done ↦ rest ]

pub >>=-eq-ok {ℓ κ μ} :
    {E : Type ℓ} {A : Type κ} {B : Type μ} (run : Result E A) (next : A → Result E B) {result : B}
    → (run >>= next) ≡ ok result
    → (value : A) × (run ≡ ok value) × (next value ≡ ok result)
>>=-eq-ok (err failure) next returned = cc
>>=-eq-ok (ok value) next returned = (value, refl, returned)

pub fail_if-eq-ok {ℓ κ} :
    {E : Type ℓ} {B : Type κ} (t : Bool) (e : E) (k : Result E B) {b : B}
    → (fail_if t e >> k) ≡ ok b
    → (t ≡ false) × (k ≡ ok b)
fail_if-eq-ok true e k h = cc
fail_if-eq-ok false e k h = (refl, h)

pub Result-cases {ℓ κ} :
    {E : Type ℓ} {A : Type κ} (r : Result E A) → ((a : A) × (r ≡ ok a)) ⊎ ((e : E) × (r ≡ err e))
Result-cases (ok a) = inl (a, refl)
Result-cases (err e) = inr (e, refl)

pub ok-injective {ℓ} : {A : Type ℓ} {a b : A} (r : Throws A) → r ≡ ok a → r ≡ ok b → a ≡ b
ok-injective r e e' = ground arith
