-- ===== src/Base/Results.antt =====
-- Results with an error of a component's own type, and their `do` blocks.
use mathlib.Core.Path.{◌≡◌, refl}
use mathlib.Core.Logic.{◌⊎◌, inl, inr}
use mathlib.Core.Bool.{Bool, true, false}
use mathlib.Core.Option.{Option, none, some}

-- A Go pair of an error and a value, of which one counts.
pub data Result {ℓ} (Fail : Type 0) (Value : Type ℓ) : Type ℓ where
  err : Fail → Result Fail Value
  ok : Value → Result Fail Value

-- The value of a call that may fail, or the error that the caller returns for it.
abbrev pub or_fail {ℓ} : {Fail : Type 0} {Value : Type ℓ} → Option Value → Fail → Result Fail Value
or_fail (some v) failure = ok v
or_fail none failure = err failure

-- `if !test { return failure }`
abbrev pub guard : {Fail : Type 0} → Bool → Fail → Result Fail (Unit {0})
guard test failure = elim test [ false ↦ err failure | true ↦ ok tt ]

infixl 5 ◌>>=◌ ◌>>◌
abbrev pub ◌>>=◌ {ℓ κ} :
    {Fail : Type 0} {Value : Type ℓ} {Next : Type κ}
    → Result Fail Value
    → (Value → Result Fail Next)
    → Result Fail Next
call >>= next = elim call [ err failure ↦ err failure | ok v ↦ next v ]

abbrev pub ◌>>◌ {κ} :
    {Fail : Type 0} {Next : Type κ} → Result Fail (Unit {0}) → Result Fail Next → Result Fail Next
call >> rest = elim call [ err failure ↦ err failure | ok _ ↦ rest ]

-- The two ways a call ends.
pub Result-cases {ℓ} :
    {Fail : Type 0} {Value : Type ℓ} (r : Result Fail Value)
    → ((v : Value) × (r ≡ ok v)) ⊎ ((failure : Fail) × (r ≡ err failure))
Result-cases (err failure) = inr (failure, refl)
Result-cases (ok v) = inl (v, refl)

-- A sequence that succeeds, seen from its end.
pub >>=-eq-ok {ℓ κ} :
    {Fail : Type 0} {Value : Type ℓ} {Next : Type κ} (call : Result Fail Value)
    (next : Value → Result Fail Next) {w : Next}
    → (call >>= next) ≡ ok w
    → (v : Value) × (call ≡ ok v) × (next v ≡ ok w)
>>=-eq-ok (err failure) next h = cc
>>=-eq-ok (ok v) next h = (v, refl, h)

pub err-injective {ℓ} :
    {Fail : Type 0} {Value : Type ℓ} {a b : Fail}
    → ◌≡◌ {A = Result Fail Value} (err a) (err b)
    → a ≡ b
err-injective h = cc

-- A guard that passed.
pub guard-ok :
    {Fail : Type 0} (test : Bool) (failure : Fail) → guard test failure ≡ ok tt → test ≡ true
guard-ok true failure h = refl
guard-ok false failure h = cc

pub guard-eq-ok {ℓ} :
    {Fail : Type 0} {Value : Type ℓ} (test : Bool) (failure : Fail) (rest : Result Fail Value)
    {v : Value}
    → (guard test failure >>= λ _. rest) ≡ ok v
    → (test ≡ true) × (rest ≡ ok v)
guard-eq-ok true failure rest h = (refl, h)
guard-eq-ok false failure rest h = cc

pub or_fail-ok {ℓ} :
    {Fail : Type 0} {Value : Type ℓ} (o : Option Value) (failure : Fail) {v : Value}
    → or_fail o failure ≡ ok v
    → o ≡ some v
or_fail-ok none failure h = cc
or_fail-ok (some w) failure h = cc

pub ok-injective {ℓ} :
    {Fail : Type 0} {Value : Type ℓ} {v w : Value}
    → ◌≡◌ {A = Result Fail Value} (ok v) (ok w)
    → v ≡ w
ok-injective h = cc
