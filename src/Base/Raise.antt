-- ===== src/Base/Raise.antt =====
-- A Python call: a value, or the exception that it raises.
use Prim.Native.String.{String}
use mathlib.Core.Path.{◌≡◌}
use mathlib.Core.Bool.{Bool, true, false}

pub data PyError : Type 0 where
  value_error runtime_error reporting_conflict_error key_error : String → PyError
  zero_division_error type_error overflow_error : PyError

pub data Call {ℓ} (A : Type ℓ) : Type ℓ where
  returned : A → Call A
  raised : PyError → Call A

infixl 5 ◌>>=◌ ◌>>◌
-- A call after which the next one is made, unless it raised.
abbrev pub ◌>>=◌ {ℓ} : {A B : Type ℓ} → Call A → (A → Call B) → Call B
◌>>=◌ call next = elim call [ raised problem ↦ raised problem | returned value ↦ next value ]

-- the same after a check that returns nothing
abbrev pub ◌>>◌ {ℓ} : {B : Type ℓ} → Call (Unit {0}) → Call B → Call B
◌>>◌ check call = elim check [ raised problem ↦ raised problem | returned _ ↦ call ]

-- `if b: raise e`
abbrev pub raise_if : Bool → PyError → Call (Unit {0})
raise_if true e = raised e
raise_if false e = returned tt

-- The call returns, and its value satisfies `P`.
abbrev pub Returns {ℓ} : {A : Type ℓ} → (A → Type 0) → Call A → Type 0
Returns P (returned a) = P a
Returns P (raised e) = ⊥

-- The call returns, and its value satisfies `P`; where `C` holds it may raise `problem` instead.
abbrev pub ReturnsUnless {ℓ} : {A : Type ℓ} → Type 0 → PyError → (A → Type 0) → Call A → Type 0
ReturnsUnless C problem P (returned a) = P a
ReturnsUnless C problem P (raised e) = C × (e ≡ problem)

pub ReturnsUnless-map {ℓ} :
    {A : Type ℓ} (C : Type 0) (problem : PyError) (P Q : A → Type 0) (r : Call A)
    → ReturnsUnless C problem P r
    → ((a : A) → P a → Q a)
    → ReturnsUnless C problem Q r
ReturnsUnless-map C problem P Q (returned a) h f = f a h
ReturnsUnless-map C problem P Q (raised e) h f = h

pub Returns-map {ℓ} :
    {A : Type ℓ} (P Q : A → Type 0) (r : Call A) → Returns P r → ((a : A) → P a → Q a) → Returns Q r
Returns-map P Q (returned a) h f = f a h
Returns-map P Q (raised e) h f = h

pub Returns-bind {ℓ} :
    {A B : Type ℓ} (P : A → Type 0) (Q : B → Type 0) (call : Call A) (next : A → Call B)
    → Returns P call
    → ((a : A) → P a → Returns Q (next a))
    → Returns Q (call >>= next)
Returns-bind P Q (returned a) next h f = f a h
Returns-bind P Q (raised e) next h f = absurd h

-- If the call returns, its value satisfies `P`.
abbrev pub WhenReturned {ℓ} : {A : Type ℓ} → (A → Type 0) → Call A → Type 0
WhenReturned P (returned a) = P a
WhenReturned P (raised e) = Unit

pub WhenReturned-bind {ℓ} :
    {A B : Type ℓ} (P : A → Type 0) (Q : B → Type 0) (call : Call A) (next : A → Call B)
    → WhenReturned P call
    → ((a : A) → P a → WhenReturned Q (next a))
    → WhenReturned Q (call >>= next)
WhenReturned-bind P Q (returned a) next h f = f a h
WhenReturned-bind P Q (raised e) next h f = tt
