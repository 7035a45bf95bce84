-- ===== src/Prelude/Errors.antt =====
-- lib.rs: `CoreError` and `Result`, with the monad that `?` is. A message is a list of code points.
use Prim.Native.String.{String}
use mathlib.Core.Logic.{◌⊎◌, inl, inr}
use mathlib.Core.Path.{◌≡◌, refl}
use mathlib.Core.Bool.{Bool, true, false}
use mathlib.Core.Option.{Option, none, some}

pub data CoreError : Type 0 where
  entropy crypto cbor db io config identity_changed : String → CoreError

pub data Result {ℓ} (A : Type ℓ) : Type ℓ where
  err : CoreError → Result A
  ok : A → Result A

infixl 5 ◌>>=◌
abbrev pub ◌>>=◌ {ℓ κ} : {A : Type ℓ} {B : Type κ} → Result A → (A → Result B) → Result B
err reason >>= next = err reason
ok value >>= next = next value

infixl 5 ◌>>◌
abbrev pub ◌>>◌ {ℓ} : {B : Type ℓ} → Result (Unit {0}) → Result B → Result B
first >> second = first >>= λ _. second

-- `if test { return Err(e) }`.
abbrev pub fail_if : Bool → CoreError → Result (Unit {0})
fail_if true e = err e
fail_if false e = ok tt

abbrev pub is_err {ℓ} : {A : Type ℓ} → Result A → Bool
is_err (ok a) = false
is_err (err e) = true

-- `Option::ok_or`.
abbrev pub ok_or {ℓ} : {A : Type ℓ} → Option A → CoreError → Result A
ok_or none e = err e
ok_or (some a) e = ok a

pub Result-cases {ℓ} :
    {A : Type ℓ} (r : Result A) → ((a : A) × (r ≡ ok a)) ⊎ ((e : CoreError) × (r ≡ err e))
Result-cases (ok a) = inl (a, refl)
Result-cases (err e) = inr (e, refl)

pub >>=-eq-ok {ℓ κ} :
    {B : Type κ} {A : Type ℓ} {b : B} (first : Result A) (next : A → Result B)
    → (first >>= next) ≡ ok b
    → (value : A) × (first ≡ ok value) × (next value ≡ ok b)
>>=-eq-ok (err reason) next through = cc
>>=-eq-ok (ok value) next through = (value, refl, through)

-- What a call of a third-party function comes back with: its error is a text.
pub data Outcome {ℓ} (A : Type ℓ) : Type ℓ where
  done : A → Outcome A
  failed : String → Outcome A

-- `map_err(|e| wrap(e.to_string()))`.
abbrev pub map_err {ℓ} : {A : Type ℓ} → (String → CoreError) → Outcome A → Result A
map_err wrap (done a) = ok a
map_err wrap (failed e) = err (wrap e)
