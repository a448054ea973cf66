-- ===== src/Base/Outcome.antt =====
-- How a piece of the program ends: with a value, by a panic, or with the model's fuel used up.
use mathlib.Core.Path.{◌≡◌, refl}
use mathlib.Core.Option.{Option, none, some}

-- The panics of the program, by the place that raises them. A panic ends the process: it leaves no
-- state behind, and its message is not modelled.
pub data Panic : Type 0 where
  -- a slice index past the end, `&v.as_bytes()[0..2]`
  slice_index : Panic
  -- `unwrap` on `None` or on an `Err`
  unwrap_failed : Panic
  -- `assert_eq!`
  assert_failed : Panic
  -- `set_storage`: "Invalid storage value data"
  invalid_storage_value : Panic
  -- `call`: "No code found form account" and "Not such account"
  no_code no_account : Panic
  -- `update`: "other destructed_accounts length invalid" and "Invalid state for context"
  destructed_length invalid_state : Panic
  -- ethereum_types: "arithmetic operation overflow"
  overflow : Panic
  -- build.rs: "Can not find {}"
  library_not_found : Panic
  -- undefined behaviour: an access through a pointer whose box is not there
  dangling : Panic

pub data Outcome {ℓ} (A : Type ℓ) : Type ℓ where
  returns : A → Outcome A
  panic : Panic → Outcome A
  out_of_fuel : Outcome A

infixl 5 ◌>>=◌
abbrev pub ◌>>=◌ {ℓ κ} : {A : Type ℓ} {B : Type κ} → Outcome A → (A → Outcome B) → Outcome B
returns a >>= f = f a
panic p >>= f = panic p
out_of_fuel >>= f = out_of_fuel

pub returns-injective {ℓ} : {A : Type ℓ} {x y : A} → returns x ≡ returns y → x ≡ y
returns-injective e = cc

-- `Option::unwrap`
abbrev pub unwrap {ℓ} : {A : Type ℓ} → Option A → Outcome A
unwrap none = panic unwrap_failed
unwrap (some a) = returns a

pub >>=-assoc {ℓ κ ι} :
    {A : Type ℓ} {B : Type κ} {C : Type ι} (m : Outcome A) (f : A → Outcome B) (g : B → Outcome C)
    → (m >>= f >>= g) ≡ (m >>= λ a. f a >>= g)
>>=-assoc (returns a) f g = refl
>>=-assoc (panic p) f g = refl
>>=-assoc out_of_fuel f g = refl

-- A bind that returns has run both of its parts.
pub >>=-eq-returns {ℓ κ} :
    {A : Type ℓ} {B : Type κ} (m : Outcome A) (f : A → Outcome B) {b : B}
    → (m >>= f) ≡ returns b
    → (a : A) × (m ≡ returns a) × (f a ≡ returns b)
>>=-eq-returns (returns a) f h = (a, refl, h)
>>=-eq-returns (panic p) f h = cc
>>=-eq-returns out_of_fuel f h = cc

-- The same, for a conclusion that is drawn from the parts.
pub >>=-returns_elim {ℓ κ ι} :
    {A : Type ℓ} {B : Type κ} {C : Type ι} (m : Outcome A) (f : A → Outcome B) {b : B}
    → (m >>= f) ≡ returns b
    → ((a : A) → m ≡ returns a → f a ≡ returns b → C)
    → C
>>=-returns_elim (returns a) f h k = k a refl h
>>=-returns_elim (panic p) f h k = cc
>>=-returns_elim out_of_fuel f h k = cc

-- `Result<A, E>`: an error that the program hands back as a value.
pub data Result {ℓ κ} (E : Type ℓ) (A : Type κ) : Type (ℓ ⊔ κ) where
  ok : A → Result E A
  err : E → Result E A

-- `?` after a call that can fail.
infixl 5 ◌>>=?◌
abbrev pub ◌>>=?◌ :
    {E A B : Type 0} → Outcome (Result E A) → (A → Outcome (Result E B)) → Outcome (Result E B)
m >>=? f = m >>= try_with f
  where
    try_with : {E A B : Type 0} → (A → Outcome (Result E B)) → Result E A → Outcome (Result E B)
    try_with f (ok a) = f a
    try_with f (err e) = returns (err e)
