-- ===== src/Clap.antt =====
-- How src/main.rs and src/abi_cmd.rs declare the arguments of their subcommands to the crate clap,
-- and what clap promises of the arguments that it has matched with such a declaration. Texts for
-- the user and short names are left out.
use play_evmone.Base.{ℕ, ◌*◌, ◌≡◌, Bool, true, false, Option, none, some, List, length, All}

-- `Arg`
pub record Arg (N : Type 0) : Type 0 where
  pub name : N
  pub takes_value : Bool
  pub required : Bool
  pub multiple : Bool
  pub number_of_values : Option ℕ
  pub default_value : Option (List ℕ)

-- `Arg::with_name`
abbrev pub with_name : {N : Type 0} → N → Arg N
with_name n = record {
  name = n;
  takes_value = false;
  required = false;
  multiple = false;
  number_of_values = none;
  default_value = none;
}

-- `.takes_value(true)`
abbrev pub taking_value : {N : Type 0} → Arg N → Arg N
taking_value a = record a { takes_value = true }

-- `.required(true)`
abbrev pub mandatory : {N : Type 0} → Arg N → Arg N
mandatory a = record a { required = true }

-- `.multiple(true)`
abbrev pub repeated : {N : Type 0} → Arg N → Arg N
repeated a = record a { multiple = true }

-- `.number_of_values(n)`
abbrev pub with_values : {N : Type 0} → ℕ → Arg N → Arg N
with_values n a = record a { number_of_values = some n }

-- `ArgMatches`, at names of the type `N`.
pub record Matches (N : Type 0) : Type 0 where
  pub value_of : N → Option (List ℕ)
  pub values_of : N → Option (List (List ℕ))
  pub is_present : N → Bool

abbrev pub IsGiven : {A : Type 0} → Option A → Type 0
IsGiven {A} o = (a : A) × (o ≡ some a)

-- A required argument and one with a default have a value; an argument of `n` values at each
-- occurrence has a multiple of `n` values in all.
pub record Fits {N : Type 0} (m : Matches N) (a : Arg N) : Type 0 where
  pub given : a.required ≡ true → IsGiven (m.value_of a.name)
  pub defaulted : (d : List ℕ) → a.default_value ≡ some d → IsGiven (m.value_of a.name)
  pub grouped :
      (n : ℕ) (values : List (List ℕ))
      → a.number_of_values ≡ some n
      → m.values_of a.name ≡ some values
      → (k : ℕ) × (length values ≡ n * k)

-- The arguments fit their declaration.
abbrev pub Conforms : {N : Type 0} → List (Arg N) → Matches N → Type 0
Conforms args m = All (Fits m) args
