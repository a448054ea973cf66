-- ===== src/AbiCmd.antt =====
-- src/abi_cmd.rs: the subcommand ethabi, its declaration and `process`.
pub mod Panics
pub mod Unreadable
mod Tests
use play_evmone.Base.{
  ℕ, Bool, true, false, ◌||◌, ◌&&◌, Option, none, some, List, [], ◌∷◌, ◌==◌, if◌then◌else◌,
}
use play_evmone.Base.Outcome.{
  Outcome, Result, returns, panic, unwrap_failed, ok, err, unwrap, ◌>>=◌, ◌>>=?◌,
}
use play_evmone.Clap
use play_evmone.Clap.{Matches, with_name, taking_value, mandatory, repeated, with_values}
use play_evmone.Abi
use play_evmone.Abi.{Text, U256, Ethabi, AbiError}
use play_evmone.Abi.Decode

-- The names of the arguments; `payload` is the one that the source calls "data".
pub data AbiArg : Type 0 where
  file name param no_lenient code type payload event : AbiArg

-- The subcommands of "encode" and "decode".
pub data AbiCommand : Type 0 where
  encode_function encode_params encode_constructor : AbiCommand
  decode_params decode_function decode_log : AbiCommand

abbrev param_arg : Clap.Arg AbiArg
param_arg = with_values 2 (repeated (taking_value (with_name AbiArg.param)))

abbrev no_lenient_flag : Clap.Arg AbiArg
no_lenient_flag = with_name AbiArg.no_lenient

abbrev file_arg : Clap.Arg AbiArg
file_arg = mandatory (taking_value (with_name AbiArg.file))

-- A required argument with a value, `.takes_value(true).required(true)`.
abbrev required_arg : AbiArg → Clap.Arg AbiArg
required_arg n = mandatory (taking_value (with_name n))

-- `sub_command`: the arguments that each subcommand declares.
abbrev pub sub_command : AbiCommand → List (Clap.Arg AbiArg)
sub_command AbiCommand.encode_function =
    file_arg ∷ required_arg AbiArg.name ∷ with_values 1 param_arg ∷ no_lenient_flag ∷ []
sub_command AbiCommand.encode_params = param_arg ∷ no_lenient_flag ∷ []
sub_command AbiCommand.encode_constructor =
    file_arg
    ∷ record (taking_value (with_name AbiArg.code)) { default_value = some [] }
    ∷ no_lenient_flag
    ∷ with_values 1 param_arg
    ∷ []
sub_command AbiCommand.decode_params =
    repeated (taking_value (with_name AbiArg.type)) ∷ taking_value (with_name AbiArg.payload) ∷ []
sub_command AbiCommand.decode_function =
    file_arg ∷ required_arg AbiArg.name ∷ required_arg AbiArg.payload ∷ []
sub_command AbiCommand.decode_log =
    file_arg
    ∷ required_arg AbiArg.event
    ∷ with_values 1 param_arg
    ∷ required_arg AbiArg.payload
    ∷ []

-- What `subcommand()` gives: one of them with its arguments, or none below "ethabi", "encode" or
-- "decode".
pub data Chosen : Type 0 where
  chosen : AbiCommand → Matches AbiArg → Chosen
  only_encode only_decode nothing : Chosen

-- The texts that `process` returns as errors.
pub data AbiCmdError : Type 0 where
  -- `usage()` of "encode", "decode" and "ethabi"
  usage_encode usage_decode usage_ethabi : AbiCmdError
  -- "Please give at least one parameter."
  no_parameter : AbiCmdError
  file_error : Text → AbiCmdError
  abi_error : AbiError → AbiCmdError
  json_error : Text → AbiCmdError

-- The functions of serde_json that are used here.
pub record Json : Type 1 where
  pub Value : Type 0
  pub from_str : Text → Option Value
  -- `to_string_pretty(&Value::Array(values))`
  pub array_to_string_pretty : List Value → Result Text Text

-- `remove_0x`
unfoldable pub remove_0x : Text → Text
remove_0x [] = []
remove_0x (a ∷ []) = a ∷ []
remove_0x (a ∷ b ∷ rest) =
    if (a == b'0' && b == b'x') || (a == b'0' && b == b'X') then rest else a ∷ b ∷ rest

-- The loop over `param_iter`: types and values in turn.
unfoldable pub pair_up : List Text → Outcome (List Text × List Text)
pair_up [] = returns ([], [])
pair_up (t ∷ []) = panic unwrap_failed
pair_up (t ∷ v ∷ rest) = pair_up rest >>= λ p. returns (t ∷ p.0, v ∷ p.1)

-- The optional values of "param" or "topic", none by default.
abbrev pub values_or_empty : Option (List Text) → List Text
values_or_empty none = []
values_or_empty (some values) = values

-- `ok_or_else(|| "Please give at least one parameter.".to_string())`
abbrev pub at_least_one : Option (List Text) → Result AbiCmdError (List Text)
at_least_one none = err AbiCmdError.no_parameter
at_least_one (some values) = ok values

-- `map_err(|err| err.to_string())`, for each kind of error.
abbrev pub map_error : {E F A : Type 0} → (E → F) → Result E A → Result F A
map_error f (ok a) = ok a
map_error f (err e) = err (f e)

abbrev pub lift : {A : Type 0} → Outcome (Result AbiError A) → Outcome (Result AbiCmdError A)
lift m = m >>= λ r. returns (map_error AbiCmdError.abi_error r)

module _ (u256 : U256) (eth : Ethabi) (json : Json) (hex_encode : List ℕ → Text)
    (hex_decode : Text → Result Text (List ℕ)) (read : Text → Result Text (List ℕ)) where
  -- `fs::read(file).map_err(|err| err.to_string())`
  abbrev pub read_abi : Text → Outcome (Result AbiCmdError (List ℕ))
  read_abi path = returns (map_error AbiCmdError.file_error (read path))

  abbrev pub lenient : Matches AbiArg → Bool
  lenient m = if m.is_present AbiArg.no_lenient then false else true

  -- `.map(|value| serde_json::from_str(value).unwrap()).collect()`
  unfoldable pub parse_values : List Text → Outcome (List json.Value)
  parse_values [] = returns []
  parse_values (t ∷ rest) =
      unwrap (json.from_str t) >>= λ v. parse_values rest >>= λ vs. returns (v ∷ vs)

  -- What the decode commands print.
  unfoldable pub print_values : List Text → Outcome (Result AbiCmdError Text)
  unfolding parse_values
  print_values texts = parse_values texts >>= λ values.
      returns (map_error AbiCmdError.json_error (json.array_to_string_pretty values))

  -- "encode function" and "encode constructor", over the argument that names what is encoded.
  unfoldable pub run_encode_input :
      AbiArg → Bool → Matches AbiArg → Outcome (Result AbiCmdError Text)
  run_encode_input argument constructor m = unwrap (m.value_of AbiArg.file) >>= λ path.
      read_abi path >>=? λ abi. unwrap (m.value_of argument) >>= λ name. lift (
        Abi.encode_input u256 eth hex_encode abi name (values_or_empty (m.values_of AbiArg.param))
          (lenient m) constructor)

  unfoldable pub run_encode_params : Matches AbiArg → Outcome (Result AbiCmdError Text)
  unfolding pair_up
  run_encode_params m = returns (at_least_one (m.values_of AbiArg.param)) >>=? λ params.
      pair_up params >>= λ p. lift (Abi.encode_params u256 eth hex_encode p.0 p.1 (lenient m))

  unfoldable pub run_decode_params : Matches AbiArg → Outcome (Result AbiCmdError Text)
  unfolding remove_0x print_values
  run_decode_params m = returns (at_least_one (m.values_of AbiArg.type)) >>=? λ types.
      unwrap (m.value_of AbiArg.payload) >>= λ text.
      lift (Decode.decode_params eth hex_decode types (remove_0x text)) >>=? print_values

  unfoldable pub run_decode_function : Matches AbiArg → Outcome (Result AbiCmdError Text)
  unfolding print_values
  run_decode_function m = unwrap (m.value_of AbiArg.file) >>= λ path. read_abi path >>=? λ abi.
      unwrap (m.value_of AbiArg.name) >>= λ name. unwrap (m.value_of AbiArg.payload) >>= λ text.
      lift (Decode.decode_input eth abi name text) >>=? print_values

  unfoldable pub run_decode_log : Matches AbiArg → Outcome (Result AbiCmdError Text)
  unfolding print_values
  run_decode_log m = unwrap (m.value_of AbiArg.file) >>= λ path. read_abi path >>=? λ abi.
      unwrap (m.value_of AbiArg.event) >>= λ event. unwrap (m.value_of AbiArg.payload) >>= λ text.
      lift (
        Decode.decode_logs eth hex_decode abi event (values_or_empty (m.values_of AbiArg.param))
          text)
      >>=? print_values

  -- `process`: the text that is printed.
  unfoldable pub process : Chosen → Outcome (Result AbiCmdError Text)
  unfolding run_encode_input run_encode_params run_decode_params run_decode_function run_decode_log
  process (chosen AbiCommand.encode_function m) = run_encode_input AbiArg.name false m
  process (chosen AbiCommand.encode_params m) = run_encode_params m
  process (chosen AbiCommand.encode_constructor m) = run_encode_input AbiArg.code true m
  process (chosen AbiCommand.decode_params m) = run_decode_params m
  process (chosen AbiCommand.decode_function m) = run_decode_function m
  process (chosen AbiCommand.decode_log m) = run_decode_log m
  process only_encode = returns (err AbiCmdError.usage_encode)
  process only_decode = returns (err AbiCmdError.usage_decode)
  process nothing = returns (err AbiCmdError.usage_ethabi)
