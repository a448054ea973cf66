-- ===== src/Cli.antt =====
-- src/main.rs, `main`: what the subcommands share. The arguments that clap has parsed are a function
-- from their names, and the files are a map from paths to contents.
pub mod Commands
pub mod Runs
pub mod Files
pub mod Sessions
pub mod Ends
pub mod Arguments
pub mod Errors
pub mod Pointers
mod Tests
use play_evmone.Base.{
  ℕ, ◌&&◌, Bool, true, false, Option, none, some, List, [], ◌∷◌, ◌++◌, if◌then◌else◌, Eq,
}
use play_evmone.Base.Outcome.{
  Outcome, Result, returns, panic, ◌>>=?◌, unwrap_failed, ok, err, unwrap, ◌>>=◌,
}
use play_evmone.HashMap.{HashMap, get, insert}
use play_evmone.Bytes.{Address, bytes_eq, bytes_eq_iff}
use play_evmone.Bytes.Hex.{Hex}
use play_evmone.Bytes.Serde.{deserialize_fixed}
use play_evmone.Host.{AccountData, TestHostContext, new_context}

-- A text is the list of its bytes; paths are texts.
abbrev pub Text : Type 0
Text = List ℕ

instance abbrev pub text_eq : Eq Text
text_eq = record { beq = bytes_eq; beq_iff = bytes_eq_iff }

-- The names of the options that take a value.
pub data Arg : Type 0 where
  input_data input_storage output_storage address code : Arg

-- `ArgMatches` of a subcommand.
pub record Matches : Type 0 where
  pub value_of : Arg → Option Text
  -- `is_present("static")`
  pub is_static : Bool

-- The functions of the crates hex and serde_json and of the standard library that the commands call.
pub record Library : Type 0 where
  pub hex : Hex
  -- `String::from_utf8` and `str::trim`
  pub from_utf8 : List ℕ → Option Text
  pub trim : Text → Text
  -- the text that a JSON string literal denotes
  pub json_string : Text → Option Text
  -- `serde_json::from_slice` and `to_string_pretty` at a `TestHostContext`; the visitors of the byte
  -- types, which the first one calls, can panic
  pub read_context : Text → Outcome (Option TestHostContext)
  pub write_context : TestHostContext → Option Text
  -- `to_string_pretty` at an `AccountData`
  pub write_account : AccountData → Option Text

-- What the commands print as their result; other messages are not modelled.
pub data Line : Type 0 where
  account_line : Address → Bool → ℕ → Line
  account_json : Text → Line
  account_removed : Address → Text → Line
  unknown_subcommand : Line

-- What a run finds and leaves.
pub record World : Type 0 where
  pub files : HashMap Text (List ℕ)
  -- the paths that can be written
  pub writable : Text → Bool
  pub printed : List Line

-- The texts that `main` returns as errors.
pub data CliError : Type 0 where
  -- "<input-storage> is required!"
  storage_required : CliError
  -- "Contract already exists: {:?}" and "Account not exists: {:?}"
  contract_already_exists account_not_exists : Address → CliError

-- `fs::read(path).unwrap()`
abbrev pub read_file : Text → World → Outcome (List ℕ)
read_file path w = unwrap (get path w.files)

-- `fs::write(path, bytes).unwrap()`
abbrev pub write_file : Text → List ℕ → World → Outcome World
write_file path bytes w =
    if w.writable path
    then returns (record w { files = insert path bytes w.files })
    else panic unwrap_failed

abbrev pub print_line : Line → World → World
print_line line w = record w { printed = w.printed ++ line ∷ [] }

-- `Result::unwrap`
abbrev pub unwrap_result : {E A : Type 0} → Result E A → Outcome A
unwrap_result (ok a) = returns a
unwrap_result (err e) = panic unwrap_failed

-- `format!("\"{}\"", s)`
abbrev quoted : Text → Text
quoted s = b'"' ∷ s ++ b'"' ∷ []

module _ (lib : Library) where
  -- `sub_matches.value_of("address").map(..).unwrap()`
  unfoldable pub address_of : Matches → Outcome Address
  address_of matches = do
    s ← unwrap (matches.value_of Arg.address)
    t ← unwrap (lib.json_string (quoted s))
    r ← deserialize_fixed lib.hex 20 t
    unwrap_result r

  load_context : Text → World → Outcome TestHostContext
  load_context path w = do
    bytes ← read_file path w
    json ← unwrap (lib.from_utf8 bytes)
    context ← lib.read_context (lib.trim json)
    unwrap context

  context_from : Option Text → Address → Bool → World → Outcome (Result CliError TestHostContext)
  unfolding load_context
  context_from (some path) a required w = load_context path w >>= λ c. returns (ok c)
  context_from none a true w = returns (err storage_required)
  context_from none a false w = returns (ok (new_context 0 a))

  -- The closure `get_context`.
  unfoldable pub get_context :
      Matches → Address → Bool → World → Outcome (Result CliError TestHostContext)
  unfolding context_from
  get_context matches a required w = context_from (matches.value_of Arg.input_storage) a required w

  -- `load_binary`
  unfoldable pub load_binary : Text → World → Outcome (List ℕ)
  load_binary path w = do
    bytes ← read_file path w
    text ← unwrap (lib.from_utf8 bytes)
    unwrap (lib.hex.decode (lib.trim text))

  hex_of : Option Text → Outcome (List ℕ)
  hex_of none = returns []
  hex_of (some s) = unwrap (lib.hex.decode s)

  -- The bytes of the option `input-data`, none by default.
  unfoldable pub input_data_of : Matches → Outcome (List ℕ)
  unfolding hex_of
  input_data_of matches = hex_of (matches.value_of Arg.input_data)

  -- `serde_json::to_string_pretty(context).unwrap()`, written to a path.
  unfoldable pub write_storage : Text → TestHostContext → World → Outcome World
  write_storage path c w = do text ← unwrap (lib.write_context c); write_file path text w

  save_to : Option Text → TestHostContext → World → Outcome World
  unfolding write_storage
  save_to none c w = returns w
  save_to (some path) c w = write_storage path c w

  -- The context is written if `output-storage` is given.
  unfoldable pub save_output : Matches → TestHostContext → World → Outcome World
  unfolding save_to
  save_output matches c w = save_to (matches.value_of Arg.output_storage) c w
