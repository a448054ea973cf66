-- ===== src/Cli/Ends.antt =====
-- src/main.rs, `main`: how what the subcommands are made of can end.
pub mod Main
use play_evmone.Base.{
  ℕ, ◌+◌, ◌<◌, ◌≤◌, ◌≡◌, ◌≢◌, refl, arith, Bool, true, false, Option, none, some, List, [], ◌∷◌,
  ◌++◌, length, ◌&&◌, take, drop, leb, if◌then◌else◌,
}
use play_evmone.Base.Outcome.{
  ◌>>=?◌, Outcome, Result, Panic, returns, panic, out_of_fuel, ok, err, unwrap, ◌>>=◌,
}
use play_evmone.Base.Fails.{Fails, Fails-bind, Fails-try, Fails-if}
use play_evmone.HashMap
use play_evmone.HashMap.{get}
use play_evmone.Bytes.{Address, bytes_eq, default, fixed_eq, fixed_bytes_eq}
use play_evmone.Bytes.Serde.{ParseError, slice, visit_str, parse_fixed, deserialize_fixed, prefix}
use play_evmone.Evmc.{Revision, ExecutionMessage, ExecutionResult, max_revision}
use play_evmone.Evmc.Vm.{execute}
use play_evmone.Host.{AccountData, TestHostContext, contract_exists}
use play_evmone.Host.Call.{Externals, interface}
use play_evmone.Host.Call.Sound.{Obeys}
use play_evmone.Host.Call.Fuel.{DepthLimited, execute-ne-out_of_fuel}
use play_evmone.Cli.{
  text_eq, Text, Arg, Matches, Library, World, CliError, read_file, write_file, unwrap_result,
  address_of, load_context, context_from, get_context, load_binary, hex_of, input_data_of,
  write_storage, save_to, save_output,
}
use play_evmone.Cli.Commands.{
  Subcommand, create_message, call_message, deployed, assert, stored_code, execute_and_save,
  create_in, create_command, call_in, call_command, list_command, show_account, show_command,
  remove_account, remove_command, main,
}

-- An outcome with fuel left.
abbrev Ends : {A : Type 0} → Outcome A → Type 0
Ends m = Fails (λ p. Unit) ⊥ m

Ends-iff : {A : Type 0} (m : Outcome A) → m ≢ out_of_fuel → Ends m
Ends-iff (returns a) h = tt
Ends-iff (panic p) h = tt
Ends-iff out_of_fuel h = h refl

Ends-ne : {A : Type 0} (m : Outcome A) → Ends m → m ≢ out_of_fuel
Ends-ne m h e = rw e at h

Ends-bind :
    {A B : Type 0} (m : Outcome A) (f : A → Outcome B)
    → Ends m
    → ((a : A) → Ends (f a))
    → Ends (m >>= f)
Ends-bind m f h k = Fails-bind (λ p. Unit) ⊥ m f h (λ a e. k a)

Ends-try :
    {A B : Type 0} (m : Outcome (Result CliError A)) (f : A → Outcome (Result CliError B))
    → Ends m
    → ((a : A) → Ends (f a))
    → Ends (m >>=? f)
Ends-try m f h k = Fails-try (λ p. Unit) ⊥ m f h (λ a e. k a)

Ends-unwrap : {A : Type 0} (o : Option A) → Ends (unwrap o)
Ends-unwrap none = tt
Ends-unwrap (some a) = tt

Ends-unwrap_result : {E A : Type 0} (r : Result E A) → Ends (unwrap_result r)
Ends-unwrap_result (ok a) = tt
Ends-unwrap_result (err e) = tt

Ends-if : {A : Type 0} (b : Bool) (m m' : Outcome A) → Ends m → Ends m' → Ends (if b then m else m')
Ends-if b m m' = Fails-if (λ p. Unit) ⊥ b m m'

Ends-deserialize_fixed : (lib : Library) (n : ℕ) (t : Text) → Ends (deserialize_fixed lib.hex n t)
unfolding deserialize_fixed visit_str
Ends-deserialize_fixed lib n t =
    Ends-bind (slice 0 2 t) _ (Ends-if (leb 0 2 && leb 2 (length t)) _ _ tt tt) λ head.
      Ends-bind (if bytes_eq head prefix then slice 2 (length t) t else returns t) _
        (Ends-if (bytes_eq head prefix) _ _
          (Ends-if (leb 2 (length t) && leb (length t) (length t)) _ _ tt tt) tt)
        λ bytes. tt

module _ (lib : Library) (ends : (t : Text) → lib.read_context t ≢ out_of_fuel) where
  Ends-address_of : (matches : Matches) → Ends (address_of lib matches)
  unfolding address_of
  Ends-address_of matches = Ends-bind (unwrap (matches.value_of Arg.address)) _ (Ends-unwrap _) λ s.
      Ends-bind (unwrap (lib.json_string _)) _ (Ends-unwrap _) λ t.
        Ends-bind (deserialize_fixed lib.hex 20 t) _ (Ends-deserialize_fixed lib 20 t)
          λ r. Ends-unwrap_result r

  Ends-load_context : (path : Text) (w : World) → Ends (load_context lib path w)
  unfolding load_context
  Ends-load_context path w = Ends-bind (read_file path w) _ (Ends-unwrap _) λ bytes.
      Ends-bind (unwrap (lib.from_utf8 bytes)) _ (Ends-unwrap _) λ json.
        Ends-bind (lib.read_context (lib.trim json)) _ (Ends-iff _ (ends _)) λ c. Ends-unwrap c

  Ends-context_from :
      (o : Option Text) (a : Address) (required : Bool) (w : World)
      → Ends (context_from lib o a required w)
  unfolding context_from
  Ends-context_from (some path) a required w =
      Ends-bind (load_context lib path w) _ (Ends-load_context path w) λ c. tt
  Ends-context_from none a true w = tt
  Ends-context_from none a false w = tt

  Ends-get_context :
      (matches : Matches) (a : Address) (required : Bool) (w : World)
      → Ends (get_context lib matches a required w)
  unfolding get_context
  Ends-get_context matches a required w =
      Ends-context_from (matches.value_of Arg.input_storage) a required w

  Ends-load_binary : (path : Text) (w : World) → Ends (load_binary lib path w)
  unfolding load_binary
  Ends-load_binary path w =
      Ends-bind (read_file path w) _ (Ends-unwrap _)
        λ bytes. Ends-bind (unwrap (lib.from_utf8 bytes)) _ (Ends-unwrap _) λ t. Ends-unwrap _

  Ends-hex_of : (o : Option Text) → Ends (hex_of lib o)
  unfolding hex_of
  Ends-hex_of none = tt
  Ends-hex_of (some s) = Ends-unwrap _

  Ends-input_data_of : (matches : Matches) → Ends (input_data_of lib matches)
  unfolding input_data_of
  Ends-input_data_of matches = Ends-hex_of (matches.value_of Arg.input_data)

  Ends-write_storage :
      (path : Text) (c : TestHostContext) (w : World) → Ends (write_storage lib path c w)
  unfolding write_storage
  Ends-write_storage path c w =
      Ends-bind (unwrap (lib.write_context c)) _ (Ends-unwrap _)
        λ t. Ends-if (w.writable path) _ _ tt tt

  Ends-save_to : (o : Option Text) (c : TestHostContext) (w : World) → Ends (save_to lib o c w)
  unfolding save_to
  Ends-save_to none c w = tt
  Ends-save_to (some path) c w = Ends-write_storage path c w

  Ends-save_output :
      (matches : Matches) (c : TestHostContext) (w : World) → Ends (save_output lib matches c w)
  unfolding save_output
  Ends-save_output matches c w = Ends-save_to (matches.value_of Arg.output_storage) c w
