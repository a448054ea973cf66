-- ===== src/Cli/Tests.antt =====
-- The theorems of `Cli` on the machine of Host/Tests and a small storage.
mod Boxes
mod Codec
mod Errors
mod Recreate
mod Sessions
use play_evmone.Base.{
  Bool, arith, ℕ, ◌≡◌, ◌≢◌, refl, ap, ◌∙◌, sym, true, false, Option, none, some, List, [], ◌∷◌,
  ◌++◌, if◌then◌else◌,
}
use play_evmone.Base.Outcome.{out_of_fuel, returns, ok, err}
use play_evmone.HashMap
use play_evmone.HashMap.{get, insert}
use play_evmone.Evmc.Message.{destination}
use play_evmone.Bytes.{Address, bytes_eq, fixed_eq, fixed_bytes_eq, from_ffi, default}
use play_evmone.Bytes.Serde.{deserialize_fixed, visit_str, parse_fixed}
use play_evmone.Bytes.Tests.{simple_hex, decode, decode_to_slice}
use play_evmone.Evmc.{ExecutionResult, max_revision}
use play_evmone.Evmc.Vm.{run, execute}
use play_evmone.Host.{TestHostContext, new_context, update_code, contract_exists, update}
use play_evmone.Host.Methods.{set_storage}
use play_evmone.Host.Call.{interface, call, callee_code}
use play_evmone.Host.Tests.Machine.{machine-Obeys, account_with, addr, machine, outcome, world}
use play_evmone.Cli.{
  Line, CliError, text_eq, context_from, hex_of, save_to, load_context, Text, Arg, Matches, Library,
  World, address_of, get_context, load_binary, input_data_of, write_storage, save_output,
}
use play_evmone.Cli.Commands.{
  remove_command, remove_account, show_command, show_account, call_command, call_in, Subcommand,
  main, deployed, create_message, call_message, create_command, create_in, execute_and_save,
}
use play_evmone.Cli.Sessions.{
  IsJson, call_command_preserves, remove_command-show_command, create_command-create_command,
}
use play_evmone.Host.Call.World.{AccountsStay, EntriesExtend, DestructedGrow}
use play_evmone.Cli.Ends.Main.{main-ne-out_of_fuel}
use play_evmone.Cli.Files.{get-main}
use play_evmone.Cli.Runs.{Created, create_command-Created}
use play_evmone.Cli.Tests.Codec.{context, account_data, read-put_whole}

-- The text without its first and its last byte.
abbrev inner : Text → Text
inner [] = []
inner (q ∷ t) = without_last t
  where
    without_last : Text → Text
    without_last [] = []
    without_last (b ∷ []) = []
    without_last (b ∷ c ∷ t) = b ∷ without_last (c ∷ t)

abbrev library : Library
library = record {
  hex = simple_hex;
  from_utf8 = λ t. some t;
  trim = λ t. t;
  json_string = λ t. some (inner t);
  read_context = λ t. returns (some (context.read t).0);
  write_context = λ c. some (context.put c);
  write_account = λ a. some (account_data.put a);
}

library-IsJson : IsJson library
library-IsJson = record {
  utf8 = λ c t e. refl;
  round_trip = λ c t e.
      rw (sym (some_inj e))
        (ap (λ (r : TestHostContext). returns (some r)) (read-put_whole context c));
}
  where
    some_inj : {x y : Text} → some x ≡ some y → x ≡ y
    some_inj q = cc

-- The arguments: the storage that is read and written, at the path "s", and an address.
abbrev matches_at : Option Text → Option Text → ℕ → Matches
matches_at input output n = record { value_of = λ arg. value arg; is_static = false }
  where
    value : Arg → Option Text
    value Arg.input_data = none
    value Arg.input_storage = input
    value Arg.output_storage = output
    value Arg.address = some (simple_hex.encode (addr n).bytes)
    value Arg.code = some (b'c' ∷ [])

abbrev storage : Option Text
storage = some (b's' ∷ [])

-- The file "c" has the code 0, and "s" the world of three accounts.
abbrev start : World
start = record {
  files =
      insert (b's' ∷ []) (context.put world) (insert (b'c' ∷ []) (b'0' ∷ b'0' ∷ []) HashMap.empty);
  writable = λ path. true;
  printed = [];
}

abbrev creation : ExecutionResult × TestHostContext
creation = outcome (
    execute (interface machine 1) machine.evmone max_revision (0 ∷ [])
      (create_message (from_ffi (addr 7))) (new_context 0 (from_ffi (addr 7))))

abbrev after_creation : World
after_creation = record start {
  files =
      insert (b's' ∷ [])
        (context.put
          (deployed (create_message (from_ffi (addr 7))) (from_ffi (addr 7)) creation.0 creation.1))
        start.files;
}

create_returns :
    main library machine 1 Subcommand.create (matches_at none storage 7) start
    ≡ returns (ok after_creation)
unfolding main create_command create_in execute_and_save address_of get_context context_from
    load_binary input_data_of hex_of write_storage save_output save_to deserialize_fixed visit_str
    parse_fixed bytes_eq decode decode_to_slice execute run set_storage fixed_eq get insert
    HashMap.empty contract_exists
create_returns = refl

other_path : ◌≢◌ {A = Option Text} storage (some (b'c' ∷ []))
other_path e = ground arith

get-main_example : get (b'c' ∷ []) after_creation.files ≡ get (b'c' ∷ []) start.files
get-main_example =
    get-main library machine 1 (matches_at none storage 7) start Subcommand.create (b'c' ∷ [])
      create_returns (λ e. other_path e)

-- With the fuel that the depth limit asks for.
main-ne-out_of_fuel_example :
    main library machine 1024 Subcommand.call (matches_at storage storage 3) start ≢ out_of_fuel
main-ne-out_of_fuel_example =
    main-ne-out_of_fuel library machine 1024 (λ t e. ended e) machine-Obeys (omega arith)
      Subcommand.call (matches_at storage storage 3) start
  where
    ended : {A : Type 0} {a : A} → returns a ≢ out_of_fuel
    ended e = cc
