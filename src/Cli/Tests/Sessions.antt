-- ===== src/Cli/Tests/Sessions.antt =====
-- The theorems of `Cli/Sessions` on the storage of `Cli/Tests`.
use play_evmone.Base.{
  Bool, ℕ, ◌≡◌, refl, ap, ◌∙◌, true, false, Option, none, [], ◌∷◌, if◌then◌else◌,
}
use play_evmone.Base.Outcome.{returns, ok, err}
use play_evmone.HashMap
use play_evmone.HashMap.{get, insert}
use play_evmone.Evmc.Message.{destination}
use play_evmone.Bytes.{Address, bytes_eq, fixed_eq, fixed_bytes_eq, from_ffi, default}
use play_evmone.Bytes.Serde.{deserialize_fixed, visit_str, parse_fixed}
use play_evmone.Bytes.Tests.{decode, decode_to_slice}
use play_evmone.Evmc.{ExecutionResult, max_revision}
use play_evmone.Evmc.Vm.{run, execute}
use play_evmone.Host.{TestHostContext, new_context, contract_exists, update}
use play_evmone.Host.Methods.{set_storage}
use play_evmone.Host.Call.{interface, call, callee_code}
use play_evmone.Host.Tests.Machine.{account_with, addr, machine, outcome, world}
use play_evmone.Cli.{
  Line, CliError, text_eq, context_from, hex_of, save_to, load_context, Text, Matches, World,
  address_of, get_context, load_binary, input_data_of, write_storage, save_output,
}
use play_evmone.Cli.Commands.{
  remove_command, remove_account, show_command, show_account, call_command, call_in, main,
  call_message, create_command, create_in, execute_and_save,
}
use play_evmone.Cli.Sessions.{
  call_command_preserves, remove_command-show_command, create_command-create_command,
}
use play_evmone.Host.Call.World.{AccountsStay, EntriesExtend, DestructedGrow}
use play_evmone.Cli.Runs.{Created}
use play_evmone.Cli.Tests.Codec.{context, account_data, read-put_whole}
use play_evmone.Cli.Tests.{
  library, library-IsJson, matches_at, storage, start, creation, after_creation,
}

-- "call" of account 3, on the storage.
abbrev called : ExecutionResult × TestHostContext
called = outcome (
    execute (interface machine 2) machine.evmone max_revision (2 ∷ [])
      (call_message false (from_ffi (addr 3)) []) world)

abbrev after_call : World
after_call = record start { files = insert (b's' ∷ []) (context.put called.1) start.files }

loads_world :
    (output : Option Text) (n : ℕ) (required : Bool) (a : Address)
    → get_context library (matches_at storage output n) a required start ≡ returns (ok world)
unfolding get_context context_from load_context bytes_eq get insert HashMap.empty
loads_world output n required a =
    ap (λ (c : TestHostContext). returns (ok c)) (read-put_whole context world)

call_returns :
    call_command library machine 2 (matches_at storage storage 3) start ≡ returns (ok after_call)
unfolding call_command call_in execute_and_save address_of input_data_of hex_of write_storage
    save_output save_to deserialize_fixed visit_str parse_fixed bytes_eq decode decode_to_slice
    execute run set_storage fixed_eq get insert HashMap.empty call callee_code update destination
call_returns = rw (loads_world storage 3 true (from_ffi (addr 3))) refl

call_command_preserves_example :
    (a : Address) × (c : TestHostContext) × (c' : TestHostContext) × (get_context library
        (matches_at storage storage 3)
        a
        true
        start
      ≡ returns (ok c))
    × (get_context library (matches_at storage none 1) (default 20) true after_call
        ≡ returns (ok c'))
    × AccountsStay c c'
    × EntriesExtend c c'
    × DestructedGrow c c'
call_command_preserves_example =
    call_command_preserves library library-IsJson machine 2 (matches_at storage storage 3)
      (matches_at storage none 1) (b's' ∷ []) start (default 20) true call_returns refl refl

-- "remove" of account 2.
abbrev removed : TestHostContext
removed = record world { accounts = HashMap.remove (from_ffi (addr 2)) world.accounts }

abbrev pub after_remove : World
after_remove = record start {
  files = insert (b's' ∷ []) (context.put removed) start.files;
  printed = Line.account_removed (from_ffi (addr 2)) (account_data.put (account_with 2 1)) ∷ [];
}

pub reads_address :
    (input output : Option Text)
    → address_of library (matches_at input output 2) ≡ returns (from_ffi (addr 2))
unfolding address_of deserialize_fixed visit_str parse_fixed bytes_eq decode decode_to_slice
reads_address input output = refl

remove_loaded :
    (matches : Matches) (w : World) (c : TestHostContext) (a : Address)
    → get_context library matches (default 20) true w ≡ returns (ok c)
    → address_of library matches ≡ returns a
    → remove_command library machine 0 matches w
      ≡ remove_account library machine 0 matches a
          (get a c.accounts)
          (record c { accounts = HashMap.remove a c.accounts })
          w
unfolding remove_command
remove_loaded matches w c a loads reads = rw (loads, reads) refl

pub remove_returns :
    remove_command library machine 0 (matches_at storage none 2) start ≡ returns (ok after_remove)
unfolding remove_account write_storage fixed_eq get insert HashMap.empty HashMap.remove bytes_eq
remove_returns =
    remove_loaded (matches_at storage none 2) start world (from_ffi (addr 2))
      (loads_world none 2 true (default 20)) (reads_address storage none)
    ∙ refl

remove_command-show_command_example :
    (c : TestHostContext) × (get_context library (matches_at storage none 2) (default 20) true start
      ≡ returns (ok c))
    × (show_command library machine 0 (matches_at storage none 2) after_remove
        ≡ show_account library machine 0
            (from_ffi (addr 2))
            (if fixed_eq {n = 20} (from_ffi (addr 2)) (from_ffi (addr 2))
              then none
              else get (from_ffi (addr 2)) c.accounts)
            after_remove)
remove_command-show_command_example =
    remove_command-show_command library library-IsJson machine 0 (matches_at storage none 2)
      (matches_at storage none 2) (b's' ∷ []) start (from_ffi (addr 2)) (from_ffi (addr 2))
      remove_returns (reads_address storage none) (reads_address storage none) refl refl

-- The run of `create_returns`, taken apart.
created_run : Created library machine 1 (matches_at none storage 7) start after_creation
unfolding main create_command create_in execute_and_save address_of get_context context_from
    load_binary input_data_of hex_of write_storage save_output save_to deserialize_fixed visit_str
    parse_fixed bytes_eq decode decode_to_slice execute run set_storage fixed_eq get insert
    HashMap.empty contract_exists
created_run = record {
  address = from_ffi (addr 7);
  context = new_context 0 (from_ffi (addr 7));
  code = 0 ∷ [];
  reads_address = refl;
  loads = refl;
  is_new = refl;
  saved = record { result = creation.0; left = creation.1; executes = refl; saves = refl };
}

reads_address_again :
    address_of library (matches_at storage storage 7) ≡ returns (from_ffi (addr 7))
unfolding address_of deserialize_fixed visit_str parse_fixed bytes_eq decode decode_to_slice
reads_address_again = refl

create_command-create_command_example :
    create_command library machine 1 (matches_at storage storage 7) after_creation
    ≡ returns (err (CliError.contract_already_exists (from_ffi (addr 7))))
unfolding created_run execute run set_storage fixed_eq get insert HashMap.empty bytes_eq
create_command-create_command_example =
    create_command-create_command library library-IsJson machine 1 (matches_at none storage 7)
      (matches_at storage storage 7) (b's' ∷ []) start created_run refl refl refl
      reads_address_again
