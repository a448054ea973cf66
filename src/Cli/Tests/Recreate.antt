-- ===== src/Cli/Tests/Recreate.antt =====
-- The theorem of `Cli/Sessions/Recreate` on the account 2 that `Cli/Tests` removes.
use play_evmone.Base.{◌≡◌, refl, true, none, ◌∷◌, [], ◌++◌}
use play_evmone.Base.Outcome.{returns, ok, unwrap, ◌>>=◌}
use play_evmone.HashMap
use play_evmone.Bytes.{default, fixed_bytes_eq, from_ffi}
use play_evmone.Host.{TestHostContext}
use play_evmone.Host.Tests.Machine.{addr, machine}
use play_evmone.Cli.{Arg, get_context, load_binary, input_data_of}
use play_evmone.Cli.Commands.{create_message, create_command, execute_and_save}
use play_evmone.Cli.Sessions.Recreate.{remove_command-create_command}
use play_evmone.Cli.Tests.{library, library-IsJson, matches_at, storage, start}
use play_evmone.Cli.Tests.Sessions.{after_remove, remove_returns, reads_address}

remove_command-create_command_example :
    (c : TestHostContext) × (get_context library (matches_at storage none 2) (default 20) true start
      ≡ returns (ok c))
    × (create_command library machine 0 (matches_at storage storage 2) after_remove ≡ (
        unwrap ((matches_at storage storage 2).value_of Arg.code) >>= λ file.
        load_binary library file after_remove >>= λ code.
        input_data_of library (matches_at storage storage 2) >>= λ input_data.
        execute_and_save library machine 0
          (matches_at storage storage 2)
          (create_message (from_ffi (addr 2)))
          (from_ffi (addr 2))
          (code ++ input_data)
          (record c { accounts = HashMap.remove (from_ffi (addr 2)) c.accounts })
          after_remove))
remove_command-create_command_example =
    remove_command-create_command library library-IsJson machine 0 (matches_at storage none 2)
      (matches_at storage storage 2) (b's' ∷ []) start (from_ffi (addr 2)) remove_returns
      (reads_address storage none) (reads_address storage storage) refl refl
