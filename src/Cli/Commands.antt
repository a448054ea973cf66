-- ===== src/Cli/Commands.antt =====
-- src/main.rs, `main`: the subcommands. Each takes the arguments and the world that it finds, and
-- ends with an error text or with the world that it leaves.
use play_evmone.Base.{
  ℕ, Bool, true, false, Option, none, some, List, [], ◌++◌, replicate, ◌&&◌, map, if◌then◌else◌,
}
use play_evmone.Base.Int.{pos}
use play_evmone.Base.Outcome.{
  ◌>>=?◌, Outcome, Result, returns, panic, assert_failed, ok, err, unwrap, ◌>>=◌,
}
use play_evmone.HashMap
use play_evmone.HashMap.{is_some, HashMap, get}
use play_evmone.Bytes.{Address, default, fixed_bytes_eq, fixed_eq, into_ffi}
use play_evmone.Evmc.{
  CallKind, ExecutionMessage, ExecutionResult, is_success, max_revision, message_from_ffi,
}
use play_evmone.Evmc.Message.{is_create}
use play_evmone.Evmc.Vm.{execute}
use play_evmone.Host.{AccountData, TestHostContext, contract_exists, update_code}
use play_evmone.Host.Call.{Externals, interface}
use play_evmone.Cli.{
  text_eq, Arg, Matches, Library, Line, World, CliError, print_line, address_of, get_context,
  load_binary, input_data_of, write_storage, save_output,
}

-- The names of the subcommands of a context; `ethabi` is not among them.
pub data Subcommand : Type 0 where
  create call list show remove : Subcommand
  other : Subcommand

-- `raw_message` of "create"
abbrev pub create_message : Address → ExecutionMessage
create_message destination = message_from_ffi (record {
  kind = CallKind.create;
  flags = 0;
  depth = 0;
  gas = pos 4466666666;
  destination = into_ffi destination;
  sender = record { bytes = replicate 20 128 };
  input_data = [];
  value = record { bytes = replicate 32 3 };
  create2_salt = record { bytes = replicate 32 0 };
})

-- `flags |= EVMC_STATIC`
abbrev flags_of : Bool → ℕ
flags_of true = 1
flags_of false = 0

-- `raw_message` of "call"
abbrev pub call_message : Bool → Address → List ℕ → ExecutionMessage
call_message is_static destination input_data = message_from_ffi (record {
  kind = CallKind.call;
  flags = flags_of is_static;
  depth = 0;
  gas = pos 4400000;
  destination = into_ffi destination;
  sender = record { bytes = replicate 20 128 };
  input_data = input_data;
  value = record { bytes = replicate 32 0 };
  create2_salt = record { bytes = replicate 32 0 };
})

-- `accounts.get(&destination).unwrap().code.clone().unwrap()`
abbrev pub stored_code : Address → TestHostContext → Outcome (List ℕ)
stored_code a c = do
  account ← unwrap (get a c.accounts)
  code ← unwrap account.code
  returns code.bytes

-- The context with the output of a successful creation as the code of the account.
abbrev pub deployed :
    ExecutionMessage → Address → ExecutionResult → TestHostContext → TestHostContext
deployed message a result context =
    if is_success result.status_code && is_create message
    then update_code a result.output_data context
    else context

-- `assert_eq!`, on the result of the comparison
abbrev pub assert : Bool → Outcome (Unit {0})
assert b = if b then returns tt else panic assert_failed

-- The line of "list" for an account.
abbrev pub account_line_of : Address × AccountData → Line
account_line_of (a, account) = Line.account_line a (is_some account.code) account.nonce

-- `for (address, account) in host_context.accounts { println!(..) }`
abbrev pub print_lines : List Line → World → World
print_lines lines w = record w { printed = w.printed ++ lines }

module _ (lib : Library) (ext : Externals) (fuel : ℕ) where
  -- What "create" and "call" do with a message and the code to execute: the context that is left
  -- is stored if there is a path for it.
  unfoldable pub execute_and_save :
      Matches
      → ExecutionMessage
      → Address
      → List ℕ
      → TestHostContext
      → World
      → Outcome (Result CliError World)
  execute_and_save matches message a code context w = do
    r ← execute (interface ext fuel) ext.evmone max_revision code message context
    _ ← assert (fixed_eq r.0.create_address (default 20))
    w' ← save_output lib matches (deployed message a r.0 r.1) w
    returns (ok w')

  -- "create", once the context is there
  unfoldable pub create_in :
      Matches → Address → World → TestHostContext → Outcome (Result CliError World)
  unfolding execute_and_save
  create_in matches a w context =
      if contract_exists context a
      then returns (err (CliError.contract_already_exists a))
      else unwrap (matches.value_of Arg.code) >>= λ path. load_binary lib path w >>= λ code.
          input_data_of lib matches >>= λ input_data.
          execute_and_save matches (create_message a) a (code ++ input_data) context w

  unfoldable pub create_command : Matches → World → Outcome (Result CliError World)
  unfolding create_in
  create_command matches w = do
    a ← address_of lib matches
    get_context lib matches a false w >>=? create_in matches a w

  -- "call", once the context is there
  unfoldable pub call_in :
      Matches → Address → World → TestHostContext → Outcome (Result CliError World)
  unfolding execute_and_save
  call_in matches a w context = do
    code ← stored_code a context
    input_data ← input_data_of lib matches
    execute_and_save matches (call_message matches.is_static a input_data) a code context w

  unfoldable pub call_command : Matches → World → Outcome (Result CliError World)
  unfolding call_in
  call_command matches w = do
    a ← address_of lib matches
    get_context lib matches a true w >>=? call_in matches a w

  -- The order of the lines is that of the map.
  unfoldable pub list_command : Matches → World → Outcome (Result CliError World)
  list_command matches w = get_context lib matches (default 20) true w >>=? λ context.
      returns (ok (print_lines (map account_line_of context.accounts.entries) w))

  unfoldable pub show_account :
      Address → Option AccountData → World → Outcome (Result CliError World)
  show_account a none w = returns (err (CliError.account_not_exists a))
  show_account a (some account) w = unwrap (lib.write_account account) >>= λ text.
      returns (ok (print_line (Line.account_json text) w))

  unfoldable pub show_command : Matches → World → Outcome (Result CliError World)
  unfolding show_account
  show_command matches w = get_context lib matches (default 20) true w >>=? λ context.
      address_of lib matches >>= λ a. show_account a (get a context.accounts) w

  unfoldable pub remove_account :
      Matches
      → Address
      → Option AccountData
      → TestHostContext
      → World
      → Outcome (Result CliError World)
  remove_account matches a none context w = returns (err (CliError.account_not_exists a))
  remove_account matches a (some account) context w = do
    path ← unwrap (matches.value_of Arg.input_storage)
    w' ← write_storage lib path context w
    text ← unwrap (lib.write_account account)
    returns (ok (print_line (Line.account_removed a text) w'))

  -- "remove"
  unfoldable pub remove_command : Matches → World → Outcome (Result CliError World)
  unfolding remove_account
  remove_command matches w = get_context lib matches (default 20) true w >>=? λ context.
      address_of lib matches >>= λ a.
      remove_account matches a (get a context.accounts)
        (record context { accounts = HashMap.remove a context.accounts }) w

  -- The dispatch of `main` on the subcommand.
  unfoldable pub main : Subcommand → Matches → World → Outcome (Result CliError World)
  unfolding create_command call_command list_command show_command remove_command
  main Subcommand.create matches w = create_command matches w
  main Subcommand.call matches w = call_command matches w
  main Subcommand.list matches w = list_command matches w
  main Subcommand.show matches w = show_command matches w
  main Subcommand.remove matches w = remove_command matches w
  main Subcommand.other matches w = returns (ok (print_line Line.unknown_subcommand w))
