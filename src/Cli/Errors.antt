-- ===== src/Cli/Errors.antt =====
-- src/main.rs, `main`: the errors that the subcommands hand back.
use play_evmone.Base.{
  ℕ, ◌≡◌, ◌↔◌, inl, inr, refl, Bool, true, false, Option, none, some, List, ◌++◌,
}
use play_evmone.Base.Outcome.{returns, ok, err, unwrap, >>=-returns_elim}
use play_evmone.Base.Errors.{NoErr, NoErr-bind, NoErr-ne, if-err, >>=?-err}
use play_evmone.HashMap.{get}
use play_evmone.Bytes.{Address, default, fixed_eq, fixed_bytes_eq}
use play_evmone.Evmc.{ExecutionMessage, max_revision}
use play_evmone.Evmc.Vm.{execute}
use play_evmone.Host.{AccountData, TestHostContext, contract_exists}
use play_evmone.Host.Call.{Externals, interface}
use play_evmone.Clap
use play_evmone.Clap.{Conforms}
use play_evmone.Cli.{
  Arg, Matches, Library, World, CliError, address_of, get_context, context_from, load_context,
  load_binary, input_data_of, write_storage, save_output,
}
use play_evmone.Cli.Commands.{
  Subcommand, main, create_command, create_in, call_command, call_in, list_command, show_command,
  show_account, remove_command, remove_account, execute_and_save, assert, deployed, create_message,
  call_message, stored_code,
}
use play_evmone.Cli.Arguments.{Name, declared, matched}

module _ (lib : Library) where
  get_context-none :
      (m : Matches) (a : Address) (w : World)
      → m.value_of Arg.input_storage ≡ none
      → get_context lib m a true w ≡ returns (err CliError.storage_required)
  unfolding get_context context_from
  get_context-none m a w h = rw h refl

  -- The closure refuses only a storage that is required and not there.
  get_context-err :
      (m : Matches) (a : Address) (required : Bool) (w : World) {e : CliError}
      → get_context lib m a required w ≡ returns (err e)
      → (e ≡ CliError.storage_required) × (required ≡ true) × (m.value_of Arg.input_storage ≡ none)
  unfolding get_context context_from
  get_context-err m a required w {e} h = go (m.value_of Arg.input_storage) required h
    where
      go :
          (o : Option (List ℕ)) (r : Bool)
          → context_from lib o a r w ≡ returns (err e)
          → (e ≡ CliError.storage_required) × (r ≡ true) × (o ≡ none)
      go none true h = (cc, refl, refl)
      go none false h = cc
      go (some path) r h = elim (NoErr-ne _ (NoErr-bind (load_context lib path w) _ λ c. tt) h) [ ]

-- Why a subcommand hands an error back.
module _ (lib : Library) (m : Matches) (w : World) where
  abbrev NotThere : Address → Type 0
  NotThere a =
      (context : TestHostContext) × (get_context lib m (default 20) true w ≡ returns (ok context))
      × (address_of lib m ≡ returns a)
      × (get a context.accounts ≡ none)

  abbrev pub Refused : Subcommand → CliError → Type 0
  Refused Subcommand.create (CliError.contract_already_exists a) =
      (context : TestHostContext) × (address_of lib m ≡ returns a)
      × (get_context lib m a false w ≡ returns (ok context))
      × (contract_exists context a ≡ true)
  Refused Subcommand.list CliError.storage_required = m.value_of Arg.input_storage ≡ none
  Refused Subcommand.show CliError.storage_required = m.value_of Arg.input_storage ≡ none
  Refused Subcommand.remove CliError.storage_required = m.value_of Arg.input_storage ≡ none
  Refused Subcommand.show (CliError.account_not_exists a) = NotThere a
  Refused Subcommand.remove (CliError.account_not_exists a) = NotThere a
  Refused _ _ = ⊥

-- The errors of the subcommands, one after the other.
module _ (lib : Library) (ext : Externals) (fuel : ℕ) (m : Matches) (w : World) where
  execute_and_save-NoErr :
      (msg : ExecutionMessage) (a : Address) (code : List ℕ) (context : TestHostContext)
      → NoErr (execute_and_save lib ext fuel m msg a code context w)
  unfolding execute_and_save
  execute_and_save-NoErr msg a code context =
      NoErr-bind (execute (interface ext fuel) ext.evmone max_revision code msg context) _ λ r.
        NoErr-bind (assert (fixed_eq r.0.create_address (default 20))) _
          λ u. NoErr-bind (save_output lib m (deployed msg a r.0 r.1) w) _ λ w'. tt

  create_in-err :
      (a : Address) (context : TestHostContext) {e : CliError}
      → create_in lib ext fuel m a w context ≡ returns (err e)
      → (e ≡ CliError.contract_already_exists a) × (contract_exists context a ≡ true)
  unfolding create_in
  create_in-err a context h =
      if-err (contract_exists context a) _
        (NoErr-bind (unwrap (m.value_of Arg.code)) _ λ path.
          NoErr-bind (load_binary lib path w) _ λ code.
            NoErr-bind (input_data_of lib m) _ λ input_data.
              execute_and_save-NoErr (create_message a) a (code ++ input_data) context)
        h

  call_in-NoErr :
      (a : Address) (context : TestHostContext) → NoErr (call_in lib ext fuel m a w context)
  unfolding call_in
  call_in-NoErr a context = NoErr-bind (stored_code a context) _ λ code.
      NoErr-bind (input_data_of lib m) _
        λ input_data. execute_and_save-NoErr (call_message m.is_static a input_data) a code context

  show_account-err :
      (a : Address) (o : Option AccountData) {e : CliError}
      → show_account lib ext fuel a o w ≡ returns (err e)
      → (e ≡ CliError.account_not_exists a) × (o ≡ none)
  unfolding show_account
  show_account-err a none h = (cc, refl)
  show_account-err a (some account) h =
      elim (NoErr-ne _ (NoErr-bind (unwrap (lib.write_account account)) _ λ text. tt) h) [ ]

  remove_account-err :
      (a : Address) (o : Option AccountData) (context : TestHostContext) {e : CliError}
      → remove_account lib ext fuel m a o context w ≡ returns (err e)
      → (e ≡ CliError.account_not_exists a) × (o ≡ none)
  unfolding remove_account
  remove_account-err a none context h = (cc, refl)
  remove_account-err a (some account) context h =
      elim (NoErr-ne _
        (NoErr-bind (unwrap (m.value_of Arg.input_storage)) _ λ path.
          NoErr-bind (write_storage lib path context w) _
            λ w'. NoErr-bind (unwrap (lib.write_account account)) _ λ text. tt)
        h) [ ]

  Refused-main :
      (c : Subcommand) (e : CliError)
      → Refused lib m w c e
      → main lib ext fuel c m w ≡ returns (err e)
  unfolding main create_command create_in list_command show_command show_account remove_command
      remove_account
  Refused-main Subcommand.create (CliError.contract_already_exists a) (context, ea, ec, e) =
      rw (ea, ec, e) refl
  Refused-main Subcommand.list CliError.storage_required h =
      rw (get_context-none lib m (default 20) w h) refl
  Refused-main Subcommand.show CliError.storage_required h =
      rw (get_context-none lib m (default 20) w h) refl
  Refused-main Subcommand.remove CliError.storage_required h =
      rw (get_context-none lib m (default 20) w h) refl
  Refused-main Subcommand.show (CliError.account_not_exists a) (context, ec, ea, e) =
      rw (ec, ea, e) refl
  Refused-main Subcommand.remove (CliError.account_not_exists a) (context, ec, ea, e) =
      rw (ec, ea, e) refl
  Refused-main Subcommand.create CliError.storage_required h = elim h [ ]
  Refused-main Subcommand.create (CliError.account_not_exists a) h = elim h [ ]
  Refused-main Subcommand.call e h = elim h [ ]
  Refused-main Subcommand.list (CliError.contract_already_exists a) h = elim h [ ]
  Refused-main Subcommand.list (CliError.account_not_exists a) h = elim h [ ]
  Refused-main Subcommand.show (CliError.contract_already_exists a) h = elim h [ ]
  Refused-main Subcommand.remove (CliError.contract_already_exists a) h = elim h [ ]
  Refused-main Subcommand.other e h = elim h [ ]

module _ (lib : Library) (ext : Externals) (fuel : ℕ) (args : Clap.Matches Name) (w : World) where
  main-Refused :
      (c : Subcommand) (e : CliError)
      → Conforms (declared c) args
      → main lib ext fuel c (matched args) w ≡ returns (err e)
      → Refused lib (matched args) w c e
  unfolding main create_command call_command list_command show_command remove_command
  main-Refused Subcommand.create e fits h =
      >>=-returns_elim (address_of lib (matched args)) _ h λ a ea h'.
        elim (>>=?-err (get_context lib (matched args) a false w) _ h') [
          | inl x ↦ let (r, u, n) = get_context-err lib (matched args) a false w x in cc u
          | inr (context, ec, h'') ↦
              let (r, b) = create_in-err lib ext fuel (matched args) w a context h'' in
              rw r (context, ea, ec, b)
        ]
  main-Refused Subcommand.call e fits h =
      >>=-returns_elim (address_of lib (matched args)) _ h λ a ea h'.
        elim (>>=?-err (get_context lib (matched args) a true w) _ h') [
          | inl x ↦
              let (r, u, n) = get_context-err lib (matched args) a true w x in
              let (s, es) = fits.1.1.0.given refl in cc (n, es)
          | inr (context, ec, h'') ↦
              elim (NoErr-ne _ (call_in-NoErr lib ext fuel (matched args) w a context) h'') [ ]
        ]
  main-Refused Subcommand.list e fits h =
      elim (>>=?-err (get_context lib (matched args) (default 20) true w) _ h) [
        | inl x ↦ let (r, u, n) = get_context-err lib (matched args) (default 20) true w x in rw r n
        | inr (context, ec, h'') ↦ cc
      ]
  main-Refused Subcommand.show e fits h =
      elim (>>=?-err (get_context lib (matched args) (default 20) true w) _ h) [
        | inl x ↦ let (r, u, n) = get_context-err lib (matched args) (default 20) true w x in rw r n
        | inr (context, ec, h') ↦ >>=-returns_elim (address_of lib (matched args)) _ h' λ a ea h''.
            let (r, n) =
              show_account-err lib ext fuel (matched args) w a (get a context.accounts) h'' in
            rw r (context, ec, ea, n)
      ]
  main-Refused Subcommand.remove e fits h =
      elim (>>=?-err (get_context lib (matched args) (default 20) true w) _ h) [
        | inl x ↦ let (r, u, n) = get_context-err lib (matched args) (default 20) true w x in rw r n
        | inr (context, ec, h') ↦ >>=-returns_elim (address_of lib (matched args)) _ h' λ a ea h''.
            let (r, n) =
              remove_account-err lib ext fuel (matched args) w a (get a context.accounts) _ h'' in
            rw r (context, ec, ea, n)
      ]
  main-Refused Subcommand.other e fits h = cc

  -- For arguments that fit their declaration, the errors that a subcommand hands back, all of them:
  -- "list", "show" and "remove" refuse to run without an input storage; "create" refuses an address
  -- at which the context that it loads, or starts from, has a contract; "show" and "remove" refuse
  -- one that the context they load has no account at. "call" hands back no error.
  pub main-eq-err :
      (c : Subcommand) (e : CliError)
      → Conforms (declared c) args
      → (main lib ext fuel c (matched args) w ≡ returns (err e)) ↔ Refused lib (matched args) w c e
  main-eq-err c e fits = (main-Refused c e fits, Refused-main lib ext fuel (matched args) w c e)
