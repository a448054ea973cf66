-- ===== src/Cli/Ends/Main.antt =====
-- src/main.rs, `main`: how a run of a subcommand can end.
use play_evmone.Base.{ℕ, ◌≤◌, ◌≡◌, ◌≢◌, refl, true, false, Option, none, some, List}
use play_evmone.Base.Outcome.{out_of_fuel, unwrap}
use play_evmone.HashMap.{get}
use play_evmone.Bytes.{Address, default, fixed_eq, fixed_bytes_eq}
use play_evmone.Evmc.{ExecutionMessage, max_revision}
use play_evmone.Evmc.Vm.{execute}
use play_evmone.Host.{AccountData, TestHostContext, contract_exists}
use play_evmone.Host.Call.{Externals, interface}
use play_evmone.Host.Call.Sound.{Obeys}
use play_evmone.Host.Call.Fuel.{DepthLimited, execute-ne-out_of_fuel}
use play_evmone.Cli.{
  text_eq, Text, Arg, Matches, Library, World, address_of, get_context, load_binary, input_data_of,
  write_storage, save_output,
}
use play_evmone.Cli.Commands.{
  Subcommand, create_message, call_message, deployed, assert, stored_code, execute_and_save,
  create_in, create_command, call_in, call_command, list_command, show_account, show_command,
  remove_account, remove_command, main,
}
use play_evmone.Cli.Ends.{
  Ends-ne, Ends-iff, Ends, Ends-bind, Ends-try, Ends-unwrap, Ends-if, Ends-address_of,
  Ends-get_context, Ends-load_binary, Ends-input_data_of, Ends-write_storage, Ends-save_output,
}

module _ (lib : Library) (ext : Externals) (fuel : ℕ)
    (ends : (t : Text) → lib.read_context t ≢ out_of_fuel) (obeys : Obeys DepthLimited ext.evmone)
    (enough : 1024 ≤ fuel) where
  Ends-execute_and_save :
      (matches : Matches) (m : ExecutionMessage) (a : Address) (code : List ℕ) (c : TestHostContext)
      (w : World)
      → m.depth ≡ 0
      → Ends (execute_and_save lib ext fuel matches m a code c w)
  unfolding execute_and_save
  Ends-execute_and_save matches m a code c w shallow =
      Ends-bind (execute (interface ext fuel) ext.evmone max_revision code m c) _
        (Ends-iff _ (execute-ne-out_of_fuel ext fuel max_revision code m c obeys shallow enough))
        λ r.
          Ends-bind (assert (fixed_eq r.0.create_address (default 20))) _
            (Ends-if (fixed_eq r.0.create_address (default 20)) _ _ tt tt)
            λ u.
              Ends-bind (save_output lib matches (deployed m a r.0 r.1) w) _
                (Ends-save_output lib ends matches _ w) λ w'. tt

  Ends-create_in :
      (matches : Matches) (a : Address) (w : World) (c : TestHostContext)
      → Ends (create_in lib ext fuel matches a w c)
  unfolding create_in
  Ends-create_in matches a w c = Ends-if (contract_exists c a) _ _ tt (
      Ends-bind (unwrap (matches.value_of Arg.code)) _ (Ends-unwrap _) λ path.
        Ends-bind (load_binary lib path w) _ (Ends-load_binary lib ends path w) λ code.
          Ends-bind (input_data_of lib matches) _ (Ends-input_data_of lib ends matches)
            λ input. Ends-execute_and_save matches (create_message a) a _ c w refl)

  Ends-stored_code : (a : Address) (c : TestHostContext) → Ends (stored_code a c)
  Ends-stored_code a c =
      Ends-bind (unwrap (get a c.accounts)) _ (Ends-unwrap _)
        λ account. Ends-bind (unwrap account.code) _ (Ends-unwrap _) λ code. tt

  Ends-call_in :
      (matches : Matches) (a : Address) (w : World) (c : TestHostContext)
      → Ends (call_in lib ext fuel matches a w c)
  unfolding call_in
  Ends-call_in matches a w c = Ends-bind (stored_code a c) _ (Ends-stored_code a c) λ code.
      Ends-bind (input_data_of lib matches) _ (Ends-input_data_of lib ends matches) λ input.
        Ends-execute_and_save matches (call_message matches.is_static a input) a code c w refl

  Ends-show_account :
      (a : Address) (o : Option AccountData) (w : World) → Ends (show_account lib ext fuel a o w)
  unfolding show_account
  Ends-show_account a none w = tt
  Ends-show_account a (some account) w =
      Ends-bind (unwrap (lib.write_account account)) _ (Ends-unwrap _) λ t. tt

  Ends-remove_account :
      (matches : Matches) (a : Address) (o : Option AccountData) (c : TestHostContext) (w : World)
      → Ends (remove_account lib ext fuel matches a o c w)
  unfolding remove_account
  Ends-remove_account matches a none c w = tt
  Ends-remove_account matches a (some account) c w =
      Ends-bind (unwrap (matches.value_of Arg.input_storage)) _ (Ends-unwrap _) λ path.
        Ends-bind (write_storage lib path c w) _ (Ends-write_storage lib ends path c w)
          λ w'. Ends-bind (unwrap (lib.write_account account)) _ (Ends-unwrap _) λ t. tt

  Ends-main :
      (command : Subcommand) (matches : Matches) (w : World)
      → Ends (main lib ext fuel command matches w)
  unfolding main create_command call_command list_command show_command remove_command
  Ends-main Subcommand.create matches w =
      Ends-bind (address_of lib matches) _ (Ends-address_of lib ends matches) λ a.
        Ends-try (get_context lib matches a false w) _ (Ends-get_context lib ends matches a false w)
          λ c. Ends-create_in matches a w c
  Ends-main Subcommand.call matches w =
      Ends-bind (address_of lib matches) _ (Ends-address_of lib ends matches) λ a.
        Ends-try (get_context lib matches a true w) _ (Ends-get_context lib ends matches a true w)
          λ c. Ends-call_in matches a w c
  Ends-main Subcommand.list matches w =
      Ends-try (get_context lib matches (default 20) true w) _
        (Ends-get_context lib ends matches (default 20) true w) λ c. tt
  Ends-main Subcommand.show matches w =
      Ends-try (get_context lib matches (default 20) true w) _
        (Ends-get_context lib ends matches (default 20) true w)
        λ c.
          Ends-bind (address_of lib matches) _ (Ends-address_of lib ends matches)
            λ a. Ends-show_account a (get a c.accounts) w
  Ends-main Subcommand.remove matches w =
      Ends-try (get_context lib matches (default 20) true w) _
        (Ends-get_context lib ends matches (default 20) true w)
        λ c.
          Ends-bind (address_of lib matches) _ (Ends-address_of lib ends matches)
            λ a. Ends-remove_account matches a (get a c.accounts) _ w
  Ends-main Subcommand.other matches w = tt

  -- On a machine that keeps to the depth limit, with a JSON reader that ends, every subcommand
  -- ends with fuel 1024 or more: it returns or panics.
  pub main-ne-out_of_fuel :
      (command : Subcommand) (matches : Matches) (w : World)
      → main lib ext fuel command matches w ≢ out_of_fuel
  main-ne-out_of_fuel command matches w =
      Ends-ne (main lib ext fuel command matches w) (Ends-main command matches w)
