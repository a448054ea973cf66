-- ===== src/Cli/Runs.antt =====
-- src/main.rs, `main`: what a subcommand that ends well has done, read off its run.
use play_evmone.Base.{
  ℕ, ◌≡◌, subst, refl, sym, Bool, true, false, Option, none, some, List, ◌++◌, if◌then◌else◌,
}
use play_evmone.Base.Outcome.{
  ◌>>=?◌, Outcome, Result, returns, panic, out_of_fuel, ok, err, unwrap, >>=-returns_elim,
}
use play_evmone.HashMap
use play_evmone.HashMap.{get, insert}
use play_evmone.Bytes.{Address, default, fixed_bytes_eq}
use play_evmone.Evmc.{ExecutionMessage, ExecutionResult, max_revision}
use play_evmone.Evmc.Vm.{execute}
use play_evmone.Host.{AccountData, TestHostContext, contract_exists}
use play_evmone.Host.Call.{Externals, interface}
use play_evmone.Host.Call.Sound.{unwrap-eq}
use play_evmone.Cli.{
  text_eq, Text, Arg, Matches, Library, World, CliError, address_of, get_context, load_binary,
  input_data_of, write_storage, save_output, print_line, Line,
}
use play_evmone.Cli.Commands.{
  create_message, call_message, deployed, stored_code, execute_and_save, create_in, create_command,
  call_in, call_command, remove_account, remove_command,
}

-- A chain with `?` that ends well has run both of its parts.
pub >>=?-returns_elim :
    {A B C : Type 0} (m : Outcome (Result CliError A)) (f : A → Outcome (Result CliError B)) {b : B}
    → (m >>=? f) ≡ returns (ok b)
    → ((a : A) → m ≡ returns (ok a) → f a ≡ returns (ok b) → C)
    → C
>>=?-returns_elim (returns (ok a)) f h k = k a refl h
>>=?-returns_elim (returns (err e)) f h k = cc
>>=?-returns_elim (panic p) f h k = cc
>>=?-returns_elim out_of_fuel f h k = cc

-- A test that refuses has failed in a run that ends well.
refused_elim :
    {A : Type 0} (b : Bool) (e : CliError) {m : Outcome (Result CliError A)} {a : A}
    → (if b then returns (err e) else m) ≡ returns (ok a)
    → (b ≡ false) × (m ≡ returns (ok a))
refused_elim true e h = cc
refused_elim false e h = (refl, h)

module _ (lib : Library) (ext : Externals) (fuel : ℕ) (matches : Matches) (w : World) where
  -- What a run of "create" or "call" that ends well has done: it has executed, and stored what was
  -- left.
  pub record Saved (message : ExecutionMessage) (a : Address) (code : List ℕ)
      (context : TestHostContext) (w' : World) : Type 0 where
    pub result : ExecutionResult
    pub left : TestHostContext
    pub executes :
        execute (interface ext fuel) ext.evmone max_revision code message context
        ≡ returns (result, left)
    pub saves : save_output lib matches (deployed message a result left) w ≡ returns w'

  pub ok_inj :
      {x y : World}
      → ◌≡◌ {A = Outcome (Result CliError World)} (returns (ok x)) (returns (ok y))
      → x ≡ y
  ok_inj q = cc

  execute_and_save-Saved :
      (message : ExecutionMessage) (a : Address) (code : List ℕ) (context : TestHostContext)
      {w' : World}
      → execute_and_save lib ext fuel matches message a code context w ≡ returns (ok w')
      → Saved message a code context w'
  unfolding execute_and_save
  execute_and_save-Saved message a code context {w'} h = >>=-returns_elim _ _ h λ r executes h1.
      >>=-returns_elim _ _ h1 λ u e h2. >>=-returns_elim _ _ h2 λ t saves h3. record {
        result = r.0;
        left = r.1;
        executes = executes;
        saves =
            subst
              (λ (v : World). save_output lib matches (deployed message a r.0 r.1) w ≡ returns v)
              (ok_inj h3) saves;
      }

  -- A run of "create" that ends well.
  pub record Created (w' : World) : Type 0 where
    pub address : Address
    pub context : TestHostContext
    pub code : List ℕ
    pub reads_address : address_of lib matches ≡ returns address
    pub loads : get_context lib matches address false w ≡ returns (ok context)
    pub is_new : contract_exists context address ≡ false
    pub saved : Saved (create_message address) address code context w'

  create_in-Created :
      (a : Address) (context : TestHostContext) {w' : World}
      → address_of lib matches ≡ returns a
      → get_context lib matches a false w ≡ returns (ok context)
      → create_in lib ext fuel matches a w context ≡ returns (ok w')
      → Created w'
  unfolding create_in
  create_in-Created a context {w'} ea ec h =
      let (is_new, h0) = refused_elim (contract_exists context a) _ h in
      >>=-returns_elim (unwrap (matches.value_of Arg.code)) _ h0 λ path e1 h1.
        >>=-returns_elim (load_binary lib path w) _ h1 λ code e2 h2.
          >>=-returns_elim (input_data_of lib matches) _ h2 λ input_data e3 h3. record {
            address = a;
            context = context;
            code = code ++ input_data;
            reads_address = ea;
            loads = ec;
            is_new = is_new;
            saved = execute_and_save-Saved (create_message a) a (code ++ input_data) context h3;
          }

  pub create_command-Created :
      {w' : World} → create_command lib ext fuel matches w ≡ returns (ok w') → Created w'
  unfolding create_command
  create_command-Created h =
      >>=-returns_elim _ _ h
        λ a ea h1. >>=?-returns_elim _ _ h1 λ context ec h2. create_in-Created a context ea ec h2

  -- A run of "call" that ends well.
  pub record Called (w' : World) : Type 0 where
    pub address : Address
    pub context : TestHostContext
    pub code : List ℕ
    pub input_data : List ℕ
    pub reads_address : address_of lib matches ≡ returns address
    pub loads : get_context lib matches address true w ≡ returns (ok context)
    pub has_code : stored_code address context ≡ returns code
    pub saved : Saved (call_message matches.is_static address input_data) address code context w'

  pub call_command-Called :
      {w' : World} → call_command lib ext fuel matches w ≡ returns (ok w') → Called w'
  unfolding call_command call_in
  call_command-Called h = >>=-returns_elim _ _ h λ a ea h1.
      >>=?-returns_elim _ _ h1 λ context ec h2. >>=-returns_elim _ _ h2 λ code e1 h3.
        >>=-returns_elim _ _ h3 λ input_data e2 h4. record {
          address = a;
          context = context;
          code = code;
          input_data = input_data;
          reads_address = ea;
          loads = ec;
          has_code = e1;
          saved = execute_and_save-Saved _ a code context h4;
        }

  -- A run of "remove" that ends well.
  pub record Removed (w' : World) : Type 0 where
    pub address : Address
    pub context : TestHostContext
    pub account : AccountData
    pub path : Text
    pub text : Text
    pub reads_address : address_of lib matches ≡ returns address
    pub loads : get_context lib matches (default 20) true w ≡ returns (ok context)
    pub is_there : get address context.accounts ≡ some account
    pub from_path : matches.value_of Arg.input_storage ≡ some path
    pub stored : World
    pub stores :
        write_storage lib path
          (record context { accounts = HashMap.remove address context.accounts })
          w
        ≡ returns stored
    pub leaves : w' ≡ print_line (Line.account_removed address text) stored

  remove_account-Removed :
      (a : Address) (context : TestHostContext) (o : Option AccountData) {w' : World}
      → address_of lib matches ≡ returns a
      → get_context lib matches (default 20) true w ≡ returns (ok context)
      → get a context.accounts ≡ o
      → remove_account lib ext fuel matches a o
          (record context { accounts = HashMap.remove a context.accounts })
          w
        ≡ returns (ok w')
      → Removed w'
  unfolding remove_account
  remove_account-Removed a context none ea ec eo h = cc
  remove_account-Removed a context (some account) ea ec eo h = >>=-returns_elim _ _ h λ path e1 h1.
      >>=-returns_elim _ _ h1 λ stored e2 h2. >>=-returns_elim _ _ h2 λ text e3 h3. record {
        address = a;
        context = context;
        account = account;
        path = path;
        text = text;
        reads_address = ea;
        loads = ec;
        is_there = eo;
        from_path = unwrap-eq (matches.value_of Arg.input_storage) e1;
        stored = stored;
        stores = e2;
        leaves = sym (ok_inj h3);
      }

  pub remove_command-Removed :
      {w' : World} → remove_command lib ext fuel matches w ≡ returns (ok w') → Removed w'
  unfolding remove_command
  remove_command-Removed h = >>=?-returns_elim _ _ h λ context ec h1.
      >>=-returns_elim _ _ h1 λ a ea h2. remove_account-Removed a context _ ea ec refl h2
