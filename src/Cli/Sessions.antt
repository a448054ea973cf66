-- ===== src/Cli/Sessions.antt =====
-- src/main.rs, `main`: subcommands run one after the other on a storage file.
pub mod Recreate
use play_evmone.Base.{
  ℕ, ◌≡◌, refl, ap, sym, ◌∙◌, Bool, true, false, none, some, List, if◌then◌else◌,
}
use mathlib.Core.Option.{some-injective}
use play_evmone.Base.Outcome.{returns, returns-injective, ok, err, unwrap, >>=-returns_elim}
use play_evmone.HashMap.{get}
use play_evmone.HashMap.Laws.{get-insert, get-remove, beq_refl}
use play_evmone.Bytes.{Address, default, fixed_eq, fixed_bytes_eq}
use play_evmone.Evmc.{ExecutionMessage, ExecutionResult, is_success, max_revision}
use play_evmone.Host.{TestHostContext, contract_exists, update_code}
use play_evmone.Host.Call.{Externals}
use play_evmone.Host.Call.World.{
  Evolves, AccountsStay, EntriesExtend, DestructedGrow, Evolves-AccountsStay, Evolves-EntriesExtend,
  Evolves-DestructedGrow,
}
use play_evmone.Host.Call.Invariants.{execute-Evolves}
use play_evmone.Host.Call.Sound.{unwrap-eq, finished-Evolves}
use play_evmone.Cli.{
  text_eq, Text, Arg, Matches, Library, World, CliError, address_of, get_context, context_from,
  load_context, write_storage, save_output, save_to, Line, print_line,
}
use play_evmone.Cli.Commands.{
  create_message, deployed, create_in, create_command, call_command, show_account, show_command,
  remove_command,
}
use play_evmone.Cli.Files.{write_file-written}
use play_evmone.Cli.Runs.{Saved, Created, call_command-Called, remove_command-Removed}

-- What is asked of serde_json: the text of a context is UTF-8, and reading it gives the context.
pub record IsJson (lib : Library) : Type 0 where
  pub utf8 :
      (c : TestHostContext) (t : Text) → lib.write_context c ≡ some t → lib.from_utf8 t ≡ some t
  pub round_trip :
      (c : TestHostContext) (t : Text)
      → lib.write_context c ≡ some t
      → lib.read_context (lib.trim t) ≡ returns (some c)

contract_exists-deployed :
    (a : Address) (r : ExecutionResult) (c : TestHostContext)
    → is_success r.status_code ≡ true
    → contract_exists (deployed (create_message a) a r c) a ≡ true
unfolding contract_exists update_code
contract_exists-deployed a r c h = rw (h, get-insert, beq_refl a) refl

module _ (lib : Library) (json : IsJson lib) where
  write_storage-load_context :
      (path : Text) (c : TestHostContext) (w : World) {w' : World}
      → write_storage lib path c w ≡ returns w'
      → load_context lib path w' ≡ returns c
  unfolding write_storage load_context
  write_storage-load_context path c w h =
      >>=-returns_elim (unwrap (lib.write_context c)) _ h λ text e q.
        let written = unwrap-eq (lib.write_context c) e in
        rw
          (
            write_file-written path text w q,
            get-insert,
            beq_refl ⦃e = text_eq⦄ path,
            json.utf8 c text written,
            json.round_trip c text written,
          )
          refl

  print_line-get_context :
      (path : Text) (line : Line) (w : World) (matches : Matches) (a : Address) (required : Bool)
      → matches.value_of Arg.input_storage ≡ some path
      → get_context lib matches a required (print_line line w)
        ≡ get_context lib matches a required w
  unfolding get_context context_from load_context
  print_line-get_context path line w matches a required i = rw i refl

  -- A context that was stored is what the next subcommand loads.
  pub write_storage-get_context :
      (path : Text) (c : TestHostContext) (w : World) (matches : Matches) (a : Address)
      (required : Bool) {w' : World}
      → write_storage lib path c w ≡ returns w'
      → matches.value_of Arg.input_storage ≡ some path
      → get_context lib matches a required w' ≡ returns (ok c)
  unfolding get_context context_from
  write_storage-get_context path c w matches a required h e =
      rw (e, write_storage-load_context path c w h) refl

  pub save_output-get_context :
      (path : Text) (c : TestHostContext) (w : World) (matches matches' : Matches) (a : Address)
      (required : Bool) {w' : World}
      → save_output lib matches c w ≡ returns w'
      → matches.value_of Arg.output_storage ≡ some path
      → matches'.value_of Arg.input_storage ≡ some path
      → get_context lib matches' a required w' ≡ returns (ok c)
  unfolding save_output save_to
  save_output-get_context path c w matches matches' a required h o i =
      write_storage-get_context path c w matches' a required (rw o at h) i

module _ (lib : Library) (json : IsJson lib) (ext : Externals) (fuel : ℕ)
    (matches matches' : Matches) (path : Text) (w : World) where
  -- What "create" and "call" store, an evolution of the context that they loaded.
  Saved-Evolves :
      {m : ExecutionMessage} {a : Address} {code : List ℕ} {c : TestHostContext} {w' : World}
      → (b : Address) → (required : Bool) → Saved lib ext fuel matches w m a code c w'
      → matches.value_of Arg.output_storage ≡ some path
      → matches'.value_of Arg.input_storage ≡ some path
      → (c' : TestHostContext) × (get_context lib matches' b required w' ≡ returns (ok c'))
        × Evolves c c'
  Saved-Evolves {m} {a} {code} {c} b required s o i = (
    deployed m a s.result s.left,
    save_output-get_context lib json path (deployed m a s.result s.left) w matches matches' b
        required s.saves o i,
    finished-Evolves ext m a s.result (execute-Evolves ext fuel max_revision code m c s.executes),
  )

  -- After a "call" that ends well and has an output path, a subcommand that reads this path loads a
  -- context in which no account of the one that "call" had loaded is lost, every account has kept
  -- its nonce, its address, its logs in order and that it has code, and the list of destructed
  -- accounts has at most grown.
  pub call_command_preserves :
      {w' : World} (b : Address) (required : Bool)
      → call_command lib ext fuel matches w ≡ returns (ok w')
      → matches.value_of Arg.output_storage ≡ some path
      → matches'.value_of Arg.input_storage ≡ some path
      → (a : Address) × (c : TestHostContext) × (c' : TestHostContext) × (get_context lib matches a
            true w
          ≡ returns (ok c))
        × (get_context lib matches' b required w' ≡ returns (ok c'))
        × AccountsStay c c'
        × EntriesExtend c c'
        × DestructedGrow c c'
  call_command_preserves b required h o i =
      let r = call_command-Called lib ext fuel matches w h in
      let (c', loads, evolves) = Saved-Evolves b required r.saved o i in
      (
        r.address,
        r.context,
        c',
        r.loads,
        loads,
        Evolves-AccountsStay evolves,
        Evolves-EntriesExtend evolves,
        Evolves-DestructedGrow evolves,
      )

  -- A "remove" that ends well is seen by the next "show" of the same storage: an account with the
  -- address that was removed it does not find, and any other one it shows as it was.
  pub remove_command-show_command :
      {w' : World} (a b : Address)
      → remove_command lib ext fuel matches w ≡ returns (ok w')
      → address_of lib matches ≡ returns a
      → address_of lib matches' ≡ returns b
      → matches.value_of Arg.input_storage ≡ some path
      → matches'.value_of Arg.input_storage ≡ some path
      → (c : TestHostContext) × (get_context lib matches (default 20) true w ≡ returns (ok c))
        × (show_command lib ext fuel matches' w'
            ≡ show_account lib ext fuel b (if fixed_eq a b then none else get b c.accounts) w')
  unfolding show_command
  remove_command-show_command {w'} a b h ea eb i i' =
      let r = remove_command-Removed lib ext fuel matches w h in
      let same : r.address ≡ a = returns-injective (sym r.reads_address ∙ ea) in
      let from : r.path ≡ path = some-injective _ _ (sym r.from_path ∙ i) in
      let loads =
        write_storage-get_context lib json r.path _ w matches' (default 20) true r.stores
          (i' ∙ ap (λ (p : Text). some p) (sym from)) in
      (
        r.context,
        r.loads,
        rw
            (
              r.leaves,
              print_line-get_context lib json path _ r.stored matches' (default 20) true i',
              loads,
              eb,
              get-remove,
              same,
            )
            refl,
      )

  -- After a "create" that ends well, whose execution succeeded and which has an output path, a
  -- second "create" of the address on this storage is refused.
  pub create_command-create_command :
      {w' : World}
      → (r : Created lib ext fuel matches w w') → is_success r.saved.result.status_code ≡ true
      → matches.value_of Arg.output_storage ≡ some path
      → matches'.value_of Arg.input_storage ≡ some path
      → address_of lib matches' ≡ returns r.address
      → create_command lib ext fuel matches' w'
        ≡ returns (err (CliError.contract_already_exists r.address))
  unfolding create_command create_in
  create_command-create_command {w'} r success o i ea =
      let loads =
        save_output-get_context lib json path
          (deployed (create_message r.address) r.address r.saved.result r.saved.left) w matches
          matches' r.address false r.saved.saves o i in
      rw (ea, loads, contract_exists-deployed r.address r.saved.result r.saved.left success) refl
