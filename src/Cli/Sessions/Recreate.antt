-- ===== src/Cli/Sessions/Recreate.antt =====
-- src/main.rs, `main`: "create" at an address that "remove" has freed.
use play_evmone.Base.{ℕ, ◌≡◌, refl, ap, sym, ◌∙◌, true, false, some, ◌++◌}
use mathlib.Core.Option.{some-injective}
use play_evmone.Base.Outcome.{returns, returns-injective, ok, unwrap, ◌>>=◌}
use play_evmone.HashMap
use play_evmone.HashMap.Laws.{get-remove, beq_refl}
use play_evmone.Bytes.{Address, default, fixed_bytes_eq}
use play_evmone.Host.{TestHostContext, contract_exists}
use play_evmone.Host.Call.{Externals}
use play_evmone.Cli.{
  Text, Arg, Matches, Library, World, address_of, get_context, load_binary, input_data_of,
}
use play_evmone.Cli.Commands.{
  create_message, create_in, create_command, execute_and_save, remove_command,
}
use play_evmone.Cli.Runs.{remove_command-Removed}
use play_evmone.Cli.Sessions.{IsJson, write_storage-get_context, print_line-get_context}

module _ (lib : Library) (json : IsJson lib) (ext : Externals) (fuel : ℕ)
    (matches matches' : Matches) (path : Text) (w : World) where
  -- After a "remove" that ends well, "create" of the removed address on the same storage is not
  -- refused: it goes on to execute the given code on the context that "remove" had loaded, without
  -- the account.
  pub remove_command-create_command :
      {w' : World} (a : Address)
      → remove_command lib ext fuel matches w ≡ returns (ok w')
      → address_of lib matches ≡ returns a
      → address_of lib matches' ≡ returns a
      → matches.value_of Arg.input_storage ≡ some path
      → matches'.value_of Arg.input_storage ≡ some path
      → (c : TestHostContext) × (get_context lib matches (default 20) true w ≡ returns (ok c))
        × (create_command lib ext fuel matches' w' ≡ (
            unwrap (matches'.value_of Arg.code) >>= λ file. load_binary lib file w' >>= λ code.
            input_data_of lib matches' >>= λ input_data.
            execute_and_save lib ext fuel matches'
              (create_message a)
              a
              (code ++ input_data)
              (record c { accounts = HashMap.remove a c.accounts })
              w'))
  unfolding create_command create_in contract_exists
  remove_command-create_command {w'} a h ea ea' i i' =
      let r = remove_command-Removed lib ext fuel matches w h in
      let same : r.address ≡ a = returns-injective (sym r.reads_address ∙ ea) in
      let from : r.path ≡ path = some-injective _ _ (sym r.from_path ∙ i) in
      let loads =
        write_storage-get_context lib json r.path _ w matches' a false r.stores
          (i' ∙ ap (λ (p : Text). some p) (sym from)) in
      (
        r.context,
        r.loads,
        rw
            (
              r.leaves,
              ea',
              print_line-get_context lib json path _ r.stored matches' a false i',
              loads,
              same,
              get-remove,
              beq_refl a,
            )
            refl,
      )
