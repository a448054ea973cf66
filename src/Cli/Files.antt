-- ===== src/Cli/Files.antt =====
-- src/main.rs, `main`: the files that a subcommand touches.
use play_evmone.Base.{
  true, ℕ, ◌≡◌, ◌≢◌, refl, ap, sym, ◌∙◌, Option, none, some, List, Bool-cases, inl, inr,
}
use play_evmone.Base.Outcome.{Outcome, returns, panic, unwrap_failed, ok, unwrap, >>=-returns_elim}
use play_evmone.HashMap.{get, insert}
use play_evmone.HashMap.Laws.{get-insert}
use play_evmone.Bytes.{Address, bytes_eq, bytes_eq_iff, default, fixed_bytes_eq}
use play_evmone.Host.{AccountData, TestHostContext}
use play_evmone.Host.Call.{Externals}
use play_evmone.Cli.{
  address_of, get_context, text_eq, Text, Arg, Matches, Library, World, write_file, write_storage,
  save_output, save_to,
}
use play_evmone.Cli.Commands.{Subcommand, list_command, show_account, show_command, main}
use play_evmone.Cli.Runs.{
  >>=?-returns_elim, Removed, ok_inj, create_command-Created, call_command-Called,
  remove_command-Removed,
}

-- The path that a subcommand may write to.
abbrev pub written_path : Subcommand → Matches → Option Text
written_path Subcommand.create matches = matches.value_of Arg.output_storage
written_path Subcommand.call matches = matches.value_of Arg.output_storage
written_path Subcommand.remove matches = matches.value_of Arg.input_storage
written_path _ matches = none

-- A path other than the given one holds what it held.
abbrev pub KeepsOthers : Option Text → World → World → Type 0
KeepsOthers written w w' =
    (path : Text) → written ≢ some path → get path w'.files ≡ get path w.files

-- A write that succeeds leaves this entry in the map of files.
pub write_file-written :
    (path : Text) (bytes : List ℕ) (w : World) {w' : World}
    → write_file path bytes w ≡ returns w'
    → w'.files ≡ insert path bytes w.files
write_file-written path bytes w h = elim (Bool-cases (w.writable path)) [
  | inl e ↦ ap (λ (o : World). o.files) (sym (returns_inj (rw e at h)))
  | inr e ↦ absurd (panics (rw e at h))
]
  where
    returns_inj : {x y : World} → returns x ≡ returns y → x ≡ y
    returns_inj q = cc

    panics : {x : World} → ◌≡◌ {A = Outcome World} (panic unwrap_failed) (returns x) → ⊥
    panics q = cc

write_file-KeepsOthers :
    (path : Text) (bytes : List ℕ) (w : World) {w' : World}
    → write_file path bytes w ≡ returns w'
    → KeepsOthers (some path) w w'
write_file-KeepsOthers path bytes w h p ne =
    rw (write_file-written path bytes w h, get-insert)
      (elim (Bool-cases (bytes_eq path p)) [
        | inl e ↦ absurd (ne (ap (λ (q : Text). some q) ((bytes_eq_iff path p).0 e)))
        | inr e ↦ rw e refl
      ])

module _ (lib : Library) where
  pub write_storage-KeepsOthers :
      (path : Text) (c : TestHostContext) (w : World) {w' : World}
      → write_storage lib path c w ≡ returns w'
      → KeepsOthers (some path) w w'
  unfolding write_storage
  write_storage-KeepsOthers path c w h =
      >>=-returns_elim (unwrap (lib.write_context c)) _ h
        λ text e q. write_file-KeepsOthers path text w q

  returns_inj : {x y : World} → returns x ≡ returns y → x ≡ y
  returns_inj q = cc

  kept : {o : Option Text} {w w' : World} → w ≡ w' → KeepsOthers o w w'
  kept e p ne = ap (λ (v : World). get p v.files) (sym e)

  save_to-KeepsOthers :
      (o : Option Text) (c : TestHostContext) (w : World) {w' : World}
      → save_to lib o c w ≡ returns w'
      → KeepsOthers o w w'
  unfolding save_to
  save_to-KeepsOthers none c w h = kept {o = none} (returns_inj h)
  save_to-KeepsOthers (some path) c w h = write_storage-KeepsOthers path c w h

  save_output-KeepsOthers :
      (matches : Matches) (c : TestHostContext) (w : World) {w' : World}
      → save_output lib matches c w ≡ returns w'
      → KeepsOthers (matches.value_of Arg.output_storage) w w'
  unfolding save_output
  save_output-KeepsOthers matches c w h =
      save_to-KeepsOthers (matches.value_of Arg.output_storage) c w h

module _ (lib : Library) (ext : Externals) (fuel : ℕ) (matches : Matches) (w : World) where
  same_files : {o : Option Text} {v w' : World} → v ≡ w' → v.files ≡ w.files → KeepsOthers o w w'
  same_files e q path ne = rw (sym e, q) refl

  show_account-KeepsOthers :
      (a : Address) (o : Option AccountData) {w' : World}
      → show_account lib ext fuel a o w ≡ returns (ok w')
      → KeepsOthers none w w'
  unfolding show_account
  show_account-KeepsOthers a none h = cc
  show_account-KeepsOthers a (some account) h =
      >>=-returns_elim (unwrap (lib.write_account account)) _ h
        λ text e h1. same_files (ok_inj lib ext fuel matches w h1) refl

  list_command-KeepsOthers :
      {w' : World} → list_command lib ext fuel matches w ≡ returns (ok w') → KeepsOthers none w w'
  unfolding list_command
  list_command-KeepsOthers h =
      >>=?-returns_elim (get_context lib matches (default 20) true w) _ h
        λ context e h1. same_files (ok_inj lib ext fuel matches w h1) refl

  show_command-KeepsOthers :
      {w' : World} → show_command lib ext fuel matches w ≡ returns (ok w') → KeepsOthers none w w'
  unfolding show_command
  show_command-KeepsOthers h =
      >>=?-returns_elim (get_context lib matches (default 20) true w) _ h λ context e h1.
        >>=-returns_elim (address_of lib matches) _ h1
          λ a e1 h2. show_account-KeepsOthers a (get a context.accounts) h2

  Removed-KeepsOthers :
      {w' : World}
      → Removed lib ext fuel matches w w'
      → KeepsOthers (matches.value_of Arg.input_storage) w w'
  Removed-KeepsOthers r path ne =
      rw r.leaves
        (write_storage-KeepsOthers lib r.path _ w r.stores path (λ e. ne (r.from_path ∙ e)))

  main-KeepsOthers :
      (command : Subcommand) {w' : World}
      → main lib ext fuel command matches w ≡ returns (ok w')
      → KeepsOthers (written_path command matches) w w'
  unfolding main
  main-KeepsOthers Subcommand.create h =
      save_output-KeepsOthers lib matches _ w
        (create_command-Created lib ext fuel matches w h).saved.saves
  main-KeepsOthers Subcommand.call h =
      save_output-KeepsOthers lib matches _ w
        (call_command-Called lib ext fuel matches w h).saved.saves
  main-KeepsOthers Subcommand.list h = list_command-KeepsOthers h
  main-KeepsOthers Subcommand.show h = show_command-KeepsOthers h
  main-KeepsOthers Subcommand.remove h =
      let r = remove_command-Removed lib ext fuel matches w h in Removed-KeepsOthers r
  main-KeepsOthers Subcommand.other h = same_files (ok_inj lib ext fuel matches w h) refl

  -- A subcommand that ends well changes no file but the one at its output path: the output storage
  -- of "create" and "call", the input storage of "remove", none for the others.
  pub get-main :
      (command : Subcommand) (path : Text) {w' : World}
      → main lib ext fuel command matches w ≡ returns (ok w')
      → written_path command matches ≢ some path
      → get path w'.files ≡ get path w.files
  get-main command path h ne = main-KeepsOthers command h path ne
