-- ===== src/AbiCmd/Panics.antt =====
-- src/abi_cmd.rs: how `process` can end on arguments that fit their declaration.
use play_evmone.Base.{
  ℕ, zero, suc, ◌*◌, ◌≡◌, refl, sym, ◌∙◌, arith, Bool, true, false, Option, some, List, [], ◌∷◌,
  length, Option-cases, inl, inr,
}
use play_evmone.Base.Outcome.{Outcome, Result, returns, unwrap}
use play_evmone.Base.Fails.{Fails, Fails-bind, Fails-try}
use play_evmone.Clap.{Matches, Conforms, IsGiven}
use play_evmone.Abi
use play_evmone.Abi.{Text, U256, Ethabi}
use play_evmone.Abi.Panics.{IsOverflow, AddEnds, Ends, encode_input-Ends, encode_params-Ends}
use play_evmone.AbiCmd.{
  AbiArg, AbiCommand, Json, sub_command, chosen, pair_up, lift, run_encode_input, run_encode_params,
  process, read_abi,
}

-- Types and values in turn: an even number of texts is split into equally many of both.
pub pair_up-returns :
    (k : ℕ) (texts : List Text)
    → length texts ≡ 2 * k
    → (p : List Text × List Text) × (pair_up texts ≡ returns p)
      × (length p.0 ≡ k)
      × (length p.1 ≡ k)
unfolding pair_up
pair_up-returns k [] h = (([], []), refl, omega arith, omega arith)
pair_up-returns k (t ∷ []) h = absurd (omega arith)
pair_up-returns zero (t ∷ v ∷ rest) h = absurd (omega arith)
pair_up-returns (suc k) (t ∷ v ∷ rest) h =
    let (p, e, types, values) = pair_up-returns k rest (omega arith) in
    ((t ∷ p.0, v ∷ p.1), rw e refl, omega arith, omega arith)

-- The subcommands of "encode".
abbrev pub is_encode : AbiCommand → Bool
is_encode AbiCommand.encode_function = true
is_encode AbiCommand.encode_params = true
is_encode AbiCommand.encode_constructor = true
is_encode _ = false

module _ (u256 : U256) (adds : AddEnds u256) (eth : Ethabi) (json : Json)
    (hex_encode : List ℕ → Text) (hex_decode : Text → Result Text (List ℕ))
    (read : Text → Result Text (List ℕ)) where
  lift-Ends : {A : Type 0} (m : Outcome (Result Abi.AbiError A)) → Ends m → Ends (lift m)
  lift-Ends m h = Fails-bind IsOverflow ⊥ m _ h λ r e. tt

  unwrap-Ends : {A : Type 0} (o : Option A) → IsGiven o → Ends (unwrap o)
  unwrap-Ends o (a, e) = rw e tt

  run_encode_input-Ends :
      (argument : AbiArg) (constructor : Bool) (m : Matches AbiArg)
      → IsGiven (m.value_of AbiArg.file)
      → IsGiven (m.value_of argument)
      → Ends (run_encode_input u256 eth json hex_encode hex_decode read argument constructor m)
  unfolding run_encode_input
  run_encode_input-Ends argument constructor m file given =
      Fails-bind IsOverflow ⊥ (unwrap (m.value_of AbiArg.file)) _ (unwrap-Ends _ file) λ path e.
        Fails-try IsOverflow ⊥ (read_abi u256 eth json hex_encode hex_decode read path) _ tt
          λ abi e1.
            Fails-bind IsOverflow ⊥ (unwrap (m.value_of argument)) _ (unwrap-Ends _ given)
              λ name e2.
                lift-Ends _ (encode_input-Ends u256 adds eth hex_encode abi name _ _ constructor)

  run_encode_params-Ends :
      (m : Matches AbiArg)
      → ((values : List Text)
          → m.values_of AbiArg.param ≡ some values
          → (k : ℕ) × (length values ≡ 2 * k))
      → Ends (run_encode_params u256 eth json hex_encode hex_decode read m)
  unfolding run_encode_params
  run_encode_params-Ends m grouped = elim (Option-cases (m.values_of AbiArg.param)) [
    | inl e ↦ rw e tt
    | inr (values, e) ↦
        let (k, size) = grouped values e in
        let (p, runs, types, texts) = pair_up-returns k values size in
        rw (e, runs)
          (lift-Ends _ (encode_params-Ends u256 adds eth hex_encode p.0 p.1 _ (types ∙ sym texts)))
  ]

  -- The commands of "encode", on arguments that fit their declaration: no argument that is unwrapped
  -- is missing, and the types and values of "params" are equally many. Such a command ends, with a
  -- text, an error or the panic of an addition of `U256`.
  pub process-encode :
      (command : AbiCommand) (m : Matches AbiArg)
      → is_encode command ≡ true
      → Conforms (sub_command command) m
      → Fails IsOverflow ⊥ (process u256 eth json hex_encode hex_decode read (chosen command m))
  unfolding process
  process-encode AbiCommand.encode_function m h fits =
      run_encode_input-Ends AbiArg.name false m (fits.0.given refl) (fits.1.0.given refl)
  process-encode AbiCommand.encode_params m h fits =
      run_encode_params-Ends m (λ values e. fits.0.grouped 2 values refl e)
  process-encode AbiCommand.encode_constructor m h fits =
      run_encode_input-Ends AbiArg.code true m (fits.0.given refl) (fits.1.0.defaulted [] refl)
  process-encode AbiCommand.decode_params m h fits = cc
  process-encode AbiCommand.decode_function m h fits = cc
  process-encode AbiCommand.decode_log m h fits = cc
