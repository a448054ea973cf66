-- ===== src/Abi/Panics.antt =====
-- src/abi.rs: how the encode functions can end.
use play_evmone.Base.{ℕ, ◌≡◌, Bool, ◌&&◌, Option, none, some, List, [], ◌∷◌, length, ◌==◌, eq→==}
use play_evmone.Base.Outcome.{Outcome, Panic, returns, overflow}
use play_evmone.Base.Fails.{Fails, Fails-bind, Fails-try, Fails-if}
use play_evmone.Abi.{
  Text, U256, Ethabi, parsed, unsigned_text, negated_text, signed_text, parse_token, parse_tokens,
  contract_encode_input, with_constructor, constructor_encode_input, encode_input, read_types,
  encode_params, starts_with, no_bracket, to_error, zip,
}

-- The panic of an addition of `U256`.
abbrev pub IsOverflow : Panic → Type 0
IsOverflow p = p ≡ overflow

-- What ethereum_types promises: a sum is returned, or it panics with an overflow.
abbrev pub AddEnds : U256 → Type 0
AddEnds u256 = (x y : ℕ) → Fails IsOverflow ⊥ (u256.add x y)

abbrev pub Ends : {A : Type 0} → Outcome A → Type 0
Ends m = Fails IsOverflow ⊥ m

module _ (u256 : U256) (adds : AddEnds u256) where
  unsigned_text-Ends : (t : Text) → Ends (unsigned_text u256 t)
  unfolding unsigned_text
  unsigned_text-Ends t =
      Fails-try IsOverflow ⊥ (returns (parsed (u256.from_dec_str t))) _ tt λ v e. tt

  negated_text-Ends : (t : Text) → Ends (negated_text u256 t)
  unfolding negated_text
  negated_text-Ends t = Fails-try IsOverflow ⊥ (returns (parsed (u256.from_dec_str t))) _ tt λ v e.
      Fails-bind IsOverflow ⊥ (u256.add (u256.complement v) 1) _ (adds (u256.complement v) 1)
        λ x e'. tt

  signed_text-Ends : (t : Text) → Ends (signed_text u256 t)
  unfolding signed_text
  signed_text-Ends [] = unsigned_text-Ends []
  signed_text-Ends (c ∷ rest) =
      Fails-if IsOverflow ⊥ (c == b'-') _ _ (negated_text-Ends rest) (unsigned_text-Ends (c ∷ rest))

  module _ (eth : Ethabi) where
    parse_token-Ends :
        (is_lenient : Bool) (param : eth.ParamType) (value : Text)
        → Ends (parse_token u256 eth is_lenient (param, value))
    unfolding parse_token
    parse_token-Ends is_lenient param value =
        Fails-if IsOverflow ⊥ is_lenient _ _
          (Fails-if IsOverflow ⊥
            (starts_with (b'u' ∷ b'i' ∷ b'n' ∷ b't' ∷ []) (eth.display param)
              && no_bracket (eth.display param))
            _ _
            (Fails-try IsOverflow ⊥ (unsigned_text u256 value) _ (unsigned_text-Ends value)
              λ y e. tt)
            (Fails-if IsOverflow ⊥
              (starts_with (b'i' ∷ b'n' ∷ b't' ∷ []) (eth.display param)
                && no_bracket (eth.display param))
              _ _
              (Fails-try IsOverflow ⊥ (signed_text u256 value) _ (signed_text-Ends value) λ x e. tt)
              tt))
          tt

    parse_tokens-Ends :
        (params : List (eth.ParamType × Text)) (is_lenient : Bool)
        → Ends (parse_tokens u256 eth params is_lenient)
    unfolding parse_tokens
    parse_tokens-Ends [] is_lenient = tt
    parse_tokens-Ends ((param, value) ∷ rest) is_lenient =
        Fails-try IsOverflow ⊥ (parse_token u256 eth is_lenient (param, value)) _
          (parse_token-Ends is_lenient param value)
          λ t e.
            Fails-try IsOverflow ⊥ (parse_tokens u256 eth rest is_lenient) _
              (parse_tokens-Ends rest is_lenient) λ ts e'. tt

    read_types-Ends : (types : List Text) → Ends (read_types eth types)
    unfolding read_types
    read_types-Ends [] = tt
    read_types-Ends (t ∷ rest) =
        Fails-try IsOverflow ⊥ (returns (to_error (eth.read_type t))) _ tt
          λ k e. Fails-try IsOverflow ⊥ (read_types eth rest) _ (read_types-Ends rest) λ ks e'. tt

    module _ (hex_encode : List ℕ → Text) where
      contract_encode_input-Ends :
          (c : eth.Contract) (name : Text) (values : List Text) (is_lenient : Bool)
          → Ends (contract_encode_input u256 eth hex_encode c name values is_lenient)
      unfolding contract_encode_input
      contract_encode_input-Ends c name values is_lenient =
          Fails-try IsOverflow ⊥ (returns (to_error (eth.find_function c name))) _ tt λ f e.
            Fails-try IsOverflow ⊥
              (parse_tokens u256 eth (zip (eth.function_inputs f) values) is_lenient) _
              (parse_tokens-Ends _ is_lenient)
              λ ts e'.
                Fails-try IsOverflow ⊥ (returns (to_error (eth.encode_function f ts))) _ tt
                  λ r e''. tt

      with_constructor-Ends :
          (o : Option eth.Constructor) (code : Text) (values : List Text) (is_lenient : Bool)
          → Ends (with_constructor u256 eth hex_encode o code values is_lenient)
      unfolding with_constructor
      with_constructor-Ends none code values is_lenient = tt
      with_constructor-Ends (some k) code values is_lenient =
          Fails-try IsOverflow ⊥
            (parse_tokens u256 eth (zip (eth.constructor_inputs k) values) is_lenient) _
            (parse_tokens-Ends _ is_lenient)
            λ ts e'.
              Fails-try IsOverflow ⊥ (returns (to_error (eth.encode_constructor k [] ts))) _ tt
                λ r e''. tt

      pub encode_input-Ends :
          (abi : List ℕ) (name : Text) (values : List Text) (is_lenient constructor : Bool)
          → Ends (encode_input u256 eth hex_encode abi name values is_lenient constructor)
      unfolding encode_input constructor_encode_input
      encode_input-Ends abi name values is_lenient constructor =
          Fails-try IsOverflow ⊥ (returns (to_error (eth.load abi))) _ tt λ c e.
            Fails-if IsOverflow ⊥ constructor _ _
              (with_constructor-Ends (eth.constructor c) name values is_lenient)
              (contract_encode_input-Ends c name values is_lenient)

      -- As many types as values: the assertion holds.
      pub encode_params-Ends :
          (types values : List Text) (is_lenient : Bool)
          → length types ≡ length values
          → Ends (encode_params u256 eth hex_encode types values is_lenient)
      unfolding encode_params
      encode_params-Ends types values is_lenient same =
          rw (eq→== (length types) (length values) same) (
            Fails-try IsOverflow ⊥ (read_types eth types) _ (read_types-Ends types) λ kinds e.
              Fails-try IsOverflow ⊥ (parse_tokens u256 eth (zip kinds values) is_lenient) _
                (parse_tokens-Ends (zip kinds values) is_lenient) λ ts e'. tt)
