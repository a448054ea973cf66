-- ===== src/Abi.antt =====
-- src/abi.rs: how values are turned into ABI tokens and encoded. The crates ethabi and
-- ethereum_types are parameters; texts are lists of characters.
pub mod Words
pub mod Text
pub mod Decode
pub mod Panics
pub mod Tests
use play_evmone.Base.{
  ℕ, ◌-◌, Bool, true, false, ◌&&◌, Option, none, some, List, [], ◌∷◌, ◌++◌, length, replicate, map,
  ◌==◌, if◌then◌else◌,
}
use play_evmone.Base.Outcome.{
  Outcome, Result, returns, panic, assert_failed, ok, err, ◌>>=◌, ◌>>=?◌,
}

abbrev pub Text : Type 0
Text = List ℕ

-- The functions of ethereum_types on a `U256`, which is a number.
pub record U256 : Type 0 where
  pub from_dec_str : Text → Option ℕ
  -- the operators `!` and `+`
  pub complement : ℕ → ℕ
  pub add : ℕ → ℕ → Outcome ℕ
  -- `format!("{:x}", value)`
  pub lower_hex : ℕ → Text

-- The types and functions of ethabi. Its errors are texts.
pub record Ethabi : Type 1 where
  pub ParamType : Type 0
  pub Token : Type 0
  pub Function : Type 0
  pub Constructor : Type 0
  pub Contract : Type 0
  -- `format!("{}", param)` and `Reader::read`
  pub display : ParamType → Text
  pub read_type : Text → Result Text ParamType
  pub strict : ParamType → Text → Result Text Token
  pub lenient : ParamType → Text → Result Text Token
  pub encode : List Token → List ℕ
  pub load : List ℕ → Result Text Contract
  pub find_function : Contract → Text → Result Text Function
  pub function_inputs : Function → List ParamType
  pub encode_function : Function → List Token → Result Text (List ℕ)
  pub constructor : Contract → Option Constructor
  pub constructor_inputs : Constructor → List ParamType
  pub encode_constructor : Constructor → List ℕ → List Token → Result Text (List ℕ)
  pub decode : List ParamType → List ℕ → Result Text (List Token)
  -- `token.type_check(&ParamType::Bool)` and `format!("{}", token)`
  pub is_bool : Token → Bool
  pub display_token : Token → Text
  pub function_outputs : Function → List ParamType
  pub decode_output : Function → List ℕ → Result Text (List Token)
  pub Event : Type 0
  pub Hash : Type 0
  pub find_event : Contract → Text → Result Text Event
  pub parse_hash : Text → Result Text Hash
  -- the names and the values of the parameters of a log
  pub parse_log : Event → List Hash → List ℕ → Result Text (List (Text × Token))

-- `str::starts_with`
abbrev pub starts_with : Text → Text → Bool
starts_with [] text = true
starts_with (p ∷ ps) [] = false
starts_with (p ∷ ps) (c ∷ cs) = p == c && starts_with ps cs

-- `type_name.find(']').is_none()`
abbrev pub no_bracket : Text → Bool
no_bracket [] = true
no_bracket (c ∷ cs) = let rest = no_bracket cs in if c == b']' then false else rest

-- `format!("{:c>width$}", text)`
abbrev pub pad_left : ℕ → ℕ → Text → Text
pad_left c width text = replicate (width - length text) c ++ text

-- `params.zip(values)`
abbrev pub zip : {A B : Type 0} → List A → List B → List (A × B)
zip (x ∷ xs) (y ∷ ys) = (x, y) ∷ zip xs ys
zip _ _ = []

-- The texts that are returned as errors.
pub data AbiError : Type 0 where
  -- the text of an error of ethabi
  library : Text → AbiError
  -- "Can't parse into u256", as an error of ethabi
  cannot_parse : AbiError
  -- an error of the crate hex
  not_hex : Text → AbiError
  -- "No constructor on abi"
  no_constructor : AbiError

-- `map_err(|e| e.to_string())`
abbrev pub to_error : {A : Type 0} → Result Text A → Result AbiError A
to_error (ok a) = ok a
to_error (err e) = err (AbiError.library e)

abbrev parsed : Option ℕ → Result AbiError ℕ
parsed none = err AbiError.cannot_parse
parsed (some v) = ok v

module _ (u256 : U256) where
  -- `completed_lower_hex`
  unfoldable pub completed_lower_hex : ℕ → Text
  completed_lower_hex value = pad_left b'0' 64 (u256.lower_hex value)

  -- The digits of a value without a sign.
  unfoldable pub unsigned_text : Text → Outcome (Result AbiError Text)
  unfolding completed_lower_hex
  unsigned_text value =
      returns (parsed (u256.from_dec_str value)) >>=? λ v. returns (ok (completed_lower_hex v))

  -- The digits of a value behind the sign: the two's complement.
  unfoldable pub negated_text : Text → Outcome (Result AbiError Text)
  negated_text digits = returns (parsed (u256.from_dec_str digits)) >>=? λ v.
      u256.add (u256.complement v) 1 >>= λ x. returns (ok (pad_left b'f' 64 (u256.lower_hex x)))

  unfoldable pub signed_text : Text → Outcome (Result AbiError Text)
  unfolding negated_text unsigned_text
  signed_text [] = unsigned_text []
  signed_text (c ∷ rest) = if c == b'-' then negated_text rest else unsigned_text (c ∷ rest)

module _ (eth : Ethabi) where
  -- `types.iter().map(Reader::read).collect()`
  unfoldable pub read_types : List Text → Outcome (Result AbiError (List eth.ParamType))
  read_types [] = returns (ok [])
  read_types (t ∷ rest) = returns (to_error (eth.read_type t)) >>=? λ type.
      read_types rest >>=? λ types. returns (ok (type ∷ types))

module _ (u256 : U256) (eth : Ethabi) where
  -- One step of the loop of `parse_tokens`.
  unfoldable pub parse_token : Bool → eth.ParamType × Text → Outcome (Result AbiError eth.Token)
  unfolding signed_text unsigned_text
  parse_token lenient (param, value) =
      let type_name = eth.display param in
      if lenient
      then (if starts_with (b'u' ∷ b'i' ∷ b'n' ∷ b't' ∷ []) type_name && no_bracket type_name
          then unsigned_text u256 value >>=? (λ y. returns (to_error (eth.strict param y)))
          else if starts_with (b'i' ∷ b'n' ∷ b't' ∷ []) type_name && no_bracket type_name
          then signed_text u256 value >>=? (λ x. returns (to_error (eth.strict param x)))
          else returns (to_error (eth.lenient param value)))
      else returns (to_error (eth.strict param value))

  -- `parse_tokens`; collecting stops at the first error.
  unfoldable pub parse_tokens :
      List (eth.ParamType × Text) → Bool → Outcome (Result AbiError (List eth.Token))
  unfolding parse_token
  parse_tokens [] lenient = returns (ok [])
  parse_tokens (p ∷ params) lenient = parse_token lenient p >>=? λ token.
      parse_tokens params lenient >>=? λ tokens. returns (ok (token ∷ tokens))

  module _ (hex_encode : List ℕ → Text) where
    unfoldable pub contract_encode_input :
        eth.Contract → Text → List Text → Bool → Outcome (Result AbiError Text)
    unfolding parse_tokens
    contract_encode_input contract name values lenient =
        returns (to_error (eth.find_function contract name)) >>=? λ function.
        parse_tokens (zip (eth.function_inputs function) values) lenient >>=? λ tokens.
        returns (to_error (eth.encode_function function tokens)) >>=? λ result.
        returns (ok (hex_encode result))

    with_constructor :
        Option eth.Constructor → Text → List Text → Bool → Outcome (Result AbiError Text)
    unfolding parse_tokens
    with_constructor none code values lenient = returns (err AbiError.no_constructor)
    with_constructor (some constructor) code values lenient =
        parse_tokens (zip (eth.constructor_inputs constructor) values) lenient >>=? λ tokens.
        returns (to_error (eth.encode_constructor constructor [] tokens)) >>=? λ result.
        returns (ok (code ++ hex_encode result))

    unfoldable pub constructor_encode_input :
        eth.Contract → Text → List Text → Bool → Outcome (Result AbiError Text)
    unfolding with_constructor
    constructor_encode_input contract code values lenient =
        with_constructor (eth.constructor contract) code values lenient

    unfoldable pub encode_input :
        List ℕ → Text → List Text → Bool → Bool → Outcome (Result AbiError Text)
    unfolding contract_encode_input constructor_encode_input
    encode_input abi function values lenient constructor =
        returns (to_error (eth.load abi)) >>=? λ contract.
        if constructor
        then constructor_encode_input contract function values lenient
        else contract_encode_input contract function values lenient

    unfoldable pub encode_params : List Text → List Text → Bool → Outcome (Result AbiError Text)
    unfolding read_types parse_tokens
    encode_params types values lenient =
        if length types == length values
        then read_types eth types >>=? (λ kinds.
          parse_tokens (zip kinds values) lenient >>=? λ tokens.
          returns (ok (hex_encode (eth.encode tokens))))
        else panic assert_failed
