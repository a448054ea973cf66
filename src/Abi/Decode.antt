-- ===== src/Abi/Decode.antt =====
-- src/abi.rs: the decode functions.
pub mod Shown
use play_evmone.Base.{
  ℕ, Bool, true, false, ◌||◌, List, [], ◌∷◌, ◌++◌, length, map, ◌==◌, if◌then◌else◌,
}
use play_evmone.Base.Outcome.{
  Outcome, Result, returns, panic, assert_failed, ok, err, ◌>>=◌, ◌>>=?◌,
}
use play_evmone.Bytes.{bytes_eq}
use play_evmone.Abi.{Text, Ethabi, AbiError, to_error, zip, read_types}
use play_evmone.Abi.Text.{as_bytes, escape_default}

-- "bool[]"
abbrev pub bool_array : Text
bool_array = b'b' ∷ b'o' ∷ b'o' ∷ b'l' ∷ b'[' ∷ b']' ∷ []

-- `format!("{{\"{}\": {}}}", name, value)`
abbrev pub bare_field : Text → Text → Text
bare_field name value = b'{' ∷ 34 ∷ name ++ 34 ∷ b':' ∷ b' ' ∷ value ++ b'}' ∷ []

-- `format!("{{\"{}\": \"{}\"}}", name, value)`
abbrev pub quoted_field : Text → Text → Text
quoted_field name value = bare_field name (34 ∷ value ++ 34 ∷ [])

-- `hex_decode(data).map_err(|err| err.to_string())`
abbrev pub hex_error : {A : Type 0} → Result Text A → Result AbiError A
hex_error (ok a) = ok a
hex_error (err e) = err (AbiError.not_hex e)

module _ (eth : Ethabi) where
  -- The closure that shows a token of a type, over what is done to the text of a token.
  unfoldable pub show_token : (Text → Text) → eth.ParamType × eth.Token → Text
  show_token escape (type, token) =
      if eth.is_bool token || bytes_eq (eth.display type) bool_array
      then bare_field (eth.display type) (eth.display_token token)
      else quoted_field (eth.display type) (escape (eth.display_token token))

  module _ (hex_decode : Text → Result Text (List ℕ)) where
    unfoldable pub decode_params : List Text → Text → Outcome (Result AbiError (List Text))
    unfolding read_types show_token
    decode_params types text = read_types eth types >>=? λ kinds.
        returns (hex_error (hex_decode text)) >>=? λ bytes.
        returns (to_error (eth.decode kinds bytes)) >>=? λ tokens.
        if length kinds == length tokens
        then returns (ok (map (show_token escape_default) (zip kinds tokens)))
        else panic assert_failed

    -- `topics.iter().map(|t| t.parse()).collect()`
    parse_topics : List Text → Outcome (Result AbiError (List eth.Hash))
    parse_topics [] = returns (ok [])
    parse_topics (t ∷ rest) = returns (to_error (eth.parse_hash t)) >>=? λ hash.
        parse_topics rest >>=? λ hashes. returns (ok (hash ∷ hashes))

    show_log_param : Text × eth.Token → Text
    show_log_param (name, value) = quoted_field name (eth.display_token value)

    unfoldable pub decode_logs :
        List ℕ → Text → List Text → Text → Outcome (Result AbiError (List Text))
    unfolding parse_topics show_log_param
    decode_logs abi name topics text = returns (to_error (eth.load abi)) >>=? λ contract.
        returns (to_error (eth.find_event contract name)) >>=? λ event.
        parse_topics topics >>=? λ hashes. returns (hex_error (hex_decode text)) >>=? λ bytes.
        returns (to_error (eth.parse_log event hashes bytes)) >>=? λ params.
        returns (ok (map show_log_param params))

  unfoldable pub decode_input : List ℕ → Text → Text → Outcome (Result AbiError (List Text))
  unfolding show_token
  decode_input abi name text = returns (to_error (eth.load abi)) >>=? λ contract.
      returns (to_error (eth.find_function contract name)) >>=? λ function.
      returns (to_error (eth.decode_output function (as_bytes text))) >>=? λ tokens.
      if length (eth.function_outputs function) == length tokens
      then returns (ok (map (show_token (λ t. t)) (zip (eth.function_outputs function) tokens)))
      else panic assert_failed
