-- ===== src/Abi/Decode/Shown.antt =====
-- src/abi.rs: what the decode functions make of the tokens that they show.
use play_evmone.Base.{◌≡◌, refl, false, none, some, if◌then◌else◌}
use play_evmone.Bytes.{bytes_eq}
use play_evmone.Abi.{Text, Ethabi}
use play_evmone.Abi.Text.{escape_default}
use play_evmone.Abi.Text.Json.{all_safe, json_string, json_string-escape_default}
use play_evmone.Abi.Decode.{bool_array, quoted_field, show_token}

module _ (eth : Ethabi) where
  -- `decode_params` shows a token that is not a boolean, of a type other than bool[], as a text
  -- between double quotes. By the grammar of JSON this text stands for that of the token if all the
  -- characters of the token are safe, and is no JSON string if one is not, such as a single quote.
  pub json_string-show_token :
      (type : eth.ParamType) (token : eth.Token)
      → eth.is_bool token ≡ false
      → bytes_eq (eth.display type) bool_array ≡ false
      → (s : Text) × (show_token eth escape_default (type, token)
          ≡ quoted_field (eth.display type) s)
        × (json_string s
            ≡ (if all_safe (eth.display_token token) then some (eth.display_token token) else none))
  unfolding show_token
  json_string-show_token type token b k = (
    escape_default (eth.display_token token),
    rw (b, k) refl,
    json_string-escape_default (eth.display_token token),
  )
