-- ===== src/Abi/Tests.antt =====
-- The theorems of `Abi` on concrete words and a concrete tokenizer.
pub mod Words
use play_evmone.Base.{
  map, false, some, if◌then◌else◌, List, ℕ, ◌+◌, ◌*◌, ◌<◌, ◌≡◌, ◌⊎◌, refl, arith, true, none, [],
  ◌∷◌, ◌++◌, length,
}
use play_evmone.Base.Outcome.{Result, err, Outcome, returns, panic, overflow, ok}
use play_evmone.Abi.{Text, U256, Ethabi, to_error, parse_token, AbiError}
use play_evmone.Abi.Words.{hex_value, Complement, parse_token-negative, parse_token-unsigned}
use play_evmone.Bytes.{bytes_eq}
use play_evmone.Bytes.Tests.{simple_hex, decode}
use play_evmone.Abi.{read_types}
use play_evmone.Abi.Text.{as_bytes, escape_default}
use play_evmone.Abi.Text.Json.{all_safe, json_string}
use play_evmone.Abi.Decode.{show_token, quoted_field, decode_input, decode_params}
use play_evmone.Abi.Decode.Shown.{json_string-show_token}
use play_evmone.Abi.Tests.Words.{words, words-IsU256}

-- Types and tokens are their own texts; a contract has one function, which answers with a text.
abbrev pub plain : Ethabi
plain = record {
  ParamType = Text;
  Token = Text;
  Function = Unit {0};
  Constructor = Unit {0};
  Contract = Unit {0};
  display = λ p. p;
  read_type = λ t. ok t;
  strict = λ p t. ok (p ++ t);
  lenient = λ p t. ok (p ++ t);
  encode = λ tokens. [];
  load = λ abi. ok tt;
  find_function = λ c name. ok tt;
  function_inputs = λ f. [];
  encode_function = λ f tokens. ok [];
  constructor = λ c. none;
  constructor_inputs = λ c. [];
  encode_constructor = λ c code tokens. ok code;
  decode = λ kinds bytes. ok (map (λ k. bytes) kinds);
  is_bool = λ t. false;
  display_token = λ t. t;
  function_outputs = λ f. (b's' ∷ []) ∷ [];
  decode_output = λ f bytes. ok (bytes ∷ []);
  Event = Unit {0};
  Hash = Text;
  find_event = λ c name. ok tt;
  parse_hash = λ t. ok t;
  parse_log = λ e topics bytes. ok [];
}

abbrev bits : Text
bits = b'2' ∷ b'5' ∷ b'6' ∷ []

abbrev int256 : Text
int256 = b'i' ∷ b'n' ∷ b't' ∷ bits

abbrev uint256 : Text
uint256 = b'u' ∷ int256

parse_token-negative_example :
    ((0 < 5)
      × ((t : Text) × (parse_token words plain true (int256, b'-' ∷ b'5' ∷ [])
            ≡ returns (to_error (plain.strict int256 t)))
          × (length t ≡ 64)
          × Complement t 5))
    ⊎ ((◌≡◌ {A = ℕ} 5 0)
        × (parse_token words plain true (int256, b'-' ∷ b'5' ∷ []) ≡ panic overflow))
parse_token-negative_example =
    parse_token-negative words words-IsU256 plain int256 bits refl (b'5' ∷ []) 5 refl refl

parse_token-unsigned_example :
    (t : Text) × (parse_token words plain true (uint256, b'7' ∷ [])
      ≡ returns (to_error (plain.strict uint256 t)))
    × (length t ≡ 64)
    × (hex_value t ≡ 7)
parse_token-unsigned_example =
    parse_token-unsigned words words-IsU256 plain uint256 bits refl (b'7' ∷ []) 7 refl refl

-- The text "it's" is shown as "it\'s", which is no JSON.
abbrev pub apostrophe : Text
apostrophe = b'i' ∷ b't' ∷ 39 ∷ b's' ∷ []

json_string-show_token_example :
    (s : Text) × (show_token plain escape_default (b's' ∷ [], apostrophe)
      ≡ quoted_field (b's' ∷ []) s)
    × (json_string s ≡ (if all_safe apostrophe then some apostrophe else none))
unfolding bytes_eq
json_string-show_token_example = json_string-show_token plain (b's' ∷ []) apostrophe refl refl

-- Hexadecimal digits, read by the concrete `hex`.
abbrev pub from_hex : Text → Result Text (List ℕ)
from_hex t = elim (simple_hex.decode t) [ none ↦ err [] | some bytes ↦ ok bytes ]
