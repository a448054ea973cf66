-- ===== src/AbiCmd/Unreadable.antt =====
-- src/abi_cmd.rs, "decode params": tokens whose texts are no JSON.
use play_evmone.Base.{
  ℕ, ◌≡◌, ◌⊎◌, inl, inr, refl, false, none, some, List, [], ◌∷◌, length, map, eq→==, Option-cases,
}
use play_evmone.Base.Outcome.{Result, returns, panic, unwrap_failed, ok}
use play_evmone.Bytes.{bytes_eq}
use play_evmone.Clap.{Matches}
use play_evmone.Abi.{Text, U256, Ethabi, zip, read_types}
use play_evmone.Abi.Text.{escape_default}
use play_evmone.Abi.Text.Json.{all_safe}
use play_evmone.Abi.Decode
use play_evmone.Abi.Decode.{bool_array, quoted_field, show_token}
use play_evmone.AbiCmd.{
  AbiArg, AbiCommand, Json, chosen, remove_0x, parse_values, print_values, run_decode_params,
  process,
}

-- What is asked of serde_json: a string with an escape that JSON does not have is refused. The
-- characters that are not safe are those with such an escape.
abbrev pub Refuses : Json → Type 0
Refuses json =
    (name t : Text)
    → all_safe t ≡ false
    → json.from_str (quoted_field name (escape_default t)) ≡ none

module _ (eth : Ethabi) where
  -- A value that is shown between quotes and has a character that is not safe.
  abbrev pub IsUnsafe : eth.ParamType × eth.Token → Type 0
  IsUnsafe (type, token) =
      (eth.is_bool token ≡ false)
      × (bytes_eq (eth.display type) bool_array ≡ false)
      × (all_safe (eth.display_token token) ≡ false)

  abbrev pub AnyUnsafe : List (eth.ParamType × eth.Token) → Type 0
  AnyUnsafe [] = ⊥
  AnyUnsafe (p ∷ rest) = IsUnsafe p ⊎ AnyUnsafe rest

  show_token-unsafe :
      (p : eth.ParamType × eth.Token)
      → IsUnsafe p
      → show_token eth escape_default p
        ≡ quoted_field (eth.display p.0) (escape_default (eth.display_token p.1))
  unfolding show_token
  show_token-unsafe (type, token) (b, k, u) = rw (b, k) refl

  module _ (u256 : U256) (json : Json) (refuses : Refuses json) (hex_encode : List ℕ → Text)
      (hex_decode : Text → Result Text (List ℕ)) (read : Text → Result Text (List ℕ)) where
    parse_values-unsafe :
        (shown : List (eth.ParamType × eth.Token))
        → AnyUnsafe shown
        → parse_values u256 eth json hex_encode hex_decode read
            (map (show_token eth escape_default) shown)
          ≡ panic unwrap_failed
    unfolding parse_values
    parse_values-unsafe [] h = absurd h
    parse_values-unsafe (p ∷ rest) (inl h) =
        rw (show_token-unsafe p h, refuses (eth.display p.0) (eth.display_token p.1) h.2) refl
    parse_values-unsafe (p ∷ rest) (inr h) =
        let later = parse_values-unsafe rest h in
        elim (Option-cases (json.from_str (show_token eth escape_default p))) [
          | inl e ↦ rw e refl
          | inr (v, e) ↦ rw (e, later) refl
        ]

    -- "decode params" panics if one of the decoded values that it shows between quotes has a
    -- character that is not safe, such as a single quote: what it writes is no JSON, and it unwraps
    -- the result of reading it.
    pub process-unsafe :
        (m : Matches AbiArg) (types : List Text) (text : Text) (kinds : List eth.ParamType)
        (bytes : List ℕ) (tokens : List eth.Token)
        → m.values_of AbiArg.type ≡ some types
        → m.value_of AbiArg.payload ≡ some text
        → read_types eth types ≡ returns (ok kinds)
        → hex_decode (remove_0x text) ≡ ok bytes
        → eth.decode kinds bytes ≡ ok tokens
        → length kinds ≡ length tokens
        → AnyUnsafe (zip kinds tokens)
        → process u256 eth json hex_encode hex_decode read (chosen AbiCommand.decode_params m)
          ≡ panic unwrap_failed
    unfolding process run_decode_params print_values Decode.decode_params
    process-unsafe m types text kinds bytes tokens t p k b d same h =
        rw
          (
            t,
            p,
            k,
            b,
            d,
            eq→== (length kinds) (length tokens) same,
            parse_values-unsafe (zip kinds tokens) h,
          )
          refl
