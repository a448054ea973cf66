-- ===== src/AbiCmd/Tests.antt =====
-- The theorems of `AbiCmd` on the concrete parts of Abi/Tests.
use play_evmone.Base.{
  Option, ℕ, ◌≡◌, inl, inr, Bool-cases, refl, arith, Bool, true, false, ◌||◌, none, some, List, [],
  ◌∷◌, ◌++◌, ◌==◌, if◌then◌else◌,
}
use mathlib.Core.List.{append-nil}
use play_evmone.Base.Outcome.{panic, unwrap_failed, ok}
use play_evmone.Base.Fails.{Fails}
use play_evmone.Bytes.{bytes_eq}
use play_evmone.Bytes.Tests.{simple_hex, decode}
use play_evmone.Clap.{Matches, Conforms}
use play_evmone.Abi.{Text, read_types}
use play_evmone.Abi.Text.{escape_default}
use play_evmone.Abi.Text.Json.{all_safe, is_json_safe}
use play_evmone.Abi.Panics.{IsOverflow}
use play_evmone.Abi.Tests.{plain, from_hex}
use play_evmone.Abi.Tests.Words.{words, words-AddEnds}
use play_evmone.AbiCmd.{AbiArg, AbiCommand, Json, chosen, sub_command, process, remove_0x}
use play_evmone.AbiCmd.Panics.{process-encode}
use play_evmone.AbiCmd.Unreadable.{Refuses, process-unsafe}

abbrev has_backslash : Text → Bool
has_backslash [] = false
has_backslash (c ∷ cs) = c == 92 || has_backslash cs

-- A reader that takes a text for its own value, but for one with a backslash.
abbrev plain_json : Json
plain_json = record {
  Value = Text;
  from_str = λ t. if has_backslash t then none else some t;
  array_to_string_pretty = λ values. ok [];
}

-- A backslash is found in either part of a text.
has_backslash-behind : (xs ys : Text) → has_backslash ys ≡ true → has_backslash (xs ++ ys) ≡ true
has_backslash-behind [] ys h = h
has_backslash-behind (x ∷ xs) ys h = ground (arith, has_backslash-behind xs ys h)

has_backslash-before : (xs ys : Text) → has_backslash xs ≡ true → has_backslash (xs ++ ys) ≡ true
has_backslash-before [] ys h = cc
has_backslash-before (x ∷ xs) ys h = ground (arith, has_backslash-before xs ys)

escape_default-cons :
    (c : ℕ) (cs : Text) → escape_default (c ∷ cs) ≡ escape_default (c ∷ []) ++ escape_default cs
unfolding escape_default
escape_default-cons c cs = rw append-nil refl

escape_char_backslash :
    (c : ℕ) (rest : Text)
    → is_json_safe c ≡ false
    → has_backslash (escape_default (c ∷ rest)) ≡ true
unfolding escape_default
escape_char_backslash c rest h = ground arith

unsafe_backslash : (t : Text) → all_safe t ≡ false → has_backslash (escape_default t) ≡ true
unsafe_backslash [] h = cc
unsafe_backslash (c ∷ cs) h = elim (Bool-cases (is_json_safe c)) [
  | inl e ↦ rw (escape_default-cons c cs) (
      has_backslash-behind (escape_default (c ∷ [])) (escape_default cs)
        (unsafe_backslash cs (rw e at h)))
  | inr e ↦ escape_char_backslash c cs e
]

plain_json-Refuses : Refuses plain_json
plain_json-Refuses name t h =
    let found =
      has_backslash-before (123 ∷ 34 ∷ name ++ 34 ∷ 58 ∷ 32 ∷ 34 ∷ (escape_default t ++ 34 ∷ []))
        (125 ∷ [])
        (has_backslash-behind (123 ∷ 34 ∷ name) (34 ∷ 58 ∷ 32 ∷ 34 ∷ (escape_default t ++ 34 ∷ []))
          (has_backslash-before (escape_default t) (34 ∷ []) (unsafe_backslash t h))) in
    rw found refl

-- "encode params --param s x"
abbrev two_values : Matches AbiArg
two_values = record { value_of = λ a. none; values_of = λ a. values a; is_present = λ a. false }
  where
    values : AbiArg → Option (List Text)
    values AbiArg.param = some ((b's' ∷ []) ∷ (b'x' ∷ []) ∷ [])
    values _ = none

two_values-Conforms : Conforms (sub_command AbiCommand.encode_params) two_values
two_values-Conforms = (
  record { given = λ e. cc; defaulted = λ d e. cc; grouped = λ n values e e'. (1, ground arith) },
  (record { given = λ e. cc; defaulted = λ d e. cc; grouped = λ n values e e'. cc }, tt),
)

process-encode_example : Fails IsOverflow ⊥ (
    process words plain plain_json simple_hex.encode from_hex
      (λ path. ok [])
      (chosen AbiCommand.encode_params two_values))
process-encode_example =
    process-encode words words-AddEnds plain plain_json simple_hex.encode from_hex (λ path. ok [])
      AbiCommand.encode_params two_values refl two_values-Conforms

-- "decode params --type s --data 0x27", a single quote.
abbrev one_quote : Matches AbiArg
one_quote = record { value_of = λ a. value a; values_of = λ a. values a; is_present = λ a. false }
  where
    value : AbiArg → Option Text
    value AbiArg.payload = some (b'0' ∷ b'x' ∷ b'2' ∷ b'7' ∷ [])
    value _ = none

    values : AbiArg → Option (List Text)
    values AbiArg.type = some ((b's' ∷ []) ∷ [])
    values _ = none

process-unsafe_example :
    process words plain plain_json simple_hex.encode from_hex
      (λ path. ok [])
      (chosen AbiCommand.decode_params one_quote)
    ≡ panic unwrap_failed
unfolding read_types remove_0x decode bytes_eq
process-unsafe_example =
    process-unsafe plain words plain_json plain_json-Refuses simple_hex.encode from_hex
      (λ path. ok []) one_quote ((b's' ∷ []) ∷ []) (b'0' ∷ b'x' ∷ b'2' ∷ b'7' ∷ [])
      ((b's' ∷ []) ∷ []) (39 ∷ []) ((39 ∷ []) ∷ []) refl refl refl refl refl refl
      (inl (refl, refl, refl))
