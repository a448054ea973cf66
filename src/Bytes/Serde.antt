-- ===== src/Bytes/Serde.antt =====
-- src/evmc.rs, the macro `impl_serde!` and `parse_bytes`; src/main.rs, `parse_bytes`. How the
-- program reads an address, a word or a byte string from JSON text, and writes it.
use play_evmone.Base.{
  ℕ, ◌-◌, ◌/◌, ◌%◌, Bool, Option, none, some, List, [], ◌∷◌, ◌++◌, ◌&&◌, length, take, drop, leb,
  ◌==◌, if◌then◌else◌,
}
use play_evmone.Base.Outcome.{Outcome, Result, returns, panic, slice_index, ok, err, ◌>>=◌}
use play_evmone.Bytes.{FixedBytes, JsonBytes, bytes_eq}
use play_evmone.Bytes.Hex.{Hex}

-- `&xs[from..to]` panics unless `from <= to <= xs.len()`.
abbrev pub slice {ℓ} : {A : Type ℓ} → ℕ → ℕ → List A → Outcome (List A)
slice from to xs =
    if leb from to && leb to (length xs)
    then returns (take (to - from) (drop from xs))
    else panic slice_index

-- The errors that reach serde; their texts are not modelled.
pub data ParseError : Type 0 where
  -- `E::invalid_length(bytes.len(), &"odd length")`
  odd_length : ℕ → ParseError
  -- "length not expected: {}"
  length_not_expected : ℕ → ParseError
  -- a `FromHexError`
  invalid_hex : ParseError

-- b"0x"
abbrev pub prefix : List ℕ
prefix = b'0' ∷ b'x' ∷ []

-- `visit_str` of the generated visitor, over its `$parse_bytes`.
unfoldable pub visit_str {ℓ} :
    {A : Type ℓ} → (List ℕ → Result ParseError A) → List ℕ → Outcome (Result ParseError A)
visit_str parse_bytes v = do
  head ← slice 0 2 v
  bytes ← if bytes_eq head prefix then slice 2 (length v) v else returns v
  returns (if length bytes % 2 == 0 then parse_bytes bytes else err (odd_length (length bytes)))

-- `visit_string` passes the owned text on as a `&str`.
unfoldable pub visit_string {ℓ} :
    {A : Type ℓ} → (List ℕ → Result ParseError A) → List ℕ → Outcome (Result ParseError A)
unfolding visit_str
visit_string parse_bytes v = visit_str parse_bytes v

abbrev or_invalid_hex {ℓ κ} : {A : Type ℓ} {B : Type κ} → (A → B) → Option A → Result ParseError B
or_invalid_hex f none = err invalid_hex
or_invalid_hex f (some a) = ok (f a)

module _ (hex : Hex) where
  -- `parse_bytes::<T>` of evmc.rs; `size_of::<T>()` is `n`.
  unfoldable pub parse_fixed : (n : ℕ) → List ℕ → Result ParseError (FixedBytes n)
  parse_fixed n bytes =
      if length bytes / 2 == n
      then or_invalid_hex (λ bs. record { bytes = bs }) (hex.decode_to_slice bytes n)
      else err (length_not_expected (length bytes))

  -- `parse_bytes` of main.rs
  unfoldable pub parse_json_bytes : List ℕ → Result ParseError JsonBytes
  parse_json_bytes bytes =
      or_invalid_hex (λ bs. record { bytes = bs }) (hex.decode_to_slice bytes (length bytes / 2))

  -- `serialize`: the text that is handed to the serializer.
  unfoldable pub serialize : List ℕ → List ℕ
  serialize bytes = prefix ++ hex.encode bytes

  -- `Debug`: hexadecimal digits, with the prefix in the alternate form `{:#?}`.
  unfoldable pub debug_fixed : {n : ℕ} → Bool → FixedBytes n → List ℕ
  debug_fixed alternate x = (if alternate then prefix else []) ++ hex.encode x.bytes

  -- `deserialize`, on the text that the deserializer hands to the visitor.
  unfoldable pub deserialize_fixed : (n : ℕ) → List ℕ → Outcome (Result ParseError (FixedBytes n))
  unfolding visit_str parse_fixed
  deserialize_fixed n = visit_str (parse_fixed n)

  unfoldable pub deserialize_json_bytes : List ℕ → Outcome (Result ParseError JsonBytes)
  unfolding visit_str parse_json_bytes
  deserialize_json_bytes = visit_str parse_json_bytes
