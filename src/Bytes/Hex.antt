-- ===== src/Bytes/Hex.antt =====
-- The crate `hex`, which the program calls: its functions and what its documentation promises.
-- A text is the list of its UTF-8 bytes.
use play_evmone.Base.{ℕ, ◌*◌, ◌<◌, ◌≤◌, ◌≡◌, ◌⊎◌, Option, some, List, length, All}
use play_evmone.Bytes.{IsByte}

pub record Hex : Type 0 where
  -- `hex::encode(data)`
  pub encode : List ℕ → List ℕ
  -- `hex::decode(text)`; `none` is a `FromHexError`
  pub decode : List ℕ → Option (List ℕ)
  -- `hex::decode_to_slice(text, out)` at a slice of the given length: what it has written
  pub decode_to_slice : List ℕ → ℕ → Option (List ℕ)

-- An ASCII digit or a letter from a to f.
abbrev pub IsLowerDigit : ℕ → Type 0
IsLowerDigit c = ((48 ≤ c) × (c < 58)) ⊎ ((97 ≤ c) × (c < 103))

-- "Encodes data as hex string using lowercase characters. The resulting string's length is always
-- even, each byte in data is always encoded using two hex digits." `decode_to_slice` fills the
-- whole slice or fails.
pub record IsHex (h : Hex) : Type 0 where
  pub length-encode : (bs : List ℕ) → length (h.encode bs) ≡ 2 * length bs
  pub encode_digits : (bs : List ℕ) → All IsByte bs → All IsLowerDigit (h.encode bs)
  pub decode_to_slice-encode :
      (bs : List ℕ) → All IsByte bs → h.decode_to_slice (h.encode bs) (length bs) ≡ some bs
  pub decoded :
      (text : List ℕ) (n : ℕ) (bs : List ℕ)
      → h.decode_to_slice text n ≡ some bs
      → (length bs ≡ n) × All IsByte bs
