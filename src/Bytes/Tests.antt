-- ===== src/Bytes/Tests.antt =====
-- A concrete `hex`, and the theorems of `Bytes` at concrete inputs.
use play_evmone.Base.{
  ℕ, ◌+◌, ◌*◌, ◌-◌, ◌/◌, ◌%◌, ◌<◌, ◌≡◌, inl, inr, refl, ap, ◌&&◌, Option, none, some, List, [], ◌∷◌,
  arith, length, All, ltb, leb, ◌==◌, eq→==, ==_iff, Bool-cases, replicate, if◌then◌else◌,
}
use play_evmone.Base.Outcome.{returns, ok, err, panic, slice_index}
use play_evmone.Bytes.{Address, JsonBytes, IsByte, HasSize, bytes_eq}
use play_evmone.Bytes.Hex.{Hex, IsHex, IsLowerDigit}
use play_evmone.Bytes.Serde.{
  odd_length, length_not_expected, invalid_hex, serialize, visit_str, parse_fixed,
  deserialize_fixed, deserialize_json_bytes,
}
use play_evmone.Bytes.RoundTrip.{
  deserialize_fixed-serialize, deserialize_json_bytes-serialize, visit_str-eq-read_text,
}

abbrev digit : ℕ → ℕ
digit n = if ltb n 10 then 48 + n else 87 + n

abbrev encode : List ℕ → List ℕ
encode [] = []
encode (b ∷ bs) = digit (b / 16) ∷ digit (b % 16) ∷ encode bs

abbrev value_of : ℕ → Option ℕ
value_of c =
    if leb 48 c && ltb c 58
    then some (c - 48)
    else if leb 97 c && ltb c 103
    then some (c - 87)
    else none

abbrev pair : Option ℕ → Option ℕ → Option (List ℕ) → Option (List ℕ)
pair (some x) (some y) (some bs) = some ((16 * x + y) ∷ bs)
pair _ _ _ = none

unfoldable pub decode : List ℕ → Option (List ℕ)
decode [] = some []
decode (x ∷ []) = none
decode (x ∷ y ∷ t) = pair (value_of x) (value_of y) (decode t)

unfoldable pub decode_to_slice : List ℕ → ℕ → Option (List ℕ)
unfolding decode
decode_to_slice t n = if length t == 2 * n then decode t else none

abbrev pub simple_hex : Hex
simple_hex = record { encode = encode; decode = decode; decode_to_slice = decode_to_slice }

value_of-digit : (n : ℕ) → n < 16 → value_of (digit n) ≡ some n
value_of-digit n h = ground arith

length-encode : (bs : List ℕ) → length (encode bs) ≡ 2 * length bs
length-encode [] = refl
length-encode (b ∷ bs) = omega (arith, length-encode bs)

digit-IsLowerDigit : (n : ℕ) → n < 16 → IsLowerDigit (digit n)
digit-IsLowerDigit n h = ground arith

encode_digits : (bs : List ℕ) → All IsByte bs → All IsLowerDigit (encode bs)
encode_digits [] h = tt
encode_digits (b ∷ bs) h = (
  digit-IsLowerDigit (b / 16) (omega arith),
  (digit-IsLowerDigit (b % 16) (omega arith), encode_digits bs h.1),
)

decode-encode : (bs : List ℕ) → All IsByte bs → decode (encode bs) ≡ some bs
unfolding decode
decode-encode [] h = refl
decode-encode (b ∷ bs) h =
    rw
      (
        value_of-digit (b / 16) (omega arith),
        value_of-digit (b % 16) (omega arith),
        decode-encode bs h.1,
      )
      (ap (λ (x : ℕ). some (x ∷ bs)) (omega arith))

value_of-lt : (c n : ℕ) → value_of c ≡ some n → n < 16
value_of-lt c n h = ground arith

pair-some :
    (a b : Option ℕ) (c : Option (List ℕ)) {bs : List ℕ}
    → pair a b c ≡ some bs
    → (x : ℕ) × (y : ℕ) × (r : List ℕ) × (a ≡ some x)
      × (b ≡ some y)
      × (c ≡ some r)
      × (bs ≡ (16 * x + y) ∷ r)
pair-some (some x) (some y) (some r) h = (x, y, r, refl, refl, refl, cc)
pair-some (some x) (some y) none h = cc
pair-some (some x) none c h = cc
pair-some none b c h = cc

decoded_bytes :
    (t : List ℕ) (bs : List ℕ) → decode t ≡ some bs → (length t ≡ 2 * length bs) × All IsByte bs
unfolding decode
decoded_bytes [] bs h = let e : bs ≡ [] = cc in rw e (refl, tt)
decoded_bytes (x ∷ []) bs h = cc
decoded_bytes (x ∷ y ∷ t) bs h =
    let (a, b, r, ea, eb, er, e) = pair-some (value_of x) (value_of y) (decode t) h in
    let (size, bytes) = decoded_bytes t r er in
    let la : a < 16 = value_of-lt x a ea in
    let lb : b < 16 = value_of-lt y b eb in rw e (omega arith, (omega arith, bytes))

decode_to_slice-encode :
    (bs : List ℕ) → All IsByte bs → decode_to_slice (encode bs) (length bs) ≡ some bs
unfolding decode_to_slice
decode_to_slice-encode bs h =
    rw (eq→== (length (encode bs)) (2 * length bs) (length-encode bs)) (decode-encode bs h)

decoded :
    (t : List ℕ) (n : ℕ) (bs : List ℕ)
    → decode_to_slice t n ≡ some bs
    → (length bs ≡ n) × All IsByte bs
unfolding decode_to_slice
decoded t n bs h = elim (Bool-cases (length t == 2 * n)) [
  | inl e ↦
      let size : length t ≡ 2 * n = (==_iff (length t) (2 * n)).0 e in
      let (twice, bytes) = decoded_bytes t bs (rw e at h) in (omega arith, bytes)
  | inr e ↦ absurd (none_some (rw e at h))
]
  where
    none_some : {x : List ℕ} → ◌≡◌ {A = Option (List ℕ)} none (some x) → ⊥
    none_some q = cc

simple_hex-IsHex : IsHex simple_hex
simple_hex-IsHex = record {
  length-encode = length-encode;
  encode_digits = encode_digits;
  decode_to_slice-encode = decode_to_slice-encode;
  decoded = decoded;
}

abbrev wallet : Address
wallet = record { bytes = 0xab ∷ replicate 19 0x80 }

wallet-HasSize : HasSize wallet
wallet-HasSize = omega arith

deserialize_fixed-serialize_example :
    deserialize_fixed simple_hex 20 (serialize simple_hex wallet.bytes) ≡ returns (ok wallet)
deserialize_fixed-serialize_example =
    deserialize_fixed-serialize simple_hex-IsHex 20 wallet wallet-HasSize

abbrev push_code : JsonBytes
push_code = record { bytes = 0x60 ∷ 0x01 ∷ 0x55 ∷ [] }

deserialize_json_bytes-serialize_example :
    deserialize_json_bytes simple_hex (serialize simple_hex push_code.bytes)
    ≡ returns (ok push_code)
deserialize_json_bytes-serialize_example =
    deserialize_json_bytes-serialize simple_hex-IsHex push_code (omega arith)

visit_str-eq-read_text_example :
    visit_str (parse_fixed simple_hex 20) (b'0' ∷ b'x' ∷ b'1' ∷ []) ≡ returns (err (odd_length 1))
visit_str-eq-read_text_example =
    visit_str-eq-read_text (parse_fixed simple_hex 20) (b'0' ∷ b'x' ∷ b'1' ∷ [])

-- An empty text panics; a short one is refused.
empty_panics : deserialize_json_bytes simple_hex [] ≡ panic slice_index
unfolding deserialize_json_bytes
empty_panics = refl

short_refused :
    deserialize_fixed simple_hex 20 (b'0' ∷ b'x' ∷ b'1' ∷ b'2' ∷ [])
    ≡ returns (err (length_not_expected 2))
unfolding deserialize_fixed bytes_eq
short_refused = refl

bad_digit_refused :
    deserialize_json_bytes simple_hex (b'0' ∷ b'x' ∷ b'1' ∷ b'G' ∷ []) ≡ returns (err invalid_hex)
unfolding deserialize_json_bytes bytes_eq decode_to_slice
bad_digit_refused = refl
