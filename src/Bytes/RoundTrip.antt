-- ===== src/Bytes/RoundTrip.antt =====
-- How the visitor of `impl_serde!` reads a text, and that it reads back what `serialize` wrote.
use play_evmone.Base.{
  ℕ, zero, suc, ◌%◌, ◌≡◌, le→leb, eq→==, ◌-◌, ◌/◌, refl, ap, ◌∙◌, Bool, true, false, List, [], ◌∷◌,
  ◌++◌, ◌&&◌, arith, length, take, All, ◌==◌, if◌then◌else◌, Bool-cases, inl, inr,
}
use play_evmone.Base.Outcome.{Outcome, Result, returns, panic, slice_index, ok, err}
use play_evmone.Bytes.{FixedBytes, JsonBytes, bytes_eq, IsByte, HasSize}
use play_evmone.Bytes.Hex.{Hex, IsHex}
use play_evmone.Bytes.Serde.{
  ParseError, odd_length, prefix, visit_str, parse_fixed, parse_json_bytes, serialize,
  deserialize_fixed, deserialize_json_bytes,
}

take_all {ℓ} : {A : Type ℓ} (xs : List A) (n : ℕ) → n ≡ length xs → take n xs ≡ xs
take_all [] zero h = refl
take_all [] (suc n) h = refl
take_all (x ∷ xs) zero h = absurd (omega arith)
take_all (x ∷ xs) (suc n) h = ap (λ t. x ∷ t) (take_all xs n (omega arith))

and_true : (b : Bool) → (b && true) ≡ b
and_true true = refl
and_true false = refl

has_prefix : (a b : ℕ) → (a == b'0' && b == b'x') ≡ true → (a ≡ b'0') × (b ≡ b'x')
has_prefix a b h = ground arith

module _ {ℓ} {A : Type ℓ} (parse_bytes : List ℕ → Result ParseError A) where
  -- What the visitor does with the digits, once a prefix is off.
  abbrev pub parse_digits : List ℕ → Outcome (Result ParseError A)
  parse_digits t =
      returns (if length t % 2 == 0 then parse_bytes t else err (odd_length (length t)))

  -- The reading that the visitor stands for: a text of fewer than two bytes has no prefix to look
  -- at and panics; a prefix `0x` is taken off; any other text is read whole.
  abbrev pub read_text : List ℕ → Outcome (Result ParseError A)
  read_text [] = panic slice_index
  read_text (a ∷ []) = panic slice_index
  read_text (a ∷ b ∷ t) = parse_digits (if a == b'0' && b == b'x' then t else a ∷ b ∷ t)

  visit_str-prefix : (t : List ℕ) → visit_str parse_bytes (prefix ++ t) ≡ parse_digits t
  unfolding visit_str bytes_eq
  visit_str-prefix t =
      rw
        (
          le→leb 2 (length (prefix ++ t)) (omega arith),
          le→leb (length (prefix ++ t)) (length (prefix ++ t)) (omega arith),
        )
        (rw (take_all t (length (prefix ++ t) - 2) (omega arith)))

  visit_str_bare :
      (a b : ℕ) (t : List ℕ)
      → (a == b'0' && b == b'x') ≡ false
      → visit_str parse_bytes (a ∷ b ∷ t) ≡ parse_digits (a ∷ b ∷ t)
  unfolding visit_str bytes_eq
  visit_str_bare a b t h = rw (le→leb 2 (length (a ∷ b ∷ t)) (omega arith), and_true (b == b'x'), h)

  visit_str_digits :
      (a b : ℕ) (t : List ℕ) → visit_str parse_bytes (a ∷ b ∷ t) ≡ read_text (a ∷ b ∷ t)
  visit_str_digits a b t = elim (Bool-cases (a == b'0' && b == b'x')) [
    | inl h ↦ rw ((has_prefix a b h).0, (has_prefix a b h).1) (visit_str-prefix t)
    | inr h ↦ rw h (visit_str_bare a b t h)
  ]

  -- The visitor reads every text as `read_text` does.
  pub visit_str-eq-read_text : (v : List ℕ) → visit_str parse_bytes v ≡ read_text v
  unfolding visit_str
  visit_str-eq-read_text [] = refl
  visit_str-eq-read_text (a ∷ []) = refl
  visit_str-eq-read_text (a ∷ b ∷ v) = visit_str_digits a b v

module _ {hex : Hex} (law : IsHex hex) where
  even_digits : (bs : List ℕ) → (length (hex.encode bs) % 2 == 0) ≡ true
  even_digits bs = eq→== (length (hex.encode bs) % 2) 0 (omega (arith, law.length-encode bs))

  half_digits : (bs : List ℕ) → length (hex.encode bs) / 2 ≡ length bs
  half_digits bs = omega (arith, law.length-encode bs)

  parse_fixed-encode :
      (n : ℕ) (x : FixedBytes n) → HasSize x → parse_fixed hex n (hex.encode x.bytes) ≡ ok x
  unfolding parse_fixed
  parse_fixed-encode n x h =
      rw (half_digits x.bytes, eq→== (length x.bytes) n h.size)
        (rw (rw h.size at (law.decode_to_slice-encode x.bytes h.are_bytes)))

  -- An address, a word or a balance that is written is read back.
  pub deserialize_fixed-serialize :
      (n : ℕ) (x : FixedBytes n)
      → HasSize x
      → deserialize_fixed hex n (serialize hex x.bytes) ≡ returns (ok x)
  unfolding deserialize_fixed serialize
  deserialize_fixed-serialize n x h =
      visit_str-prefix (parse_fixed hex n) (hex.encode x.bytes)
      ∙ rw (even_digits x.bytes, parse_fixed-encode n x h)

  parse_json_bytes-encode :
      (x : JsonBytes) → All IsByte x.bytes → parse_json_bytes hex (hex.encode x.bytes) ≡ ok x
  unfolding parse_json_bytes
  parse_json_bytes-encode x h = rw (half_digits x.bytes, law.decode_to_slice-encode x.bytes h)

  -- A byte string that is written is read back.
  pub deserialize_json_bytes-serialize :
      (x : JsonBytes)
      → All IsByte x.bytes
      → deserialize_json_bytes hex (serialize hex x.bytes) ≡ returns (ok x)
  unfolding deserialize_json_bytes serialize
  deserialize_json_bytes-serialize x h =
      visit_str-prefix (parse_json_bytes hex) (hex.encode x.bytes)
      ∙ rw (even_digits x.bytes, parse_json_bytes-encode x h)
