-- ===== src/Abi/Words.antt =====
-- src/abi.rs, `parse_tokens`: the digits that an integer is turned into.
use play_evmone.Base.{
  ◌⊎◌, inl, inr, ℕ, zero, suc, ◌+◌, ◌-◌, ◌*◌, ◌^◌, ◌<◌, ◌≤◌, ◌≡◌, refl, ap, sym, arith, ◌∙◌, true,
  some, [], ◌∷◌, ◌++◌, length, replicate, ltb, leb, Bool-cases, if◌then◌else◌, length-append,
  length-replicate,
}
use native.Mathlib.Nat.{pow-succ'}
use play_evmone.Base.Outcome.{returns, panic, overflow, ok}
use play_evmone.Abi.{
  Text, U256, Ethabi, pad_left, no_bracket, completed_lower_hex, unsigned_text, negated_text,
  signed_text, parse_token, to_error,
}

-- The number that a text of hexadecimal digits denotes, read from the left behind a number.
abbrev pub digit_value : ℕ → ℕ
digit_value c = if ltb c 58 then c - 48 else c - 87

unfoldable pub hex_value_from : ℕ → Text → ℕ
hex_value_from n [] = n
hex_value_from n (c ∷ cs) = hex_value_from (16 * n + digit_value c) cs

unfoldable pub hex_value : Text → ℕ
unfolding hex_value_from
hex_value text = hex_value_from 0 text

-- 2 to the power 256
unfoldable pub modulus : ℕ
modulus = 2 ^ 256

-- What ethereum_types documents of a `U256`: values are below the modulus, the complement flips all
-- bits, a sum that overflows panics, and hexadecimal digits denote the value, without leading zeros.
pub record IsU256 (u : U256) : Type 0 where
  pub in_range : (t : Text) (v : ℕ) → u.from_dec_str t ≡ some v → v < modulus
  pub complement-add : (v : ℕ) → v < modulus → u.complement v + v + 1 ≡ modulus
  pub add-fits : (x y : ℕ) → x + y < modulus → u.add x y ≡ returns (x + y)
  pub add-overflow : (x y : ℕ) → modulus ≤ x + y → u.add x y ≡ panic overflow
  pub hex_value-lower_hex : (v : ℕ) → v < modulus → hex_value (u.lower_hex v) ≡ v
  pub length-lower_hex : (v : ℕ) → v < modulus → length (u.lower_hex v) ≤ 64
  pub length-lower_hex_short : (v : ℕ) → 16 * v < modulus → length (u.lower_hex v) < 64
  pub length-lower_hex_full : (v : ℕ) → v < modulus → modulus ≤ 16 * v → length (u.lower_hex v) ≡ 64

hex_value-replicate : (k : ℕ) (t : Text) → hex_value (replicate k b'0' ++ t) ≡ hex_value t
unfolding hex_value hex_value_from
hex_value-replicate zero t = refl
hex_value-replicate (suc k) t = hex_value-replicate k t

-- A larger number before the digits counts as much more as their number says.
hex_value_from-add :
    (n m : ℕ) (t : Text) → hex_value_from (n + m) t ≡ hex_value_from n t + m * 16 ^ length t
unfolding hex_value_from
hex_value_from-add n m [] = omega arith
hex_value_from-add n m (c ∷ cs) =
    let moved : 16 * (n + m) + digit_value c ≡ (16 * n + digit_value c) + 16 * m = omega arith in
    rw moved (
      hex_value_from-add (16 * n + digit_value c) (16 * m) cs
      ∙ ap (λ (x : ℕ). hex_value_from (16 * n + digit_value c) cs + x)
          (shifted m (16 ^ length cs) ∙ ap (λ (x : ℕ). m * x) (sym (pow-succ' 16 (length cs)))))
  where
    shifted : (m x : ℕ) → 16 * m * x ≡ m * (16 * x)
    shifted m x = omega arith

-- With so many digits f before it, a text denotes what it did, and the largest number of so many
-- digits, moved to the left of it.
hex_value-replicate_f :
    (k : ℕ) (t : Text)
    → hex_value (replicate k b'f' ++ t) + 16 ^ length t ≡ hex_value t + 16 ^ (k + length t)
unfolding hex_value hex_value_from
hex_value-replicate_f zero t = ap (λ (x : ℕ). hex_value t + 16 ^ x) (omega arith)
hex_value-replicate_f (suc k) t =
    let rest = replicate k b'f' ++ t in
    let size : length rest ≡ k + length t =
      omega (arith, length-append (replicate k b'f') t, length-replicate {A = ℕ} k b'f') in
    let first : hex_value_from (0 + 15) rest ≡ hex_value rest + 15 * 16 ^ length rest =
      hex_value_from-add 0 15 rest in
    let next : 16 ^ (suc k + length t) ≡ 16 * 16 ^ length rest =
      ap (λ (x : ℕ). 16 ^ x) (omega (arith, size)) ∙ pow-succ' 16 (length rest) in
    let same : 16 ^ length rest ≡ 16 ^ (k + length t) = ap (λ (x : ℕ). 16 ^ x) size in
    omega (arith, hex_value-replicate_f k t, first, next, same)

modulus_power : 16 ^ 64 ≡ modulus
unfolding modulus
modulus_power = refl

length-pad_left : (c : ℕ) (t : Text) → length t ≤ 64 → length (pad_left c 64 t) ≡ 64
length-pad_left c t h =
    omega (arith, length-append (replicate (64 - length t) c) t, length-replicate (64 - length t) c)

-- What 64 digits say, given for the number `v` behind a minus sign. Up to 15 / 16 of the modulus,
-- which is more than a type of 256 bits holds, they denote its two's complement; beyond, that has
-- fewer digits than 64, and with digits f before them they denote a larger number.
abbrev pub Complement : Text → ℕ → Type 0
Complement t v =
    ((16 * v ≤ 15 * modulus) × (hex_value t + v ≡ modulus))
    ⊎ ((15 * modulus < 16 * v) × ((k : ℕ) × (k < 64) × (hex_value t + v + 16 ^ k ≡ 2 * modulus)))

module _ (u : U256) (laws : IsU256 u) where
  completed :
      (v : ℕ)
      → v < modulus
      → (length (completed_lower_hex u v) ≡ 64) × (hex_value (completed_lower_hex u v) ≡ v)
  unfolding completed_lower_hex
  completed v h = (
    length-pad_left b'0' (u.lower_hex v) (laws.length-lower_hex v h),
    hex_value-replicate (64 - length (u.lower_hex v)) (u.lower_hex v)
        ∙ laws.hex_value-lower_hex v h,
  )

  hex_value-pad_left :
      (x : ℕ)
      → x < modulus
      → hex_value (pad_left b'f' 64 (u.lower_hex x)) + 16 ^ length (u.lower_hex x) ≡ x + modulus
  hex_value-pad_left x h =
      let t = u.lower_hex x in
      let short : length t ≤ 64 = laws.length-lower_hex x h in
      let width : 64 - length t + length t ≡ 64 = omega (arith, short) in
      let all : 16 ^ (64 - length t + length t) ≡ modulus =
        ap (λ (n : ℕ). 16 ^ n) width ∙ modulus_power in
      omega (arith, hex_value-replicate_f (64 - length t) t, laws.hex_value-lower_hex x h, all)

  Complement-pad_left :
      (v x : ℕ) → x < modulus → x + v ≡ modulus → Complement (pad_left b'f' 64 (u.lower_hex x)) v
  Complement-pad_left v x h sum =
      let value = hex_value-pad_left x h in
      elim (Bool-cases (leb (16 * v) (15 * modulus))) [
        | inl e ↦
            let low : 16 * v ≤ 15 * modulus = ground arith in
            let size : length (u.lower_hex x) ≡ 64 = laws.length-lower_hex_full x h (omega arith) in
            let all : 16 ^ length (u.lower_hex x) ≡ modulus =
              ap (λ (n : ℕ). 16 ^ n) size ∙ modulus_power in
            inl (low, omega (arith, value, all))
        | inr e ↦
            let high : 15 * modulus < 16 * v = ground arith in
            inr (
              high,
              (
                length (u.lower_hex x),
                laws.length-lower_hex_short x (omega arith),
                omega (arith, value),
              ),
            )
      ]

  negated :
      (digits : Text) (v : ℕ)
      → u.from_dec_str digits ≡ some v
      → 0 < v
      → (t : Text) × (negated_text u digits ≡ returns (ok t)) × (length t ≡ 64) × Complement t v
  unfolding negated_text
  negated digits v e positive =
      let range : v < modulus = laws.in_range digits v e in
      let flip = laws.complement-add v range in
      let x = u.complement v + 1 in
      let fits : x < modulus = omega arith in
      (
        pad_left b'f' 64 (u.lower_hex x),
        rw (e, laws.add-fits (u.complement v) 1 fits) refl,
        length-pad_left b'f' (u.lower_hex x) (laws.length-lower_hex x fits),
        Complement-pad_left v x fits (omega arith),
      )

  negated_zero :
      (digits : Text) → u.from_dec_str digits ≡ some 0 → negated_text u digits ≡ panic overflow
  unfolding negated_text
  negated_zero digits e =
      let flip = laws.complement-add 0 (laws.in_range digits 0 e) in
      rw (e, laws.add-overflow (u.complement 0) 1 (omega arith)) refl

  module _ (eth : Ethabi) (param : eth.ParamType) (bits : Text)
      (flat : no_bracket bits ≡ true) where
    -- In the lenient mode, a signed integer type, given the digits of `v` behind a minus sign. If `v`
    -- is not zero, ethabi gets 64 digits. They denote the two's complement, 2^256 - v, if `v` is at
    -- most 15 / 16 of 2^256; if it is more, they denote that number and 2^256 - 16^k more, for a `k`
    -- below 64. If `v` is zero, the code panics.
    pub parse_token-negative :
        (digits : Text) (v : ℕ)
        → eth.display param ≡ b'i' ∷ b'n' ∷ b't' ∷ bits
        → u.from_dec_str digits ≡ some v
        → ((0 < v)
            × ((t : Text) × (parse_token u eth true (param, b'-' ∷ digits)
                  ≡ returns (to_error (eth.strict param t)))
                × (length t ≡ 64)
                × Complement t v))
          ⊎ ((v ≡ 0) × (parse_token u eth true (param, b'-' ∷ digits) ≡ panic overflow))
    unfolding parse_token signed_text
    parse_token-negative digits zero d e = inr (refl, rw (d, flat, negated_zero digits e) refl)
    parse_token-negative digits (suc v) d e =
        let (t, runs, size, value) = negated digits (suc v) e (omega arith) in
        inl (omega arith, (t, rw (d, flat, runs) refl, size, value))

    -- In the lenient mode, an unsigned integer type, given the digits of `v`: ethabi gets 64 digits
    -- that denote `v`.
    pub parse_token-unsigned :
        (digits : Text) (v : ℕ)
        → eth.display param ≡ b'u' ∷ b'i' ∷ b'n' ∷ b't' ∷ bits
        → u.from_dec_str digits ≡ some v
        → (t : Text) × (parse_token u eth true (param, digits)
            ≡ returns (to_error (eth.strict param t)))
          × (length t ≡ 64)
          × (hex_value t ≡ v)
    unfolding parse_token unsigned_text
    parse_token-unsigned digits v d e =
        let (size, value) = completed v (laws.in_range digits v e) in
        (completed_lower_hex u v, rw (d, flat, e) refl, size, value)
