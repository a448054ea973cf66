-- ===== src/Abi/Tests/Words.antt =====
-- A concrete `U256`.
use play_evmone.Base.{
  ℕ, zero, suc, ◌+◌, ◌*◌, ◌-◌, ◌/◌, ◌%◌, ◌<◌, ◌≤◌, ◌≡◌, inl, inr, refl, ap, ◌∙◌, Bool, true, false,
  Bool-cases, ◌&&◌, Option, none, some, [], ◌∷◌, ◌++◌, arith, length, ltb, leb, ◌==◌, ==_iff,
  if◌then◌else◌, length-append,
}
use play_evmone.Base.Outcome.{Outcome, returns, panic, overflow}
use play_evmone.Abi.{Text, U256}
use play_evmone.Base.Fails.{Fails-if}
use play_evmone.Abi.Panics.{IsOverflow, AddEnds}
use play_evmone.Abi.Words.{IsU256, hex_value, hex_value_from, digit_value, modulus}

abbrev digit : ℕ → ℕ
digit n = if ltb n 10 then 48 + n else 87 + n

-- So many hexadecimal digits of a number.
abbrev digits : ℕ → ℕ → Text
digits zero n = []
digits (suc k) n = digits k (n / 16) ++ digit (n % 16) ∷ []

abbrev strip : Text → Text
strip [] = []
strip (c ∷ cs) = let rest = strip cs in if c == b'0' then rest else c ∷ cs

digit_value-digit : (n : ℕ) → n < 16 → digit_value (digit n) ≡ n
digit_value-digit n h = ground arith

hex_value_from-append :
    (a : ℕ) (t : Text) (c : ℕ)
    → hex_value_from a (t ++ c ∷ []) ≡ 16 * hex_value_from a t + digit_value c
unfolding hex_value_from
hex_value_from-append a [] c = refl
hex_value_from-append a (x ∷ t) c = hex_value_from-append (16 * a + digit_value x) t c

power : ℕ → ℕ
power zero = 1
power (suc k) = 16 * power k

hex_value-digits : (k n : ℕ) → n < power k → hex_value_from 0 (digits k n) ≡ n
unfolding power hex_value_from
hex_value-digits zero n h = omega arith
hex_value-digits (suc k) n h =
    let high = hex_value-digits k (n / 16) (omega arith) in
    let low = digit_value-digit (n % 16) (omega arith) in
    rw (hex_value_from-append 0 (digits k (n / 16)) (digit (n % 16)), high, low) (omega arith)

length-digits : (k n : ℕ) → length (digits k n) ≡ k
length-digits zero n = refl
length-digits (suc k) n =
    omega (arith, length-append (digits k (n / 16)) (digit (n % 16) ∷ []), length-digits k (n / 16))

hex_value-strip : (t : Text) → hex_value (strip t) ≡ hex_value t
unfolding hex_value hex_value_from
hex_value-strip [] = refl
hex_value-strip (c ∷ cs) = elim (Bool-cases (c == b'0')) [
  | inl e ↦ leading c cs ((==_iff c b'0').0 e) (hex_value-strip cs)
  | inr e ↦ rw e refl
]
  where
    leading :
        (c : ℕ) (cs : Text)
        → c ≡ b'0'
        → hex_value (strip cs) ≡ hex_value cs
        → hex_value (strip (c ∷ cs)) ≡ hex_value_from (16 * 0 + digit_value c) cs
    leading c cs e h = rw e h

hex_value-strip-digits : (k n : ℕ) → n < power k → hex_value (strip (digits k n)) ≡ n
unfolding hex_value
hex_value-strip-digits k n h = hex_value-strip (digits k n) ∙ hex_value-digits k n h

length-strip : (t : Text) → length (strip t) ≤ length t
length-strip [] = omega arith
length-strip (c ∷ cs) = ground (arith, length-strip cs)

abbrev head_zero : Text → Bool
head_zero [] = false
head_zero (c ∷ cs) = c == b'0'

head_zero-append : (xs ys : Text) → 0 < length xs → head_zero (xs ++ ys) ≡ head_zero xs
head_zero-append [] ys h = absurd (omega (arith, h))
head_zero-append (x ∷ xs) ys h = refl

strip-eq : (t : Text) → head_zero t ≡ false → strip t ≡ t
strip-eq [] h = refl
strip-eq (c ∷ cs) h = rw h refl

head_zero-digits :
    (k n : ℕ) → power k ≤ n → n < power (suc k) → head_zero (digits (suc k) n) ≡ false
unfolding power
head_zero-digits zero n low high = ground arith
head_zero-digits (suc k) n low high =
    let ends = digit (n % 16) ∷ [] in
    let long : 0 < length (digits (suc k) (n / 16)) =
      omega (arith, length-digits (suc k) (n / 16)) in
    head_zero-append (digits (suc k) (n / 16)) ends long
    ∙ head_zero-digits k (n / 16) (omega arith) (omega arith)

length-strip-digits : (k n : ℕ) → length (strip (digits k n)) ≤ k
length-strip-digits k n = omega (arith, length-strip (digits k n), length-digits k n)

length-strip_full :
    (k n : ℕ) → power k ≤ n → n < power (suc k) → length (strip (digits (suc k) n)) ≡ suc k
length-strip_full k n low high =
    ap (λ (t : Text). length t) (strip-eq (digits (suc k) n) (head_zero-digits k n low high))
    ∙ length-digits (suc k) n

length-strip_zero : (t : Text) → head_zero t ≡ true → length (strip t) < length t
length-strip_zero [] h = cc
length-strip_zero (c ∷ cs) h = rw h (omega (arith, length-strip cs))

head_zero-digits_short : (k n : ℕ) → n < power k → head_zero (digits (suc k) n) ≡ true
unfolding power
head_zero-digits_short zero n h = ground arith
head_zero-digits_short (suc k) n h =
    let ends = digit (n % 16) ∷ [] in
    let long : 0 < length (digits (suc k) (n / 16)) =
      omega (arith, length-digits (suc k) (n / 16)) in
    head_zero-append (digits (suc k) (n / 16)) ends long
    ∙ head_zero-digits_short k (n / 16) (omega arith)

length-strip_short : (k n : ℕ) → n < power k → length (strip (digits (suc k) n)) < suc k
length-strip_short k n h = omega (
  arith,
  length-strip_zero (digits (suc k) n) (head_zero-digits_short k n h),
  length-digits (suc k) n,
)

abbrev add : ℕ → ℕ → Outcome ℕ
add x y = if ltb (x + y) modulus then returns (x + y) else panic overflow

abbrev decimal : Text → Option ℕ
decimal (c ∷ []) = if ltb c 58 && leb 48 c then some (c - 48) else none
decimal _ = none

unfoldable pub lower_hex : ℕ → Text
lower_hex v = strip (digits 64 v)

-- Words; the decimal texts are of one digit.
abbrev pub words : U256
words = record {
  from_dec_str = decimal;
  complement = λ v. modulus - 1 - v;
  add = add;
  lower_hex = lower_hex;
}

modulus-power : (modulus ≡ power 64) × (modulus ≡ 16 * power 63)
unfolding modulus power
modulus-power = (refl, refl)

small : 58 < modulus
unfolding modulus
small = omega arith

hex_value-lower_hex : (v : ℕ) → v < modulus → hex_value (lower_hex v) ≡ v
unfolding lower_hex
hex_value-lower_hex v h = let (e, e') = modulus-power in hex_value-strip-digits 64 v (omega arith)

length-lower_hex : (v : ℕ) → length (lower_hex v) ≤ 64
unfolding lower_hex
length-lower_hex v = length-strip-digits 64 v

length-lower_hex_full : (v : ℕ) → v < modulus → modulus ≤ 16 * v → length (lower_hex v) ≡ 64
unfolding lower_hex
length-lower_hex_full v h low =
    let (e, e') = modulus-power in length-strip_full 63 v (omega arith) (omega arith)

length-lower_hex_short : (v : ℕ) → 16 * v < modulus → length (lower_hex v) < 64
unfolding lower_hex
length-lower_hex_short v h = let (e, e') = modulus-power in length-strip_short 63 v (omega arith)

pub words-IsU256 : IsU256 words
words-IsU256 = record {
  in_range = in_range;
  complement-add = λ v h. omega arith;
  add-fits = λ x y h. ground arith;
  add-overflow = λ x y h. ground arith;
  hex_value-lower_hex = hex_value-lower_hex;
  length-lower_hex = λ v h. length-lower_hex v;
  length-lower_hex_short = length-lower_hex_short;
  length-lower_hex_full = length-lower_hex_full;
}
  where
    in_range : (t : Text) (v : ℕ) → decimal t ≡ some v → v < modulus
    in_range [] v e = cc
    in_range (c ∷ []) v e = ground (arith, small)
    in_range (c ∷ d ∷ t) v e = cc

pub words-AddEnds : AddEnds words
words-AddEnds x y =
    Fails-if IsOverflow ⊥ (ltb (x + y) modulus) (returns (x + y)) (panic overflow) tt refl
