-- ===== src/Bytes.antt =====
-- src/evmc.rs, the macro `impl_convert!` and its three uses, and `JsonBytes` of src/main.rs.
-- A byte is a number; that it is below 256 is part of `HasSize`.
pub mod Hex
pub mod Serde
pub mod RoundTrip
pub mod Tests
use play_evmone.Base.{
  ℕ, suc, ◌<◌, ◌≡◌, refl, ap, ◌↔◌, Bool, true, false, ◌&&◌, List, [], ◌∷◌, arith, length, replicate,
  All, ◌==◌, Eq,
}

-- `struct $struct(pub [u8; N])`
pub record FixedBytes (size : ℕ) : Type 0 where
  pub bytes : List ℕ

abbrev pub Address : Type 0
Address = FixedBytes 20

abbrev pub Bytes32 : Type 0
Bytes32 = FixedBytes 32

abbrev pub Uint256 : Type 0
Uint256 = FixedBytes 32

-- The types of the evmc_sys crate, `ffi::evmc_address`, `ffi::evmc_bytes32`, `ffi::evmc_uint256be`.
pub record FfiBytes (size : ℕ) : Type 0 where
  pub bytes : List ℕ

abbrev pub IsByte : ℕ → Type 0
IsByte b = b < 256

-- What the type `[u8; N]` says of its values.
pub record HasSize {n : ℕ} (x : FixedBytes n) : Type 0 where
  pub size : length x.bytes ≡ n
  pub are_bytes : All IsByte x.bytes

-- `Default`, all bytes zero
abbrev pub default : (n : ℕ) → FixedBytes n
default n = record { bytes = replicate n 0 }

-- `impl From<$target> for $struct`
abbrev pub from_ffi : {n : ℕ} → FfiBytes n → FixedBytes n
from_ffi x = record { bytes = x.bytes }

-- `impl From<$struct> for $target`
abbrev pub into_ffi : {n : ℕ} → FixedBytes n → FfiBytes n
into_ffi x = record { bytes = x.bytes }

-- `PartialEq`: the arrays are compared byte by byte.
unfoldable pub bytes_eq : List ℕ → List ℕ → Bool
bytes_eq [] [] = true
bytes_eq [] (y ∷ ys) = false
bytes_eq (x ∷ xs) [] = false
bytes_eq (x ∷ xs) (y ∷ ys) = x == y && bytes_eq xs ys

pub bytes_eq_iff : (xs ys : List ℕ) → (bytes_eq xs ys ≡ true) ↔ (xs ≡ ys)
unfolding bytes_eq
bytes_eq_iff [] [] = ((λ _. refl), (λ _. refl))
bytes_eq_iff [] (y ∷ ys) = ((λ h. cc), (λ h. cc))
bytes_eq_iff (x ∷ xs) [] = ((λ h. cc), (λ h. cc))
bytes_eq_iff (x ∷ xs) (y ∷ ys) = ground (arith, bytes_eq_iff xs ys)

unfoldable pub fixed_eq : {n : ℕ} → FixedBytes n → FixedBytes n → Bool
unfolding bytes_eq
fixed_eq x y = bytes_eq x.bytes y.bytes

pub fixed_eq_iff : {n : ℕ} (x y : FixedBytes n) → (fixed_eq x y ≡ true) ↔ (x ≡ y)
unfolding fixed_eq
fixed_eq_iff x y = ground (arith, bytes_eq_iff x.bytes y.bytes)

instance abbrev pub fixed_bytes_eq : {n : ℕ} → Eq (FixedBytes n)
fixed_bytes_eq = record { beq = fixed_eq; beq_iff = fixed_eq_iff }

-- `struct JsonBytes(pub Vec<u8>)`
pub record JsonBytes : Type 0 where
  pub bytes : List ℕ
