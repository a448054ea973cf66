-- ===== src/Host/Nonce.antt =====
-- src/main.rs, `AccountData::nonce_u256`: the byte order of the nonce that goes into an address.
use play_evmone.Base.{ℕ, ◌+◌, ◌*◌, ◌^◌, ◌<◌, ◌≡◌, List, [], ◌∷◌, arith}
use play_evmone.Host.{AccountData, nonce_u256}

-- The number that bytes stand for, the least significant first.
abbrev pub of_le_bytes : List ℕ → ℕ
of_le_bytes [] = 0
of_le_bytes (b ∷ bs) = b + 256 * of_le_bytes bs

-- Read in little-endian order, the word is the nonce of the account.
pub nonce_u256_little_endian :
    (a : AccountData) → a.nonce < 2 ^ 64 → of_le_bytes (nonce_u256 a).bytes ≡ a.nonce
unfolding nonce_u256
nonce_u256_little_endian a h = omega arith
