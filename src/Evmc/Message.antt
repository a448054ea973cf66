-- ===== src/Evmc/Message.antt =====
-- src/evmc.rs, `impl ExecutionMessage`.
use play_evmone.Base.{◌≡◌, refl, ap, Bool, true, false, Option, none, List, [], ◌∷◌, take, drop, ℕ}
use play_evmone.Bytes.{Address, Bytes32, Uint256, FfiBytes, from_ffi, default}
use play_evmone.Evmc.{CallKind, ExecutionMessage}

-- `RlpStream` and `keccak` of the crates rlp and keccak_hash.
pub record Digests : Type 0 where
  -- the raw bytes of a stream of a list with these byte strings appended
  pub rlp_list : List (List ℕ) → List ℕ
  -- the 32 bytes of the hash
  pub keccak : List ℕ → List ℕ

abbrev pub is_create_kind : CallKind → Bool
is_create_kind CallKind.create = true
is_create_kind CallKind.create2 = true
is_create_kind _ = false

abbrev pub is_create : ExecutionMessage → Bool
is_create m = is_create_kind m.kind

-- the slice that `from_raw_parts` makes of the pointer and the size
abbrev pub input_data : ExecutionMessage → List ℕ
input_data m = m.input_data

-- The last 20 bytes of the hash of the list of the sender and its nonce.
unfoldable pub create_address : Digests → FfiBytes 20 → Uint256 → Address
create_address d sender nonce = record {
  bytes = take 20 (drop 12 (d.keccak (d.rlp_list (sender.bytes ∷ nonce.bytes ∷ []))));
}

destination_of : CallKind → Digests → ExecutionMessage → Uint256 → Address
unfolding create_address
destination_of CallKind.create d m nonce = create_address d m.sender nonce
destination_of CallKind.create2 d m nonce = default 20
destination_of _ d m nonce = from_ffi m.destination

unfoldable pub destination : Digests → ExecutionMessage → Uint256 → Address × Option Bytes32
unfolding destination_of
destination d m nonce = (destination_of m.kind d m nonce, none)

destination_of_elim :
    (P : Address → Type 0) (k : CallKind) (d : Digests) (m : ExecutionMessage) (nonce : Uint256)
    → P (create_address d m.sender nonce)
    → P (default 20)
    → P (from_ffi m.destination)
    → P (destination_of k d m nonce)
unfolding destination_of
destination_of_elim P CallKind.call d m nonce p q r = r
destination_of_elim P CallKind.delegatecall d m nonce p q r = r
destination_of_elim P CallKind.callcode d m nonce p q r = r
destination_of_elim P CallKind.create d m nonce p q r = p
destination_of_elim P CallKind.create2 d m nonce p q r = q

-- What holds of the three addresses that a destination can be holds of the destination.
pub destination_elim :
    (P : Address → Type 0) (d : Digests) (m : ExecutionMessage) (nonce : Uint256)
    → P (create_address d m.sender nonce)
    → P (default 20)
    → P (from_ffi m.destination)
    → P (destination d m nonce).0
unfolding destination
destination_elim P d m nonce = destination_of_elim P m.kind d m nonce

destination_of-other :
    (k : CallKind) (d : Digests) (m : ExecutionMessage) (nonce : Uint256)
    → is_create_kind k ≡ false
    → destination_of k d m nonce ≡ from_ffi m.destination
unfolding destination_of
destination_of-other CallKind.call d m nonce h = refl
destination_of-other CallKind.delegatecall d m nonce h = refl
destination_of-other CallKind.callcode d m nonce h = refl
destination_of-other CallKind.create d m nonce h = cc
destination_of-other CallKind.create2 d m nonce h = cc

pub destination-other :
    (d : Digests) (m : ExecutionMessage) (nonce : Uint256)
    → is_create m ≡ false
    → (destination d m nonce).0 ≡ from_ffi m.destination
unfolding destination
destination-other d m nonce h = destination_of-other m.kind d m nonce h

pub destination-create :
    (d : Digests) (m : ExecutionMessage) (nonce : Uint256)
    → m.kind ≡ CallKind.create
    → (destination d m nonce).0 ≡ create_address d m.sender nonce
unfolding destination
destination-create d m nonce h = ap (λ (k : CallKind). destination_of k d m nonce) h
