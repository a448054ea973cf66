-- ===== src/Host/Tests/Slots.antt =====
-- The theorems of the storage slots, of `update_code` and of the nonce at concrete inputs.
use play_evmone.Base.{
  ◌^◌, ◌-◌, ◌&&◌, ◌+◌, ◌≡◌, refl, true, false, some, [], ◌∷◌, arith, if◌then◌else◌,
}
use play_evmone.Base.Outcome.{Outcome, returns, panic, invalid_storage_value}
use play_evmone.HashMap
use play_evmone.HashMap.{HashMap, get, insert, contains_key}
use play_evmone.Bytes.{fixed_bytes_eq, Address, Bytes32, from_ffi, default, fixed_eq}
use play_evmone.Evmc.{StorageStatus}
use play_evmone.Host.{
  AccountData, nonce_u256, new_account, TestHostContext, update_code, contract_exists,
}
use play_evmone.Host.Methods.{set_storage, storage_at}
use play_evmone.Host.Slots.{slot_at, storage_at-set_storage}
use play_evmone.Host.Slots.Status.{answer, expected_status, answer-set_storage}
use play_evmone.Host.Slots.Documented.{documented, agrees}
use play_evmone.Host.Slots.History.{write_all, write_all-counts, added_twice, changes}
use play_evmone.Host.Update.{contract_exists-update_code}
use play_evmone.Host.Nonce.{of_le_bytes, nonce_u256_little_endian}
use play_evmone.Host.Tests.Machine.{addr, word, world}

abbrev first : Address
first = from_ffi (addr 1)

abbrev key : Bytes32
key = from_ffi (word 1)

abbrev five : Bytes32
five = from_ffi (word 5)

abbrev six : Bytes32
six = from_ffi (word 6)

abbrev state_after : {A : Type 0} → Outcome (A × TestHostContext) → TestHostContext
state_after (returns r) = r.1
state_after _ = world

-- A slot of account 1 that holds five.
abbrev stored_five : TestHostContext
stored_five = state_after (set_storage first key five world)

stored_five_returns : set_storage first key five world ≡ returns (StorageStatus.added, stored_five)
unfolding set_storage fixed_eq get insert HashMap.empty
stored_five_returns = refl

storage_at-set_storage_example : storage_at stored_five first (from_ffi (word 2)) ≡ (
    if fixed_eq first first && fixed_eq key (from_ffi (word 2))
    then five
    else storage_at world first (from_ffi (word 2)))
storage_at-set_storage_example =
    storage_at-set_storage world first key five stored_five_returns first (from_ffi (word 2))

answer-set_storage_example :
    answer (set_storage first key six stored_five)
    ≡ expected_status (slot_at stored_five first key) six
unfolding set_storage fixed_eq get insert HashMap.empty slot_at
answer-set_storage_example = answer-set_storage stored_five first key six (omega arith)

-- Five replaced by six is answered as documented, and five by zero is not.
modified_or_deleted :
    (agrees (slot_at stored_five first key) six ≡ true)
    × (agrees (slot_at stored_five first key) (default 32) ≡ false)
    × (documented (slot_at stored_five first key) (default 32) ≡ StorageStatus.deleted)
    × (answer (set_storage first key (default 32) stored_five) ≡ returns StorageStatus.modified)
unfolding set_storage fixed_eq get insert HashMap.empty slot_at
modified_or_deleted = (refl, refl, refl, refl)

-- The statuses of a slot's life: added, modified, modified again, unchanged.
statuses :
    (expected_status (some (record { value = five; modify_time = 0 })) six
      ≡ returns StorageStatus.modified)
    × (expected_status (some (record { value = five; modify_time = 1 })) six
        ≡ returns StorageStatus.modified_again)
    × (expected_status (some (record { value = five; modify_time = 1 })) five
        ≡ returns StorageStatus.unchanged)
    × (expected_status (some (record { value = five; modify_time = 2 ^ 64 - 1 })) six
        ≡ panic invalid_storage_value)
unfolding fixed_eq
statuses = (refl, refl, refl, refl)

write_all-counts_example :
    (s' : TestHostContext) × (write_all first key (six ∷ six ∷ five ∷ []) stored_five ≡ returns s')
    × (slot_at s' first key
        ≡ some (record { value = five; modify_time = 0 + changes five (six ∷ six ∷ five ∷ []) }))
unfolding set_storage fixed_eq get insert HashMap.empty slot_at
write_all-counts_example =
    write_all-counts (six ∷ six ∷ five ∷ []) stored_five first key
      (record { value = five; modify_time = 0 }) refl (omega arith)

changes_counted : changes five (six ∷ six ∷ five ∷ []) ≡ 2
unfolding fixed_eq
changes_counted = refl

added_twice_example :
    (s1 : TestHostContext) × (s2 : TestHostContext) × (set_storage first key five world
      ≡ returns (StorageStatus.added, s1))
    × (set_storage first key five s1 ≡ returns (StorageStatus.added, s2))
unfolding get insert fixed_eq HashMap.empty slot_at
added_twice_example = added_twice world first key five refl

contract_exists-update_code_example :
    contract_exists (update_code (default 20) (7 ∷ []) world) first
    ≡ (if fixed_eq (default 20) first then true else contract_exists world first)
contract_exists-update_code_example = contract_exists-update_code world (default 20) first (7 ∷ [])

abbrev used : AccountData
used = record (new_account first) { nonce = 258 }

nonce_u256_little_endian_example : of_le_bytes (nonce_u256 used).bytes ≡ 258
nonce_u256_little_endian_example = nonce_u256_little_endian used (omega arith)
