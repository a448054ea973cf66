-- ===== src/Host/Methods.antt =====
-- src/main.rs, `impl HostContext for TestHostContext`: every callback but `call`.
use play_evmone.Base.{
  ℕ, zero, suc, Bool, true, false, Option, none, some, List, [], ◌∷◌, ◌++◌, replicate,
}
use play_evmone.Base.Int.{pos}
use play_evmone.Base.Outcome.{Outcome, returns, panic, invalid_storage_value, ◌>>=◌}
use play_evmone.HashMap.{get, insert, or_insert_with}
use play_evmone.Bytes.{fixed_bytes_eq, Address, Bytes32, Uint256, default, into_ffi}
use play_evmone.Evmc.{StorageStatus, TxContext}
use play_evmone.Host.{
  Value, LogEntry, new_value, update_data, AccountData, account_entry, set_account, TestHostContext,
}

-- `Address([128u8; 20])`
abbrev pub origin : Address
origin = record { bytes = replicate 20 128 }

abbrev pub get_tx_context : TestHostContext → Outcome (TxContext × TestHostContext)
get_tx_context self = returns (
  record {
    tx_gas_price = into_ffi (default 32);
    tx_origin = into_ffi origin;
    block_coinbase = into_ffi (default 20);
    block_number = pos 1;
    block_timestamp = pos 1;
    block_gas_limit = pos 666_666_666;
    block_difficulty = into_ffi (default 32);
    chain_id = into_ffi (default 32);
  },
  self,
)

abbrev pub account_exists : Address → TestHostContext → Outcome (Bool × TestHostContext)
account_exists a self = returns (true, self)

unfoldable pub stored : Option Value → Bytes32
stored none = default 32
stored (some v) = v.value

unfoldable pub stored_in : Bytes32 → Option AccountData → Bytes32
unfolding stored
stored_in key none = default 32
stored_in key (some account) = stored (get key account.storage)

-- The word that `get_storage` reads.
unfoldable pub storage_at : TestHostContext → Address → Bytes32 → Bytes32
unfolding stored_in
storage_at self a key = stored_in key (get a self.accounts)

unfoldable pub get_storage :
    Address → Bytes32 → TestHostContext → Outcome (Bytes32 × TestHostContext)
unfolding storage_at
get_storage a key self = returns (storage_at self a key, self)

-- The `match` on the counter and on whether the value changed.
unfoldable pub storage_status : ℕ → Bool → Outcome StorageStatus
storage_status zero true = panic invalid_storage_value
storage_status zero false = returns StorageStatus.added
storage_status (suc zero) true = returns StorageStatus.modified
storage_status (suc (suc n)) true = returns StorageStatus.modified_again
storage_status (suc n) false = returns StorageStatus.unchanged

unfoldable pub set_storage :
    Address → Bytes32 → Bytes32 → TestHostContext → Outcome (StorageStatus × TestHostContext)
unfolding update_data storage_status
set_storage a key value self =
    let account = account_entry a self in
    let (val, changed) = update_data (or_insert_with key (new_value value) account.storage) value in
    storage_status val.modify_time changed >>= λ status.
    returns
      (status, set_account a (record account { storage = insert key val account.storage }) self)

abbrev pub get_balance : Address → TestHostContext → Outcome (Uint256 × TestHostContext)
get_balance a self = returns (default 32, self)

abbrev pub selfdestruct : Address → Address → TestHostContext → Outcome (Unit {0} × TestHostContext)
selfdestruct a beneficiary self =
    returns (tt, record self { destructed_accounts = self.destructed_accounts ++ a ∷ [] })

unfoldable pub emit_log :
    Address → List ℕ → List Bytes32 → TestHostContext → Outcome (Unit {0} × TestHostContext)
emit_log a bytes topics self =
    let account = account_entry a self in
    let entry : LogEntry = record { bytes = record { bytes = bytes }; topics = topics } in
    returns (tt, set_account a (record account { logs = account.logs ++ entry ∷ [] }) self)

abbrev pub copy_code : Address → ℕ → List ℕ → TestHostContext → Outcome (ℕ × TestHostContext)
copy_code a code_offset buffer self = returns (0, self)

abbrev pub get_code_size : Address → TestHostContext → Outcome (ℕ × TestHostContext)
get_code_size a self = returns (0, self)

abbrev pub get_code_hash : Address → TestHostContext → Outcome (Bytes32 × TestHostContext)
get_code_hash a self = returns (default 32, self)

abbrev pub get_block_hash : ℕ → TestHostContext → Outcome (Bytes32 × TestHostContext)
get_block_hash number self = returns (default 32, self)
