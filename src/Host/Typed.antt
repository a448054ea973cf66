-- ===== src/Host/Typed.antt =====
-- src/main.rs: what the types of `TestHostContext` and its parts say of the values of the model.
pub mod Methods
use play_evmone.Base.{
  length-replicate, All-append, All-replicate, ℕ, zero, suc, ◌<◌, ◌+◌, ◌%◌, ◌^◌, Bool, true, false,
  Option, none, some, List, [], ◌∷◌, replicate, All, ◌/◌, arith, if◌then◌else◌,
}
use play_evmone.Base.Outcome.{returns}
use play_evmone.HashMap.{get, insert, or_insert_with}
use play_evmone.HashMap.Entries.{
  AllEntries, AllEntries-empty, Holds, get-Holds, insert-AllEntries, or_insert_with-Holds,
}
use play_evmone.Bytes.{IsByte, FixedBytes, Address, Bytes32, JsonBytes, fixed_eq, fixed_bytes_eq}
use play_evmone.Evmc.{StorageStatus}
use play_evmone.Evmc.Typed.{IsArray, Any, Gives-bind_value, Types}
use play_evmone.Host.{
  Value, new_value, update_data, LogEntry, AccountData, new_account, to_le_bytes, nonce_u256,
  TestHostContext, account_entry, set_account, update_code,
}
use play_evmone.Host.Methods.{
  stored, stored_in, storage_at, storage_status, get_storage, set_storage, emit_log, selfdestruct,
}

abbrev pub ArrayTyped : {n : ℕ} → FixedBytes n → Type 0
ArrayTyped {n} x = IsArray n x.bytes

abbrev pub ValueTyped : Value → Type 0
ValueTyped v = ArrayTyped v.value × (v.modify_time < 2 ^ 64)

abbrev pub LogTyped : LogEntry → Type 0
LogTyped l = All IsByte l.bytes.bytes × All ArrayTyped l.topics

abbrev pub CodeTyped : Option JsonBytes → Type 0
CodeTyped none = Unit
CodeTyped (some c) = All IsByte c.bytes

pub record AccountTyped (acc : AccountData) : Type 0 where
  pub nonce : acc.nonce < 2 ^ 64
  pub address : ArrayTyped acc.address
  pub code : CodeTyped acc.code
  pub storage : AllEntries ArrayTyped ValueTyped acc.storage
  pub logs : All LogTyped acc.logs

pub record ContextTyped (s : TestHostContext) : Type 0 where
  pub depth : s.depth < 2 ^ 32
  pub current_account : ArrayTyped s.current_account
  pub accounts : AllEntries ArrayTyped AccountTyped s.accounts
  pub destructed_accounts : All ArrayTyped s.destructed_accounts

pub IsArray-replicate : (n : ℕ) {b : ℕ} → IsByte b → IsArray n (replicate n b)
IsArray-replicate n {b} h = (length-replicate n b, All-replicate IsByte n b h)

pub IsArray-zeros : (n : ℕ) → IsArray n (replicate n 0)
IsArray-zeros n = IsArray-replicate n (omega arith)

to_le_bytes-All : (k n : ℕ) → All IsByte (to_le_bytes k n)
to_le_bytes-All zero n = tt
to_le_bytes-All (suc k) n = (omega arith, to_le_bytes-All k (n / 256))

pub nonce_u256-All : (acc : AccountData) → All IsByte (nonce_u256 acc).bytes
unfolding nonce_u256
nonce_u256-All acc =
    All-append IsByte (to_le_bytes 8 acc.nonce) (replicate 24 0) (to_le_bytes-All 8 acc.nonce)
      (All-replicate IsByte 24 0 (omega arith))

new_account-Typed : (a : Address) → ArrayTyped a → AccountTyped (new_account a)
new_account-Typed a h = record {
  nonce = omega arith;
  address = h;
  code = tt;
  storage = AllEntries-empty ArrayTyped ValueTyped;
  logs = tt;
}

pub account_entry-Typed :
    (a : Address) (s : TestHostContext)
    → ArrayTyped a
    → ContextTyped s
    → AccountTyped (account_entry a s)
account_entry-Typed a s h t =
    or_insert_with-Holds ArrayTyped AccountTyped a (new_account a) s.accounts
      (new_account-Typed a h) t.accounts

pub set_account-Typed :
    (a : Address) (acc : AccountData) (s : TestHostContext)
    → ArrayTyped a
    → AccountTyped acc
    → ContextTyped s
    → ContextTyped (set_account a acc s)
set_account-Typed a acc s h k t = record {
  depth = t.depth;
  current_account = t.current_account;
  accounts = insert-AllEntries ArrayTyped AccountTyped a acc s.accounts h k t.accounts;
  destructed_accounts = t.destructed_accounts;
}

pub update_code-Typed :
    (a : Address) (code : List ℕ) (s : TestHostContext)
    → ArrayTyped a
    → All IsByte code
    → ContextTyped s
    → ContextTyped (update_code a code s)
unfolding update_code
update_code-Typed a code s h c t =
    let acc = account_entry-Typed a s h t in
    set_account-Typed a _ s h
      (record {
        nonce = acc.nonce;
        address = acc.address;
        code = c;
        storage = acc.storage;
        logs = acc.logs;
      })
      t
