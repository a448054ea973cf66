-- ===== src/Host/Typed/Methods.antt =====
-- src/main.rs: the callbacks of `TestHostContext`, and the types of the values that they are given.
use play_evmone.Base.{
  All-append, ℕ, ◌+◌, ◌%◌, ◌^◌, Bool, true, false, Option, none, some, List, [], ◌∷◌, All, arith,
  if◌then◌else◌,
}
use play_evmone.Base.Outcome.{returns}
use play_evmone.HashMap.{get, insert, or_insert_with}
use play_evmone.HashMap.Entries.{Holds, get-Holds, insert-AllEntries, or_insert_with-Holds}
use play_evmone.Bytes.{IsByte, Address, Bytes32, fixed_eq, fixed_bytes_eq}
use play_evmone.Evmc.{StorageStatus}
use play_evmone.Evmc.Typed.{Any, Gives-bind_value, Types}
use play_evmone.Host.{Value, new_value, update_data, AccountData, account_entry, set_account}
use play_evmone.Host.Methods.{
  stored, stored_in, storage_at, storage_status, get_storage, set_storage, emit_log, selfdestruct,
}
use play_evmone.Host.Typed.{
  ArrayTyped, ValueTyped, LogTyped, AccountTyped, ContextTyped, IsArray-zeros, account_entry-Typed,
  set_account-Typed,
}

update_data-Typed :
    (v : Value) (d : Bytes32) → ValueTyped v → ArrayTyped d → ValueTyped (update_data v d).0
unfolding update_data
update_data-Typed v d h k =
    elim (fixed_eq d v.value)
      as (λ b.
        ValueTyped
          (if◌then◌else◌ {A = Value × Bool} b (v, false)
            (record { value = d; modify_time = (v.modify_time + 1) % 2 ^ 64 }, true)).0) [
              | true ↦ h
              | false ↦ (k, omega arith)
            ]

pub get_storage-Typed :
    (a : Address) (k : Bytes32) → Types ContextTyped ArrayTyped (get_storage a k)
unfolding get_storage storage_at stored_in stored
get_storage-Typed a k s t =
    (in_account (get a s.accounts) (get-Holds ArrayTyped AccountTyped a s.accounts t.accounts), t)
  where
    in_slot : (o : Option Value) → Holds (ArrayTyped {n = 32}) ValueTyped o → ArrayTyped (stored o)
    in_slot none h = IsArray-zeros 32
    in_slot (some v) h = h.0

    in_account :
        (o : Option AccountData)
        → Holds (ArrayTyped {n = 20}) AccountTyped o
        → ArrayTyped (stored_in k o)
    in_account none h = IsArray-zeros 32
    in_account (some acc) h =
        in_slot (get k acc.storage) (get-Holds ArrayTyped ValueTyped k acc.storage h.storage)

pub set_storage-Typed :
    (a : Address) (k v : Bytes32)
    → ArrayTyped a
    → ArrayTyped k
    → ArrayTyped v
    → Types ContextTyped Any (set_storage a k v)
unfolding set_storage
set_storage-Typed a k v ha hk hv s t =
    let acc = account_entry-Typed a s ha t in
    let storage = (account_entry a s).storage in
    let val = update_data (or_insert_with k (new_value v) storage) v in
    Gives-bind_value {A = StorageStatus} {B = StorageStatus} Any ContextTyped
      (storage_status val.0.modify_time val.1)
      (λ status.
        returns (
          status,
          set_account a (record (account_entry a s) { storage = insert k val.0 storage }) s,
        ))
      λ status e. (
        tt,
        set_account-Typed a _ s ha
            (record {
              nonce = acc.nonce;
              address = acc.address;
              code = acc.code;
              storage =
                  insert-AllEntries ArrayTyped ValueTyped k _ _ hk
                    (update_data-Typed _ v
                      (or_insert_with-Holds ArrayTyped ValueTyped k (new_value v) _
                        (hv, omega arith) acc.storage)
                      hv)
                    acc.storage;
              logs = acc.logs;
            })
            t,
      )

pub emit_log-Typed :
    (a : Address) (bytes : List ℕ) (topics : List Bytes32)
    → ArrayTyped a
    → All IsByte bytes
    → All ArrayTyped topics
    → Types ContextTyped Any (emit_log a bytes topics)
unfolding emit_log
emit_log-Typed a bytes topics ha hb ht s t =
    let acc = account_entry-Typed a s ha t in
    (
      tt,
      set_account-Typed a _ s ha
          (record {
            nonce = acc.nonce;
            address = acc.address;
            code = acc.code;
            storage = acc.storage;
            logs = All-append LogTyped _ _ acc.logs ((hb, ht), tt);
          })
          t,
    )

pub selfdestruct-Typed : (a b : Address) → ArrayTyped a → Types ContextTyped Any (selfdestruct a b)
selfdestruct-Typed a b ha s t = (
  tt,
  record {
    depth = t.depth;
    current_account = t.current_account;
    accounts = t.accounts;
    destructed_accounts = All-append ArrayTyped _ (a ∷ []) t.destructed_accounts (ha, tt);
  },
)
