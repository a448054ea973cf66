-- ===== src/Host/Slots.antt =====
-- src/main.rs, `get_storage` and `set_storage`: the storage of the host as a function of the
-- account and the key, and one storage slot as a counter of its changes.
pub mod Status
pub mod History
pub mod Documented
use play_evmone.Base.{
  ℕ, zero, suc, ◌+◌, ◌%◌, ◌^◌, ◌<◌, ◌≡◌, refl, ap, ◌∙◌, sym, Bool, true, false, ◌&&◌, Option, none,
  some, List, [], ◌∷◌, arith, Bool-cases, Option-cases, inl, inr, if◌then◌else◌,
}
use play_evmone.Base.Outcome.{Outcome, returns, panic, ◌>>=◌, >>=-eq-returns}
use play_evmone.HashMap.{found_or, get, insert, or_insert_with}
use play_evmone.HashMap.Laws.{get-insert, get-empty, beq_refl}
use play_evmone.Bytes.{fixed_bytes_eq, Address, Bytes32, fixed_eq, fixed_eq_iff, default}
use play_evmone.Evmc.{StorageStatus}
use play_evmone.Host.{
  Value, new_value, update_data, AccountData, account_entry, set_account, TestHostContext,
}
use play_evmone.Host.Methods.{storage_at, stored, stored_in, storage_status, set_storage}

slot_in : Bytes32 → Option AccountData → Option Value
slot_in key none = none
slot_in key (some account) = get key account.storage

-- The slot of an account at a key, if the program has created it.
unfoldable pub slot_at : TestHostContext → Address → Bytes32 → Option Value
unfolding slot_in
slot_at self a key = slot_in key (get a self.accounts)

storage_at-eq-stored :
    (s : TestHostContext) (a : Address) (k : Bytes32) → storage_at s a k ≡ stored (slot_at s a k)
unfolding storage_at slot_at
storage_at-eq-stored s a k = ground arith

-- The slot that the reference of `set_storage` points to.
abbrev pub opened : TestHostContext → Address → Bytes32 → Bytes32 → Value
opened s a k v = or_insert_with k (new_value v) (account_entry a s).storage

entry-slot :
    (s : TestHostContext) (a : Address) (k : Bytes32)
    → get k (account_entry a s).storage ≡ slot_at s a k
unfolding slot_at
entry-slot s a k = elim (Option-cases (get a s.accounts)) [
  | inl e ↦ rw e (get-empty k)
  | inr (acc, e) ↦ rw e
]

opened_lem :
    (s : TestHostContext) (a : Address) (k v : Bytes32)
    → opened s a k v ≡ found_or (new_value v) (slot_at s a k)
opened_lem s a k v = ap (λ o. found_or (new_value v) o) (entry-slot s a k)

-- The state with one slot written.
abbrev pub write_slot : Address → Bytes32 → Value → TestHostContext → TestHostContext
write_slot a k val s =
    set_account a
      (record (account_entry a s) { storage = insert k val (account_entry a s).storage }) s

slot_at-write_slot :
    (s : TestHostContext) (a b : Address) (k j : Bytes32) (val : Value)
    → slot_at (write_slot a k val s) b j
      ≡ (if fixed_eq a b && fixed_eq k j then some val else slot_at s b j)
unfolding slot_at
slot_at-write_slot s a b k j val = elim (Bool-cases (fixed_eq a b)) [
  | inl e ↦ rw (
    get-insert a b _ s.accounts,
    e,
    get-insert k j val _,
    ← (fixed_eq_iff a b).0 e,
    entry-slot s a j,
  )
  | inr e ↦ rw (get-insert a b _ s.accounts, e)
]

-- What `set_storage` does to a slot: the slot that is left, and the status or the panic.
abbrev pub slot_step : Option Value → Bytes32 → Value × Bool
slot_step slot v = update_data (found_or (new_value v) slot) v

-- `set_storage` reads and writes one slot.
pub set_storage_lem :
    (s : TestHostContext) (a : Address) (k v : Bytes32)
    → set_storage a k v s ≡ (
        storage_status (slot_step (slot_at s a k) v).0.modify_time (slot_step (slot_at s a k) v).1
        >>= λ status. returns (status, write_slot a k (slot_step (slot_at s a k) v).0 s))
unfolding set_storage
set_storage_lem s a k v = rw (← opened_lem s a k v)

-- Whether or not the value changed, the slot holds the value written.
value-slot_step : (slot : Option Value) (v : Bytes32) → (slot_step slot v).0.value ≡ v
unfolding update_data
value-slot_step none v = rw (beq_refl v)
value-slot_step (some old) v = ground (arith, fixed_eq_iff v old.value)

-- A call that returns has written the slot.
pub set_storage_returns :
    (s : TestHostContext) (a : Address) (k v : Bytes32) {status : StorageStatus}
    {s' : TestHostContext}
    → set_storage a k v s ≡ returns (status, s')
    → s' ≡ write_slot a k (slot_step (slot_at s a k) v).0 s
set_storage_returns s a k v h =
    let (st, e, r) = >>=-eq-returns (storage_status _ _) _ (sym (set_storage_lem s a k v) ∙ h) in cc

stored-if :
    (b : Bool) (x : Value) (o : Option Value)
    → stored (if b then some x else o) ≡ (if b then x.value else stored o)
unfolding stored
stored-if true x o = refl
stored-if false x o = refl

-- A write that returns makes `get_storage` read the value at that account and key, and changes what
-- it reads at no other account or key.
pub storage_at-set_storage :
    (s : TestHostContext) (a : Address) (k v : Bytes32) {status : StorageStatus}
    {s' : TestHostContext}
    → set_storage a k v s ≡ returns (status, s')
    → (b : Address) (j : Bytes32)
    → storage_at s' b j ≡ (if fixed_eq a b && fixed_eq k j then v else storage_at s b j)
storage_at-set_storage s a k v h b j = rw (
  set_storage_returns s a k v h,
  storage_at-eq-stored (write_slot a k _ s) b j,
  slot_at-write_slot s a b k j _,
  stored-if,
  value-slot_step,
  storage_at-eq-stored s b j,
)
