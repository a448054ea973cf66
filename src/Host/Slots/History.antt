-- ===== src/Host/Slots/History.antt =====
-- src/main.rs, `set_storage`: what a sequence of writes to one slot leaves behind.
use play_evmone.Base.{
  ℕ, ◌+◌, ◌^◌, ◌<◌, length, ◌≡◌, refl, ◌∙◌, none, some, List, [], ◌∷◌, arith, ◌==◌, Bool-cases, inl,
  inr, if◌then◌else◌,
}
use play_evmone.Base.Outcome.{Outcome, returns, ◌>>=◌}
use play_evmone.HashMap.Laws.{beq_refl}
use play_evmone.Bytes.{fixed_bytes_eq, Address, Bytes32, fixed_eq, fixed_eq_iff}
use play_evmone.Evmc.{StorageStatus}
use play_evmone.Host.{Value, new_value, update_data, TestHostContext}
use play_evmone.Host.Methods.{storage_status, set_storage}
use play_evmone.Host.Slots.{slot_at, slot_step, write_slot, set_storage_lem, slot_at-write_slot}
use play_evmone.Host.Slots.Status.{status_changed, status_unchanged}

-- The writes of a list of values to one slot, one after the other.
unfoldable pub write_all :
    Address → Bytes32 → List Bytes32 → TestHostContext → Outcome TestHostContext
write_all a k [] s = returns s
write_all a k (v ∷ vs) s = set_storage a k v s >>= λ r. write_all a k vs r.1

-- How often the value changes, and the value at the end.
abbrev pub changes : Bytes32 → List Bytes32 → ℕ
changes v [] = 0
changes v (w ∷ ws) = (if fixed_eq w v then 0 else 1) + changes w ws

abbrev pub last : Bytes32 → List Bytes32 → Bytes32
last v [] = v
last v (w ∷ ws) = last w ws

slot_at-write_slot_self :
    (s : TestHostContext) (a : Address) (k : Bytes32) (val : Value)
    → slot_at (write_slot a k val s) a k ≡ some val
slot_at-write_slot_self s a k val = rw (slot_at-write_slot s a a k k val, beq_refl a, beq_refl k)

-- A write that counts no more than 2^64 - 1 changes returns.
status_returns :
    (old : Value) (v : Bytes32)
    → old.modify_time + 1 < 2 ^ 64
    → (status : StorageStatus) × (storage_status
          (slot_step (some old) v).0.modify_time
          (slot_step (some old) v).1
        ≡ returns status)
unfolding update_data
status_returns old v h = elim (Bool-cases (fixed_eq v old.value)) [
  | inl e ↦ (
    (if old.modify_time == 0 then StorageStatus.added else StorageStatus.unchanged),
    rw e (status_unchanged old.modify_time),
  )
  | inr e ↦ (
    (if old.modify_time == 0 then StorageStatus.modified else StorageStatus.modified_again),
    rw e (status_changed old.modify_time (omega arith) ∙ ground arith),
  )
]

-- The slot that a write leaves, as the value written and the count of its changes.
abbrev pub counted : Value → Bytes32 → Value
counted old v = record {
  value = v;
  modify_time = old.modify_time + (if fixed_eq v old.value then 0 else 1);
}

slot_step-counted :
    (old : Value) (v : Bytes32)
    → old.modify_time + 1 < 2 ^ 64
    → (slot_step (some old) v).0 ≡ counted old v
unfolding update_data
slot_step-counted old v h = elim (Bool-cases (fixed_eq v old.value)) [
  | inl e ↦ rw e (ground (arith, fixed_eq_iff v old.value))
  | inr e ↦ rw e (ground arith)
]

write_one :
    (s : TestHostContext) (a : Address) (k v : Bytes32) (old : Value)
    → slot_at s a k ≡ some old
    → old.modify_time + 1 < 2 ^ 64
    → (status : StorageStatus) × (set_storage a k v s
        ≡ returns (status, write_slot a k (counted old v) s))
write_one s a k v old h room =
    let (status, e) = status_returns old v room in
    (status, set_storage_lem s a k v ∙ rw (h, e, slot_step-counted old v room))

-- From a slot whose counter leaves room for them, any list of values is written with no panic, and
-- the slot ends with the last value and its counter advanced by the number of changes.
pub write_all-counts :
    (vs : List Bytes32) (s : TestHostContext) (a : Address) (k : Bytes32) (old : Value)
    → slot_at s a k ≡ some old
    → old.modify_time + length vs < 2 ^ 64
    → (s' : TestHostContext) × (write_all a k vs s ≡ returns s')
      × (slot_at s' a k
          ≡ some (record {
            value = last old.value vs;
            modify_time = old.modify_time + changes old.value vs;
          }))
unfolding write_all
write_all-counts [] s a k old h room = (s, refl, h ∙ ground arith)
write_all-counts (v ∷ vs) s a k old h room =
    let (status, e) = write_one s a k v old h (omega arith) in
    let here = write_slot a k (counted old v) s in
    let (s', done, slot) =
      write_all-counts vs here a k (counted old v) (slot_at-write_slot_self s a k (counted old v))
        (ground arith) in
    (s', rw (e, done), slot ∙ ground arith)

-- Two writes of one value to a new slot both answer that they added it.
pub added_twice :
    (s : TestHostContext) (a : Address) (k v : Bytes32)
    → slot_at s a k ≡ none
    → (s1 : TestHostContext) × (s2 : TestHostContext) × (set_storage a k v s
        ≡ returns (StorageStatus.added, s1))
      × (set_storage a k v s1 ≡ returns (StorageStatus.added, s2))
unfolding update_data storage_status
added_twice s a k v h =
    let s1 = write_slot a k (new_value v) s in
    (
      s1,
      write_slot a k (new_value v) s1,
      set_storage_lem s a k v ∙ rw (h, beq_refl v),
      set_storage_lem s1 a k v ∙ rw (slot_at-write_slot_self s a k (new_value v), beq_refl v),
    )
