-- ===== src/Host/Slots/Status.antt =====
-- src/main.rs, `set_storage`: the status that it reports, and the counter `modify_time`.
use play_evmone.Base.{
  ==_iff, ℕ, zero, suc, ◌+◌, ◌-◌, ◌%◌, ◌^◌, ◌<◌, ◌≡◌, refl, ◌∙◌, true, false, Option, none, some,
  arith, ◌==◌, Bool-cases, inl, inr, if◌then◌else◌,
}
use play_evmone.Base.Outcome.{Outcome, returns, panic, out_of_fuel, invalid_storage_value, ◌>>=◌}
use play_evmone.HashMap.Laws.{beq_refl}
use play_evmone.Bytes.{fixed_bytes_eq, Address, Bytes32, fixed_eq}
use play_evmone.Evmc.{StorageStatus}
use play_evmone.Host.{Value, update_data, TestHostContext}
use play_evmone.Host.Methods.{storage_status, set_storage}
use play_evmone.Host.Slots.{slot_at, slot_step, write_slot, set_storage_lem}

-- The answer of a call, without the state.
abbrev pub answer {ℓ κ} : {A : Type ℓ} {S : Type κ} → Outcome (A × S) → Outcome A
answer m = m >>= λ r. returns r.0

answer-bind {ℓ κ} :
    {A : Type ℓ} {S : Type κ} (m : Outcome A) (f : A → S) → answer (m >>= λ a. returns (a, f a)) ≡ m
answer-bind (returns a) f = refl
answer-bind (panic p) f = refl
answer-bind out_of_fuel f = refl

-- The status by cases on the slot before the call. A slot that has never changed counts every
-- further write of its value as one more addition. It is not everywhere the documented status, with
-- which Documented compares it.
abbrev pub expected_status : Option Value → Bytes32 → Outcome StorageStatus
expected_status none v = returns StorageStatus.added
expected_status (some old) v =
    if fixed_eq v old.value
    then returns (if old.modify_time == 0 then StorageStatus.added else StorageStatus.unchanged)
    else if old.modify_time == 0
    then returns StorageStatus.modified
    else if old.modify_time == 2 ^ 64 - 1
    then panic invalid_storage_value
    else returns StorageStatus.modified_again

-- In every state whose counters fit a `usize`.
abbrev pub CounterFits : Option Value → Type 0
CounterFits none = Unit
CounterFits (some old) = old.modify_time < 2 ^ 64

pub status_changed :
    (n : ℕ)
    → n < 2 ^ 64
    → storage_status ((n + 1) % 2 ^ 64) true ≡ (
        if n == 0
        then returns StorageStatus.modified
        else if n == 2 ^ 64 - 1
        then panic invalid_storage_value
        else returns StorageStatus.modified_again)
unfolding storage_status
status_changed n h = elim (Bool-cases (n == 0)) [
  | inl e ↦ let z : n ≡ 0 = (==_iff n 0).0 e in rw z
  | inr e ↦ elim (Bool-cases (n == 2 ^ 64 - 1)) [
    | inl m ↦ let top : n ≡ 2 ^ 64 - 1 = (==_iff n (2 ^ 64 - 1)).0 m in rw top
    | inr m ↦ let up : (n + 1) % 2 ^ 64 ≡ suc (suc (n - 1)) = ground arith in rw (up, e, m)
  ]
]

pub status_unchanged :
    (n : ℕ)
    → storage_status n false
      ≡ returns (if n == 0 then StorageStatus.added else StorageStatus.unchanged)
unfolding storage_status
status_unchanged zero = refl
status_unchanged (suc n) = ground arith

answer-storage_status :
    (slot : Option Value) (v : Bytes32)
    → CounterFits slot
    → storage_status (slot_step slot v).0.modify_time (slot_step slot v).1 ≡ expected_status slot v
unfolding update_data storage_status
answer-storage_status none v h = rw (beq_refl v)
answer-storage_status (some old) v h = elim (Bool-cases (fixed_eq v old.value)) [
  | inl e ↦ rw e (status_unchanged old.modify_time)
  | inr e ↦ rw e (status_changed old.modify_time h)
]

-- If the counter fits a `usize`, `set_storage` answers by the slot alone: a new slot is added, its
-- own value adds it once more or, after a change, leaves it unchanged, and another value modifies
-- it, zero or not, the second time and later again; it panics when the counter would wrap.
pub answer-set_storage :
    (s : TestHostContext) (a : Address) (k v : Bytes32)
    → CounterFits (slot_at s a k)
    → answer (set_storage a k v s) ≡ expected_status (slot_at s a k) v
answer-set_storage s a k v h = rw set_storage_lem (
    answer-bind _ (λ st. write_slot a k (slot_step (slot_at s a k) v).0 s)
    ∙ answer-storage_status (slot_at s a k) v h)
