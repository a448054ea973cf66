-- ===== src/Host/Call/Trace.antt =====
-- The callbacks of the test host, as the steps of `World`, and the panics that a call can meet.
use play_evmone.Base.{
  ℕ, zero, suc, ◌≡◌, ◌≢◌, Bool, true, false, Option, none, some, List, ◌++◌, arith, if◌then◌else◌,
  length, ltb, length-append,
}
use play_evmone.Base.Outcome.{Panic, returns, panic, destructed_length, invalid_state, unwrap}
use play_evmone.Base.Fails.{Fails}
use play_evmone.HashMap.{HashMap, get}
use play_evmone.Bytes.{fixed_bytes_eq, Address, Bytes32, JsonBytes, from_ffi}
use play_evmone.Evmc.{FfiMessage, ExecutionMessage, ExecutionResult, message_from_ffi}
use play_evmone.Evmc.Message.{is_create}
use play_evmone.Evmc.Interface.{Action, get_interface}
use play_evmone.Evmc.Keeps.{Post, Keeps, Post-bind, Post-bind_value, Post-mono, HostKeeps}
use play_evmone.Host.{AccountData, TestHostContext, update}
use play_evmone.Host.Update.{any_alive, taken_over, update_lem}
use play_evmone.Host.Methods.{storage_status, set_storage, emit_log, get_storage}
use play_evmone.Host.Slots.{set_storage_lem}
use play_evmone.Host.Call.{host_context, callee_code, code_in, code_of}
use play_evmone.Host.Call.World.{
  account, destruct, store, log, Evolves, next, Evolves-trans, DestructedGrow,
}

-- The panics that a call may end with.
abbrev pub NotShortened : Panic → Type 0
NotShortened p = p ≢ destructed_length

storage_status-Fails :
    (F : Type 0) (n : ℕ) (changed : Bool) → Fails NotShortened F (storage_status n changed)
unfolding storage_status
storage_status-Fails F zero true = λ e. cc
storage_status-Fails F zero false = tt
storage_status-Fails F (suc zero) true = tt
storage_status-Fails F (suc (suc n)) true = tt
storage_status-Fails F (suc n) false = tt

pub callee_code-Fails :
    (F : Type 0) (m : ExecutionMessage) (a : Address) (accounts : HashMap Address AccountData)
    → Fails NotShortened F (callee_code m a accounts)
unfolding callee_code
callee_code-Fails F m a accounts = go (is_create m) (get a accounts)
  where
    code : (c : Option JsonBytes) → Fails NotShortened F (code_of c)
    code none = λ e. cc
    code (some c) = tt

    stored : (o : Option AccountData) → Fails NotShortened F (code_in o)
    stored none = λ e. cc
    stored (some acc) = code acc.code

    go :
        (b : Bool) (o : Option AccountData)
        → Fails NotShortened F (if b then returns m.input_data else code_in o)
    go true o = tt
    go false o = stored o

pub unwrap-Fails : (F : Type 0) {A : Type 0} (o : Option A) → Fails NotShortened F (unwrap o)
unwrap-Fails F none = λ e. cc
unwrap-Fails F (some a) = tt

not_shorter : (xs ys extra : List Address) → ys ≡ xs ++ extra → ltb (length ys) (length xs) ≡ false
not_shorter xs ys extra h = rw h (ground (arith, length-append xs extra))

-- Taking over a context that has evolved from one's own.
pub update-Fails :
    (F : Type 0) (self other : TestHostContext)
    → DestructedGrow self other
    → Fails NotShortened F (update self other)
update-Fails F self other (extra, grow) =
    rw (update_lem, not_shorter self.destructed_accounts other.destructed_accounts extra grow)
      (elim (any_alive other.destructed_accounts other.accounts)
        as (λ b.
          Fails NotShortened F
            (if b then panic invalid_state else returns (taken_over self other))) [
              | true ↦ λ e. cc
              | false ↦ tt
            ])

set_storage-Post :
    (F : Type 0) (s0 : TestHostContext) (a : Address) (k v : Bytes32)
    → Keeps (Evolves s0) NotShortened F (set_storage a k v)
set_storage-Post F s0 a k v s h = rw set_storage_lem (
    Post-bind_value (Evolves s0) NotShortened F _ _ (storage_status-Fails F _ _)
      λ st e. next h (account a (store k _)))

emit_log-Post :
    (F : Type 0) (s0 : TestHostContext) (a : Address) (bytes : List ℕ) (topics : List Bytes32)
    → Keeps (Evolves s0) NotShortened F (emit_log a bytes topics)
unfolding emit_log
emit_log-Post F s0 a bytes topics s h = next h (account a (log _))

-- The host keeps the evolution from any context, if its calls do from where they are made.
module _ (F : Type 0) (M : FfiMessage → Type 0)
    (callee : ExecutionMessage → Action TestHostContext ExecutionResult)
    (sound : (m : FfiMessage) (s : TestHostContext)
      → M m
      → Post (Evolves s) NotShortened F (callee (message_from_ffi m) s))
    (s0 : TestHostContext) where
  pub host_context-HostKeeps :
      HostKeeps (Evolves s0) NotShortened F M (get_interface (host_context callee))
  unfolding get_storage
  host_context-HostKeeps = record {
    account_exists = λ a s h. h;
    get_tx_context = λ s h. h;
    get_storage = λ a k s h. h;
    set_storage = λ a k v s h. set_storage-Post F s0 (from_ffi a) (from_ffi k) (from_ffi v) s h;
    get_balance = λ a s h. h;
    call = λ m ok s h.
        Post-bind (Evolves s0) NotShortened F (callee (message_from_ffi m) s) _
          (Post-mono (Evolves s) (Evolves s0) NotShortened F _ (λ t r. Evolves-trans h r)
            (sound m s ok))
          λ r q. q;
    emit_log = λ a d t s h. emit_log-Post F s0 (from_ffi a) d _ s h;
    get_code_size = λ a s h. h;
    get_code_hash = λ a s h. h;
    get_block_hash = λ n s h. h;
    selfdestruct = λ a b s h. next h (destruct (from_ffi a));
    copy_code = λ a o b s h. h;
  }
