-- ===== src/Evmc/Interface.antt =====
-- src/evmc.rs: the trait `HostContext`, and the table of callbacks that `get_interface` makes of an
-- implementation. A context pointer stands for the state that a callback takes and returns.
use play_evmone.Base.{ℕ, Bool, List, map}
use play_evmone.Base.Int.{ℤ, as_u64}
use play_evmone.Base.Outcome.{Outcome, returns, ◌>>=◌}
use play_evmone.Bytes.{Address, Bytes32, Uint256, FfiBytes, from_ffi, into_ffi}
use play_evmone.Evmc.{
  StorageStatus, TxContext, FfiMessage, FfiResult, ExecutionResult, ExecutionMessage,
  message_from_ffi, result_into_ffi,
}

-- A method on `&mut self`: it returns the changed state beside its result, or panics.
abbrev pub Action : Type 0 → Type 0 → Type 0
Action S A = S → Outcome (A × S)

-- `.into()` on what an action returns
abbrev pub into : {S A B : Type 0} → (A → B) → Action S A → Action S B
into f m s = m s >>= λ r. returns (f r.0, r.1)

-- `trait HostContext`
pub record HostContext (S : Type 0) : Type 0 where
  pub get_tx_context : Action S TxContext
  pub account_exists : Address → Action S Bool
  pub get_storage : Address → Bytes32 → Action S Bytes32
  pub set_storage : Address → Bytes32 → Bytes32 → Action S StorageStatus
  pub get_balance : Address → Action S Uint256
  pub call : ExecutionMessage → Action S ExecutionResult
  pub selfdestruct : Address → Address → Action S (Unit {0})
  pub emit_log : Address → List ℕ → List Bytes32 → Action S (Unit {0})
  pub copy_code : Address → ℕ → List ℕ → Action S ℕ
  pub get_code_size : Address → Action S ℕ
  pub get_code_hash : Address → Action S Bytes32
  pub get_block_hash : ℕ → Action S Bytes32

-- `ffi::evmc_host_interface`
pub record HostInterface (S : Type 0) : Type 0 where
  pub account_exists : FfiBytes 20 → Action S Bool
  pub get_tx_context : Action S TxContext
  pub get_storage : FfiBytes 20 → FfiBytes 32 → Action S (FfiBytes 32)
  pub set_storage : FfiBytes 20 → FfiBytes 32 → FfiBytes 32 → Action S StorageStatus
  pub get_balance : FfiBytes 20 → Action S (FfiBytes 32)
  pub call : FfiMessage → Action S FfiResult
  pub emit_log : FfiBytes 20 → List ℕ → List (FfiBytes 32) → Action S (Unit {0})
  pub get_code_size : FfiBytes 20 → Action S ℕ
  pub get_code_hash : FfiBytes 20 → Action S (FfiBytes 32)
  pub get_block_hash : ℤ → Action S (FfiBytes 32)
  pub selfdestruct : FfiBytes 20 → FfiBytes 20 → Action S (Unit {0})
  pub copy_code : FfiBytes 20 → ℕ → List ℕ → Action S ℕ

-- `get_interface::<T>()`: each callback converts its arguments, calls the method on the context,
-- and converts the result.
abbrev pub get_interface : {S : Type 0} → HostContext S → HostInterface S
get_interface host = record {
  account_exists = λ address. host.account_exists (from_ffi address);
  get_tx_context = host.get_tx_context;
  get_storage = λ address key. into into_ffi (host.get_storage (from_ffi address) (from_ffi key));
  set_storage =
      λ address key value. host.set_storage (from_ffi address) (from_ffi key) (from_ffi value);
  get_balance = λ address. into into_ffi (host.get_balance (from_ffi address));
  call = λ msg. into result_into_ffi (host.call (message_from_ffi msg));
  emit_log = λ address bytes topics. host.emit_log (from_ffi address) bytes (map from_ffi topics);
  get_code_size = λ address. host.get_code_size (from_ffi address);
  get_code_hash = λ address. into into_ffi (host.get_code_hash (from_ffi address));
  get_block_hash = λ number. into into_ffi (host.get_block_hash (as_u64 number));
  selfdestruct = λ address beneficiary. host.selfdestruct (from_ffi address) (from_ffi beneficiary);
  copy_code = λ address code_offset buffer. host.copy_code (from_ffi address) code_offset buffer;
}
