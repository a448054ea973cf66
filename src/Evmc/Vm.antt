-- ===== src/Evmc/Vm.antt =====
-- src/evmc.rs, `EvmcVm`. The virtual machine itself is foreign: what it does on a message is a
-- parameter, a script of the callbacks that it makes and of what it does with each answer.
use play_evmone.Base.{ℕ, Bool, Option, List}
use play_evmone.Base.Int.{ℤ}
use play_evmone.Base.Outcome.{returns, unwrap, ◌>>=◌}
use play_evmone.Bytes.{FfiBytes}
use play_evmone.Evmc.{
  StorageStatus, Revision, TxContext, FfiMessage, FfiResult, ExecutionResult, ExecutionMessage,
  result_from_ffi,
}
use play_evmone.Evmc.Interface.{Action, HostInterface}

-- One execution, as its host sees it.
pub data Script : Type 0 where
  finish : FfiResult → Script
  account_exists : FfiBytes 20 → (Bool → Script) → Script
  get_tx_context : (TxContext → Script) → Script
  get_storage : FfiBytes 20 → FfiBytes 32 → (FfiBytes 32 → Script) → Script
  set_storage : FfiBytes 20 → FfiBytes 32 → FfiBytes 32 → (StorageStatus → Script) → Script
  get_balance : FfiBytes 20 → (FfiBytes 32 → Script) → Script
  call : FfiMessage → (FfiResult → Script) → Script
  emit_log : FfiBytes 20 → List ℕ → List (FfiBytes 32) → Script → Script
  get_code_size : FfiBytes 20 → (ℕ → Script) → Script
  get_code_hash : FfiBytes 20 → (FfiBytes 32 → Script) → Script
  get_block_hash : ℤ → (FfiBytes 32 → Script) → Script
  selfdestruct : FfiBytes 20 → FfiBytes 20 → Script → Script
  copy_code : FfiBytes 20 → ℕ → List ℕ → (ℕ → Script) → Script

-- `ffi::evmc_vm`, of which the program uses the function pointer `execute`.
pub record EvmcVm : Type 0 where
  pub execute : Option (Revision → FfiMessage → List ℕ → Script)

module _ {S : Type 0} (host : HostInterface S) where
  -- The callbacks of a script, made on the host one after the other.
  unfoldable pub run : Script → Action S FfiResult
  run (Script.finish r) s = returns (r, s)
  run (Script.account_exists a next) s = host.account_exists a s >>= λ r. run (next r.0) r.1
  run (Script.get_tx_context next) s = host.get_tx_context s >>= λ r. run (next r.0) r.1
  run (Script.get_storage a k next) s = host.get_storage a k s >>= λ r. run (next r.0) r.1
  run (Script.set_storage a k v next) s = host.set_storage a k v s >>= λ r. run (next r.0) r.1
  run (Script.get_balance a next) s = host.get_balance a s >>= λ r. run (next r.0) r.1
  run (Script.call m next) s = host.call m s >>= λ r. run (next r.0) r.1
  run (Script.emit_log a d t next) s = host.emit_log a d t s >>= λ r. run next r.1
  run (Script.get_code_size a next) s = host.get_code_size a s >>= λ r. run (next r.0) r.1
  run (Script.get_code_hash a next) s = host.get_code_hash a s >>= λ r. run (next r.0) r.1
  run (Script.get_block_hash n next) s = host.get_block_hash n s >>= λ r. run (next r.0) r.1
  run (Script.selfdestruct a b next) s = host.selfdestruct a b s >>= λ r. run next r.1
  run (Script.copy_code a o b next) s = host.copy_code a o b s >>= λ r. run (next r.0) r.1

  -- `EvmcVm::execute`, on the context behind the pointer of the `ExecutionContext`.
  unfoldable pub execute : EvmcVm → Revision → List ℕ → ExecutionMessage → Action S ExecutionResult
  unfolding run
  execute vm revision code message s = do
    execute_fn ← unwrap vm.execute
    r ← run (execute_fn revision message.inner code) s
    returns (result_from_ffi r.0, r.1)
