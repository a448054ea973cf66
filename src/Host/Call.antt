-- ===== src/Host/Call.antt =====
-- src/main.rs, `TestHostContext::call`, and the host that the interface is made of. A call executes
-- the callee on a copy of the context, whose callbacks can call again: the fuel bounds how deep.
pub mod World
pub mod Trace
pub mod Sound
pub mod Invariants
pub mod Commit
pub mod Destructed
pub mod Fuel
pub mod Pointers
pub mod Typed
use play_evmone.Base.{
  ℕ, zero, suc, ◌+◌, ◌%◌, ◌^◌, Bool, true, false, ◌&&◌, Option, none, some, List, if◌then◌else◌,
}
use play_evmone.Base.Outcome.{Outcome, returns, panic, out_of_fuel, no_code, no_account, ◌>>=◌}
use play_evmone.HashMap.{HashMap, get}
use play_evmone.Bytes.{fixed_bytes_eq, Address, JsonBytes, from_ffi, into_ffi}
use play_evmone.Evmc.{Revision, is_success, ExecutionMessage, ExecutionResult}
use play_evmone.Evmc.Message.{Digests, is_create, input_data, destination}
use play_evmone.Evmc.Interface.{Action, HostContext, HostInterface, get_interface}
use play_evmone.Evmc.Vm.{EvmcVm, execute}
use play_evmone.Host.{
  AccountData, nonce_u256, TestHostContext, account_entry, set_account, update_code, update,
}
use play_evmone.Host.Methods.{
  get_tx_context, account_exists, get_storage, set_storage, get_balance, selfdestruct, emit_log,
  copy_code, get_code_size, get_code_hash, get_block_hash,
}

-- `impl HostContext for TestHostContext`, over its method `call`.
abbrev pub host_context :
    (ExecutionMessage → Action TestHostContext ExecutionResult) → HostContext TestHostContext
host_context call = record {
  get_tx_context = get_tx_context;
  account_exists = account_exists;
  get_storage = get_storage;
  set_storage = set_storage;
  get_balance = get_balance;
  call = call;
  selfdestruct = selfdestruct;
  emit_log = emit_log;
  copy_code = copy_code;
  get_code_size = get_code_size;
  get_code_hash = get_code_hash;
  get_block_hash = get_block_hash;
}

code_of : Option JsonBytes → Outcome (List ℕ)
code_of none = panic no_code
code_of (some code) = returns code.bytes

code_in : Option AccountData → Outcome (List ℕ)
unfolding code_of
code_in none = panic no_account
code_in (some account) = code_of account.code

-- The code that a call runs: the input of a creation, else the code of the destination.
unfoldable pub callee_code :
    ExecutionMessage → Address → HashMap Address AccountData → Outcome (List ℕ)
unfolding code_in
callee_code message a accounts =
    if is_create message then returns (input_data message) else code_in (get a accounts)

-- What the program does not implement: the functions of the crates rlp and keccak_hash, and the
-- virtual machine that `evmc_create_evmone` returns.
pub record Externals : Type 0 where
  pub digests : Digests
  pub evmone : EvmcVm

-- The message with its destination replaced.
abbrev pub redirected : ExecutionMessage → Address → ExecutionMessage
redirected msg a = record { inner = record msg.inner { destination = into_ffi a } }

module _ (ext : Externals) where
  -- `message.destination(sender_nonce)`, once the sender's account is there.
  abbrev pub target : ExecutionMessage → TestHostContext → Address
  target message self =
      (destination ext.digests message
        (nonce_u256 (account_entry (from_ffi message.sender) self))).0

  -- The context after `self.accounts.entry(sender).or_insert_with(..)`.
  abbrev pub with_sender : ExecutionMessage → TestHostContext → TestHostContext
  with_sender message self =
      set_account (from_ffi message.sender) (account_entry (from_ffi message.sender) self) self

  -- The copy of the context that the callee gets.
  abbrev pub callee_context : ExecutionMessage → Address → TestHostContext → TestHostContext
  callee_context message a self = record self {
    depth = (message.depth + 1) % 2 ^ 32;
    current_account = a;
  }

  -- What the caller takes over: the callee's context, with the code of a created account.
  abbrev pub finished :
      ExecutionMessage → Address → ExecutionResult → TestHostContext → TestHostContext
  finished message a result context =
      if is_success result.status_code && is_create message
      then update_code a result.output_data context
      else context

  -- The body of `call`, over the interface that the callee's callbacks go to.
  unfoldable pub call_body :
      HostInterface TestHostContext → ExecutionMessage → Action TestHostContext ExecutionResult
  call_body interface msg caller = do
    let a = target msg caller
    let self = with_sender msg caller
    let message = redirected msg a
    code ← callee_code message a self.accounts
    r ←
        execute interface ext.evmone Revision.petersburg code message
          (callee_context message a self)
    self' ← update self (finished message a r.0 r.1)
    returns (record r.0 { create_address = a }, self')

  unfoldable pub call : ℕ → ExecutionMessage → Action TestHostContext ExecutionResult
  unfolding call_body
  call zero message self = out_of_fuel
  call (suc fuel) message self = call_body (get_interface (host_context (call fuel))) message self

  -- `TestHostContext::interface()`
  abbrev pub interface : ℕ → HostInterface TestHostContext
  interface fuel = get_interface (host_context (call fuel))
