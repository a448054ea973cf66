-- ===== src/Host/Call/Pointers.antt =====
-- src/main.rs, `TestHostContext::call` as it treats the pointers: over the heap of contexts, `self`
-- being the context behind a pointer.
pub mod Refines
use play_evmone.Base.{ℕ, zero, suc}
use play_evmone.Base.Outcome.{Outcome, returns, out_of_fuel, ◌>>=◌}
use play_evmone.Bytes.{fixed_bytes_eq, Address}
use play_evmone.Evmc.{Revision, ExecutionMessage, ExecutionResult}
use play_evmone.Evmc.Interface.{Action, HostContext, HostInterface, get_interface}
use play_evmone.Evmc.Vm.{execute}
use play_evmone.Evmc.Pointers.{
  Ptr, Heap, wrapper_from, deref, deref_mut, drop_wrapper, through, host_context_ptr_from,
  drop_host_context_ptr,
}
use play_evmone.Host.{TestHostContext, update}
use play_evmone.Host.Methods.{
  get_tx_context, account_exists, get_storage, set_storage, get_balance, selfdestruct, emit_log,
  copy_code, get_code_size, get_code_hash, get_block_hash,
}
use play_evmone.Host.Call.{
  Externals, target, with_sender, redirected, callee_code, callee_context, finished,
}

-- The methods of the context behind `p`, as the callbacks reach them.
abbrev pub heap_context :
    Ptr
    → (ExecutionMessage → Action (Heap TestHostContext) ExecutionResult)
    → HostContext (Heap TestHostContext)
heap_context p call = record {
  get_tx_context = through p get_tx_context;
  account_exists = λ a. through p (account_exists a);
  get_storage = λ a k. through p (get_storage a k);
  set_storage = λ a k v. through p (set_storage a k v);
  get_balance = λ a. through p (get_balance a);
  call = call;
  selfdestruct = λ a b. through p (selfdestruct a b);
  emit_log = λ a d t. through p (emit_log a d t);
  copy_code = λ a o b. through p (copy_code a o b);
  get_code_size = λ a. through p (get_code_size a);
  get_code_hash = λ a. through p (get_code_hash a);
  get_block_hash = λ n. through p (get_block_hash n);
}

module _ (ext : Externals) where
  -- The rest of the body when the callee, whose context is behind `q`, has been executed.
  unfoldable pub settle :
      Ptr
      → Ptr
      → ExecutionMessage
      → Address
      → ExecutionResult
      → Action (Heap TestHostContext) ExecutionResult
  settle p q message destination result h0 = do
    let wrapper = wrapper_from q
    context ← deref wrapper h0
    h1 ← deref_mut wrapper (finished ext message destination result context) h0
    other ← deref wrapper h1
    self ← deref (wrapper_from p) h1
    updated ← update self other
    h2 ← deref_mut (wrapper_from p) updated h1
    h3 ← drop_wrapper wrapper h2
    dropped ← drop_host_context_ptr q h3
    returns (record result { create_address = destination }, dropped.1)

  -- The body of `call` on the context behind `p`, over the interface that the callee's callbacks go
  -- to, which is given the pointer to the callee's context.
  unfoldable pub heap_body :
      (Ptr → HostInterface (Heap TestHostContext))
      → Ptr
      → ExecutionMessage
      → Action (Heap TestHostContext) ExecutionResult
  unfolding settle
  heap_body interface p msg h0 = do
    caller ← deref (wrapper_from p) h0
    let a = target ext msg caller
    let message = redirected msg a
    h1 ← deref_mut (wrapper_from p) (with_sender ext msg caller) h0
    self ← deref (wrapper_from p) h1
    code ← callee_code message a self.accounts
    boxed ← host_context_ptr_from (callee_context ext message a self) h1
    r ← execute (interface boxed.0) ext.evmone Revision.petersburg code message boxed.1
    settle p boxed.0 message a r.0 r.1

  unfoldable pub heap_call :
      ℕ → Ptr → ExecutionMessage → Action (Heap TestHostContext) ExecutionResult
  unfolding heap_body
  heap_call zero p message h = out_of_fuel
  heap_call (suc fuel) p message h =
      heap_body (λ q. get_interface (heap_context q (heap_call fuel q))) p message h

  -- `TestHostContext::interface()`, whose callbacks are given the pointer `q`.
  abbrev pub heap_interface : ℕ → Ptr → HostInterface (Heap TestHostContext)
  heap_interface fuel q = get_interface (heap_context q (heap_call fuel q))
