-- ===== src/Host/Call/Pointers/Refines.antt =====
-- src/main.rs and src/evmc.rs: calls over the heap of contexts, beside the calls of `Host/Call`, that
-- pass contexts by value.
use play_evmone.Base.{ℕ, zero, suc, ◌<◌, ◌≡◌, refl, some, arith}
use play_evmone.Base.Outcome.{returns, ◌>>=◌}
use play_evmone.Bytes.{fixed_bytes_eq, Address, from_ffi, into_ffi}
use play_evmone.Evmc.{
  Revision, ExecutionMessage, ExecutionResult, message_from_ffi, result_into_ffi,
}
use play_evmone.Evmc.Interface.{Action, HostInterface, get_interface}
use play_evmone.Evmc.Simulates.{
  Rel, Simulates, HostSimulates, Rel-mono, Rel-bind, Rel-bind_value, Simulates-into,
  execute-Simulates,
}
use play_evmone.Evmc.Pointers.{Ptr, Heap, write, host_context_ptr_from}
use play_evmone.Evmc.Pointers.Cells.{
  WellFormed, At, Settled, through-Simulates, cell_of, cell_before, cell_after, deref_lem,
  deref_mut_lem, drop_host_context_ptr_lem, taken, WellFormed-taken, At-start, At-box, At-write,
  At-WellFormed, At-free,
}
use play_evmone.Host.{TestHostContext, update}
use play_evmone.Host.Methods.{get_storage, get_balance, get_code_hash}
use play_evmone.Host.Call.{
  Externals, host_context, target, with_sender, redirected, callee_code, finished, call_body, call,
  interface,
}
use play_evmone.Host.Call.Pointers.{heap_context, settle, heap_body, heap_call, heap_interface}

module _ (ext : Externals) where
  -- The callbacks behind the pointer simulate those by value, if the calls do.
  pub heap_context-HostSimulates :
      (p : Ptr) (h0 : Heap TestHostContext)
      (heap_callee : ExecutionMessage → Action (Heap TestHostContext) ExecutionResult)
      (callee : ExecutionMessage → Action TestHostContext ExecutionResult)
      → ((m : ExecutionMessage) → Simulates (At p h0) (heap_callee m) (callee m))
      → HostSimulates
          (At p h0)
          (get_interface (heap_context p heap_callee))
          (get_interface (host_context callee))
  heap_context-HostSimulates p h0 heap_callee callee sim = record {
    account_exists = λ a. through-Simulates p h0 _;
    get_tx_context = through-Simulates p h0 _;
    get_storage = λ a k.
        Simulates-into (At p h0) into_ffi _ _
          (through-Simulates p h0 (get_storage (from_ffi a) (from_ffi k)));
    set_storage = λ a k v. through-Simulates p h0 _;
    get_balance = λ a.
        Simulates-into (At p h0) into_ffi _ _ (through-Simulates p h0 (get_balance (from_ffi a)));
    call = λ m. Simulates-into (At p h0) result_into_ffi _ _ (sim (message_from_ffi m));
    emit_log = λ a d t. through-Simulates p h0 _;
    get_code_size = λ a. through-Simulates p h0 _;
    get_code_hash = λ a.
        Simulates-into (At p h0) into_ffi _ _ (through-Simulates p h0 (get_code_hash (from_ffi a)));
    get_block_hash = λ n. Simulates-into (At p h0) into_ffi _ _ (through-Simulates p h0 _);
    selfdestruct = λ a b. through-Simulates p h0 _;
    copy_code = λ a o b. through-Simulates p h0 _;
  }

  module _ {p : Ptr} {h0 : Heap TestHostContext} (wf : WellFormed h0) (lt : p < h0.next) where
    -- The callee has returned: its context is taken over, and its box given back.
    settle-Rel :
        (message : ExecutionMessage) (a : Address) (r : ExecutionResult) (self : TestHostContext)
        (h : Heap TestHostContext) (t : TestHostContext) (h' : Heap TestHostContext)
        → At p h0 self h
        → At h.next (taken h) t h'
        → Rel (Settled p h0) (settle ext p h.next message a r h') (
            update self (finished ext message a r t) >>= λ self'.
            returns (record r { create_address = a }, self'))
    unfolding settle write
    settle-Rel message a r self h t h' at at' =
        let t' = finished ext message a r t in
        let at'' = At-write h.next (taken h) at' t' in
        rw
          (
            deref_lem h.next h' (cell_of h.next (taken h) at'),
            deref_mut_lem h.next h' (cell_of h.next (taken h) at') t',
            deref_lem h.next (write h.next (some t') h') (cell_of h.next (taken h) at''),
            deref_lem p (write h.next (some t') h') (cell_before wf lt at at''),
          )
          (Rel-bind_value (Settled p h0) (update self t') _ _ λ self'.
            rw
              (
                deref_mut_lem p (write h.next (some t') h') (cell_before wf lt at at'') self',
                drop_host_context_ptr_lem h.next (write p (some self') (write h.next (some t') h'))
                    (cell_after wf lt at at'' self'),
              )
              (refl, At-free wf lt at self' at''))

  module _ (heap_interface : Ptr → HostInterface (Heap TestHostContext))
      (interface : HostInterface TestHostContext)
      (sim : (q : Ptr) (h : Heap TestHostContext)
        → WellFormed h
        → q < h.next
        → HostSimulates (At q h) (heap_interface q) interface) where
    heap_body-Settles :
        {p : Ptr} {h0 : Heap TestHostContext}
        → WellFormed h0
        → p < h0.next
        → (msg : ExecutionMessage) (h : Heap TestHostContext) (s : TestHostContext) → At p h0 s h
        → Rel (Settled p h0) (heap_body ext heap_interface p msg h) (call_body ext interface msg s)
    unfolding heap_body call_body host_context_ptr_from
    heap_body-Settles {p} {h0} wf lt msg h s at =
        let self = with_sender ext msg s in
        let h1 = write p (some self) h in
        let at1 = At-write p h0 at self in
        let message = redirected msg (target ext msg s) in
        rw
          (
            deref_lem p h (cell_of p h0 at),
            deref_mut_lem p h (cell_of p h0 at) self,
            deref_lem p h1 (cell_of p h0 at1),
          )
          (Rel-bind_value (Settled p h0) (callee_code message (target ext msg s) self.accounts) _ _
            λ code.
              Rel-bind (At h1.next (taken h1)) (Settled p h0) _ _ _ _
                (execute-Simulates (At h1.next (taken h1))
                  (sim h1.next (taken h1) (WellFormed-taken h1 (At-WellFormed wf lt at1))
                    (omega arith))
                  ext.evmone Revision.petersburg code message _ _ (At-box _ h1))
                λ r h' t at'. settle-Rel wf lt message (target ext msg s) r self h1 t h' at1 at')

  -- From a heap in which the box at `p` holds `s`.
  pub heap_call-Settles :
      (fuel : ℕ) {p : Ptr} {h0 : Heap TestHostContext}
      → WellFormed h0
      → p < h0.next
      → (msg : ExecutionMessage) (h : Heap TestHostContext) (s : TestHostContext) → At p h0 s h
      → Rel (Settled p h0) (heap_call ext fuel p msg h) (call ext fuel msg s)
  unfolding heap_call call
  heap_call-Settles zero wf lt msg h s at = tt
  heap_call-Settles (suc fuel) wf lt msg h s at =
      heap_body-Settles _ _
        (λ q h' wf' lt'. heap_context-HostSimulates q h' _ _ λ m h'' s'' at''.
          Rel-mono (Settled q h') (At q h') _ _ (λ t g e. e.0)
            (heap_call-Settles fuel wf' lt' m h'' s'' at''))
        wf lt msg h s at

  -- The interface that an execution runs on, at the pointer to its context.
  pub heap_interface-HostSimulates :
      (fuel : ℕ) {q : Ptr} {h : Heap TestHostContext}
      → WellFormed h
      → q < h.next
      → HostSimulates (At q h) (heap_interface ext fuel q) (interface ext fuel)
  heap_interface-HostSimulates fuel {q} {h} wf lt =
      heap_context-HostSimulates q h (heap_call ext fuel q) (call ext fuel) λ m h' s at.
        Rel-mono (Settled q h) (At q h) _ _ (λ t g e. e.0) (heap_call-Settles fuel wf lt m h' s at)

  -- In a heap that has no box from `next` on, a call on the context in the box at `p` ends as the
  -- call of `Host/Call`, which takes and returns contexts by value: with the same result, by the same
  -- panic, or out of fuel. When it returns, the box at `p` holds the context that the other call
  -- returns, every other box is as it was, those that the call and the calls below it have taken are
  -- given back, and the contents of one of them at least are lost.
  pub heap_call_refines :
      (fuel : ℕ) (p : Ptr) (h : Heap TestHostContext) (s : TestHostContext) (msg : ExecutionMessage)
      → WellFormed h
      → h.cell p ≡ some s
      → Rel (Settled p h) (heap_call ext fuel p msg h) (call ext fuel msg s)
  heap_call_refines fuel p h s msg wf e =
      let (lt, at) = At-start h wf e in heap_call-Settles fuel wf lt msg h s at
