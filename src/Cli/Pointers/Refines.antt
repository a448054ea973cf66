-- ===== src/Cli/Pointers/Refines.antt =====
-- src/main.rs: "create" and "call" over the heap of contexts, beside `Cli/Commands`.
use play_evmone.Base.{ℕ, refl, List, some, arith}
use play_evmone.Base.Outcome.{Outcome, returns, ◌>>=◌, >>=-assoc}
use play_evmone.Bytes.{Address, default, fixed_eq}
use play_evmone.Evmc.{ExecutionMessage, max_revision}
use play_evmone.Evmc.Vm.{execute}
use play_evmone.Evmc.Simulates.{Rel, Rel-bind, Rel-bind_value, execute-Simulates}
use play_evmone.Evmc.Pointers.{Heap, write, host_context_ptr_from}
use play_evmone.Evmc.Pointers.Cells.{
  WellFormed, At, cell_of, deref_lem, deref_mut_lem, drop_host_context_ptr_lem, taken,
  WellFormed-taken, At-box, At-write, Released, At-Released,
}
use play_evmone.Host.{TestHostContext}
use play_evmone.Host.Call.{Externals, interface}
use play_evmone.Host.Call.Pointers.Refines.{heap_interface-HostSimulates}
use play_evmone.Cli.{Matches, Library, World, save_output}
use play_evmone.Cli.Commands.{assert, deployed, execute_and_save}
use play_evmone.Cli.Pointers.{heap_execute_and_save}

-- An outcome, as that of an action on no state.
abbrev pub stateless : {A : Type 0} → Outcome A → Outcome (A × Unit {0})
stateless m = m >>= λ a. returns (a, tt)

module _ (lib : Library) (ext : Externals) (fuel : ℕ) where
  -- In a heap that has no box from `next` on, the execution that "create" and "call" make on the
  -- context in a box of its own ends as `execute_and_save`, which passes the context by value: with
  -- the same error or the same files, by the same panic, or out of fuel. When it returns, the boxes
  -- are those that there were before.
  pub heap_execute_and_save_refines :
      (matches : Matches) (message : ExecutionMessage) (a : Address) (code : List ℕ)
      (context : TestHostContext) (w : World) (h : Heap TestHostContext)
      → WellFormed h
      → Rel
          (λ u h'. Released h h')
          (heap_execute_and_save lib ext fuel matches message a code context w h)
          (stateless (execute_and_save lib ext fuel matches message a code context w))
  unfolding heap_execute_and_save execute_and_save host_context_ptr_from
  heap_execute_and_save_refines matches message a code context w h wf =
      let R = λ (u : Unit {0}) (h' : Heap TestHostContext). Released h h' in
      let q = h.next in
      rw (>>=-assoc (execute (interface ext fuel) ext.evmone max_revision code message context)) (
        Rel-bind (At q (taken h)) R _ _ _ _
          (execute-Simulates (At q (taken h))
            (heap_interface-HostSimulates ext fuel (WellFormed-taken h wf) (omega arith)) ext.evmone
            max_revision code message _ _ (At-box context h))
          λ r h' t at. rw (>>=-assoc (assert (fixed_eq r.create_address (default 20)))) (
            Rel-bind_value R (assert (fixed_eq r.create_address (default 20))) _ _ λ u.
              let t' = deployed message a r t in
              let at' = At-write q (taken h) at t' in
              rw
                (
                  deref_lem q h' (cell_of q (taken h) at),
                  deref_mut_lem q h' (cell_of q (taken h) at) t',
                  deref_lem q (write q (some t') h') (cell_of q (taken h) at'),
                  >>=-assoc (save_output lib matches t' w),
                )
                (Rel-bind_value R (save_output lib matches t' w) _ _ λ w'.
                  rw (drop_host_context_ptr_lem q (write q (some t') h') (cell_of q (taken h) at'))
                    (refl, At-Released wf at'))))
