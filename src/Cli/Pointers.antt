-- ===== src/Cli/Pointers.antt =====
-- src/main.rs, what "create" and "call" do with the pointer to their context: `execute_and_save` of
-- `Cli/Commands` over the heap of contexts.
pub mod Refines
use play_evmone.Base.{ℕ, List}
use play_evmone.Base.Outcome.{Outcome, Result, returns, ok, ◌>>=◌}
use play_evmone.Bytes.{Address, default, fixed_eq}
use play_evmone.Evmc.{ExecutionMessage, max_revision}
use play_evmone.Evmc.Interface.{Action, HostInterface, get_interface}
use play_evmone.Evmc.Vm.{execute}
use play_evmone.Evmc.Pointers.{
  Ptr, Heap, wrapper_from, deref, deref_mut, drop_wrapper, host_context_ptr_from,
  drop_host_context_ptr,
}
use play_evmone.Host.{TestHostContext}
use play_evmone.Host.Call.{Externals}
use play_evmone.Host.Call.Pointers.{heap_interface}
use play_evmone.Cli.{Matches, Library, World, CliError, save_output}
use play_evmone.Cli.Commands.{assert, deployed}

module _ (lib : Library) (ext : Externals) (fuel : ℕ) where
  unfoldable pub heap_execute_and_save :
      Matches
      → ExecutionMessage
      → Address
      → List ℕ
      → TestHostContext
      → World
      → Action (Heap TestHostContext) (Result CliError World)
  heap_execute_and_save matches message a code host_context w h0 = do
    boxed ← host_context_ptr_from host_context h0
    let wrapper = wrapper_from boxed.0
    r ← execute (heap_interface ext fuel boxed.0) ext.evmone max_revision code message boxed.1
    _ ← assert (fixed_eq r.0.create_address (default 20))
    context ← deref wrapper r.1
    h1 ← deref_mut wrapper (deployed message a r.0 context) r.1
    saved ← deref wrapper h1
    w' ← save_output lib matches saved w
    h2 ← drop_wrapper wrapper h1
    dropped ← drop_host_context_ptr boxed.0 h2
    returns (ok w', dropped.1)
