-- ===== src/Host/Call/Fuel.antt =====
-- src/main.rs, `TestHostContext::call`: how much fuel the model needs.
use play_evmone.Base.{ℕ, ◌+◌, ◌≤◌, ◌<◌, ◌≡◌, ◌≢◌, arith, List}
use play_evmone.Base.Outcome.{out_of_fuel}
use play_evmone.Evmc.{Revision, FfiMessage, ExecutionMessage, message_from_ffi}
use play_evmone.Evmc.Vm.{execute}
use play_evmone.Host.{TestHostContext}
use play_evmone.Host.Call.{Externals, call, interface}
use play_evmone.Host.Call.Sound.{Obeys, call-Post, execute-Post}
use play_evmone.Host.Call.Trace.{host_context-HostKeeps}
use play_evmone.Host.Call.World.{here}

-- The limit of the Ethereum virtual machine: a message at depth `d` makes calls of depth `d + 1`,
-- and none beyond 1024.
abbrev pub DepthLimited : ℕ → FfiMessage → Type 0
DepthLimited d m = (m.depth ≡ d + 1) × (d + 1 ≤ 1024)

abbrev Enough : ℕ → ℕ → Type 0
Enough fuel d = (d ≤ 1024) × (1024 < d + fuel)

-- On a machine that keeps to the depth limit, a call whose depth and fuel pass 1024 together ends:
-- it returns or panics.
pub call-ne-out_of_fuel :
    (ext : Externals) (fuel : ℕ) (m : ExecutionMessage) (s : TestHostContext)
    → Obeys DepthLimited ext.evmone
    → m.depth ≤ 1024
    → 1024 < m.depth + fuel
    → call ext fuel m s ≢ out_of_fuel
call-ne-out_of_fuel ext fuel m s obeys low enough h = rw h at (
    call-Post ext ⊥ Enough DepthLimited (λ d g. omega arith) (λ n d m' g ok. omega arith) obeys fuel
      m s (low, enough))

-- An execution at depth 0, whose calls stand at depth 1.
pub execute-ne-out_of_fuel :
    (ext : Externals) (fuel : ℕ) (revision : Revision) (code : List ℕ) (m : ExecutionMessage)
    (s : TestHostContext)
    → Obeys DepthLimited ext.evmone
    → m.depth ≡ 0
    → 1024 ≤ fuel
    → execute (interface ext fuel) ext.evmone revision code m s ≢ out_of_fuel
execute-ne-out_of_fuel ext fuel revision code m s obeys shallow enough h = rw h at (
    execute-Post ⊥ DepthLimited ext.evmone (interface ext fuel) s revision code m obeys
      (host_context-HostKeeps ⊥ (DepthLimited m.depth) (call ext fuel)
        (λ m' t ok.
          call-Post ext ⊥ Enough DepthLimited (λ d g. omega arith)
            (λ n d m'' g limited. omega arith) obeys fuel (message_from_ffi m') t (omega arith))
        s)
      s here)
