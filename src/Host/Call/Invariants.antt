-- ===== src/Host/Call/Invariants.antt =====
-- src/main.rs, `TestHostContext::call`: what a call keeps of the context, whatever the virtual
-- machine does in it and in the calls below it.
use play_evmone.Base.{ℕ, List, ◌≡◌, ◌≢◌, refl}
use play_evmone.Base.Outcome.{returns, panic, destructed_length}
use play_evmone.Bytes.{fixed_bytes_eq}
use play_evmone.Evmc.{Revision, ExecutionMessage, ExecutionResult, message_from_ffi}
use play_evmone.Evmc.Vm.{execute}
use play_evmone.Evmc.Keeps.{Calls-all, Post}
use play_evmone.Host.{TestHostContext}
use play_evmone.Host.Call.{Externals, call, interface}
use play_evmone.Host.Call.World.{
  here, Evolves, EntriesExtend, AccountsStay, DestructedGrow, IsKeyed, Evolves-EntriesExtend,
  Evolves-AccountsStay, Evolves-DestructedGrow, Evolves-IsKeyed,
}
use play_evmone.Host.Call.Trace.{NotShortened, host_context-HostKeeps}
use play_evmone.Host.Call.Sound.{call-Post, execute-Post}

module _ (ext : Externals) (fuel : ℕ) (m : ExecutionMessage) (s : TestHostContext) where
  post : Post (Evolves s) NotShortened (Unit {0}) (call ext fuel m s)
  post =
      call-Post ext (Unit {0}) (λ n d. Unit {0}) (λ d m'. Unit {0}) (λ d g. tt) (λ n d m' g ok. tt)
        (λ f e revision m' code. Calls-all (λ m''. Unit {0}) (λ m''. tt) (f revision m' code)) fuel
        m s tt

  pub call-Evolves :
      {r : ExecutionResult} {s' : TestHostContext}
      → call ext fuel m s ≡ returns (r, s')
      → Evolves s s'
  call-Evolves h = rw h at post

  -- After a call that returns, no account is lost, every account has kept its nonce, its address
  -- and its logs in order, new logs standing behind them, an account with code still has code, and
  -- the list of destructed accounts has at most grown at its end.
  pub call_preserves :
      {r : ExecutionResult} {s' : TestHostContext}
      → call ext fuel m s ≡ returns (r, s')
      → AccountsStay s s' × EntriesExtend s s' × DestructedGrow s s'
  call_preserves h = (
    Evolves-AccountsStay (call-Evolves h),
    Evolves-EntriesExtend (call-Evolves h),
    Evolves-DestructedGrow (call-Evolves h),
  )

  -- After a call that returns, every account that is stored has the address that it is stored under,
  -- if it was so before. The accounts that the call and the calls below it create have it too.
  pub call-IsKeyed :
      {r : ExecutionResult} {s' : TestHostContext}
      → call ext fuel m s ≡ returns (r, s')
      → IsKeyed s
      → IsKeyed s'
  call-IsKeyed h = Evolves-IsKeyed (call-Evolves h)

  -- The first panic of `update` cannot be reached: no call ends with it, at any depth.
  pub call-ne-destructed_length : call ext fuel m s ≢ panic destructed_length
  call-ne-destructed_length h = (rw h at post) refl

-- An execution that no call is around, as the command line starts it.
module _ (ext : Externals) (fuel : ℕ) (revision : Revision) (code : List ℕ) (m : ExecutionMessage)
    (s : TestHostContext) where
  interface-Post :
      Post
        (Evolves s)
        NotShortened
        (Unit {0})
        (execute (interface ext fuel) ext.evmone revision code m s)
  interface-Post =
      execute-Post (Unit {0}) (λ d m'. Unit {0}) ext.evmone (interface ext fuel) s revision code m
        (λ f e rev m' c. Calls-all (λ m''. Unit {0}) (λ m''. tt) (f rev m' c))
        (host_context-HostKeeps (Unit {0}) (λ m'. Unit {0}) (call ext fuel)
          (λ m' t ok. post ext fuel (message_from_ffi m') t) s)
        s here

  pub execute-Evolves :
      {r : ExecutionResult} {s' : TestHostContext}
      → execute (interface ext fuel) ext.evmone revision code m s ≡ returns (r, s')
      → Evolves s s'
  execute-Evolves h = rw h at interface-Post
