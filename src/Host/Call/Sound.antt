-- ===== src/Host/Call/Sound.antt =====
-- src/main.rs, `TestHostContext::call`, followed from the copy of its context to its `update`.
use play_evmone.Base.{ℕ, zero, suc, ◌≡◌, true, false, Option, none, some, List, if◌then◌else◌, ◌&&◌}
use play_evmone.Base.Outcome.{returns, unwrap}
use play_evmone.Bytes.{fixed_bytes_eq, Address, from_ffi}
use play_evmone.Evmc.{
  Revision, is_success, FfiMessage, ExecutionMessage, ExecutionResult, message_from_ffi,
}
use play_evmone.Evmc.Message.{is_create}
use play_evmone.Evmc.Interface.{HostInterface}
use play_evmone.Evmc.Vm.{EvmcVm, execute, run, Script}
use play_evmone.Evmc.Keeps.{Calls, Post, Keeps, Post-bind, Post-bind_value, HostKeeps, run-Keeps}
use play_evmone.Host.{TestHostContext, update_code}
use play_evmone.Host.Update.{update_returns}
use play_evmone.Host.Call.{
  Externals, target, with_sender, finished, redirected, call_body, call, interface,
}
use play_evmone.Host.Call.World.{
  account, enter, same, set_code, Evolves, here, next, Evolves-DestructedGrow,
}
use play_evmone.Host.Call.Trace.{
  NotShortened, callee_code-Fails, unwrap-Fails, update-Fails, host_context-HostKeeps,
}

pub unwrap-eq : {A : Type 0} (o : Option A) {a : A} → unwrap o ≡ returns a → o ≡ some a
unwrap-eq none h = cc
unwrap-eq (some a) h = cc

-- Every script of the machine makes only calls that `M` allows at the depth of its message.
abbrev pub Obeys : (ℕ → FfiMessage → Type 0) → EvmcVm → Type 0
Obeys M vm =
    (f : Revision → FfiMessage → List ℕ → Script)
    → vm.execute ≡ some f
    → (revision : Revision) (m : FfiMessage) (code : List ℕ) → Calls (M m.depth) (f revision m code)

pub execute-Post :
    (F : Type 0) (M : ℕ → FfiMessage → Type 0) (vm : EvmcVm) (host : HostInterface TestHostContext)
    (s0 : TestHostContext) (revision : Revision) (code : List ℕ) (m : ExecutionMessage)
    → Obeys M vm
    → HostKeeps (Evolves s0) NotShortened F (M m.depth) host
    → Keeps (Evolves s0) NotShortened F (execute host vm revision code m)
unfolding execute
execute-Post F M vm host s0 revision code m obeys keeps s h =
    Post-bind_value (Evolves s0) NotShortened F (unwrap vm.execute) _ (unwrap-Fails F vm.execute)
      λ f e.
        Post-bind (Evolves s0) NotShortened F (run host (f revision m.inner code) s) _
          (run-Keeps (Evolves s0) NotShortened F keeps (f revision m.inner code)
            (obeys f (unwrap-eq vm.execute e) revision m.inner code) s h)
          λ r q. q

pub finished-Evolves :
    (ext : Externals) (m : ExecutionMessage) (a : Address) (r : ExecutionResult)
    {s0 t : TestHostContext}
    → Evolves s0 t
    → Evolves s0 (finished ext m a r t)
unfolding update_code
finished-Evolves ext m a r {s0} {t} h =
    elim (is_success r.status_code && is_create m)
      as (λ b. Evolves s0 (if b then update_code a r.output_data t else t)) [
        | true ↦ next h (account a (set_code _))
        | false ↦ h
      ]

call_body-Post :
    (ext : Externals) (F : Type 0) (M : ℕ → FfiMessage → Type 0)
    (host : HostInterface TestHostContext) (m : ExecutionMessage) (s : TestHostContext)
    → Obeys M ext.evmone
    → HostKeeps (Evolves s) NotShortened F (M m.depth) host
    → Post (Evolves s) NotShortened F (call_body ext host m s)
unfolding call_body
call_body-Post ext F M host m s obeys keeps =
    let entered : Evolves s (with_sender ext m s) = next here (account (from_ffi m.sender) same) in
    Post-bind_value (Evolves s) NotShortened F _ _ (callee_code-Fails F _ _ _) λ code e.
      Post-bind (Evolves s) NotShortened F _ _
        (execute-Post F M ext.evmone host s Revision.petersburg code (redirected m (target ext m s))
          obeys keeps _ (next entered (enter _ _)))
        λ r q.
          Post-bind_value (Evolves s) NotShortened F _ _
            (update-Fails F _ _ (
              Evolves-DestructedGrow
                (finished-Evolves ext (redirected m (target ext m s)) (target ext m s) r.0 q)))
            λ t e'. rw ((update_returns _ _ e').0) (
              next (finished-Evolves ext (redirected m (target ext m s)) (target ext m s) r.0 q)
                (enter _ _))

module _ (ext : Externals) (F : Type 0) (G : ℕ → ℕ → Type 0) (M : ℕ → FfiMessage → Type 0)
    (base : (d : ℕ) → G 0 d → F)
    (down : (n d : ℕ) (m : FfiMessage) → G (suc n) d → M d m → G n m.depth)
    (obeys : Obeys M ext.evmone) where
  -- With fuel that is enough (`G`) for the depth of its message, a call evolves the context, or
  -- panics, but not for the length of the list of destructed accounts.
  pub call-Post :
      (fuel : ℕ) (m : ExecutionMessage) (s : TestHostContext)
      → G fuel m.depth
      → Post (Evolves s) NotShortened F (call ext fuel m s)
  unfolding call
  call-Post zero m s g = base m.depth g
  call-Post (suc fuel) m s g = call_body-Post ext F M (interface ext fuel) m s obeys (
      host_context-HostKeeps F (M m.depth) (call ext fuel)
        (λ m' t ok. call-Post fuel (message_from_ffi m') t (down fuel m.depth m' g ok)) s)
