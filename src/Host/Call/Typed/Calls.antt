-- ===== src/Host/Call/Typed/Calls.antt =====
-- src/main.rs, `TestHostContext::call`: a call followed within the types, and what it leaves.
use play_evmone.Base.{ℕ, zero, suc, ◌≡◌, true, false, List, All, arith, if◌then◌else◌, ◌&&◌}
use play_evmone.Base.Outcome.{returns, unwrap}
use play_evmone.Bytes.{IsByte, Address, fixed_bytes_eq, from_ffi}
use play_evmone.Evmc.{Revision, is_success, ExecutionMessage, ExecutionResult}
use play_evmone.Evmc.Message.{is_create}
use play_evmone.Evmc.Interface.{HostInterface, get_interface}
use play_evmone.Evmc.Vm.{run, execute}
use play_evmone.Evmc.Typed.{
  MessageTyped, ResultTyped, Gives-bind, Gives-bind_value, Types, HostTyped, run-Types,
}
use play_evmone.Host.{TestHostContext, update, update_code}
use play_evmone.Host.Update.{update_returns}
use play_evmone.Host.Typed.{
  ArrayTyped, ContextTyped, account_entry-Typed, set_account-Typed, update_code-Typed,
}
use play_evmone.Host.Call.{
  Externals, host_context, callee_code, target, with_sender, redirected, callee_context, finished,
  call_body, call,
}
use play_evmone.Host.Call.Sound.{unwrap-eq}
use play_evmone.Host.Call.Typed.{
  ExecutionTyped, ExternalsTyped, host_context-HostTyped, target-Typed, callee_code-Typed,
}

module _ (ext : Externals) (typed : ExternalsTyped ext) where
  -- The callee's execution has ended.
  finished-Typed :
      (m : ExecutionMessage) (a : Address) (r : ExecutionResult) (s : TestHostContext)
      → ArrayTyped a
      → ExecutionTyped r
      → ContextTyped s
      → ContextTyped (finished ext m a r s)
  finished-Typed m a r s ha hr t =
      elim (is_success r.status_code && is_create m)
        as (λ b. ContextTyped (if b then update_code a r.output_data s else s)) [
          | true ↦ update_code-Typed a r.output_data s ha hr.output_data t
          | false ↦ t
        ]

  execute-Types :
      (host : HostInterface TestHostContext)
      → HostTyped ContextTyped host
      → (revision : Revision) (code : List ℕ) (m : ExecutionMessage) → MessageTyped m.inner
      → All IsByte code
      → Types ContextTyped ExecutionTyped (execute host ext.evmone revision code m)
  unfolding execute
  execute-Types host keeps revision code m h c s t =
      Gives-bind_value ExecutionTyped ContextTyped (unwrap ext.evmone.execute) _ λ f e.
        Gives-bind ResultTyped ExecutionTyped ContextTyped (run host (f revision m.inner code) s) _
          (run-Types ContextTyped keeps (f revision m.inner code)
            (typed.machine f (unwrap-eq ext.evmone.execute e) revision m.inner code h c) s t)
          λ r s' hr t'. (
            record {
              output_data = hr.output_data;
              create_address = hr.create_address;
              padding = hr.padding;
            },
            t',
          )

  call_body-Types :
      (host : HostInterface TestHostContext)
      → HostTyped ContextTyped host
      → (m : ExecutionMessage) → MessageTyped m.inner
      → Types ContextTyped ExecutionTyped (call_body ext host m)
  unfolding call_body
  call_body-Types host keeps m h s t =
      let a = target ext m s in
      let ha = target-Typed ext typed m s h in
      let self = with_sender ext m s in
      let ts =
        set_account-Typed (from_ffi m.sender) _ s h.sender
          (account_entry-Typed (from_ffi m.sender) s h.sender t) t in
      let msg = redirected m a in
      let hm : MessageTyped msg.inner = record {
        depth = h.depth;
        destination = ha;
        sender = h.sender;
        input_data = h.input_data;
        value = h.value;
        create2_salt = h.create2_salt;
      } in
      let tc : ContextTyped (callee_context ext msg a self) = record {
        depth = omega arith;
        current_account = ha;
        accounts = ts.accounts;
        destructed_accounts = ts.destructed_accounts;
      } in
      Gives-bind_value ExecutionTyped ContextTyped (callee_code msg a self.accounts) _ λ code e.
        Gives-bind ExecutionTyped ExecutionTyped ContextTyped
          (execute host ext.evmone Revision.petersburg code msg (callee_context ext msg a self)) _
          (execute-Types host keeps Revision.petersburg code msg hm
            (callee_code-Typed ext typed msg a self hm ts e) (callee_context ext msg a self) tc)
          λ r s' hr t'.
            Gives-bind_value ExecutionTyped ContextTyped (update self (finished ext msg a r s')) _
              λ u e'.
                let tf = finished-Typed msg a r s' ha hr t' in
                (
                  record {
                    output_data = hr.output_data;
                    create_address = ha;
                    padding = hr.padding;
                  },
                  rw ((update_returns _ _ e').0) (record {
                    depth = ts.depth;
                    current_account = ts.current_account;
                    accounts = tf.accounts;
                    destructed_accounts = tf.destructed_accounts;
                  }),
                )

  call-Types :
      (fuel : ℕ) (m : ExecutionMessage)
      → MessageTyped m.inner
      → Types ContextTyped ExecutionTyped (call ext fuel m)
  unfolding call
  call-Types zero m h s t = tt
  call-Types (suc fuel) m h s t =
      call_body-Types (get_interface (host_context (call ext fuel)))
        (host_context-HostTyped (call ext fuel) (λ m' h' s' t'. call-Types fuel m' h' s' t')) m h s
        t

  -- A call of a message with values of the right types that returns, from a context with such
  -- values, leaves a context with such values, and its result has them: addresses of 20 bytes, words
  -- of 32, counters of 64 bits and a depth of 32. The machine is asked to pass on such values when
  -- it is given them, RLP to make bytes of bytes, and a hash of bytes to have 32 bytes.
  pub call-Typed :
      (fuel : ℕ) (m : ExecutionMessage) (s : TestHostContext) {r : ExecutionResult}
      {s' : TestHostContext}
      → MessageTyped m.inner
      → ContextTyped s
      → call ext fuel m s ≡ returns (r, s')
      → ExecutionTyped r × ContextTyped s'
  call-Typed fuel m s h t e = rw e at (call-Types fuel m h s t)
