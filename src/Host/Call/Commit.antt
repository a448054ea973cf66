-- ===== src/Host/Call/Commit.antt =====
-- src/main.rs, `TestHostContext::call`: what a call that returns has done, and what follows for
-- creations, failed calls and destructed accounts.
use play_evmone.Base.{ℕ, zero, suc, ◌≡◌, ◌≢◌, ap, ◌∙◌, sym, true, false, ◌&&◌, some, List}
use play_evmone.Base.Outcome.{Outcome, returns, >>=-returns_elim}
use play_evmone.HashMap.Laws.{beq_refl}
use play_evmone.Bytes.{fixed_bytes_eq, from_ffi}
use play_evmone.Evmc.{CallKind, is_success, Revision, ExecutionMessage, ExecutionResult}
use play_evmone.Evmc.Message.{is_create, destination-other, destination-create}
use play_evmone.Evmc.Vm.{execute}
use play_evmone.Host.{AccountData, nonce_u256, TestHostContext, account_entry, update, update_code}
use play_evmone.Host.Update.{any_alive, taken_over, update_returns}
use play_evmone.Host.Call.{
  Externals, callee_code, redirected, target, with_sender, callee_context, finished, interface,
  call,
}
use play_evmone.Host.Call.World.{Evolves, Evolves-EntriesExtend, account_entry-set_account}

pub no_fuel :
    (ext : Externals) (m : ExecutionMessage) (s : TestHostContext)
    {x : ExecutionResult × TestHostContext}
    → call ext zero m s ≢ returns x
unfolding call
no_fuel ext m s h = cc

module _ (ext : Externals) (fuel : ℕ) (m : ExecutionMessage) (s : TestHostContext) where
  -- The parts of a call that has returned: the code that was found, what its execution gave, and
  -- what was made of that.
  pub record Committed (r : ExecutionResult) (s' : TestHostContext) : Type 0 where
    pub code : List ℕ
    pub result : ExecutionResult
    pub context : TestHostContext
    pub found :
        callee_code (redirected m (target ext m s)) (target ext m s) (with_sender ext m s).accounts
        ≡ returns code
    pub executed :
        execute
          (interface ext fuel)
          ext.evmone
          Revision.petersburg
          code
          (redirected m (target ext m s))
          (callee_context ext m (target ext m s) (with_sender ext m s))
        ≡ returns (result, context)
    pub answered : r ≡ record result { create_address = target ext m s }
    pub committed : s' ≡ taken_over s (finished ext m (target ext m s) result context)
    pub none_alive : any_alive s'.destructed_accounts s'.accounts ≡ false

  settled :
      (code : List ℕ) (q : ExecutionResult × TestHostContext) (t : TestHostContext)
      {r : ExecutionResult} {s' : TestHostContext}
      → callee_code (redirected m (target ext m s)) (target ext m s) (with_sender ext m s).accounts
        ≡ returns code
      → execute
          (interface ext fuel)
          ext.evmone
          Revision.petersburg
          code
          (redirected m (target ext m s))
          (callee_context ext m (target ext m s) (with_sender ext m s))
        ≡ returns q
      → update (with_sender ext m s) (finished ext m (target ext m s) q.0 q.1) ≡ returns t
      → ◌≡◌ {A = Outcome (ExecutionResult × TestHostContext)}
          (returns (record q.0 { create_address = target ext m s }, t))
          (returns (r, s'))
      → Committed r s'
  settled code q t {s' = s'} found executed taken h =
      let state : s' ≡ t = cc in
      record {
        code = code;
        result = q.0;
        context = q.1;
        found = found;
        executed = executed;
        answered = cc;
        committed = rw state (update_returns _ _ taken).0;
        none_alive = rw (state, (update_returns _ _ taken).0) (update_returns _ _ taken).1;
      }

  -- Every call that returns comes about so.
  pub call-Committed :
      {r : ExecutionResult} {s' : TestHostContext}
      → call ext (suc fuel) m s ≡ returns (r, s')
      → Committed r s'
  unfolding call
  call-Committed h = >>=-returns_elim _ _ h λ code found h1.
      >>=-returns_elim _ _ h1 λ q executed h2.
        >>=-returns_elim _ _ h2 λ t taken h3. settled code q t found executed taken h3

  status_answered :
      {r : ExecutionResult} {s' : TestHostContext} (c : Committed r s')
      → c.result.status_code ≡ r.status_code
  status_answered c = ap (λ (x : ExecutionResult). x.status_code) (sym c.answered)

  keeps_effects :
      {r : ExecutionResult} {s' : TestHostContext} (c : Committed r s')
      → (is_success c.result.status_code && is_create m) ≡ false
      → s' ≡ taken_over s c.context
  keeps_effects c h = c.committed ∙ rw h

  deployed :
      {r : ExecutionResult} {s' : TestHostContext} (c : Committed r s')
      → (is_success c.result.status_code && is_create m) ≡ true
      → (account_entry (target ext m s) s').code ≡ some (record { bytes = c.result.output_data })
  unfolding update_code
  deployed c h = rw (
    c.committed,
    h,
    account_entry-set_account (target ext m s) (target ext m s) _ c.context,
    beq_refl (target ext m s),
  )

  -- A call that returns and creates no account, or fails, has handed the callee's accounts and
  -- destructed accounts on to the caller as they were, whatever the status: a revert takes nothing
  -- back. The caller keeps its depth and its current account.
  pub call_keeps_effects :
      {r : ExecutionResult} {s' : TestHostContext}
      → call ext (suc fuel) m s ≡ returns (r, s')
      → (is_success r.status_code && is_create m) ≡ false
      → (c : Committed r s') × (s' ≡ taken_over s c.context)
  call_keeps_effects h k =
      let c = call-Committed h in (c, keeps_effects c (rw (status_answered c) k))

  -- A creation that succeeds leaves its output as the code of the account at the new address, and
  -- answers with that address and output.
  pub call_deploys :
      {r : ExecutionResult} {s' : TestHostContext}
      → call ext (suc fuel) m s ≡ returns (r, s')
      → (is_success r.status_code && is_create m) ≡ true
      → ((account_entry (target ext m s) s').code ≡ some (record { bytes = r.output_data }))
        × (r.create_address ≡ target ext m s)
  call_deploys h k =
      let c = call-Committed h in
      (rw c.answered (deployed c (rw (status_answered c) k)), rw c.answered)

module _ (ext : Externals) (fuel : ℕ) (m : ExecutionMessage) (s : TestHostContext) where
  pub create_address-target :
      {r : ExecutionResult} {s' : TestHostContext}
      → call ext fuel m s ≡ returns (r, s')
      → r.create_address ≡ target ext m s
  create_address-target h = positive fuel h
    where
      positive :
          (n : ℕ) {r : ExecutionResult} {s' : TestHostContext}
          → call ext n m s ≡ returns (r, s')
          → r.create_address ≡ target ext m s
      positive zero h = absurd (no_fuel ext m s h)
      positive (suc n) h =
          ap (λ (x : ExecutionResult). x.create_address) (call-Committed ext n m s h).answered

  -- A call that creates no account answers with the destination of its message in the field for the
  -- address of a created account.
  pub create_address-call :
      {r : ExecutionResult} {s' : TestHostContext}
      → call ext fuel m s ≡ returns (r, s')
      → is_create m ≡ false
      → r.create_address ≡ from_ffi m.destination
  create_address-call h k = create_address-target h ∙ destination-other ext.digests m _ k

nonce_u256-eq : (a b : AccountData) → a.nonce ≡ b.nonce → nonce_u256 a ≡ nonce_u256 b
unfolding nonce_u256
nonce_u256-eq a b h = rw h

-- Two calls of the kind CREATE by one sender, the second at any later time, that both return answer
-- with one and the same address.
pub create_same_address :
    (ext : Externals) (fuel fuel' : ℕ) (m m' : ExecutionMessage) (s t : TestHostContext)
    {r r' : ExecutionResult} {s' t' : TestHostContext}
    → m.kind ≡ CallKind.create
    → m'.kind ≡ CallKind.create
    → m.sender ≡ m'.sender
    → Evolves s t
    → call ext fuel m s ≡ returns (r, s')
    → call ext fuel' m' t ≡ returns (r', t')
    → r.create_address ≡ r'.create_address
create_same_address ext fuel fuel' m m' s t k k' sender later h h' =
    create_address-target ext fuel m s h
    ∙ destination-create ext.digests m _ k
    ∙ rw
        (
          sender,
          nonce_u256-eq (account_entry (from_ffi m'.sender) s)
              (account_entry (from_ffi m'.sender) t)
              (sym (Evolves-EntriesExtend later (from_ffi m'.sender)).nonce),
        )
        (sym (destination-create ext.digests m' _ k'))
    ∙ sym (create_address-target ext fuel' m' t h')
