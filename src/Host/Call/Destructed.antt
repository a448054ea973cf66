-- ===== src/Host/Call/Destructed.antt =====
-- src/main.rs, `selfdestruct`, `update` and `call`: destructed accounts that are still there.
use play_evmone.Base.{
  ℕ, zero, suc, ◌≡◌, ◌≢◌, refl, Bool, true, false, ◌||◌, Option, none, some, List, [], ◌∷◌, ◌++◌,
  Bool-cases, inl, inr,
}
use play_evmone.Base.Outcome.{returns}
use play_evmone.HashMap.{HashMap, get, is_some, contains_key}
use play_evmone.Bytes.{fixed_bytes_eq, Address}
use play_evmone.Evmc.{ExecutionMessage, ExecutionResult}
use play_evmone.Host.{AccountData, TestHostContext}
use play_evmone.Host.Methods.{selfdestruct}
use play_evmone.Host.Update.{any_alive}
use play_evmone.Host.Call.{Externals, call}
use play_evmone.Host.Call.World.{Stays, Evolves, Evolves-AccountsStay, Evolves-DestructedGrow}
use play_evmone.Host.Call.Invariants.{call-Evolves}
use play_evmone.Host.Call.Commit.{call-Committed, no_fuel}

-- Some destructed account is still there.
abbrev pub IsStale : TestHostContext → Type 0
IsStale s = any_alive s.destructed_accounts s.accounts ≡ true

or_true : (b : Bool) → (b || true) ≡ true
or_true true = refl
or_true false = refl

Stays-some : (o o' : Option AccountData) → is_some o ≡ true → Stays o o' → is_some o' ≡ true
Stays-some none o' e h = cc
Stays-some (some a) o' e h = h

any_alive_mono :
    (l extra : List Address) (m m' : HashMap Address AccountData)
    → ((a : Address) → Stays (get a m) (get a m'))
    → any_alive l m ≡ true
    → any_alive (l ++ extra) m' ≡ true
any_alive_mono [] extra m m' stay h = cc
any_alive_mono (a ∷ l) extra m m' stay h = elim (Bool-cases (contains_key a m)) [
  | inl e ↦ rw (Stays-some (get a m) (get a m') e (stay a))
  | inr e ↦ rw (any_alive_mono l extra m m' stay (rw e at h)) (or_true (contains_key a m'))
]

any_alive_last :
    (l : List Address) (a : Address) (m : HashMap Address AccountData)
    → contains_key a m ≡ true
    → any_alive (l ++ a ∷ []) m ≡ true
any_alive_last [] a m h = rw h
any_alive_last (b ∷ l) a m h = rw (any_alive_last l a m h) (or_true (contains_key b m))

-- A stale context stays so, whatever the host does.
Evolves-IsStale : {s t : TestHostContext} → Evolves s t → IsStale s → IsStale t
Evolves-IsStale {s} {t} r h =
    let (extra, e) = Evolves-DestructedGrow r in
    rw e
      (any_alive_mono s.destructed_accounts extra s.accounts t.accounts (Evolves-AccountsStay r) h)

abbrev selfdestructed : Address → TestHostContext → TestHostContext
selfdestructed a s = record s { destructed_accounts = s.destructed_accounts ++ a ∷ [] }

-- From a stale context no call returns.
call_of_stale :
    (ext : Externals) (fuel : ℕ) (m : ExecutionMessage) (s : TestHostContext)
    → IsStale s
    → (x : ExecutionResult × TestHostContext) → call ext fuel m s ≢ returns x
call_of_stale ext zero m s stale x h = no_fuel ext m s h
call_of_stale ext (suc fuel) m s stale x h = cc (
  (call-Committed ext fuel m s {r = x.0} {s' = x.1} h).none_alive,
  Evolves-IsStale (call-Evolves ext (suc fuel) m s {r = x.0} {s' = x.1} h) stale,
)

-- Once an account that is there has destructed itself, no later call returns: every one panics or
-- needs more fuel.
pub call_after_selfdestruct :
    (ext : Externals) (fuel : ℕ) (m : ExecutionMessage) (s t u : TestHostContext)
    (a beneficiary : Address)
    → contains_key a s.accounts ≡ true
    → selfdestruct a beneficiary s ≡ returns (tt, t)
    → Evolves t u
    → (x : ExecutionResult × TestHostContext) → call ext fuel m u ≢ returns x
call_after_selfdestruct ext fuel m s t u a b alive done later =
    let state : t ≡ (selfdestructed a s) = cc in
    call_of_stale ext fuel m u
      (Evolves-IsStale later (rw state (any_alive_last s.destructed_accounts a s.accounts alive)))
