-- ===== src/Evmc/Keeps.antt =====
-- Invariants of the actions of a host, and of a script that runs on it: one rule for a bind, and
-- one for `run`.
use play_evmone.Base.{ℕ, List, ◌≡◌, refl}
use play_evmone.Base.Int.{ℤ}
use play_evmone.Base.Outcome.{Panic, Outcome, returns, panic, out_of_fuel, ◌>>=◌}
use play_evmone.Base.Fails.{Fails}
use play_evmone.Bytes.{FfiBytes}
use play_evmone.Evmc.{FfiMessage}
use play_evmone.Evmc.Interface.{Action, HostInterface}
use play_evmone.Evmc.Vm.{Script, run}

-- Every call that the script may make, whatever the answers of the host, satisfies `M`.
abbrev pub Calls : (FfiMessage → Type 0) → Script → Type 0
Calls M (Script.finish r) = Unit
Calls M (Script.account_exists a next) = (r : _) → Calls M (next r)
Calls M (Script.get_tx_context next) = (r : _) → Calls M (next r)
Calls M (Script.get_storage a k next) = (r : _) → Calls M (next r)
Calls M (Script.set_storage a k v next) = (r : _) → Calls M (next r)
Calls M (Script.get_balance a next) = (r : _) → Calls M (next r)
Calls M (Script.call m next) = M m × ((r : _) → Calls M (next r))
Calls M (Script.emit_log a d t next) = Calls M next
Calls M (Script.get_code_size a next) = (r : _) → Calls M (next r)
Calls M (Script.get_code_hash a next) = (r : _) → Calls M (next r)
Calls M (Script.get_block_hash n next) = (r : _) → Calls M (next r)
Calls M (Script.selfdestruct a b next) = Calls M next
Calls M (Script.copy_code a o b next) = (r : _) → Calls M (next r)

-- A predicate that every message satisfies.
pub Calls-all : (M : FfiMessage → Type 0) → ((m : FfiMessage) → M m) → (p : Script) → Calls M p
Calls-all M all (Script.finish r) = tt
Calls-all M all (Script.account_exists a next) = λ r. Calls-all M all (next r)
Calls-all M all (Script.get_tx_context next) = λ r. Calls-all M all (next r)
Calls-all M all (Script.get_storage a k next) = λ r. Calls-all M all (next r)
Calls-all M all (Script.set_storage a k v next) = λ r. Calls-all M all (next r)
Calls-all M all (Script.get_balance a next) = λ r. Calls-all M all (next r)
Calls-all M all (Script.call m next) = (all m, λ r. Calls-all M all (next r))
Calls-all M all (Script.emit_log a d t next) = Calls-all M all next
Calls-all M all (Script.get_code_size a next) = λ r. Calls-all M all (next r)
Calls-all M all (Script.get_code_hash a next) = λ r. Calls-all M all (next r)
Calls-all M all (Script.get_block_hash n next) = λ r. Calls-all M all (next r)
Calls-all M all (Script.selfdestruct a b next) = Calls-all M all next
Calls-all M all (Script.copy_code a o b next) = λ r. Calls-all M all (next r)

-- How an action may end: in a state of `P`, by a panic of `Q`, or out of fuel if `F` holds.
module _ {S : Type 0} (P : S → Type 0) (Q : Panic → Type 0) (F : Type 0) where
  abbrev pub Post : {A : Type 0} → Outcome (A × S) → Type 0
  Post (returns r) = P r.1
  Post (panic p) = Q p
  Post out_of_fuel = F

  abbrev pub Keeps : {A : Type 0} → Action S A → Type 0
  Keeps m = (s : S) → P s → Post (m s)

  pub Post-bind :
      {A B : Type 0} (m : Outcome (A × S)) (f : A × S → Outcome (B × S))
      → Post m
      → ((r : A × S) → P r.1 → Post (f r))
      → Post (m >>= f)
  Post-bind (returns r) f h k = k r h
  Post-bind (panic p) f h k = h
  Post-bind out_of_fuel f h k = h

  pub Post-bind_value :
      {A B : Type 0} (m : Outcome A) (f : A → Outcome (B × S))
      → Fails Q F m
      → ((a : A) → m ≡ returns a → Post (f a))
      → Post (m >>= f)
  Post-bind_value (returns a) f h k = k a refl
  Post-bind_value (panic p) f h k = h
  Post-bind_value out_of_fuel f h k = h

  -- Every callback of the host keeps the invariant; a call does for the messages of `M`.
  pub record HostKeeps (M : FfiMessage → Type 0) (host : HostInterface S) : Type 0 where
    pub account_exists : (a : FfiBytes 20) → Keeps (host.account_exists a)
    pub get_tx_context : Keeps host.get_tx_context
    pub get_storage : (a : FfiBytes 20) (k : FfiBytes 32) → Keeps (host.get_storage a k)
    pub set_storage : (a : FfiBytes 20) (k v : FfiBytes 32) → Keeps (host.set_storage a k v)
    pub get_balance : (a : FfiBytes 20) → Keeps (host.get_balance a)
    pub call : (m : FfiMessage) → M m → Keeps (host.call m)
    pub emit_log :
        (a : FfiBytes 20) (d : List ℕ) (t : List (FfiBytes 32)) → Keeps (host.emit_log a d t)
    pub get_code_size : (a : FfiBytes 20) → Keeps (host.get_code_size a)
    pub get_code_hash : (a : FfiBytes 20) → Keeps (host.get_code_hash a)
    pub get_block_hash : (n : ℤ) → Keeps (host.get_block_hash n)
    pub selfdestruct : (a b : FfiBytes 20) → Keeps (host.selfdestruct a b)
    pub copy_code : (a : FfiBytes 20) (o : ℕ) (b : List ℕ) → Keeps (host.copy_code a o b)

  module _ {M : FfiMessage → Type 0} {host : HostInterface S} (keeps : HostKeeps M host) where
    pub run-Keeps : (p : Script) → Calls M p → Keeps (run host p)
    unfolding run
    run-Keeps (Script.finish r) c s h = h
    run-Keeps (Script.account_exists a next) c s h =
        Post-bind _ _ (keeps.account_exists a s h) λ r. run-Keeps (next r.0) (c r.0) r.1
    run-Keeps (Script.get_tx_context next) c s h =
        Post-bind _ _ (keeps.get_tx_context s h) λ r. run-Keeps (next r.0) (c r.0) r.1
    run-Keeps (Script.get_storage a k next) c s h =
        Post-bind _ _ (keeps.get_storage a k s h) λ r. run-Keeps (next r.0) (c r.0) r.1
    run-Keeps (Script.set_storage a k v next) c s h =
        Post-bind _ _ (keeps.set_storage a k v s h) λ r. run-Keeps (next r.0) (c r.0) r.1
    run-Keeps (Script.get_balance a next) c s h =
        Post-bind _ _ (keeps.get_balance a s h) λ r. run-Keeps (next r.0) (c r.0) r.1
    run-Keeps (Script.call m next) c s h =
        Post-bind _ _ (keeps.call m c.0 s h) λ r. run-Keeps (next r.0) (c.1 r.0) r.1
    run-Keeps (Script.emit_log a d t next) c s h =
        Post-bind _ _ (keeps.emit_log a d t s h) λ r. run-Keeps next c r.1
    run-Keeps (Script.get_code_size a next) c s h =
        Post-bind _ _ (keeps.get_code_size a s h) λ r. run-Keeps (next r.0) (c r.0) r.1
    run-Keeps (Script.get_code_hash a next) c s h =
        Post-bind _ _ (keeps.get_code_hash a s h) λ r. run-Keeps (next r.0) (c r.0) r.1
    run-Keeps (Script.get_block_hash n next) c s h =
        Post-bind _ _ (keeps.get_block_hash n s h) λ r. run-Keeps (next r.0) (c r.0) r.1
    run-Keeps (Script.selfdestruct a b next) c s h =
        Post-bind _ _ (keeps.selfdestruct a b s h) λ r. run-Keeps next c r.1
    run-Keeps (Script.copy_code a o b next) c s h =
        Post-bind _ _ (keeps.copy_code a o b s h) λ r. run-Keeps (next r.0) (c r.0) r.1

module _ {S : Type 0} (P P' : S → Type 0) (Q : Panic → Type 0) (F : Type 0) where
  pub Post-mono :
      {A : Type 0} (m : Outcome (A × S)) → ((s : S) → P s → P' s) → Post P Q F m → Post P' Q F m
  Post-mono (returns r) w h = w r.1 h
  Post-mono (panic p) w h = h
  Post-mono out_of_fuel w h = h
