-- ===== src/Evmc/Simulates.antt =====
-- An action on one state that simulates an action on another one, and scripts on two hosts of which
-- the one simulates the other.
use play_evmone.Base.{ℕ, List, ◌≡◌, refl}
use play_evmone.Base.Int.{ℤ}
use play_evmone.Base.Outcome.{Outcome, returns, panic, out_of_fuel, unwrap, ◌>>=◌}
use play_evmone.Bytes.{FfiBytes}
use play_evmone.Evmc.{Revision, ExecutionMessage, FfiMessage}
use play_evmone.Evmc.Interface.{Action, HostInterface, into}
use play_evmone.Evmc.Vm.{Script, EvmcVm, run, execute}

-- `R s h`: the state `h` stands for the abstract state `s`.
module _ {S H : Type 0} (R : S → H → Type 0) where
  -- Both end in the same way, with the same result or the same panic.
  abbrev pub Rel : {A : Type 0} → Outcome (A × H) → Outcome (A × S) → Type 0
  Rel (returns r) (returns q) = (r.0 ≡ q.0) × R q.1 r.1
  Rel (panic p) (panic q) = p ≡ q
  Rel out_of_fuel out_of_fuel = Unit
  Rel _ _ = ⊥

  abbrev pub Simulates : {A : Type 0} → Action H A → Action S A → Type 0
  Simulates m m' = (h : H) (s : S) → R s h → Rel (m h) (m' s)

  pub Rel-bind_value :
      {A B : Type 0} (m : Outcome A) (f : A → Outcome (B × H)) (f' : A → Outcome (B × S))
      → ((a : A) → Rel (f a) (f' a))
      → Rel (m >>= f) (m >>= f')
  Rel-bind_value (returns a) f f' k = k a
  Rel-bind_value (panic p) f f' k = refl
  Rel-bind_value out_of_fuel f f' k = tt

-- A bind, whose parts may relate the states in different ways.
module _ {S S' H : Type 0} (R : S → H → Type 0) (R' : S' → H → Type 0) where
  pub Rel-bind :
      {A B : Type 0} (m : Outcome (A × H)) (m' : Outcome (A × S)) (f : A × H → Outcome (B × H))
      (f' : A × S → Outcome (B × S'))
      → Rel R m m'
      → ((a : A) (h : H) (s : S) → R s h → Rel R' (f (a, h)) (f' (a, s)))
      → Rel R' (m >>= f) (m' >>= f')
  Rel-bind (returns (a, h)) (returns (b, s)) f f' r k = rw r.0 (k b h s r.1)
  Rel-bind (panic p) (panic q) f f' r k = r
  Rel-bind out_of_fuel out_of_fuel f f' r k = tt
  Rel-bind (returns r) (panic q) f f' e k = elim e [ ]
  Rel-bind (returns r) out_of_fuel f f' e k = elim e [ ]
  Rel-bind (panic p) (returns r) f f' e k = elim e [ ]
  Rel-bind (panic p) out_of_fuel f f' e k = elim e [ ]
  Rel-bind out_of_fuel (returns r) f f' e k = elim e [ ]
  Rel-bind out_of_fuel (panic q) f f' e k = elim e [ ]

module _ {S H : Type 0} (R R' : S → H → Type 0) where
  pub Rel-mono :
      {A : Type 0} (m : Outcome (A × H)) (m' : Outcome (A × S))
      → ((s : S) (h : H) → R s h → R' s h)
      → Rel R m m'
      → Rel R' m m'
  Rel-mono (returns r) (returns q) k e = (e.0, k q.1 r.1 e.1)
  Rel-mono (panic p) (panic q) k e = e
  Rel-mono out_of_fuel out_of_fuel k e = tt
  Rel-mono (returns r) (panic q) k e = elim e [ ]
  Rel-mono (returns r) out_of_fuel k e = elim e [ ]
  Rel-mono (panic p) (returns r) k e = elim e [ ]
  Rel-mono (panic p) out_of_fuel k e = elim e [ ]
  Rel-mono out_of_fuel (returns r) k e = elim e [ ]
  Rel-mono out_of_fuel (panic q) k e = elim e [ ]

module _ {S H : Type 0} (R : S → H → Type 0) where
  pub Simulates-into :
      {A B : Type 0} (f : A → B) (m : Action H A) (m' : Action S A)
      → Simulates R m m'
      → Simulates R (into f m) (into f m')
  Simulates-into f m m' r h s e = Rel-bind R R (m h) (m' s) _ _ (r h s e) λ a h' s' e'. (refl, e')

  -- Every callback of the one host simulates that of the other.
  pub record HostSimulates (host : HostInterface H) (host' : HostInterface S) : Type 0 where
    pub account_exists :
        (a : FfiBytes 20) → Simulates R (host.account_exists a) (host'.account_exists a)
    pub get_tx_context : Simulates R host.get_tx_context host'.get_tx_context
    pub get_storage :
        (a : FfiBytes 20) (k : FfiBytes 32)
        → Simulates R (host.get_storage a k) (host'.get_storage a k)
    pub set_storage :
        (a : FfiBytes 20) (k v : FfiBytes 32)
        → Simulates R (host.set_storage a k v) (host'.set_storage a k v)
    pub get_balance : (a : FfiBytes 20) → Simulates R (host.get_balance a) (host'.get_balance a)
    pub call : (m : FfiMessage) → Simulates R (host.call m) (host'.call m)
    pub emit_log :
        (a : FfiBytes 20) (d : List ℕ) (t : List (FfiBytes 32))
        → Simulates R (host.emit_log a d t) (host'.emit_log a d t)
    pub get_code_size :
        (a : FfiBytes 20) → Simulates R (host.get_code_size a) (host'.get_code_size a)
    pub get_code_hash :
        (a : FfiBytes 20) → Simulates R (host.get_code_hash a) (host'.get_code_hash a)
    pub get_block_hash : (n : ℤ) → Simulates R (host.get_block_hash n) (host'.get_block_hash n)
    pub selfdestruct :
        (a b : FfiBytes 20) → Simulates R (host.selfdestruct a b) (host'.selfdestruct a b)
    pub copy_code :
        (a : FfiBytes 20) (o : ℕ) (b : List ℕ)
        → Simulates R (host.copy_code a o b) (host'.copy_code a o b)

  module _ {host : HostInterface H} {host' : HostInterface S} (sim : HostSimulates host host') where
    pub run-Simulates : (p : Script) → Simulates R (run host p) (run host' p)
    unfolding run
    run-Simulates (Script.finish r) h s e = (refl, e)
    run-Simulates (Script.account_exists a next) h s e =
        Rel-bind R R (host.account_exists a h) (host'.account_exists a s) _ _
          (sim.account_exists a h s e) λ x h' s' e'. run-Simulates (next x) h' s' e'
    run-Simulates (Script.get_tx_context next) h s e =
        Rel-bind R R (host.get_tx_context h) (host'.get_tx_context s) _ _ (sim.get_tx_context h s e)
          λ x h' s' e'. run-Simulates (next x) h' s' e'
    run-Simulates (Script.get_storage a k next) h s e =
        Rel-bind R R (host.get_storage a k h) (host'.get_storage a k s) _ _
          (sim.get_storage a k h s e) λ x h' s' e'. run-Simulates (next x) h' s' e'
    run-Simulates (Script.set_storage a k v next) h s e =
        Rel-bind R R (host.set_storage a k v h) (host'.set_storage a k v s) _ _
          (sim.set_storage a k v h s e) λ x h' s' e'. run-Simulates (next x) h' s' e'
    run-Simulates (Script.get_balance a next) h s e =
        Rel-bind R R (host.get_balance a h) (host'.get_balance a s) _ _ (sim.get_balance a h s e)
          λ x h' s' e'. run-Simulates (next x) h' s' e'
    run-Simulates (Script.call m next) h s e =
        Rel-bind R R (host.call m h) (host'.call m s) _ _ (sim.call m h s e)
          λ x h' s' e'. run-Simulates (next x) h' s' e'
    run-Simulates (Script.emit_log a d t next) h s e =
        Rel-bind R R (host.emit_log a d t h) (host'.emit_log a d t s) _ _ (sim.emit_log a d t h s e)
          λ x h' s' e'. run-Simulates next h' s' e'
    run-Simulates (Script.get_code_size a next) h s e =
        Rel-bind R R (host.get_code_size a h) (host'.get_code_size a s) _ _
          (sim.get_code_size a h s e) λ x h' s' e'. run-Simulates (next x) h' s' e'
    run-Simulates (Script.get_code_hash a next) h s e =
        Rel-bind R R (host.get_code_hash a h) (host'.get_code_hash a s) _ _
          (sim.get_code_hash a h s e) λ x h' s' e'. run-Simulates (next x) h' s' e'
    run-Simulates (Script.get_block_hash n next) h s e =
        Rel-bind R R (host.get_block_hash n h) (host'.get_block_hash n s) _ _
          (sim.get_block_hash n h s e) λ x h' s' e'. run-Simulates (next x) h' s' e'
    run-Simulates (Script.selfdestruct a b next) h s e =
        Rel-bind R R (host.selfdestruct a b h) (host'.selfdestruct a b s) _ _
          (sim.selfdestruct a b h s e) λ x h' s' e'. run-Simulates next h' s' e'
    run-Simulates (Script.copy_code a o b next) h s e =
        Rel-bind R R (host.copy_code a o b h) (host'.copy_code a o b s) _ _
          (sim.copy_code a o b h s e) λ x h' s' e'. run-Simulates (next x) h' s' e'

    pub execute-Simulates :
        (vm : EvmcVm) (revision : Revision) (code : List ℕ) (m : ExecutionMessage)
        → Simulates R (execute host vm revision code m) (execute host' vm revision code m)
    unfolding execute
    execute-Simulates vm revision code m h s e = Rel-bind_value R (unwrap vm.execute) _ _ λ f.
        Rel-bind R R _ _ _ _ (run-Simulates (f revision m.inner code) h s e)
          λ x h' s' e'. (refl, e')
