-- ===== src/Evmc/Typed.antt =====
-- What the types of the program say of the values of the model, for messages, results, and the
-- arguments and the answers of the callbacks; and the rule for a script on a host that keeps to them.
use play_evmone.Base.{ℕ, ◌<◌, ◌^◌, ◌≡◌, refl, Bool, List, length, All}
use play_evmone.Base.Int.{ℤ}
use play_evmone.Base.Outcome.{Outcome, returns, panic, out_of_fuel, ◌>>=◌}
use play_evmone.Bytes.{IsByte, FfiBytes}
use play_evmone.Evmc.{StorageStatus, TxContext, FfiMessage, FfiResult}
use play_evmone.Evmc.Interface.{Action, HostInterface}
use play_evmone.Evmc.Vm.{Script, run}

-- The values of `[u8; N]`
abbrev pub IsArray : ℕ → List ℕ → Type 0
IsArray n bytes = (length bytes ≡ n) × All IsByte bytes

pub record MessageTyped (m : FfiMessage) : Type 0 where
  pub depth : m.depth < 2 ^ 32
  pub destination : IsArray 20 m.destination.bytes
  pub sender : IsArray 20 m.sender.bytes
  pub input_data : All IsByte m.input_data
  pub value : IsArray 32 m.value.bytes
  pub create2_salt : IsArray 32 m.create2_salt.bytes

pub record ResultTyped (r : FfiResult) : Type 0 where
  pub output_data : All IsByte r.output_data
  pub create_address : IsArray 20 r.create_address.bytes
  pub padding : IsArray 4 r.padding

pub record TxContextTyped (c : TxContext) : Type 0 where
  pub tx_gas_price : IsArray 32 c.tx_gas_price.bytes
  pub tx_origin : IsArray 20 c.tx_origin.bytes
  pub block_coinbase : IsArray 20 c.block_coinbase.bytes
  pub block_difficulty : IsArray 32 c.block_difficulty.bytes
  pub chain_id : IsArray 32 c.chain_id.bytes

-- The machine passes values of the right types to the callbacks, as long as it gets such answers,
-- and ends with such a result.
abbrev pub Speaks : Script → Type 0
Speaks (Script.finish r) = ResultTyped r
Speaks (Script.account_exists a next) = IsArray 20 a.bytes × ((r : Bool) → Speaks (next r))
Speaks (Script.get_tx_context next) = (r : TxContext) → TxContextTyped r → Speaks (next r)
Speaks (Script.get_storage a k next) =
    IsArray 20 a.bytes
    × IsArray 32 k.bytes
    × ((r : FfiBytes 32) → IsArray 32 r.bytes → Speaks (next r))
Speaks (Script.set_storage a k v next) =
    IsArray 20 a.bytes
    × IsArray 32 k.bytes
    × IsArray 32 v.bytes
    × ((r : StorageStatus) → Speaks (next r))
Speaks (Script.get_balance a next) =
    IsArray 20 a.bytes × ((r : FfiBytes 32) → IsArray 32 r.bytes → Speaks (next r))
Speaks (Script.call m next) = MessageTyped m × ((r : FfiResult) → ResultTyped r → Speaks (next r))
Speaks (Script.emit_log a d ts next) =
    IsArray 20 a.bytes × All IsByte d × All (λ t. IsArray 32 t.bytes) ts × Speaks next
Speaks (Script.get_code_size a next) = IsArray 20 a.bytes × ((r : ℕ) → r < 2 ^ 64 → Speaks (next r))
Speaks (Script.get_code_hash a next) =
    IsArray 20 a.bytes × ((r : FfiBytes 32) → IsArray 32 r.bytes → Speaks (next r))
Speaks (Script.get_block_hash n next) = (r : FfiBytes 32) → IsArray 32 r.bytes → Speaks (next r)
Speaks (Script.selfdestruct a b next) = IsArray 20 a.bytes × IsArray 20 b.bytes × Speaks next
Speaks (Script.copy_code a o b next) =
    IsArray 20 a.bytes × All IsByte b × ((r : ℕ) → r < 2 ^ 64 → Speaks (next r))

abbrev pub Any : {A : Type 0} → A → Type 0
Any a = Unit

-- A returned value and the state beside it.
abbrev pub Gives : {S A : Type 0} → (A → Type 0) → (S → Type 0) → Outcome (A × S) → Type 0
Gives R P (returns r) = R r.0 × P r.1
Gives R P (panic p) = Unit
Gives R P out_of_fuel = Unit

pub Gives-bind :
    {S A B : Type 0} (R : A → Type 0) (R' : B → Type 0) (P : S → Type 0) (m : Outcome (A × S))
    (f : A × S → Outcome (B × S))
    → Gives R P m
    → ((a : A) (s : S) → R a → P s → Gives R' P (f (a, s)))
    → Gives R' P (m >>= f)
Gives-bind R R' P (returns (a, s)) f h k = k a s h.0 h.1
Gives-bind R R' P (panic p) f h k = tt
Gives-bind R R' P out_of_fuel f h k = tt

pub Gives-bind_value :
    {S A B : Type 0} (R : B → Type 0) (P : S → Type 0) (m : Outcome A) (f : A → Outcome (B × S))
    → ((a : A) → m ≡ returns a → Gives R P (f a))
    → Gives R P (m >>= f)
Gives-bind_value R P (returns a) f k = k a refl
Gives-bind_value R P (panic p) f k = tt
Gives-bind_value R P out_of_fuel f k = tt

module _ {S : Type 0} (P : S → Type 0) where
  abbrev pub Types : {A : Type 0} → (A → Type 0) → Action S A → Type 0
  Types R m = (s : S) → P s → Gives R P (m s)

  -- The callbacks answer values of the right types with such values.
  pub record HostTyped (host : HostInterface S) : Type 0 where
    pub account_exists : (a : FfiBytes 20) → IsArray 20 a.bytes → Types Any (host.account_exists a)
    pub get_tx_context : Types TxContextTyped host.get_tx_context
    pub get_storage :
        (a : FfiBytes 20) (k : FfiBytes 32)
        → IsArray 20 a.bytes
        → IsArray 32 k.bytes
        → Types (λ r. IsArray 32 r.bytes) (host.get_storage a k)
    pub set_storage :
        (a : FfiBytes 20) (k v : FfiBytes 32)
        → IsArray 20 a.bytes
        → IsArray 32 k.bytes
        → IsArray 32 v.bytes
        → Types Any (host.set_storage a k v)
    pub get_balance :
        (a : FfiBytes 20)
        → IsArray 20 a.bytes
        → Types (λ r. IsArray 32 r.bytes) (host.get_balance a)
    pub call : (m : FfiMessage) → MessageTyped m → Types ResultTyped (host.call m)
    pub emit_log :
        (a : FfiBytes 20) (d : List ℕ) (ts : List (FfiBytes 32))
        → IsArray 20 a.bytes
        → All IsByte d
        → All (λ t. IsArray 32 t.bytes) ts
        → Types Any (host.emit_log a d ts)
    pub get_code_size :
        (a : FfiBytes 20) → IsArray 20 a.bytes → Types (λ r. r < 2 ^ 64) (host.get_code_size a)
    pub get_code_hash :
        (a : FfiBytes 20)
        → IsArray 20 a.bytes
        → Types (λ r. IsArray 32 r.bytes) (host.get_code_hash a)
    pub get_block_hash : (n : ℤ) → Types (λ r. IsArray 32 r.bytes) (host.get_block_hash n)
    pub selfdestruct :
        (a b : FfiBytes 20)
        → IsArray 20 a.bytes
        → IsArray 20 b.bytes
        → Types Any (host.selfdestruct a b)
    pub copy_code :
        (a : FfiBytes 20) (o : ℕ) (b : List ℕ)
        → IsArray 20 a.bytes
        → All IsByte b
        → Types (λ r. r < 2 ^ 64) (host.copy_code a o b)

  module _ {host : HostInterface S} (typed : HostTyped host) where
    pub run-Types : (p : Script) → Speaks p → Types ResultTyped (run host p)
    unfolding run
    run-Types (Script.finish r) t s h = (t, h)
    run-Types (Script.account_exists a next) t s h =
        Gives-bind Any ResultTyped P (host.account_exists a s) _ (typed.account_exists a t.0 s h)
          λ r s' q h'. run-Types (next r) (t.1 r) s' h'
    run-Types (Script.get_tx_context next) t s h =
        Gives-bind TxContextTyped ResultTyped P (host.get_tx_context s) _ (typed.get_tx_context s h)
          λ r s' q h'. run-Types (next r) (t r q) s' h'
    run-Types (Script.get_storage a k next) t s h =
        Gives-bind (λ r. IsArray 32 r.bytes) ResultTyped P (host.get_storage a k s) _
          (typed.get_storage a k t.0 t.1 s h) λ r s' q h'. run-Types (next r) (t.2 r q) s' h'
    run-Types (Script.set_storage a k v next) t s h =
        Gives-bind Any ResultTyped P (host.set_storage a k v s) _
          (typed.set_storage a k v t.0 t.1 t.2 s h) λ r s' q h'. run-Types (next r) (t.3 r) s' h'
    run-Types (Script.get_balance a next) t s h =
        Gives-bind (λ r. IsArray 32 r.bytes) ResultTyped P (host.get_balance a s) _
          (typed.get_balance a t.0 s h) λ r s' q h'. run-Types (next r) (t.1 r q) s' h'
    run-Types (Script.call m next) t s h =
        Gives-bind ResultTyped ResultTyped P (host.call m s) _ (typed.call m t.0 s h)
          λ r s' q h'. run-Types (next r) (t.1 r q) s' h'
    run-Types (Script.emit_log a d ts next) t s h =
        Gives-bind Any ResultTyped P (host.emit_log a d ts s) _
          (typed.emit_log a d ts t.0 t.1 t.2 s h) λ r s' q h'. run-Types next t.3 s' h'
    run-Types (Script.get_code_size a next) t s h =
        Gives-bind (λ r. r < 2 ^ 64) ResultTyped P (host.get_code_size a s) _
          (typed.get_code_size a t.0 s h) λ r s' q h'. run-Types (next r) (t.1 r q) s' h'
    run-Types (Script.get_code_hash a next) t s h =
        Gives-bind (λ r. IsArray 32 r.bytes) ResultTyped P (host.get_code_hash a s) _
          (typed.get_code_hash a t.0 s h) λ r s' q h'. run-Types (next r) (t.1 r q) s' h'
    run-Types (Script.get_block_hash n next) t s h =
        Gives-bind (λ r. IsArray 32 r.bytes) ResultTyped P (host.get_block_hash n s) _
          (typed.get_block_hash n s h) λ r s' q h'. run-Types (next r) (t r q) s' h'
    run-Types (Script.selfdestruct a b next) t s h =
        Gives-bind Any ResultTyped P (host.selfdestruct a b s) _
          (typed.selfdestruct a b t.0 t.1 s h) λ r s' q h'. run-Types next t.2 s' h'
    run-Types (Script.copy_code a o b next) t s h =
        Gives-bind (λ r. r < 2 ^ 64) ResultTyped P (host.copy_code a o b s) _
          (typed.copy_code a o b t.0 t.1 s h) λ r s' q h'. run-Types (next r) (t.2 r q) s' h'
