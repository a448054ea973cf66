-- ===== src/Host.antt =====
-- src/main.rs: the data of the test host, `Value`, `LogEntry`, `AccountData` and
-- `TestHostContext`, with the methods that no callback of the interface is.
-- A `usize` has 64 bits.
pub mod Methods
pub mod Slots
pub mod Update
pub mod Nonce
pub mod Typed
pub mod Call
pub mod Tests
use play_evmone.Base.{
  ℕ, zero, suc, ◌+◌, ◌/◌, ◌%◌, ◌^◌, Bool, true, false, Option, none, some, List, [], ◌∷◌, ◌++◌,
  length, replicate, ltb, if◌then◌else◌,
}
use play_evmone.Base.Outcome.{Outcome, returns, panic, destructed_length, invalid_state, ◌>>=◌}
use play_evmone.HashMap
use play_evmone.HashMap.{is_some, HashMap, get, insert, contains_key, or_insert_with}
use play_evmone.Bytes.{Address, Bytes32, Uint256, JsonBytes, fixed_eq, fixed_bytes_eq}

-- `struct Value`
pub record Value : Type 0 where
  pub value : Bytes32
  pub modify_time : ℕ

-- `Value::new`
abbrev pub new_value : Bytes32 → Value
new_value d = record { value = d; modify_time = 0 }

-- `Value::update_data`: the value that is left, and whether it changed. The counter wraps.
unfoldable pub update_data : Value → Bytes32 → Value × Bool
update_data self d =
    if fixed_eq d self.value
    then (self, false)
    else (record { value = d; modify_time = (self.modify_time + 1) % 2 ^ 64 }, true)

-- `struct LogEntry`
pub record LogEntry : Type 0 where
  pub bytes : JsonBytes
  pub topics : List Bytes32

-- `struct AccountData`
pub record AccountData : Type 0 where
  pub nonce : ℕ
  pub address : Address
  pub code : Option JsonBytes
  pub storage : HashMap Bytes32 Value
  pub logs : List LogEntry

-- `AccountData::new`
abbrev pub new_account : Address → AccountData
new_account a = record { nonce = 0; address = a; code = none; storage = HashMap.empty; logs = [] }

-- `to_le_bytes` of an integer of so many bytes
abbrev pub to_le_bytes : ℕ → ℕ → List ℕ
to_le_bytes zero n = []
to_le_bytes (suc k) n = (n % 256) ∷ to_le_bytes k (n / 256)

-- `AccountData::nonce_u256`
unfoldable pub nonce_u256 : AccountData → Uint256
nonce_u256 self = record { bytes = to_le_bytes 8 self.nonce ++ replicate 24 0 }

-- `struct TestHostContext`
pub record TestHostContext : Type 0 where
  pub depth : ℕ
  pub current_account : Address
  pub accounts : HashMap Address AccountData
  pub destructed_accounts : List Address

-- `TestHostContext::new`
abbrev pub new_context : ℕ → Address → TestHostContext
new_context d a = record {
  depth = d;
  current_account = a;
  accounts = HashMap.empty;
  destructed_accounts = [];
}

abbrev has_code : Option AccountData → Bool
has_code none = false
has_code (some account) = is_some account.code

-- `TestHostContext::contract_exists`
unfoldable pub contract_exists : TestHostContext → Address → Bool
contract_exists self a = has_code (get a self.accounts)

-- `self.accounts.entry(a).or_insert_with(|| AccountData::new(a))`
abbrev pub account_entry : Address → TestHostContext → AccountData
account_entry a self = or_insert_with a (new_account a) self.accounts

-- A write through that entry.
abbrev pub set_account : Address → AccountData → TestHostContext → TestHostContext
set_account a account self = record self { accounts = insert a account self.accounts }

-- `TestHostContext::update_code`
unfoldable pub update_code : Address → List ℕ → TestHostContext → TestHostContext
update_code a code self =
    set_account a (record (account_entry a self) { code = some (record { bytes = code }) }) self

-- The loop of `update`: it panics at the first destructed account that is still there.
unfoldable pub check_destructed : List Address → HashMap Address AccountData → Outcome (Unit {0})
check_destructed [] accounts = returns tt
check_destructed (a ∷ rest) accounts =
    let remaining = check_destructed rest accounts in
    if contains_key a accounts then panic invalid_state else remaining

-- `TestHostContext::update`
unfoldable pub update : TestHostContext → TestHostContext → Outcome TestHostContext
unfolding check_destructed
update self other =
    if ltb (length other.destructed_accounts) (length self.destructed_accounts)
    then panic destructed_length
    else check_destructed other.destructed_accounts other.accounts >>= λ _.
        returns (record self {
          accounts = other.accounts;
          destructed_accounts = other.destructed_accounts;
        })
