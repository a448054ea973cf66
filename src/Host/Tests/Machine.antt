-- ===== src/Host/Tests/Machine.antt =====
-- A concrete virtual machine and a world of three accounts that it runs on.
use play_evmone.Base.{
  subst, ℕ, zero, suc, ◌+◌, refl, none, some, List, [], ◌∷◌, ◌++◌, arith, take, replicate, ltb,
  if◌then◌else◌, Bool-cases, inl, inr,
}
use play_evmone.Base.Int.{pos}
use play_evmone.Base.Outcome.{Outcome, returns}
use mathlib.Core.Option.{some-injective}
use play_evmone.Bytes.{fixed_bytes_eq, FfiBytes, from_ffi, into_ffi, default}
use play_evmone.Evmc.{CallKind, StatusCode, Revision, FfiMessage, ExecutionMessage, ExecutionResult}
use play_evmone.Evmc.Message.{Digests}
use play_evmone.Evmc.Vm.{Script}
use play_evmone.Evmc.Keeps.{Calls}
use play_evmone.Host.{AccountData, new_account, TestHostContext, new_context, set_account}
use play_evmone.Host.Call.{Externals}
use play_evmone.Host.Call.World.{IsKeyed, new_context-IsKeyed, set_account-IsKeyed}
use play_evmone.Host.Call.Fuel.{DepthLimited}
use play_evmone.Host.Call.Sound.{Obeys}

abbrev pub addr : ℕ → FfiBytes 20
addr n = record { bytes = replicate 19 0 ++ n ∷ [] }

abbrev pub word : ℕ → FfiBytes 32
word n = record { bytes = replicate 31 0 ++ n ∷ [] }

abbrev pub ends : StatusCode → List ℕ → Script
ends status out = Script.finish (record {
  status_code = status;
  gas_left = pos 0;
  output_data = out;
  release = none;
  create_address = into_ffi (default 20);
  padding = replicate 4 0;
})

-- The call of account 1 by the account of a message, one level deeper.
abbrev pub inner_call : FfiMessage → FfiMessage
inner_call m = record m {
  kind = CallKind.call;
  depth = m.depth + 1;
  sender = m.destination;
  destination = addr 1;
}

-- A machine with four programs, by the first byte of the code: to store a word, to destruct the
-- account, to call account 1 and revert, and, with no code, to return two bytes.
abbrev pub program : FfiMessage → List ℕ → Script
program m [] = ends StatusCode.success (7 ∷ 8 ∷ [])
program m (zero ∷ code) =
    Script.set_storage m.destination (word 1) (word 5) (λ status. ends StatusCode.success [])
program m (suc zero ∷ code) =
    Script.selfdestruct m.destination m.sender (ends StatusCode.success [])
program m (suc (suc n) ∷ code) =
    if ltb m.depth 1024
    then Script.call (inner_call m) (λ r. ends StatusCode.revert [])
    else ends StatusCode.call_depth_exceeded []

abbrev pub digests : Digests
digests = record {
  rlp_list = λ parts. flat parts;
  keccak = λ text. take 32 (text ++ replicate 32 0);
}
  where
    flat : List (List ℕ) → List ℕ
    flat [] = []
    flat (p ∷ ps) = p ++ flat ps

abbrev pub machine : Externals
machine = record {
  digests = digests;
  evmone = record { execute = some (λ revision m code. program m code) };
}

program-Calls : (m : FfiMessage) (code : List ℕ) → Calls (DepthLimited m.depth) (program m code)
program-Calls m [] = tt
program-Calls m (zero ∷ code) = λ status. tt
program-Calls m (suc zero ∷ code) = tt
program-Calls m (suc (suc n) ∷ code) = elim (Bool-cases (ltb m.depth 1024)) [
  | inl e ↦ rw e ((refl, ground arith), λ r. tt)
  | inr e ↦ rw e tt
]

-- The machine keeps to the depth limit.
pub machine-Obeys : Obeys DepthLimited machine.evmone
machine-Obeys f e revision m code =
    subst
      (λ (g : Revision → FfiMessage → List ℕ → Script).
        Calls (DepthLimited m.depth) (g revision m code))
      (some-injective _ f e) (program-Calls m code)

abbrev pub account_with : ℕ → ℕ → AccountData
account_with n code = record (new_account (from_ffi (addr n))) {
  code = some (record { bytes = code ∷ [] });
}

abbrev one_account : TestHostContext
one_account = set_account (from_ffi (addr 1)) (account_with 1 0) (new_context 0 (from_ffi (addr 3)))

abbrev two_accounts : TestHostContext
two_accounts = set_account (from_ffi (addr 2)) (account_with 2 1) one_account

-- Accounts 1, 2 and 3 store, destruct themselves, and call account 1.
abbrev pub world : TestHostContext
world = set_account (from_ffi (addr 3)) (account_with 3 2) two_accounts

abbrev pub message_to : CallKind → ℕ → ExecutionMessage
message_to kind n = record {
  inner = record {
    kind = kind;
    flags = 0;
    depth = 0;
    gas = pos 1000;
    destination = addr n;
    sender = addr 9;
    input_data = [];
    value = word 0;
    create2_salt = word 0;
  };
}

abbrev pub no_result : ExecutionResult
no_result = record {
  status_code = StatusCode.internal_error;
  gas_left = pos 0;
  output_data = [];
  release = none;
  create_address = default 20;
  padding = [];
}

abbrev pub outcome : Outcome (ExecutionResult × TestHostContext) → ExecutionResult × TestHostContext
outcome (returns r) = r
outcome _ = (no_result, world)

-- The accounts of the world have the addresses that they are stored under.
pub world-IsKeyed : IsKeyed world
world-IsKeyed = set_account-IsKeyed (from_ffi (addr 3)) (account_with 3 2) two_accounts refl (
    set_account-IsKeyed (from_ffi (addr 2)) (account_with 2 1) one_account refl (
      set_account-IsKeyed (from_ffi (addr 1)) (account_with 1 0) (new_context 0 (from_ffi (addr 3)))
        refl (new_context-IsKeyed 0 (from_ffi (addr 3)))))
