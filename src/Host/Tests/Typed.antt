-- ===== src/Host/Tests/Typed.antt =====
-- The machine and the world of `Machine` keep to the types, and the theorem of `Host/Call/Typed`.
use play_evmone.Base.{
  subst, ℕ, zero, suc, ◌<◌, refl, List, [], ◌∷◌, ◌++◌, arith, replicate, ltb, All, All-take,
  All-append, All-replicate, length-take, length-append, Bool-cases, inl, inr,
}
use mathlib.Core.Option.{some-injective}
use play_evmone.Bytes.{IsByte, fixed_bytes_eq, from_ffi}
use play_evmone.Evmc.{CallKind, StatusCode, Revision, FfiMessage}
use play_evmone.Evmc.Vm.{Script}
use play_evmone.Evmc.Typed.{IsArray, MessageTyped, Speaks}
use play_evmone.HashMap.Entries.{AllEntries-empty}
use play_evmone.Host.{set_account, TestHostContext, new_context}
use play_evmone.Host.Typed.{
  ArrayTyped, ValueTyped, AccountTyped, ContextTyped, set_account-Typed, IsArray-zeros,
}
use play_evmone.Host.Call.Typed.{ExecutionTyped, ExternalsTyped}
use play_evmone.Host.Call.Typed.Calls.{call-Typed}
use play_evmone.Host.Tests.Machine.{
  addr, word, account_with, ends, program, digests, machine, message_to, world,
}
use play_evmone.Host.Tests.Calls.{reverted, reverted_returns}

IsArray-addr : (n : ℕ) → n < 256 → IsArray 20 (addr n).bytes
IsArray-addr n h = (
  refl,
  All-append IsByte (replicate 19 0) (n ∷ []) (All-replicate IsByte 19 0 (omega arith)) (h, tt),
)

IsArray-word : (n : ℕ) → n < 256 → IsArray 32 (word n).bytes
IsArray-word n h = (
  refl,
  All-append IsByte (replicate 31 0) (n ∷ []) (All-replicate IsByte 31 0 (omega arith)) (h, tt),
)

ends-Speaks : (status : StatusCode) (out : List ℕ) → All IsByte out → Speaks (ends status out)
ends-Speaks status out h = record {
  output_data = h;
  create_address = IsArray-zeros 20;
  padding = IsArray-zeros 4;
}

program-Speaks : (m : FfiMessage) (code : List ℕ) → MessageTyped m → Speaks (program m code)
program-Speaks m [] h = ends-Speaks StatusCode.success (7 ∷ 8 ∷ []) (omega arith, (omega arith, tt))
program-Speaks m (zero ∷ code) h = (
  h.destination,
  IsArray-word 1 (omega arith),
  IsArray-word 5 (omega arith),
  λ r. ends-Speaks StatusCode.success [] tt,
)
program-Speaks m (suc zero ∷ code) h =
    (h.destination, h.sender, ends-Speaks StatusCode.success [] tt)
program-Speaks m (suc (suc n) ∷ code) h = elim (Bool-cases (ltb m.depth 1024)) [
  | inl e ↦ rw e (
    record {
      depth = ground arith;
      destination = IsArray-addr 1 (omega arith);
      sender = h.destination;
      input_data = h.input_data;
      value = h.value;
      create2_salt = h.create2_salt;
    },
    λ r hr. ends-Speaks StatusCode.revert [] tt,
  )
  | inr e ↦ rw e (ends-Speaks StatusCode.call_depth_exceeded [] tt)
]

rlp_list-All :
    (parts : List (List ℕ)) → All (All IsByte) parts → All IsByte (digests.rlp_list parts)
rlp_list-All [] h = tt
rlp_list-All (p ∷ ps) h = All-append IsByte p _ h.0 (rlp_list-All ps h.1)

machine-Typed : ExternalsTyped machine
machine-Typed = record {
  rlp_list = rlp_list-All;
  keccak = λ text h. (
    omega (arith, length-take 32 (text ++ replicate 32 0), length-append text (replicate 32 0)),
    All-take IsByte 32 (text ++ replicate 32 0)
        (All-append IsByte text (replicate 32 0) h (All-replicate IsByte 32 0 (omega arith))),
  );
  machine = λ f e revision m code h c.
      subst (λ (g : Revision → FfiMessage → List ℕ → Script). Speaks (g revision m code))
        (some-injective _ f e) (program-Speaks m code h);
}

message-Typed : MessageTyped (message_to CallKind.call 3).inner
message-Typed = record {
  depth = omega arith;
  destination = IsArray-addr 3 (omega arith);
  sender = IsArray-addr 9 (omega arith);
  input_data = tt;
  value = IsArray-word 0 (omega arith);
  create2_salt = IsArray-word 0 (omega arith);
}

account_with-Typed : (n c : ℕ) → n < 256 → c < 256 → AccountTyped (account_with n c)
account_with-Typed n c h k = record {
  nonce = omega arith;
  address = IsArray-addr n h;
  code = (k, tt);
  storage = AllEntries-empty ArrayTyped ValueTyped;
  logs = tt;
}

with_account-Typed :
    (n c : ℕ) (s : TestHostContext)
    → n < 256
    → c < 256
    → ContextTyped s
    → ContextTyped (set_account (from_ffi (addr n)) (account_with n c) s)
with_account-Typed n c s h k t =
    set_account-Typed (from_ffi (addr n)) (account_with n c) s (IsArray-addr n h)
      (account_with-Typed n c h k) t

empty-Typed : ContextTyped (new_context 0 (from_ffi (addr 3)))
empty-Typed = record {
  depth = omega arith;
  current_account = IsArray-addr 3 (omega arith);
  accounts = AllEntries-empty ArrayTyped AccountTyped;
  destructed_accounts = tt;
}

world-Typed : ContextTyped world
world-Typed = with_account-Typed 3 2 _ (omega arith) (omega arith) (
    with_account-Typed 2 1 _ (omega arith) (omega arith)
      (with_account-Typed 1 0 _ (omega arith) (omega arith) empty-Typed))

call-Typed_example : ExecutionTyped reverted.0 × ContextTyped reverted.1
call-Typed_example =
    call-Typed machine machine-Typed 3 (message_to CallKind.call 3) world message-Typed world-Typed
      reverted_returns
