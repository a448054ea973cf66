-- ===== src/Host/Tests/Calls.antt =====
-- The theorems of `Host/Call` on the machine of `Machine`.
use play_evmone.Base.{◌≢◌, ◌≡◌, refl, some, [], ◌∷◌, arith}
use play_evmone.Base.Outcome.{returns, panic, out_of_fuel, invalid_state, destructed_length}
use play_evmone.HashMap
use play_evmone.HashMap.{HashMap, get, insert, contains_key}
use play_evmone.Bytes.{fixed_bytes_eq, from_ffi, default, fixed_eq}
use play_evmone.Evmc.{CallKind, StatusCode, ExecutionResult}
use play_evmone.Evmc.Message.{destination}
use play_evmone.Evmc.Vm.{run, execute}
use play_evmone.Host.{TestHostContext, account_entry, update, update_code}
use play_evmone.Host.Methods.{set_storage, storage_at}
use play_evmone.Host.Call.{callee_code, call, target}
use play_evmone.Host.Update.{taken_over}
use play_evmone.Host.Call.World.{here, IsKeyed, AccountsStay, EntriesExtend, DestructedGrow}
use play_evmone.Host.Call.Invariants.{
  call-Evolves, call_preserves, call-IsKeyed, call-ne-destructed_length,
}
use play_evmone.Host.Call.Commit.{
  Committed, call_keeps_effects, call_deploys, create_address-call, create_same_address,
}
use play_evmone.Host.Call.Destructed.{call_after_selfdestruct}
use play_evmone.Host.Call.Fuel.{call-ne-out_of_fuel}
use play_evmone.Host.Tests.Machine.{
  addr, machine, message_to, no_result, outcome, word, world, machine-Obeys, world-IsKeyed,
}

-- Account 3 calls account 1, which stores a word, and reverts.
abbrev pub reverted : ExecutionResult × TestHostContext
reverted = outcome (call machine 3 (message_to CallKind.call 3) world)

pub reverted_returns :
    call machine 3 (message_to CallKind.call 3) world ≡ returns (reverted.0, reverted.1)
unfolding call execute run callee_code update set_storage fixed_eq get insert destination
    HashMap.empty
reverted_returns = refl

call_preserves_example :
    AccountsStay world reverted.1 × EntriesExtend world reverted.1 × DestructedGrow world reverted.1
call_preserves_example =
    call_preserves machine 3 (message_to CallKind.call 3) world reverted_returns

call-IsKeyed_example : IsKeyed reverted.1
call-IsKeyed_example =
    call-IsKeyed machine 3 (message_to CallKind.call 3) world reverted_returns world-IsKeyed

call-ne-destructed_length_example :
    call machine 3 (message_to CallKind.call 2) world ≢ panic destructed_length
call-ne-destructed_length_example =
    call-ne-destructed_length machine 3 (message_to CallKind.call 2) world

call-ne-out_of_fuel_example : call machine 1025 (message_to CallKind.call 3) world ≢ out_of_fuel
call-ne-out_of_fuel_example =
    call-ne-out_of_fuel machine 1025 (message_to CallKind.call 3) world machine-Obeys (omega arith)
      (omega arith)

-- The write of the reverted call is there.
reverted_write :
    (reverted.0.status_code ≡ StatusCode.revert)
    × (storage_at reverted.1 (from_ffi (addr 1)) (from_ffi (word 1)) ≡ from_ffi (word 5))
unfolding call execute run callee_code update set_storage fixed_eq get insert destination
    HashMap.empty storage_at
reverted_write = (refl, refl)

call_keeps_effects_example :
    (c : Committed machine 2 (message_to CallKind.call 3) world reverted.0 reverted.1) × (reverted.1
      ≡ taken_over world c.context)
unfolding call execute run callee_code update set_storage fixed_eq get insert destination
    HashMap.empty
call_keeps_effects_example =
    call_keeps_effects machine 2 (message_to CallKind.call 3) world reverted_returns refl

create_address-call_example : reverted.0.create_address ≡ from_ffi (addr 3)
create_address-call_example =
    create_address-call machine 3 (message_to CallKind.call 3) world reverted_returns refl

-- A creation with no initialisation code, and a second one by the same sender.
abbrev created : ExecutionResult × TestHostContext
created = outcome (call machine 1 (message_to CallKind.create 0) world)

created_returns :
    call machine 1 (message_to CallKind.create 0) world ≡ returns (created.0, created.1)
unfolding call execute run callee_code update update_code fixed_eq get insert destination
    HashMap.empty
created_returns = refl

abbrev created_again : ExecutionResult × TestHostContext
created_again = outcome (call machine 1 (message_to CallKind.create 0) created.1)

created_again_returns :
    call machine 1 (message_to CallKind.create 0) created.1
    ≡ returns (created_again.0, created_again.1)
unfolding call execute run callee_code update update_code fixed_eq get insert destination
    HashMap.empty
created_again_returns = refl

call_deploys_example :
    ((account_entry (target machine (message_to CallKind.create 0) world) created.1).code
      ≡ some (record { bytes = created.0.output_data }))
    × (created.0.create_address ≡ target machine (message_to CallKind.create 0) world)
unfolding call execute run callee_code update update_code fixed_eq get insert destination
    HashMap.empty
call_deploys_example =
    call_deploys machine 0 (message_to CallKind.create 0) world created_returns refl

create_same_address_example : created.0.create_address ≡ created_again.0.create_address
create_same_address_example =
    create_same_address machine 1 1 (message_to CallKind.create 0) (message_to CallKind.create 0)
      world created.1 refl refl refl
      (call-Evolves machine 1 (message_to CallKind.create 0) world created_returns) created_returns
      created_again_returns

-- Account 2 destructs itself while a call of it runs: the call panics.
destruct_panics : call machine 3 (message_to CallKind.call 2) world ≡ panic invalid_state
unfolding call execute run callee_code update fixed_eq get insert destination HashMap.empty
destruct_panics = refl

abbrev stale_world : TestHostContext
stale_world = record world { destructed_accounts = from_ffi (addr 2) ∷ [] }

call_after_selfdestruct_example :
    call machine 3 (message_to CallKind.call 1) stale_world ≢ returns (no_result, world)
unfolding get insert fixed_eq HashMap.empty
call_after_selfdestruct_example =
    call_after_selfdestruct machine 3 (message_to CallKind.call 1) world stale_world stale_world
      (from_ffi (addr 2)) (default 20) refl refl here (no_result, world)
