-- ===== src/Host/Tests/Boxes.antt =====
-- The theorem of `Host/Call/Pointers` on the machine of `Machine`, from a heap of one box.
use play_evmone.Base.{ℕ, zero, suc, refl, none, some, Option, [], arith, ◌≤◌}
use play_evmone.Evmc.{CallKind}
use play_evmone.Evmc.Simulates.{Rel}
use play_evmone.Evmc.Pointers.{Heap}
use play_evmone.Evmc.Pointers.Cells.{WellFormed, Settled}
use play_evmone.Host.{TestHostContext}
use play_evmone.Host.Call.{call}
use play_evmone.Host.Call.Pointers.{heap_call}
use play_evmone.Host.Call.Pointers.Refines.{heap_call_refines}
use play_evmone.Host.Tests.Machine.{machine, message_to, world}

abbrev first : ℕ → Option TestHostContext
first zero = some world
first (suc q) = none

abbrev one_box : Heap TestHostContext
one_box = record { next = 1; cell = first; leaked = [] }

one_box-WellFormed : WellFormed one_box
one_box-WellFormed zero le = elim (no le) [ ]
  where
    no : 1 ≤ 0 → ⊥
    no le = omega arith
one_box-WellFormed (suc q) le = refl

-- Account 3 calls account 1: two more boxes are taken, and given back.
heap_call_refines_example :
    Rel
      (Settled 0 one_box)
      (heap_call machine 3 0 (message_to CallKind.call 3) one_box)
      (call machine 3 (message_to CallKind.call 3) world)
heap_call_refines_example =
    heap_call_refines machine 3 0 one_box world (message_to CallKind.call 3) one_box-WellFormed refl
