-- ===== src/Cli/Tests/Boxes.antt =====
-- The theorem of `Cli/Pointers` on the creation of `Cli/Tests`, from an empty heap.
use play_evmone.Base.{refl, none, [], ◌∷◌}
use play_evmone.Bytes.{from_ffi}
use play_evmone.Evmc.Simulates.{Rel}
use play_evmone.Evmc.Pointers.{Heap}
use play_evmone.Evmc.Pointers.Cells.{Released}
use play_evmone.Host.{TestHostContext, new_context}
use play_evmone.Host.Tests.Machine.{addr, machine}
use play_evmone.Cli.Commands.{create_message, execute_and_save}
use play_evmone.Cli.Pointers.{heap_execute_and_save}
use play_evmone.Cli.Pointers.Refines.{stateless, heap_execute_and_save_refines}
use play_evmone.Cli.Tests.{library, matches_at, storage, start}

abbrev no_boxes : Heap TestHostContext
no_boxes = record { next = 0; cell = λ q. none; leaked = [] }

heap_execute_and_save_refines_example :
    Rel
      (λ u h'. Released no_boxes h')
      (heap_execute_and_save library machine 1
        (matches_at none storage 7)
        (create_message (from_ffi (addr 7)))
        (from_ffi (addr 7))
        (0 ∷ [])
        (new_context 0 (from_ffi (addr 7)))
        start
        no_boxes)
      (stateless (
        execute_and_save library machine 1
          (matches_at none storage 7)
          (create_message (from_ffi (addr 7)))
          (from_ffi (addr 7))
          (0 ∷ [])
          (new_context 0 (from_ffi (addr 7)))
          start))
heap_execute_and_save_refines_example =
    heap_execute_and_save_refines library machine 1 (matches_at none storage 7)
      (create_message (from_ffi (addr 7))) (from_ffi (addr 7)) (0 ∷ [])
      (new_context 0 (from_ffi (addr 7))) start no_boxes (λ q le. refl)
