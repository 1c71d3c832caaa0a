-- ===== src/HeapOffsets/Examples.antt =====
-- The example of vm/ir.hh: two allocations under one heap check of five words; and the theorem on the
-- walk at a buffer with an allocation.
use lambdachine.Common.{ℕ, ◌+◌, ◌≡◌, refl, if◌then◌else◌, write, Option, none, some}
use lambdachine.Common.Int.{ℤ, negsuc, ◌-ℤ◌, to_u16, to_i16}
use lambdachine.Ir.{Opcode, number, opcode_eq, Ins, ref_bias}
use lambdachine.AbstractHeap.{no_entry}
use lambdachine.IrBuffer.{IrBuffer, blank, base_ins}
use lambdachine.IrBuffer.Examples.{with_object, with_object-IsValid}
use lambdachine.HeapOffsets.{set_heap_offsets, heap_offsets, place_object}
use lambdachine.HeapOffsets.Returns.{set_heap_offsets_lem}

abbrev ins : Opcode → ℕ → ℕ → Ins
ins o op2 prev = record base_ins { opcode = o; op2 = op2; prev = prev }

-- HEAPCHK, NEW of two fields, NEW of one field.
unfoldable two_objects : IrBuffer
unfolding opcode_eq number
two_objects =
    let b = blank 64 0 10 0 in
    record b {
      ins =
          write (write b.ins (ref_bias + 2) (ins Opcode.new 0 0)) (ref_bias + 3)
            (ins Opcode.new 1 (ref_bias + 2));
      chain = λ o.
          if opcode_eq o Opcode.new
          then ref_bias + 3
          else if opcode_eq o Opcode.heapchk
          then ref_bias + 1
          else 0;
      heap = record b.heap {
        entries =
            write (write b.heap.entries 0 (record no_entry { size = 2 })) 1
              (record no_entry { size = 1 });
      };
    }

-- The offset of an entry afterwards.
abbrev offset_of : ℕ → Option (IrBuffer × ℕ) → Option ℤ
offset_of n none = none
offset_of n (some (b, checks)) = some (b.heap.entries n).hpofs

first_offset : offset_of 0 (set_heap_offsets two_objects) ≡ some (negsuc 4)
unfolding set_heap_offsets heap_offsets place_object to_u16 to_i16 ◌-ℤ◌ two_objects
first_offset = refl

second_offset : offset_of 1 (set_heap_offsets two_objects) ≡ some (negsuc 1)
unfolding set_heap_offsets heap_offsets place_object to_u16 to_i16 ◌-ℤ◌ two_objects
second_offset = refl

set_heap_offsets_lem_example : (q : IrBuffer × ℕ) × (set_heap_offsets with_object ≡ some q)
set_heap_offsets_lem_example = set_heap_offsets_lem with_object with_object-IsValid
