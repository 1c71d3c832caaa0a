-- ===== src/HeapOffsets.antt =====
-- The offsets of allocations from the heap pointer (IRBuffer::setHeapOffsets of vm/ir.cc).
pub mod Returns
pub mod Examples
use lambdachine.Common.{
  ℕ, zero, suc, ◌+◌, ◌-◌, ◌*◌, ◌%◌, ◌^◌, Bool, true, false, ltb, ◌==◌, write, Option, none, some,
}
use lambdachine.Common.Int.{ℤ, pos, ◌-ℤ◌, to_i16, to_u16}
use lambdachine.Ir.{Opcode}
use lambdachine.IrBuffer.{IrBuffer}

-- One object's place: `reserved` words of its heap check are taken by the objects after it.
unfoldable pub place_object : IrBuffer → ℕ → ℕ → IrBuffer
place_object b cur reserved =
    let n = (b.ins cur).op2 in
    let e = b.heap.entries n in
    record b {
      heap = record b.heap {
        entries = write b.heap.entries n (record e {
          overallocated = reserved % 2 ^ 16;
          hpofs = to_i16 (to_u16 (pos 0 -ℤ pos (reserved + e.size + 1)));
        });
      };
    }

-- The loop of setHeapOffsets, at the allocation `cur` and the heap check `chkref`, with -offset and the
-- number of heap checks so far.
unfoldable pub heap_offsets : ℕ → IrBuffer → ℕ → ℕ → ℕ → ℕ → Option (IrBuffer × ℕ)
unfolding place_object
heap_offsets zero b cur chkref reserved checks = none
heap_offsets (suc fuel) b cur chkref reserved checks = elim (ltb cur chkref) [
  | true ↦ heap_offsets fuel b cur (b.ins chkref).prev 0 (checks + 1)
  | false ↦ elim (cur == 0) [
    | true ↦ some (b, checks)
    | false ↦
        heap_offsets fuel (place_object b cur reserved) (b.ins cur).prev chkref
          (reserved + (b.heap.entries (b.ins cur).op2).size + 1) checks
  ]
]

unfoldable pub set_heap_offsets : IrBuffer → Option (IrBuffer × ℕ)
unfolding heap_offsets
set_heap_offsets b = heap_offsets (2 ^ 17) b (b.chain Opcode.new) (b.chain Opcode.heapchk) 0 0
