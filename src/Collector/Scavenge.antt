-- ===== src/Collector/Scavenge.antt =====
-- The collector's walks: payloads, blocks, frames, the stack and the static roots (scavengeBlock,
-- scavengeFrame, topFrameBitmask, scavengeStack and scavengeStaticRoots of vm/memorymanager.cc). Each
-- takes the fuel of evacuate and, where it loops, fuel of its own; `none` where the code exits.
use lambdachine.Common.{
  ℕ, zero, suc, ◌+◌, ◌-◌, ◌*◌, ◌/◌, ◌%◌, ◌^◌, true, false, ltb, ◌==◌, if◌then◌else◌, Option, none,
  some, ◌>>=◌,
}
use Prim.Native.Nat.{bit_or}
use lambdachine.Bytecode.{alloc1, alloc, allocap, of_number, opcode_field, c_field}
use lambdachine.Regions.{Mmap}
use lambdachine.MemoryManager.{set_block}
use lambdachine.StackScan.{scan_bitmaps, translated_mask}
use lambdachine.Collector.{Heap, payload_at, evacuate, constr, thunk, fun, pap}

module _ (fuel : ℕ) (mmap : Mmap) where
  -- The pointers of a payload by its bitmap, from word i on.
  unfoldable pub scavenge_payload : ℕ → Heap → ℕ → ℕ → ℕ → Option Heap
  unfolding evacuate
  scavenge_payload zero g payload i bitmap = some g
  scavenge_payload (suc rounds) g payload i bitmap = elim (bitmap == 0) [
    | true ↦ some g
    | false ↦ do
      g' ← if bitmap % 2 == 1 then evacuate fuel mmap g (payload + 8 * i) else some g
      scavenge_payload rounds g' payload (i + 1) (bitmap / 2)
  ]

  -- One object of a block: the heap afterwards and the place of the next object.
  unfoldable pub scavenge_object : Heap → ℕ → Option (Heap × ℕ)
  unfolding scavenge_payload
  scavenge_object g p =
      let info = g.info (g.word p) in
      let plain : Option (Heap × ℕ) = (do
        g' ← scavenge_payload info.size g (p + 8) 0 info.bitmap
        some (g', p + (1 + info.size) * 8)) in
      let nargs = g.word (p + 8) % 2 ^ 32 in
      let mask = g.word (p + 8) / 2 ^ 32 in
      let partial_application : Option (Heap × ℕ) = (do
        g1 ← evacuate fuel mmap g (p + 16)
        g2 ← scavenge_payload nargs g1 (p + 24) 0 mask
        some (g2, p + (3 + nargs) * 8)) in
      elim info.kind [
        | constr ↦ plain
        | thunk ↦ plain
        | fun ↦ plain
        | pap ↦ partial_application
        | _ ↦ none
      ]

  -- The objects of block b from p on; the end of the block is read anew each time.
  unfoldable pub scavenge_objects : ℕ → Heap → ℕ → ℕ → Option Heap
  unfolding scavenge_object
  scavenge_objects zero g b p = none
  scavenge_objects (suc rounds) g b p = elim (ltb p (g.manager.memory.block b).free) [
    | false ↦ some g
    | true ↦ elim (scavenge_object g p) [
      | none ↦ none
      | some (g', p') ↦ scavenge_objects rounds g' b p'
    ]
  ]

  unfoldable pub scavenge_block : ℕ → Heap → ℕ → Option Heap
  unfolding scavenge_objects
  scavenge_block rounds g b = do
    g' ← scavenge_objects rounds g b (g.manager.memory.block b).start
    let block = g'.manager.memory.block b
    some (record g' {
      manager = set_block g'.manager b (record block { flags = bit_or block.flags (2 ^ 8) });
    })

  -- The frame's node and the slots of its bitmaps.
  unfoldable pub scavenge_frame : ℕ → Heap → ℕ → Option (ℕ → ℕ) → Option Heap
  unfolding scan_bitmaps evacuate
  scavenge_frame rounds g base maps = do
    g' ← evacuate fuel mmap g (base - 8)
    elim maps [
      | none ↦ some g'
      | some bitmaps ↦ do
        o ←
            scan_bitmaps
              (λ (s : Option Heap) slot. s >>= λ h. evacuate fuel mmap h (base + 8 * slot)) rounds
              (some g') bitmaps 0 0
        o
    ]

  unfoldable pub scavenge_static_roots : ℕ → Heap → ℕ → Option Heap
  unfolding evacuate
  scavenge_static_roots zero g cl = none
  scavenge_static_roots (suc rounds) g cl = elim (cl == 0) [
    | true ↦ some g
    | false ↦ elim (evacuate fuel mmap g (payload_at cl 0)) [
      | none ↦ none
      | some g' ↦ scavenge_static_roots rounds g' (g'.word (payload_at cl 1))
    ]
  ]

  -- The code, by instructions and by 16-bit words, which the collector does not write.
  module _ (ins half : ℕ → ℕ) where
    -- BcIns::offsetToBitmask.
    unfoldable pub offset_to_bitmask : ℕ → Option (ℕ → ℕ)
    offset_to_bitmask pc = if ins pc == 0 then none else some (λ i. half (pc + ins pc + 2 * i))

    unfoldable pub top_frame_bitmask : ℕ → Option (Option (ℕ → ℕ))
    unfolding offset_to_bitmask of_number
    top_frame_bitmask pc =
        let c = c_field (ins pc) in
        elim (of_number (opcode_field (ins pc))) [
          | some alloc1 ↦ some (offset_to_bitmask (pc + 4))
          | some alloc ↦ some (offset_to_bitmask (pc + 4 * (1 + (c + 3) / 4)))
          | some allocap ↦ some (offset_to_bitmask (pc + 4 * (1 + (c + 1 + 3) / 4)))
          | _ ↦ none
        ]

    -- The frames from base on; their return addresses stand one instruction after their bitmaps.
    unfoldable pub scavenge_frames : ℕ → Heap → ℕ → ℕ → Option Heap
    unfolding scavenge_frame offset_to_bitmask
    scavenge_frames zero g base pc = none
    scavenge_frames (suc rounds) g base pc = elim (base == 0) [
      | true ↦ some g
      | false ↦ elim (scavenge_frame rounds g base (offset_to_bitmask (pc - 4))) [
        | none ↦ none
        | some g' ↦ scavenge_frames rounds g' (g'.word (base - 24)) (g'.word (base - 16))
      ]
    ]

    -- `mask` is topOfStackMask_, with all its 32 bits set for none.
    unfoldable pub scavenge_stack : ℕ → Heap → ℕ → ℕ → ℕ → Option Heap
    unfolding scavenge_frame top_frame_bitmask translated_mask scavenge_frames
    scavenge_stack rounds g base pc mask = do
      bitmask ←
          if mask == 2 ^ 32 - 1 then top_frame_bitmask pc else some (some (translated_mask mask))
      g' ← scavenge_frame rounds g base bitmask
      scavenge_frames rounds g' (g'.word (base - 24)) (g'.word (base - 16))
