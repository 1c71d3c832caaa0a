-- ===== src/Collector/Gc.antt =====
-- A collection (performGC of vm/memorymanager.cc): the roots, the blocks of the new heap, the blocks of
-- the old heap given back, and the number of blocks to the next collection.
use lambdachine.Common.{
  ℕ, zero, suc, ◌+◌, ◌-◌, ◌/◌, ◌%◌, ◌^◌, Bool, true, false, ltb, ◌==◌, if◌then◌else◌, Option, none,
  some, ◌>>=◌,
}
use lambdachine.Regions.{Block, Mmap, contents, mark_as_free}
use lambdachine.MemoryManager.{
  Manager, closures_head, head_block, set_block, set_head, grab_free_block,
}
use lambdachine.Collector.{Heap}
use lambdachine.Collector.Scavenge.{scavenge_block, scavenge_stack, scavenge_static_roots}

abbrev pub is_scavenged : Block → Bool
is_scavenged b = b.flags / 2 ^ 8 % 2 == 1

-- The blocks from o on, until the end or a block that is scavenged already.
unfoldable pub scavenge_chain : ℕ → Mmap → ℕ → Heap → Option ℕ → Option Heap
unfolding scavenge_block
scavenge_chain fuel mmap zero g o = none
scavenge_chain fuel mmap (suc rounds) g o = elim o [
  | none ↦ some g
  | some b ↦ elim (is_scavenged (g.manager.memory.block b)) [
    | true ↦ some g
    | false ↦ elim (scavenge_block fuel mmap rounds g b) [
      | none ↦ none
      | some g' ↦ scavenge_chain fuel mmap rounds g' (g'.manager.memory.block b).link
    ]
  ]
]

-- Where the walk over the new heap starts: at the second block when that is not scavenged.
unfoldable pub first_block : Heap → ℕ
first_block g =
    let head = g.manager.heads closures_head in
    elim (head_block g.manager closures_head).link [
      | none ↦ head
      | some b ↦ if is_scavenged (g.manager.memory.block b) then head else b
    ]

unfoldable pub scavenge_heap : ℕ → Mmap → ℕ → Heap → Option Heap
unfolding scavenge_chain first_block
scavenge_heap fuel mmap zero g = none
scavenge_heap fuel mmap (suc rounds) g = elim (is_scavenged (head_block g.manager closures_head)) [
  | true ↦ some g
  | false ↦ elim (scavenge_chain fuel mmap rounds g (some (first_block g))) [
    | none ↦ none
    | some g' ↦ scavenge_heap fuel mmap rounds g'
  ]
]

-- The flags cleared and the blocks counted, from o on.
unfoldable pub clear_scavenged : ℕ → Manager → Option ℕ → ℕ → Option (Manager × ℕ)
clear_scavenged zero s o full = none
clear_scavenged (suc rounds) s o full = elim o [
  | none ↦ some (s, full)
  | some b ↦
      let old = s.memory.block b in
      let flags = if is_scavenged old then old.flags - 2 ^ 8 else old.flags in
      clear_scavenged rounds (set_block s b (record old { flags = flags })) old.link (full + 1)
]

-- The blocks of the old heap, from o on, put at the front of the free list.
unfoldable pub release : ℕ → Manager → Option ℕ → Option Manager
unfolding mark_as_free
release zero s o = none
release (suc rounds) s o = elim o [
  | none ↦ some s
  | some b ↦
      let freed = mark_as_free (s.memory.block b) in
      release rounds (record (set_block s b (record freed { link = s.free })) { free = some b })
        freed.link
]

unfoldable pub blocks_to_next : ℕ → ℕ → ℕ
blocks_to_next full min_heap_size =
    ((if ltb min_heap_size full then full else min_heap_size) + 1) % 2 ^ 32

unfoldable pub perform_gc : ℕ → ℕ → Mmap → (ℕ → ℕ) → (ℕ → ℕ) → Heap → ℕ → ℕ → ℕ → ℕ → Option Heap
unfolding grab_free_block scavenge_stack scavenge_static_roots scavenge_heap clear_scavenged release
    blocks_to_next
perform_gc fuel rounds mmap ins half g base pc mask static_roots = do
  let old = g.manager.heads closures_head
  (b, m) ← grab_free_block mmap g.manager (contents (head_block g.manager closures_head))
  let m' = set_head (set_block m b (record (m.memory.block b) { link = none })) closures_head b
  g1 ← scavenge_stack fuel mmap ins half rounds (record g { manager = m' }) base pc mask
  g2 ← scavenge_static_roots fuel mmap rounds g1 static_roots
  g3 ← scavenge_heap fuel mmap rounds g2
  (m3, full) ← clear_scavenged rounds g3.manager (some (g3.manager.heads closures_head)) 0
  m4 ← release rounds m3 (some old)
  some (record g3 { manager = record m4 { next_gc = blocks_to_next full m4.min_heap_size } })
