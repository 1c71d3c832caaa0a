-- ===== src/MemoryManager.antt =====
-- The memory manager's allocator (class MemoryManager of vm/memorymanager.hh and
-- vm/memorymanager.cc): the blocks that are allocated into, the free blocks, the allocation functions
-- and the bump allocator of the mutator.
pub mod Valid
pub mod Take
pub mod Grow
pub mod Newest
pub mod Find
pub mod Grab
pub mod Touch
pub mod Refill
pub mod Alloc
pub mod Bump
pub mod Starting
pub mod Initial
pub mod Examples
use lambdachine.Common.{
  ℕ, zero, suc, ◌+◌, ◌-◌, ◌*◌, ◌/◌, ◌%◌, ◌^◌, ◌≡◌, Bool, true, false, ltb, leb, ◌==◌, if◌then◌else◌,
  write, Option, none, some, ◌>>=◌,
}
use lambdachine.Regions.{
  Block, Memory, contents, alloc, grab_in_region, Mmap, new_region, small_object, closures,
  static_closures, info_tables, strings, bytecode,
}

-- The fields that point to the block that is allocated into.
pub data Head : Type 0 where
  closures_head : Head
  static_closures_head : Head
  info_tables_head : Head
  strings_head : Head
  bytecode_head : Head

-- What the blocks of each hold.
abbrev pub head_contents : Head → ℕ
head_contents closures_head = closures
head_contents static_closures_head = static_closures
head_contents info_tables_head = info_tables
head_contents strings_head = strings
head_contents bytecode_head = bytecode

pub record Manager : Type 0 where
  pub memory : Memory
  pub region : ℕ
  pub free : Option ℕ
  pub heads : Head → ℕ
  pub min_heap_size : ℕ
  pub next_gc : ℕ
  pub allocated : ℕ

abbrev pub head_block : Manager → Head → Block
head_block s h = s.memory.block (s.heads h)

-- A block's memory written, the rest of the state as it was.
abbrev pub set_block : Manager → ℕ → Block → Manager
set_block s a b = record s { memory = record s.memory { block = write s.memory.block a b } }

abbrev pub set_head : Manager → Head → ℕ → Manager
set_head s h a = record s {
  heads = λ k. if head_contents k == head_contents h then a else s.heads k;
}

-- Steps 2 and 3 of grabFreeBlock: the newest region, and a new one if that has no free block.
unfoldable pub grab_from_region : Mmap → ℕ → Manager → Option (ℕ × Manager)
unfolding grab_in_region
grab_from_region mmap zero s = none
grab_from_region mmap (suc rounds) s = elim (grab_in_region s.memory s.region) [
  | some (b, m) ↦ some (b, record s { memory = m })
  | none ↦ elim (new_region mmap s.memory small_object) [
    | none ↦ none
    | some (r, m) ↦ grab_from_region mmap rounds (record s {
      memory = record m { region_link = write m.region_link r (some s.region) };
      region = r;
    })
  ]
]

unfoldable pub grab_free_block : Mmap → Manager → ℕ → Option (ℕ × Manager)
unfolding grab_from_region
grab_free_block mmap s flags = elim s.free [
  | some b ↦
      let old = s.memory.block b in
      some
        (b, set_block (record s { free = old.link }) b (record old { link = none; flags = flags }))
  | none ↦ do
    (b, s') ← grab_from_region mmap 2 s
    some (b, set_block s' b (record (s'.memory.block b) { flags = flags }))
]

unfoldable pub block_full : Mmap → Manager → Head → Option Manager
unfolding grab_free_block
block_full mmap s h = do
  (b, s') ← grab_free_block mmap s (contents (head_block s h))
  some (set_head (set_block s' b (record (s'.memory.block b) { link = some (s.heads h) })) h b)

unfoldable pub alloc_into : Mmap → ℕ → Manager → Head → ℕ → Option (ℕ × Manager)
unfolding alloc block_full
alloc_into mmap zero s h bytes = none
alloc_into mmap (suc rounds) s h bytes = elim (alloc (head_block s h) bytes) [
  | some (ptr, b) ↦
      some (ptr, record (set_block s (s.heads h) b) { allocated = (s.allocated + bytes) % 2 ^ 64 })
  | none ↦ elim (block_full mmap s h) [ none ↦ none | some s' ↦ alloc_into mmap rounds s' h bytes ]
]

-- The allocation functions. A word has 8 bytes, a closure's header one word, an instruction 4 bytes
-- and a bitmap 2.
unfoldable pub alloc_string : Mmap → Manager → ℕ → Option (ℕ × Manager)
unfolding alloc_into
alloc_string mmap s length = alloc_into mmap 2 s strings_head (length + 1)

unfoldable pub alloc_static_closure : Mmap → Manager → ℕ → Option (ℕ × Manager)
unfolding alloc_into
alloc_static_closure mmap s payload_size =
    alloc_into mmap 2 s static_closures_head ((1 + payload_size) * 8)

unfoldable pub alloc_code : Mmap → Manager → ℕ → ℕ → Option (ℕ × Manager)
unfolding alloc_into
alloc_code mmap s instrs bitmaps = alloc_into mmap 2 s bytecode_head (4 * instrs + 2 * bitmaps)

-- getBumpAllocatorBounds.
unfoldable pub bump_bounds : Manager → ℕ × ℕ
bump_bounds s = ((head_block s closures_head).free, (head_block s closures_head).end)

unfoldable pub sync : Manager → ℕ → Manager
sync s heap =
    record (set_block s (s.heads closures_head)
      (record (head_block s closures_head) { free = heap })) {
        allocated = (s.allocated + heap + 2 ^ 64 - (head_block s closures_head).free) % 2 ^ 64;
      }

-- The result 1 (a collection is needed, with the bounds as they were) is `none` in the pair. The
-- counter wraps at 2 ^ 32.
unfoldable pub bump_full_no_gc : Mmap → Manager → ℕ → Option (Manager × Option (ℕ × ℕ))
unfolding sync block_full bump_bounds
bump_full_no_gc mmap s heap =
    let s1 = sync s heap in
    let left = (s.next_gc + 2 ^ 32 - 1) % 2 ^ 32 in
    if left == 0 then some (record s1 { next_gc = 1 }, none) else (do
      s2 ← block_full mmap (record s1 { next_gc = left }) closures_head
      some (s2, some (bump_bounds s2)))

unfoldable pub set_min_heap_size : Manager → ℕ → Manager
set_min_heap_size s bytes =
    let blocks = (bytes + 2 ^ 15 - 1) / 2 ^ 15 in
    record s { min_heap_size = if ltb blocks 2 then 2 else blocks }

-- The constructor, the heads being set one after the other.
unfoldable pub grab_head : Mmap → Manager → Head → Option Manager
unfolding grab_free_block
grab_head mmap s h = do (b, s') ← grab_free_block mmap s (head_contents h); some (set_head s' h b)

unfoldable pub set_heads : Mmap → Manager → Option Manager
unfolding grab_head
set_heads mmap s = do
  s1 ← grab_head mmap s static_closures_head
  s2 ← grab_head mmap s1 info_tables_head
  s3 ← grab_head mmap s2 closures_head
  s4 ← grab_head mmap s3 strings_head
  grab_head mmap s4 bytecode_head

-- The protection of the block of info tables is in InfoTables.initial_tables.
unfoldable pub initial : Mmap → Memory → Option Manager
unfolding set_heads new_region
initial mmap m = do
  (r, m') ← new_region mmap m small_object
  set_heads mmap (record {
    memory = m';
    region = r;
    free = none;
    heads = λ h. 0;
    min_heap_size = 2;
    next_gc = 2;
    allocated = 0;
  })
