-- ===== src/Regions.antt =====
-- Blocks and regions of the memory manager (classes Block and Region of vm/memorymanager.hh and
-- vm/memorymanager.cc, at 64 bits): allocation in a block, the layout of a region, the block of a
-- pointer, and the mapping of a new region.
pub mod Layout
pub mod Pointers
pub mod Mapping
pub mod Examples
use lambdachine.Common.{
  ℕ, zero, suc, ◌+◌, ◌-◌, ◌*◌, ◌/◌, ◌%◌, ◌^◌, ◌≡◌, ◌⊎◌, Bool, true, false, ltb, leb, ◌==◌,
  if◌then◌else◌, write, List, [], ◌∷◌, Option, none, some, ◌>>=◌,
}

pub record Block : Type 0 where
  pub start : ℕ
  pub end : ℕ
  pub free : ℕ
  pub link : Option ℕ
  pub flags : ℕ

-- DEFINE_CONTENT_TYPE, the values of the low eight bits of the flags.
abbrev pub uninitialized : ℕ
uninitialized = 0

abbrev pub closures : ℕ
closures = 1

abbrev pub static_closures : ℕ
static_closures = 2

abbrev pub info_tables : ℕ
info_tables = 3

abbrev pub strings : ℕ
strings = 4

abbrev pub bytecode : ℕ
bytecode = 5

abbrev pub metadata : ℕ
metadata = 6

abbrev pub contents : Block → ℕ
contents b = b.flags % 256

-- The pointer and the block afterwards; NULL, with the block as it was, is `none`.
unfoldable pub alloc : Block → ℕ → Option (ℕ × Block)
alloc b bytes =
    let free = (b.free + bytes) % 2 ^ 64 in
    if ltb b.end free then none else some (b.free, record b { free = free })

unfoldable pub mark_as_free : Block → Block
mark_as_free b = record b { flags = uninitialized; free = b.start }

-- What the program keeps in the memory that it maps, by the addresses of blocks and of regions, with
-- the regions that it has mapped and the hint for the next one.
pub record Memory : Type 0 where
  pub block : ℕ → Block
  pub region_info : ℕ → ℕ
  pub region_link : ℕ → Option ℕ
  pub next_free : ℕ → Option ℕ
  pub large_end : ℕ → ℕ
  pub large_free : ℕ → ℕ
  pub regions : List ℕ
  pub alloc_hint : ℕ

abbrev pub IsMem : ℕ → List ℕ → Type 0
IsMem r [] = ⊥
IsMem r (q ∷ qs) = (r ≡ q) ⊎ IsMem r qs

-- sizeof(SmallObjectRegionData) and sizeof(LargeObjectRegionData).
abbrev pub small_data_size : ℕ
small_data_size = 1312

abbrev pub large_data_size : ℕ
large_data_size = 40

-- `&r->blocks_[i]`.
abbrev pub block_at : ℕ → ℕ → ℕ
block_at r i = r + 24 + 40 * i

unfoldable pub is_aligned : ℕ → ℕ → Bool
is_aligned power w = w % 2 ^ power == 0

unfoldable pub round_up : ℕ → ℕ → ℕ
round_up power w = let v = (w + 2 ^ power - 1) % 2 ^ 64 in v - v % 2 ^ power

unfoldable pub region_from_pointer : ℕ → ℕ
region_from_pointer p = p - p % 2 ^ 20

unfoldable pub block_from_pointer : ℕ → ℕ
unfolding region_from_pointer
block_from_pointer p = block_at (region_from_pointer p) (p % 2 ^ 20 / 2 ^ 15)

-- The two loops of initBlocks, from block i on for so many blocks.
unfoldable pub init_metadata : ℕ → (ℕ → Block) → ℕ → ℕ → ℕ → ℕ → Block
unfolding round_up
init_metadata zero blocks r i data_start = blocks
init_metadata (suc rounds) blocks r i data_start =
    let end = round_up 15 (data_start + 1) in
    init_metadata rounds
      (write blocks (block_at r i)
        (record { start = data_start; end = end; free = end; link = none; flags = metadata }))
      r (i + 1) end

unfoldable pub init_free : ℕ → (ℕ → Block) → ℕ → ℕ → ℕ → ℕ → Block
init_free zero blocks r i ptr = blocks
init_free (suc rounds) blocks r i ptr =
    let end = round_up 15 (ptr + 1) in
    init_free rounds
      (write blocks (block_at r i) (record {
        start = ptr;
        end = end;
        free = ptr;
        link = some (block_at r (i + 1));
        flags = uninitialized;
      }))
      r (i + 1) end

abbrev pub first_avail : ℕ
first_avail = small_data_size / 2 ^ 15

unfoldable pub init_blocks : Memory → ℕ → Memory
unfolding init_metadata init_free
init_blocks m r =
    let blocks = init_metadata first_avail m.block r 0 r in
    let blocks' = init_free (32 - first_avail) blocks r first_avail (r + small_data_size) in
    let last = block_at r 31 in
    record m {
      block = write blocks' last (record (blocks' last) { link = none });
      next_free = write m.next_free r (some (block_at r first_avail));
    }

-- Region::grabFreeBlock.
unfoldable pub grab_in_region : Memory → ℕ → Option (ℕ × Memory)
grab_in_region m r = do
  b ← m.next_free r
  some (
    b,
    record m {
      next_free = write m.next_free r (m.block b).link;
      block = write m.block b (record (m.block b) { link = none });
    },
  )

-- The system's mmap: from the regions that the program holds, the attempts that are left, the hint
-- and the size, to the address of new memory, or MAP_FAILED.
abbrev pub Mmap : Type 0
Mmap = List ℕ → ℕ → ℕ → ℕ → Option ℕ

-- One attempt: a region with the next hint, or what to try next.
pub data Attempt : Type 0 where
  mapped : ℕ → ℕ → Attempt
  again : ℕ → ℕ → Attempt

unfoldable pub at_address : ℕ → ℕ → ℕ → Attempt
unfolding is_aligned round_up
at_address ptr hint size =
    let next_aligned = round_up 20 ptr in
    let region_end = next_aligned + 2 ^ 20 in
    if is_aligned 20 ptr
    then mapped ptr (hint + size)
    else if leb region_end (ptr + size)
    then mapped next_aligned region_end
    else again ptr (region_end - ptr)

unfoldable pub attempt : Mmap → List ℕ → ℕ → ℕ → ℕ → Attempt
unfolding at_address
attempt mmap regions left hint size = elim (mmap regions left hint size) [
  | none ↦ again hint size
  | some ptr ↦ at_address ptr hint size
]

-- The loop of newRegion. The code gives up when the attempts are used or the hint is past 1 TB.
unfoldable pub map_from : Mmap → List ℕ → ℕ → ℕ → ℕ → Option (ℕ × ℕ)
unfolding attempt
map_from mmap regions zero hint size = none
map_from mmap regions (suc left) hint size = elim (attempt mmap regions left hint size) [
  | mapped ptr hint' ↦ some (ptr, hint')
  | again hint' size' ↦ elim (leb (2 ^ 40) hint') [
    | true ↦ none
    | false ↦ map_from mmap regions left hint' size'
  ]
]

pub data RegionType : Type 0 where
  small_object : RegionType
  large_object : RegionType

unfoldable pub init_region : Memory → RegionType → ℕ → Memory
unfolding init_blocks
init_region m small_object r =
    init_blocks
      (record m { region_info = write m.region_info r 1; region_link = write m.region_link r none })
      r
init_region m large_object r = record m {
  region_info = write m.region_info r 2;
  region_link = write m.region_link r none;
  large_free = write m.large_free r (r + large_data_size);
  large_end = write m.large_end r (r + large_data_size + 2 ^ 20);
}

unfoldable pub new_region : Mmap → Memory → RegionType → Option (ℕ × Memory)
unfolding map_from init_region
new_region mmap m kind = do
  (r, hint) ← map_from mmap m.regions 33 m.alloc_hint (2 ^ 20)
  some (r, init_region (record m { regions = r ∷ m.regions; alloc_hint = hint }) kind r)
