-- ===== src/Regions/Pointers.antt =====
-- The block that blockFromPointer finds (vm/memorymanager.hh), against the layout of a region.
use lambdachine.Common.{ℕ, ◌+◌, ◌%◌, ◌^◌, ◌≤◌, ◌<◌, ◌≡◌, ◌↔◌, arith}
use lambdachine.Regions.{Block, block_at, region_from_pointer, block_from_pointer}
use lambdachine.Regions.Layout.{free_block}

-- The address p belongs to the data of block b.
abbrev pub IsIn : ℕ → Block → Type 0
IsIn p b = (b.start ≤ p) × (p < b.end)

-- For an address within the data of a region, the block found from the address is block i of the
-- region exactly if the address lies in the bounds that block i gets when the region is made.
pub block_from_pointer-IsIn :
    (r i p : ℕ)
    → r % 2 ^ 20 ≡ 0
    → i < 32
    → r + 1312 ≤ p
    → p < r + 2 ^ 20
    → (block_from_pointer p ≡ block_at r i) ↔ IsIn p (free_block r i)
unfolding block_from_pointer region_from_pointer
block_from_pointer-IsIn r i p a hi lo up = ground arith
