-- ===== src/Regions/Examples.antt =====
-- Tests of regions, and the theorems about them at a concrete system.
use lambdachine.Common.{
  ℕ, ◌+◌, ◌-◌, ◌^◌, ◌≡◌, ◌↔◌, inl, inr, refl, ◌&&◌, leb, if◌then◌else◌, [], ◌∷◌, none, some, arith,
}
use lambdachine.Regions.{
  Block, Memory, Mmap, alloc, attempt, map_from, block_at, block_from_pointer, round_up, at_address,
  is_aligned,
}
use lambdachine.Regions.Layout.{free_block}
use lambdachine.Regions.Pointers.{IsIn, block_from_pointer-IsIn}
use lambdachine.Regions.Mapping.{IsMmap, IsPlace, map_from-IsPlace, map_from-second}

-- A system that first gives memory one page past a boundary, then at a boundary, then none.
abbrev pub system : Mmap
system [] left hint size = if leb size (2 ^ 40) then some (2 ^ 32 + 4096) else none
system (r ∷ []) left hint size = if leb size (2 ^ 40) && leb r (2 ^ 40) then some (2 ^ 41) else none
system (r ∷ q ∷ rs) left hint size = none

pub system-IsMmap : IsMmap system
system-IsMmap [] left hint size p e = (ground arith, ground arith, λ r m. absurd m)
system-IsMmap (r ∷ []) left hint size p e =
    (ground arith, ground arith, λ q m. elim m [ inl f ↦ inl (ground arith) | inr g ↦ absurd g ])
system-IsMmap (r ∷ q ∷ rs) left hint size p e = absurd (cc)

abbrev pub empty_memory : Memory
empty_memory = record {
  block = λ a. record { start = 0; end = 0; free = 0; link = none; flags = 0 };
  region_info = λ r. 0;
  region_link = λ r. none;
  next_free = λ r. none;
  large_end = λ r. 0;
  large_free = λ r. 0;
  regions = [];
  alloc_hint = 2 ^ 32;
}

-- The second attempt finds the boundary.
pub map_from_run : map_from system [] 33 (2 ^ 32) (2 ^ 20) ≡ some (2 ^ 32 + 2 ^ 20, 2 ^ 32 + 2 ^ 21)
unfolding map_from attempt at_address is_aligned round_up
map_from_run = refl

map_from-IsPlace_example : IsPlace [] (2 ^ 32 + 2 ^ 20)
map_from-IsPlace_example =
    map_from-IsPlace system [] 33 (2 ^ 32) (2 ^ 20) (2 ^ 32 + 2 ^ 20) (2 ^ 32 + 2 ^ 21)
      system-IsMmap (omega arith) map_from_run

map_from-second_example :
    (hint' : ℕ) × (map_from system [] 33 (2 ^ 32) (2 ^ 20)
      ≡ some (round_up 20 (2 ^ 32 + 4096), hint'))
unfolding round_up
map_from-second_example =
    map_from-second system [] 31 (2 ^ 32) (2 ^ 20) (2 ^ 32 + 4096) refl refl (omega arith)

block_from_pointer-IsIn_example :
    (block_from_pointer (2 ^ 32 + 70000) ≡ block_at (2 ^ 32) 2)
    ↔ IsIn (2 ^ 32 + 70000) (free_block (2 ^ 32) 2)
block_from_pointer-IsIn_example =
    block_from_pointer-IsIn (2 ^ 32) 2 (2 ^ 32 + 70000) (omega arith) (omega arith) (omega arith)
      (omega arith)

-- An allocation that does not fit, and one that wraps around the address space.
full_block : alloc (record (free_block 0 1) { free = 65530 }) 7 ≡ none
unfolding alloc
full_block = refl

wrapped : (o : Block) × (alloc (free_block 0 1) (2 ^ 64 - 32768) ≡ some (32768, o))
unfolding alloc
wrapped = (_, refl)
