-- ===== src/LargeRegions.antt =====
-- Allocation of large objects (allocLarge of vm/memorymanager.cc): the search for a region, as the code
-- does it.
pub mod Examples
use lambdachine.Common.{
  ℕ, zero, suc, ◌+◌, ◌-◌, ◌^◌, Bool, true, false, ltb, leb, if◌then◌else◌, write, Option, none,
  some, ◌>>=◌,
}
use lambdachine.Regions.{Memory, Mmap, new_region, large_object, large_data_size}
use lambdachine.LargeObjects.{Objects, enlist_large}

pub record LargeRegions : Type 0 where
  pub memory : Memory
  pub region : Option ℕ
  pub objects : Objects

-- sizeof(LargeObject): four words and the closure's header.
abbrev pub large_object_size : ℕ
large_object_size = 40

abbrev pub max_large_object_size : ℕ
max_large_object_size = 2 ^ 20 - large_data_size - large_object_size

-- The walk over the regions from `large` on: the address from which a region has the bytes free. The
-- end is that of the newest region, `newest`, and not that of the region at hand.
unfoldable pub find_region : ℕ → Memory → ℕ → Option ℕ → ℕ → Option ℕ
find_region zero m newest large bytes = none
find_region (suc rounds) m newest large bytes = elim large [
  | none ↦ none
  | some r ↦ elim (leb (m.large_free r + bytes) (m.large_end newest)) [
    | true ↦ some (m.large_free r)
    | false ↦ find_region rounds m newest (m.region_link r) bytes
  ]
]

abbrev pub with_free : Memory → ℕ → ℕ → Memory
with_free m r free = record m { large_free = write m.large_free r free }

-- The place for the bytes: in a region that there is, whose free pointer is not moved but that of the
-- newest one, or in a new region. The walk has one round more than there are regions as its argument.
unfoldable pub place_large : ℕ → Mmap → LargeRegions → ℕ → Option (ℕ × LargeRegions)
unfolding find_region
place_large rounds mmap s bytes =
    let fresh : Option (ℕ × LargeRegions) = (do
      (r, m) ← new_region mmap s.memory large_object
      let start = m.large_free r
      let m' = with_free m r (start + bytes)
      some (
        start,
        record s {
          memory = record m' { region_link = write m'.region_link r s.region };
          region = some r;
        },
      )) in
    elim s.region [
      | none ↦ fresh
      | some newest ↦ elim (find_region rounds s.memory newest s.region bytes) [
        | some start ↦ some (start, record s { memory = with_free s.memory newest (start + bytes) })
        | none ↦ fresh
      ]
    ]

-- The closure of the new object.
unfoldable pub alloc_large : ℕ → Mmap → LargeRegions → ℕ → Option (ℕ × LargeRegions)
unfolding place_large enlist_large
alloc_large rounds mmap s nbytes = if ltb max_large_object_size nbytes then none else (do
  (start, s') ← place_large rounds mmap s (large_object_size + nbytes)
  some (start + 32, record s' { objects = enlist_large s'.objects start nbytes }))
