-- ===== src/LargeRegions/Examples.antt =====
-- Tests of the allocation of large objects.
use lambdachine.Common.{ℕ, ◌+◌, ◌-◌, ◌^◌, ◌≡◌, refl, write, Option, none, some, [], ◌∷◌}
use lambdachine.Regions.Examples.{system, empty_memory}
use lambdachine.LargeObjects.Examples.{no_objects}
use lambdachine.LargeRegions.{LargeRegions, find_region, place_large, alloc_large}

-- Two regions, the newest at 2 ^ 33 and full, an older one at 2 ^ 32 with 1000 bytes in use.
abbrev two_regions : LargeRegions
two_regions = record {
  memory = record empty_memory {
    region_link = write (λ r. none) (2 ^ 33) (some (2 ^ 32));
    large_free = write (write (λ r. 0) (2 ^ 33) (2 ^ 33 + 2 ^ 20)) (2 ^ 32) (2 ^ 32 + 1000);
    large_end = write (write (λ r. 0) (2 ^ 33) (2 ^ 33 + 2 ^ 20)) (2 ^ 32) (2 ^ 32 + 2 ^ 20);
    regions = 2 ^ 33 ∷ 2 ^ 32 ∷ [];
  };
  region = some (2 ^ 33);
  objects = no_objects;
}

-- The object is placed in the older region, whose free pointer stays where it was, so that the next
-- object would be placed at the same address; the newest region's free pointer leaves the region.
abbrev closure_of : Option (ℕ × LargeRegions) → Option ℕ
closure_of none = none
closure_of (some (p, s)) = some p

abbrev free_of : ℕ → Option (ℕ × LargeRegions) → Option ℕ
free_of r none = none
free_of r (some (p, s)) = some (s.memory.large_free r)

placed : closure_of (alloc_large 3 system two_regions 5000) ≡ some (2 ^ 32 + 1032)
unfolding alloc_large place_large find_region
placed = refl

old_free : free_of (2 ^ 32) (alloc_large 3 system two_regions 5000) ≡ some (2 ^ 32 + 1000)
unfolding alloc_large place_large find_region
old_free = refl

newest_free : free_of (2 ^ 33) (alloc_large 3 system two_regions 5000) ≡ some (2 ^ 32 + 6040)
unfolding alloc_large place_large find_region
newest_free = refl

too_large : alloc_large 3 system two_regions (2 ^ 20 - 79) ≡ none
unfolding alloc_large
too_large = refl
