-- ===== src/Collector/Frames.antt =====
-- The top frame when a compiled trace calls for a collection: the slots of its mask are evacuated.
use lambdachine.Common.{ℕ, ◌+◌, ◌-◌, ◌*◌, ◌^◌, ◌<◌, ◌≡◌, refl, ap, Option, none, some, ◌>>=◌}
use lambdachine.Regions.{Mmap}
use lambdachine.StackScan.{scan_bitmaps, translated_mask}
use lambdachine.StackScan.Bitmaps.{visit_bits}
use lambdachine.StackScan.Mask.{scan_bitmaps-mask}
use lambdachine.Collector.{Heap, evacuate}
use lambdachine.Collector.Scavenge.{scavenge_frame}

-- A slot of the frame at base evacuated, if all went well before.
abbrev pub evacuate_slot : ℕ → Mmap → ℕ → Option Heap → ℕ → Option Heap
evacuate_slot fuel mmap base s slot = s >>= λ h. evacuate fuel mmap h (base + 8 * slot)

-- Scavenging a frame with the bitmaps that a 32-bit mask is translated to evacuates the frame node
-- and then the slots of the set bits of the mask, from the lowest on, and nothing else.
pub scavenge_frame-mask :
    (fuel : ℕ) (mmap : Mmap) (g : Heap) (base mask : ℕ)
    → mask < 2 ^ 32
    → scavenge_frame fuel mmap 3 g base (some (translated_mask mask)) ≡ (
        evacuate fuel mmap g (base - 8) >>= λ g'.
        visit_bits (evacuate_slot fuel mmap base) 32 (some g') mask 0)
unfolding scavenge_frame
scavenge_frame-mask fuel mmap g base mask h = after (evacuate fuel mmap g (base - 8))
  where
    after :
        (o : Option Heap)
        → (o >>= λ g'.
            scan_bitmaps (evacuate_slot fuel mmap base) 3 (some g') (translated_mask mask) 0 0
            >>= λ r. r)
          ≡ (o >>= λ g'. visit_bits (evacuate_slot fuel mmap base) 32 (some g') mask 0)
    after none = refl
    after (some g') =
        ap (λ (r : Option (Option Heap)). r >>= λ s. s)
          (scan_bitmaps-mask mask h (evacuate_slot fuel mmap base) (some g'))
