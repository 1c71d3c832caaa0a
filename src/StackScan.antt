-- ===== src/StackScan.antt =====
-- The collector's walk over the stack (scavengeFrame and scavengeStack of vm/memorymanager.cc): which
-- slots of a frame are visited, by its pointer bitmaps or by the mask that a compiled trace leaves.
pub mod Bitmaps
pub mod Mask
pub mod Examples
use lambdachine.Common.{
  ℕ, zero, suc, ◌+◌, ◌-◌, ◌*◌, ◌/◌, ◌%◌, ◌^◌, ◌≡◌, Bool, true, false, ltb, leb, ◌==◌, if◌then◌else◌,
  Option, none, some, ◌>>=◌,
}
use Prim.Native.Nat.{bit_or}

-- The mask translated to three bitmaps of 15 bits each, with bit 15 set when another one follows.
unfoldable pub third_mask : ℕ → ℕ
third_mask mask = mask / 2 ^ 30 % 2 ^ 16

unfoldable pub second_mask : ℕ → ℕ
second_mask mask =
    let low = mask / 2 ^ 15 % 2 ^ 15 in if third_mask mask == 0 then low else bit_or low (2 ^ 15)

unfoldable pub first_mask : ℕ → ℕ
first_mask mask =
    let low = mask % 2 ^ 15 in if second_mask mask == 0 then low else bit_or low (2 ^ 15)

unfoldable pub translated_mask : ℕ → ℕ → ℕ
unfolding first_mask second_mask third_mask
translated_mask mask i =
    if i == 0 then first_mask mask else if i == 1 then second_mask mask else third_mask mask

-- The state S that visits change, and the visit of a slot: evacuate on its address.
module _ {S : Type 0} (visit : S → ℕ → S) where
  -- The loop over the bits of a bitmap: the state, what is left of the bitmap, and the next slot.
  unfoldable pub scan_bitmap : ℕ → S → ℕ → ℕ → S × ℕ × ℕ
  scan_bitmap zero s bitmap slot = (s, bitmap, slot)
  scan_bitmap (suc rounds) s bitmap slot = elim (bitmap == 0) [
    | true ↦ (s, bitmap, slot)
    | false ↦
        scan_bitmap rounds (if bitmap % 2 == 1 then visit s slot else s) (bitmap / 2) (slot + 1)
  ]

  -- The loop over bitmaps from number k on.
  unfoldable pub scan_bitmaps : ℕ → S → (ℕ → ℕ) → ℕ → ℕ → Option S
  unfolding scan_bitmap
  scan_bitmaps zero s bitmaps k slot = none
  scan_bitmaps (suc fuel) s bitmaps k slot =
      let (s', bitmap, slot') = scan_bitmap 15 s (bitmaps k) slot in
      elim (bitmap == 0) [ true ↦ some s' | false ↦ scan_bitmaps fuel s' bitmaps (k + 1) slot' ]
