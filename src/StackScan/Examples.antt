-- ===== src/StackScan/Examples.antt =====
-- Tests of the scan of bitmaps.
use lambdachine.Common.{ℕ, ◌+◌, ◌^◌, ◌≡◌, refl, some, List, [], ◌∷◌, ◌++◌}
use lambdachine.StackScan.{
  first_mask, second_mask, third_mask, translated_mask, scan_bitmap, scan_bitmaps,
}

-- A visit that keeps the slots.
abbrev noted : List ℕ → ℕ → List ℕ
noted xs slot = xs ++ slot ∷ []

scanned :
    scan_bitmaps noted 3 [] (translated_mask (2 ^ 31 + 2 ^ 15 + 5)) 0 0
    ≡ some (0 ∷ 2 ∷ 15 ∷ 31 ∷ [])
unfolding scan_bitmaps scan_bitmap translated_mask first_mask second_mask third_mask
scanned = refl
