-- ===== src/StackScan/Mask.antt =====
-- A mask translated to bitmaps: the bitmaps visit the slots of the mask.
use lambdachine.Common.{
  ℕ, ◌+◌, ◌*◌, ◌/◌, ◌%◌, ◌^◌, ◌<◌, ◌≡◌, ◌≢◌, inl, inr, refl, sym, ap, ◌∙◌, true, false, ◌==◌, some,
  arith, Bool-cases,
}
use lambdachine.Common.Bits.{bit_or-add}
use lambdachine.StackScan.{first_mask, second_mask, third_mask, translated_mask, scan_bitmaps}
use lambdachine.StackScan.Bitmaps.{
  visit_bits, visit_bits-zero, visit_bits-parts, scan_bitmaps-last, scan_bitmaps-more,
}
use Prim.Native.Nat.{bit_or}

flagged : (a : ℕ) → a < 2 ^ 15 → bit_or a (2 ^ 15) ≡ a + 1 * 2 ^ 15
flagged a h = bit_or-add 15 a 1 h

module _ (mask : ℕ) (h : mask < 2 ^ 32) where
  third : third_mask mask ≡ mask / 2 ^ 30
  unfolding third_mask
  third = omega arith

  second_last : mask / 2 ^ 30 ≡ 0 → second_mask mask ≡ mask / 2 ^ 15 % 2 ^ 15
  unfolding second_mask
  second_last e = let z : (third_mask mask == 0) ≡ true = let t = third in ground arith in rw z refl

  second_more : mask / 2 ^ 30 ≢ 0 → second_mask mask ≡ mask / 2 ^ 15 % 2 ^ 15 + 1 * 2 ^ 15
  unfolding second_mask
  second_more e =
      let z : (third_mask mask == 0) ≡ false = let t = third in ground arith in
      rw z (flagged (mask / 2 ^ 15 % 2 ^ 15) (omega arith))

  first_last : second_mask mask ≡ 0 → first_mask mask ≡ mask % 2 ^ 15
  unfolding first_mask
  first_last e = let z : (second_mask mask == 0) ≡ true = ground arith in rw z refl

  first_more : second_mask mask ≢ 0 → first_mask mask ≡ mask % 2 ^ 15 + 1 * 2 ^ 15
  unfolding first_mask
  first_more e =
      let z : (second_mask mask == 0) ≡ false = ground arith in
      rw z (flagged (mask % 2 ^ 15) (omega arith))

  -- The scan of the translated mask visits the set bits of the mask, in their order.
  pub scan_bitmaps-mask :
      {S : Type 0} (visit : S → ℕ → S) (s : S)
      → scan_bitmaps visit 3 s (translated_mask mask) 0 0 ≡ some (visit_bits visit 32 s mask 0)
  unfolding translated_mask
  scan_bitmaps-mask visit s =
      let low = mask % 2 ^ 15 in
      let middle = mask / 2 ^ 15 % 2 ^ 15 in
      let high = mask / 2 ^ 30 in
      let maps = translated_mask mask in
      let t = visit_bits visit 15 s low 0 in
      let u = visit_bits visit 15 t middle 15 in
      let parts = ap some (sym (visit_bits-parts visit s mask h)) in
      elim (Bool-cases (high == 0)) [
        | inr e ↦
            let n : high ≢ 0 = ground arith in
            let n' : second_mask mask ≢ 0 = let q = second_more n in omega arith in
            scan_bitmaps-more visit 2 s maps 0 0 low (omega arith) (first_more n')
            ∙ scan_bitmaps-more visit 1 t maps 1 15 middle (omega arith) (second_more n)
            ∙ scan_bitmaps-last visit 0 u maps 2 30 (let q = third in omega arith)
            ∙ ap (λ (k : ℕ). some (visit_bits visit 15 u k 30)) third
            ∙ parts
        | inl e ↦
            let z : high ≡ 0 = ground arith in
            let top : some u ≡ some (visit_bits visit 32 s mask 0) =
              ap some (sym (visit_bits-zero visit 15 u 30))
              ∙ ap (λ (k : ℕ). some (visit_bits visit 15 u k 30)) (sym z)
              ∙ parts in
            elim (Bool-cases (middle == 0)) [
              | inr f ↦
                  let n' : second_mask mask ≢ 0 = let q = second_last z in ground arith in
                  scan_bitmaps-more visit 2 s maps 0 0 low (omega arith) (first_more n')
                  ∙ scan_bitmaps-last visit 1 t maps 1 15 (let q = second_last z in omega arith)
                  ∙ ap (λ (k : ℕ). some (visit_bits visit 15 t k 15)) (second_last z)
                  ∙ top
              | inl f ↦
                  let y : middle ≡ 0 = ground arith in
                  let z' : second_mask mask ≡ 0 = second_last z ∙ y in
                  scan_bitmaps-last visit 2 s maps 0 0 (let q = first_last z' in omega arith)
                  ∙ ap (λ (k : ℕ). some (visit_bits visit 15 s k 0)) (first_last z')
                  ∙ ap some (sym (visit_bits-zero visit 15 t 15))
                  ∙ ap (λ (k : ℕ). some (visit_bits visit 15 t k 15)) (sym y)
                  ∙ top
            ]
      ]
