-- ===== src/StackScan/Bitmaps.antt =====
-- The scan of bitmaps against the set bits in their order.
use lambdachine.Common.{
  ℕ, zero, suc, ◌+◌, ◌*◌, ◌/◌, ◌%◌, ◌^◌, ◌<◌, ◌≡◌, inl, inr, refl, sym, ap, ◌∙◌, true, false, ◌==◌,
  if◌then◌else◌, Option, some, arith, Bool-cases,
}
use lambdachine.StackScan.{scan_bitmap, scan_bitmaps}
use native.Mathlib.Nat.{pow-suc, mul_assoc}

abbrev halves : ℕ → ℕ → ℕ
halves zero m = m
halves (suc n) m = halves n (m / 2)

module _ {S : Type 0} (visit : S → ℕ → S) where
  -- Every set bit of the low n bits, from the lowest on.
  unfoldable pub visit_bits : ℕ → S → ℕ → ℕ → S
  visit_bits zero s m slot = s
  visit_bits (suc n) s m slot =
      visit_bits n (if m % 2 == 1 then visit s slot else s) (m / 2) (slot + 1)

  pub visit_bits-zero : (n : ℕ) (s : S) (slot : ℕ) → visit_bits n s 0 slot ≡ s
  unfolding visit_bits
  visit_bits-zero zero s slot = refl
  visit_bits-zero (suc n) s slot = visit_bits-zero n s (slot + 1)

  visit_bits-add :
      (n k : ℕ) (s : S) (m slot : ℕ)
      → visit_bits (n + k) s m slot ≡ visit_bits k (visit_bits n s m slot) (halves n m) (slot + n)
  unfolding visit_bits
  visit_bits-add zero k s m slot =
      let p : 0 + k ≡ k = omega arith in let q : slot + 0 ≡ slot = omega arith in rw (p, q) refl
  visit_bits-add (suc n) k s m slot =
      let p : suc n + k ≡ suc (n + k) = omega arith in
      let q : slot + suc n ≡ slot + 1 + n = omega arith in
      rw (p, q) (visit_bits-add n k (if m % 2 == 1 then visit s slot else s) (m / 2) (slot + 1))

  -- Bits from n on make no difference.
  visit_bits-low :
      (n : ℕ) (s : S) (m c slot : ℕ) → visit_bits n s (m + c * 2 ^ n) slot ≡ visit_bits n s m slot
  unfolding visit_bits
  visit_bits-low zero s m c slot = refl
  visit_bits-low (suc n) s m c slot =
      let e : c * 2 ^ suc n ≡ c * 2 ^ n * 2 = simp (pow-suc, mul_assoc) in
      let p : (m + c * 2 ^ n * 2) % 2 ≡ m % 2 = omega arith in
      let q : (m + c * 2 ^ n * 2) / 2 ≡ m / 2 + c * 2 ^ n = omega arith in
      rw (e, p, q) (visit_bits-low n _ (m / 2) c (slot + 1))

  abbrev visited : S → ℕ → ℕ → S
  visited s b slot = if b % 2 == 1 then visit s slot else s

  scan_bitmap-stop : (n : ℕ) (s : S) (slot : ℕ) → scan_bitmap visit n s 0 slot ≡ (s, 0, slot)
  unfolding scan_bitmap
  scan_bitmap-stop zero s slot = refl
  scan_bitmap-stop (suc n) s slot = refl

  scan_bitmap-step :
      (n : ℕ) (s : S) (b slot : ℕ)
      → (b == 0) ≡ false
      → scan_bitmap visit (suc n) s b slot
        ≡ scan_bitmap visit n (visited s b slot) (b / 2) (slot + 1)
  unfolding scan_bitmap
  scan_bitmap-step n s b slot e = rw (scan_bitmap, e) refl

  -- A bitmap without bits from n on is used up; one with bit n leaves it.
  scan_bitmap-last :
      (n : ℕ) (s : S) (b slot : ℕ)
      → halves n b ≡ 0
      → (slot' : ℕ) × (scan_bitmap visit n s b slot ≡ (visit_bits n s b slot, 0, slot'))
  unfolding visit_bits
  scan_bitmap-last zero s b slot h = (slot, rw h (scan_bitmap-stop 0 s slot))
  scan_bitmap-last (suc n) s b slot h = elim (Bool-cases (b == 0)) [
    | inl e ↦
        let z : b ≡ 0 = ground arith in
        (slot, rw (z, visit_bits-zero n s (slot + 1)) (scan_bitmap-stop (suc n) s slot))
    | inr e ↦
        let (slot', f) = scan_bitmap-last n (visited s b slot) (b / 2) (slot + 1) h in
        (slot', scan_bitmap-step n s b slot e ∙ f)
  ]

  halves-zero : (n : ℕ) → halves n 0 ≡ 0
  halves-zero zero = refl
  halves-zero (suc n) = halves-zero n

  scan_bitmap-more :
      (n : ℕ) (s : S) (b slot : ℕ)
      → halves n b ≡ 1
      → scan_bitmap visit n s b slot ≡ (visit_bits n s b slot, 1, slot + n)
  unfolding visit_bits
  scan_bitmap-more zero s b slot h =
      let q : slot + 0 ≡ slot = omega arith in unfold scan_bitmap in rw (scan_bitmap, h, q) refl
  scan_bitmap-more (suc n) s b slot h = elim (Bool-cases (b == 0)) [
    | inl e ↦
        let z : b ≡ 0 = ground arith in
        let zero_one = sym (halves-zero n) ∙ rw z at h in absurd (omega arith)
    | inr e ↦
        let q : slot + suc n ≡ slot + 1 + n = omega arith in
        rw q (
          scan_bitmap-step n s b slot e
          ∙ scan_bitmap-more n (visited s b slot) (b / 2) (slot + 1) h)
  ]

  halves_15 : (m : ℕ) → halves 15 m ≡ m / 2 ^ 15
  halves_15 m = omega arith

  -- What the loop does after a bitmap.
  abbrev after : ℕ → (ℕ → ℕ) → ℕ → S × ℕ × ℕ → Option S
  after fuel bitmaps k (s, bitmap, slot) = elim (bitmap == 0) [
    | true ↦ some s
    | false ↦ scan_bitmaps visit fuel s bitmaps (k + 1) slot
  ]

  scan_bitmaps-after :
      (fuel : ℕ) (s : S) (bitmaps : ℕ → ℕ) (k slot : ℕ) (t : S × ℕ × ℕ)
      → scan_bitmap visit 15 s (bitmaps k) slot ≡ t
      → scan_bitmaps visit (suc fuel) s bitmaps k slot ≡ after fuel bitmaps k t
  unfolding scan_bitmaps
  scan_bitmaps-after fuel s bitmaps k slot t e = ap (after fuel bitmaps k) e

  pub scan_bitmaps-last :
      (fuel : ℕ) (s : S) (bitmaps : ℕ → ℕ) (k slot : ℕ)
      → bitmaps k < 2 ^ 15
      → scan_bitmaps visit (suc fuel) s bitmaps k slot ≡ some (visit_bits 15 s (bitmaps k) slot)
  scan_bitmaps-last fuel s bitmaps k slot h =
      let (slot', e) =
        scan_bitmap-last 15 s (bitmaps k) slot (halves_15 (bitmaps k) ∙ omega arith) in
      scan_bitmaps-after fuel s bitmaps k slot (visit_bits 15 s (bitmaps k) slot, 0, slot') e

  pub scan_bitmaps-more :
      (fuel : ℕ) (s : S) (bitmaps : ℕ → ℕ) (k slot b : ℕ)
      → b < 2 ^ 15
      → bitmaps k ≡ b + 1 * 2 ^ 15
      → scan_bitmaps visit (suc fuel) s bitmaps k slot
        ≡ scan_bitmaps visit fuel (visit_bits 15 s b slot) bitmaps (k + 1) (slot + 15)
  scan_bitmaps-more fuel s bitmaps k slot b h f =
      let e = scan_bitmap-more 15 s (bitmaps k) slot (halves_15 (bitmaps k) ∙ omega arith) in
      let low : visit_bits 15 s (bitmaps k) slot ≡ visit_bits 15 s b slot =
        ap (λ (m : ℕ). visit_bits 15 s m slot) f ∙ visit_bits-low 15 s b 1 slot in
      scan_bitmaps-after fuel s bitmaps k slot (visit_bits 15 s (bitmaps k) slot, 1, slot + 15) e
      ∙ ap (λ (t : S). scan_bitmaps visit fuel t bitmaps (k + 1) (slot + 15)) low

  visit_bits-mod : (s : S) (m slot : ℕ) → visit_bits 15 s m slot ≡ visit_bits 15 s (m % 2 ^ 15) slot
  visit_bits-mod s m slot =
      let e : m ≡ m % 2 ^ 15 + m / 2 ^ 15 * 2 ^ 15 = omega arith in
      ap (λ (k : ℕ). visit_bits 15 s k slot) e ∙ visit_bits-low 15 s (m % 2 ^ 15) (m / 2 ^ 15) slot

  visit_bits-top : (s : S) (m slot : ℕ) → m < 4 → visit_bits 2 s m slot ≡ visit_bits 15 s m slot
  visit_bits-top s m slot h =
      let z : halves 2 m ≡ 0 = omega arith in
      sym (
        visit_bits-add 2 13 s m slot
        ∙ ap (λ (k : ℕ). visit_bits 13 (visit_bits 2 s m slot) k (slot + 2)) z
        ∙ visit_bits-zero 13 (visit_bits 2 s m slot) (slot + 2))

  -- The reference on the parts of a mask.
  pub visit_bits-parts :
      (s : S) (mask : ℕ)
      → mask < 2 ^ 32
      → visit_bits 32 s mask 0
        ≡ visit_bits 15
            (visit_bits 15 (visit_bits 15 s (mask % 2 ^ 15) 0) (mask / 2 ^ 15 % 2 ^ 15) 15)
            (mask / 2 ^ 30)
            30
  visit_bits-parts s mask h =
      let t = visit_bits 15 s mask 0 in
      let m1 = mask / 2 ^ 15 in
      let u = visit_bits 15 t m1 15 in
      let top : m1 / 2 ^ 15 ≡ mask / 2 ^ 30 = omega arith in
      visit_bits-add 15 17 s mask 0
      ∙ ap (λ (k : ℕ). visit_bits 17 t k 15) (halves_15 mask)
      ∙ visit_bits-add 15 2 t m1 15
      ∙ ap (λ (k : ℕ). visit_bits 2 u k 30) (halves_15 m1 ∙ top)
      ∙ visit_bits-top u (mask / 2 ^ 30) 30 (omega arith)
      ∙ ap (λ (v : S). visit_bits 15 v (mask / 2 ^ 30) 30)
          (visit_bits-mod t m1 15
            ∙ ap (λ (v : S). visit_bits 15 v (m1 % 2 ^ 15) 15) (visit_bits-mod s mask 0))
