-- ===== src/MachineCode/Reach.antt =====
-- Machine code is in reach of the exit handler.
use lambdachine.Common.{
  ℕ, zero, suc, ◌+◌, ◌-◌, ◌*◌, ◌/◌, ◌%◌, ◌^◌, ◌≤◌, ◌<◌, ◌≡◌, ◌≢◌, ◌⊎◌, inl, inr, sym, ap, ◌∙◌, true,
  ◌&&◌, Option, none, some, arith, Bool-cases, Option-cases, >>=-eq-some, some_pair,
}
use mathlib.Core.Path.{subst}
use lambdachine.MachineCode.{
  System, is_valid_pointer, in_range, attempt, draw_hint, alloc_from, alloc, alloc_area, reserve,
  initial, MachineCode, jump_range, area_size, generating,
}

-- What an attempt checks: a valid pointer to memory in the range of the target.
abbrev IsReached : ℕ → ℕ → ℕ → Type 0
IsReached target p size = (is_valid_pointer p && in_range target p size) ≡ true

-- Every byte of the memory is within 2 ^ 31 of the handler.
reached :
    (exit p a : ℕ)
    → exit < 2 ^ 47
    → IsReached (exit / 2 ^ 16 * 2 ^ 16) p area_size
    → p ≤ a
    → a < p + area_size
    → (a < exit + 2 ^ 31) × (exit < a + 2 ^ 31)
unfolding is_valid_pointer in_range
reached exit p a h r l u = (ground arith, ground arith)

attempt-IsReached :
    (system : System) (left target hint size p : ℕ)
    → attempt system left target hint size ≡ some p
    → IsReached target p size
unfolding attempt
attempt-IsReached system left target hint size p e = elim (Bool-cases (is_valid_pointer hint)) [
  | inr f ↦ let e' = rw (f, attempt) at e in cc
  | inl f ↦ elim (Option-cases (system left hint size)) [
    | inl g ↦ let e' = rw (f, g, attempt) at e in cc
    | inr (q, g) ↦ elim (Bool-cases (is_valid_pointer q && in_range target q size)) [
      | inr h ↦ let e' = rw (f, g, h, attempt) at e in cc
      | inl h ↦
          let e' = rw (f, g, h, attempt) at e in
          let same : q ≡ p = cc in subst (λ (r : ℕ). IsReached target r size) same h
    ]
  ]
]

module _ (system : System) (fuel target size : ℕ) where
  abbrev again : ℕ → ℕ × ℕ → Option (ℕ × ℕ)
  again left (h, s) =
      alloc_from system fuel target size left ((target + h + 2 ^ 64 - jump_range / 2) % 2 ^ 64) s

  alloc_from-IsReached :
      (left hint s s' p : ℕ)
      → alloc_from system fuel target size left hint s ≡ some (p, s')
      → (p ≡ 0) ⊎ IsReached target p size
  unfolding alloc_from
  alloc_from-IsReached zero hint s s' p e = let (z, _) = some_pair 0 p s s' e in inl (sym z)
  alloc_from-IsReached (suc left) hint s s' p e =
      elim (Option-cases (attempt system left target hint size)) [
        | inr (q, f) ↦
            let e' = rw (f, alloc_from) at e in
            let (same, _) = some_pair q p s s' e' in
            inr (attempt-IsReached system left target hint size p (f ∙ ap some same))
        | inl f ↦
            let e' = rw (f, alloc_from) at e in
            let ((h, t), _, g) = >>=-eq-some (draw_hint fuel size s) (again left) e' in
            alloc_from-IsReached left ((target + h + 2 ^ 64 - jump_range / 2) % 2 ^ 64) t s' p g
      ]

-- The state with the memory that alloc has found.
abbrev new_area : ℕ × ℕ → Option MachineCode
new_area (p, s) = some (record {
  prng = s;
  protection = generating;
  area = p;
  top = p + area_size;
  bottom = p;
  size = area_size;
  size_total = area_size;
})

abbrev bounds : MachineCode → Option (ℕ × ℕ × MachineCode)
bounds m = some (m.top, m.bottom, m)

abbrev upper : Option (ℕ × ℕ × MachineCode) → ℕ
upper none = 0
upper (some (top, bottom, m)) = top

abbrev lower : Option (ℕ × ℕ × MachineCode) → ℕ
lower none = 0
lower (some (top, bottom, m)) = bottom

abbrev area_bottom : Option MachineCode → ℕ
area_bottom none = 0
area_bottom (some m) = m.bottom

abbrev area_top : Option MachineCode → ℕ
area_top none = 0
area_top (some m) = m.top

reserve-bounds :
    (system : System) (fuel exit seed top bottom : ℕ) (m : MachineCode)
    → reserve system fuel exit (initial seed) ≡ some (top, bottom, m)
    → (p : ℕ) × (s : ℕ) × (alloc system fuel exit area_size seed ≡ some (p, s))
      × (p ≡ bottom)
      × (p + area_size ≡ top)
unfolding reserve alloc_area initial
reserve-bounds system fuel exit seed top bottom m e =
    let (m', f, g) = >>=-eq-some (alloc_area system fuel exit (initial seed)) bounds e in
    let ((p, s), f', g') = >>=-eq-some (alloc system fuel exit area_size seed) new_area f in
    let x : m'.top ≡ top = ap upper g in
    let y : m'.bottom ≡ bottom = ap lower g in (p, s, f', ap area_bottom g' ∙ y, ap area_top g' ∙ x)

-- Where the exit handler lies below 2 ^ 47, every byte of the area that reserving gives for new
-- machine code, if the search for it ends and the area is not NULL, is less than 2 ^ 31 away from
-- the handler.
pub reserve_lem :
    (system : System) (fuel exit seed top bottom a : ℕ) (m : MachineCode)
    → exit < 2 ^ 47
    → reserve system fuel exit (initial seed) ≡ some (top, bottom, m)
    → bottom ≢ 0
    → bottom ≤ a
    → a < top
    → (a < exit + 2 ^ 31) × (exit < a + 2 ^ 31)
unfolding alloc
reserve_lem system fuel exit seed top bottom a m h e n l u =
    let (p, s, f, x, y) = reserve-bounds system fuel exit seed top bottom m e in
    elim (alloc_from-IsReached system fuel (exit / 2 ^ 16 * 2 ^ 16) area_size 32 0 seed s p f) [
      | inl z ↦ absurd (n (sym x ∙ z))
      | inr r ↦ reached exit p a h r (omega arith) (omega arith)
    ]
