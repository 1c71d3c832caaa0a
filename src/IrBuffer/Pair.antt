-- ===== src/IrBuffer/Pair.antt =====
-- The two literals that hold a 64-bit word (IRBuffer::literal of vm/ir.cc): the buffer stays well
-- formed.
use lambdachine.Common.{
  ℕ, ◌+◌, ◌≤◌, ◌<◌, ◌≡◌, ◌⊎◌, inl, inr, refl, sym, ◌∙◌, ap, true, false, arith, ◌==◌, if◌then◌else◌,
  Bool-cases,
}
use lambdachine.Ir.{Opcode, opcode_eq, Tag, ref_bias}
use lambdachine.Ir.Opcodes.{opcode_eq_sound}
use lambdachine.IrBuffer.{IrBuffer, put, literal_ins}
use lambdachine.IrBuffer.Chains.{IsAt, IsValid, is_literal}
use lambdachine.IrBuffer.Extends.{Extends}

-- The two halves of a 64-bit literal.
module _ (b : IrBuffer) (r lo hi : ℕ) (tag : Tag) (v : IsValid b) (e : r + 2 ≡ b.bufmin)
    (s : b.bufstart ≤ r) where
  unfoldable pub pair : IrBuffer
  pair =
      put (put (record b { bufmin = r }) (r + 1) (literal_ins Opcode.kword tag lo)) r
        (literal_ins Opcode.kwordhi tag hi)

  pair_ins :
      (q : ℕ)
      → pair.ins q ≡ (
          if q == r
          then record (literal_ins Opcode.kwordhi tag hi) { prev = b.chain Opcode.kwordhi }
          else if q == r + 1
          then record (literal_ins Opcode.kword tag lo) { prev = b.chain Opcode.kword }
          else b.ins q)
  unfolding pair put opcode_eq
  pair_ins q = refl

  pair_chain :
      (o : Opcode)
      → pair.chain o ≡ (
          if opcode_eq o Opcode.kwordhi
          then r
          else if opcode_eq o Opcode.kword
          then r + 1
          else b.chain o)
  unfolding pair put
  pair_chain o = refl

  pub pair_bounds :
      (pair.bufmin ≡ r)
      × (pair.bufmax ≡ b.bufmax)
      × (pair.bufstart ≡ b.bufstart)
      × (pair.bufend ≡ b.bufend)
  unfolding pair put
  pair_bounds = (refl, refl, refl, refl)

  pair_old : (q : ℕ) → b.bufmin ≤ q → pair.ins q ≡ b.ins q
  pair_old q h = pair_ins q ∙ ground arith

  pair_hi :
      pair.ins r ≡ record (literal_ins Opcode.kwordhi tag hi) { prev = b.chain Opcode.kwordhi }
  pair_hi = pair_ins r ∙ ground arith

  pub pair_lo :
      pair.ins (r + 1) ≡ record (literal_ins Opcode.kword tag lo) { prev = b.chain Opcode.kword }
  pair_lo = pair_ins (r + 1) ∙ ground arith

  -- The new link from one half to the last literal of its kind.
  new_link :
      (q : ℕ) (o : Opcode)
      → q < b.bufmin
      → is_literal o ≡ true
      → (pair.ins q).prev ≡ b.chain o
      → (pair.ins q).opcode ≡ o
      → ((pair.ins q).prev ≡ 0)
        ⊎ ((q < (pair.ins q).prev)
            × ((pair.ins q).prev < ref_bias)
            × ((pair.ins (pair.ins q).prev).opcode ≡ (pair.ins q).opcode))
  new_link q o h l e₁ e₂ =
      rw (e₁, e₂)
        (elim (v.heads o) [
          | inl none_yet ↦ inl none_yet
          | inr at ↦ inr (
            omega (arith, at.above),
            v.low_heads o l,
            ap (λ j. j.opcode) (pair_old (b.chain o) at.above) ∙ at.same,
          )
        ])

  old_link :
      (q : ℕ)
      → b.bufmin ≤ q
      → q < ref_bias
      → ((pair.ins q).prev ≡ 0)
        ⊎ ((q < (pair.ins q).prev)
            × ((pair.ins q).prev < ref_bias)
            × ((pair.ins (pair.ins q).prev).opcode ≡ (pair.ins q).opcode))
  old_link q h l = rw (pair_old q h) (elim (v.literal_links q h l) [
    | inl e₁ ↦ inl e₁
    | inr (p, k, same) ↦
        inr (p, k, ap (λ j. j.opcode) (pair_old (b.ins q).prev (omega arith)) ∙ same)
  ])

  pair_links :
      (q : ℕ)
      → r ≤ q
      → q < ref_bias
      → ((pair.ins q).prev ≡ 0)
        ⊎ ((q < (pair.ins q).prev)
            × ((pair.ins q).prev < ref_bias)
            × ((pair.ins (pair.ins q).prev).opcode ≡ (pair.ins q).opcode))
  pair_links q p l = elim (place q p) [
    | inl at_hi ↦ rw at_hi (
        new_link r Opcode.kwordhi (omega arith) refl (ap (λ j. j.prev) pair_hi)
          (ap (λ j. j.opcode) pair_hi))
    | inr (inl at_lo) ↦ rw at_lo (
        new_link (r + 1) Opcode.kword (omega arith) refl (ap (λ j. j.prev) pair_lo)
          (ap (λ j. j.opcode) pair_lo))
    | inr (inr old) ↦ old_link q old l
  ]
    where
      place : (q : ℕ) → r ≤ q → (q ≡ r) ⊎ ((q ≡ r + 1) ⊎ (b.bufmin ≤ q))
      place q p = ground arith

  pair_head : (o : Opcode) (q : ℕ) → r ≤ q → q < b.bufmin → (pair.ins q).opcode ≡ o → IsAt pair o q
  pair_head o q h k e₁ = record {
    above = omega (arith, pair_bounds.0);
    under = omega (arith, pair_bounds.1, v.bias_above, v.bias_below);
    same = e₁;
  }

  pair_heads : (o : Opcode) → (pair.chain o ≡ 0) ⊎ IsAt pair o (pair.chain o)
  pair_heads o = elim (Bool-cases (opcode_eq o Opcode.kwordhi)) [
    | inl is_hi ↦
        let p = opcode_eq_sound o Opcode.kwordhi is_hi in
        let c : pair.chain o ≡ r = pair_chain o ∙ rw is_hi in
        rw c (inr (pair_head o r (omega arith) (omega arith) (ap (λ j. j.opcode) pair_hi ∙ sym p)))
    | inr not_hi ↦ elim (Bool-cases (opcode_eq o Opcode.kword)) [
      | inl is_lo ↦
          let p = opcode_eq_sound o Opcode.kword is_lo in
          let c : pair.chain o ≡ r + 1 = pair_chain o ∙ rw (not_hi, is_lo) in
          rw c (
            inr (
              pair_head o (r + 1) (omega arith) (omega arith) (ap (λ j. j.opcode) pair_lo ∙ sym p)))
      | inr not_lo ↦
          let c : pair.chain o ≡ b.chain o = pair_chain o ∙ rw (not_hi, not_lo) in
          rw c (elim (v.heads o) [
            | inl none_yet ↦ inl none_yet
            | inr at ↦ inr (record {
              above = omega (arith, at.above, pair_bounds.0);
              under = omega (arith, at.under, pair_bounds.1);
              same = ap (λ j. j.opcode) (pair_old (b.chain o) at.above) ∙ at.same;
            })
          ])
    ]
  ]

  pair_high_heads :
      (o : Opcode) → is_literal o ≡ false → (pair.chain o ≡ 0) ⊎ (ref_bias ≤ pair.chain o)
  pair_high_heads o l = elim (Bool-cases (opcode_eq o Opcode.kwordhi)) [
    | inl is_hi ↦ let p = opcode_eq_sound o Opcode.kwordhi is_hi in let l' = rw p at l in cc
    | inr not_hi ↦ elim (Bool-cases (opcode_eq o Opcode.kword)) [
      | inl is_lo ↦ let p = opcode_eq_sound o Opcode.kword is_lo in let l' = rw p at l in cc
      | inr not_lo ↦
          let c : pair.chain o ≡ b.chain o = pair_chain o ∙ rw (not_hi, not_lo) in
          rw c (v.high_heads o l)
    ]
  ]

  pair_ins_links :
      (q : ℕ)
      → ref_bias ≤ q
      → q < b.bufmax
      → ((pair.ins q).prev ≡ 0)
        ⊎ ((ref_bias ≤ (pair.ins q).prev)
            × ((pair.ins q).prev < q)
            × ((pair.ins (pair.ins q).prev).opcode ≡ (pair.ins q).opcode))
  pair_ins_links q h l = rw (pair_old q (omega (arith, v.bias_above))) (elim (v.ins_links q h l) [
    | inl e₁ ↦ inl e₁
    | inr (p, k, same) ↦
        inr
          (p, k, ap (λ j. j.opcode) (pair_old (b.ins q).prev (omega (arith, v.bias_above))) ∙ same)
  ])

  pair_halves : (q : ℕ) → r ≤ q → (pair.ins q).opcode ≡ Opcode.kword → pair.bufmin < q
  pair_halves q p w = elim (first q p) [
    | inl same ↦ let w' = rw same at w in let hi_op = ap (λ j. j.opcode) pair_hi in cc
    | inr later ↦ omega (arith, pair_bounds.0)
  ]
    where
      first : (q : ℕ) → r ≤ q → (q ≡ r) ⊎ (r < q)
      first q p = ground arith

  pub pair-IsValid : IsValid pair
  pair-IsValid = record {
    start = omega (arith, v.start, pair_bounds.2);
    literals = omega (arith, pair_bounds.0, pair_bounds.2);
    bias_above = omega (arith, v.bias_above, pair_bounds.0);
    bias_below = omega (arith, v.bias_below, pair_bounds.1);
    end = omega (arith, v.end, pair_bounds.1, pair_bounds.3);
    width = omega (arith, v.width, pair_bounds.3);
    heads = pair_heads;
    low_heads = λ o l. ground (arith, v.low_heads o l, v.bias_above, pair_chain o);
    high_heads = pair_high_heads;
    literal_links = λ q p l. pair_links q (omega (arith, pair_bounds.0)) l;
    ins_links = λ q p l. pair_ins_links q p (omega (arith, pair_bounds.1));
    halves = λ q p l w. pair_halves q (omega (arith, pair_bounds.0)) w;
  }

  pub pair-Extends : Extends b pair
  pair-Extends = record {
    lower = omega (arith, pair_bounds.0);
    same_max = pair_bounds.1;
    same_start = pair_bounds.2;
    same_end = pair_bounds.3;
    same_heap = unfold pair put in refl;
    same_slots = unfold pair put in refl;
    same_cse = unfold pair put in refl;
    kept = pair_old;
    chains = λ o h k l.
        pair_chain o
        ∙ ground (arith, opcode_eq_sound o Opcode.kwordhi, opcode_eq_sound o Opcode.kword);
  }
