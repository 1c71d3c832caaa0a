-- ===== src/IrBuffer/Chains.antt =====
-- The shape of the IR buffer (class IRBuffer of vm/ir.hh): where literals and instructions lie, and
-- that each chain runs through the instructions of one opcode, each at most once.
use lambdachine.Common.{
  ℕ, zero, suc, ◌^◌, ◌≤◌, ◌<◌, ◌≡◌, ◌⊎◌, inl, inr, refl, ◌∙◌, Bool, true, false, arith, ltb,
  Bool-cases, ltb→lt,
}
use lambdachine.Ir.{Opcode, ref_bias}
use lambdachine.IrBuffer.{IrBuffer, find}

abbrev pub is_literal : Opcode → Bool
is_literal Opcode.kint = true
is_literal Opcode.kword = true
is_literal Opcode.kwordhi = true
is_literal Opcode.kbaseo = true
is_literal _ = false

-- The literals that a reference may name: the upper half of one is not.
abbrev pub is_value : Opcode → Bool
is_value Opcode.kint = true
is_value Opcode.kword = true
is_value Opcode.kbaseo = true
is_value _ = false

-- A reference to an instruction or literal of an opcode.
pub record IsAt (b : IrBuffer) (o : Opcode) (r : ℕ) : Type 0 where
  pub above : b.bufmin ≤ r
  pub under : r < b.bufmax
  pub same : (b.ins r).opcode ≡ o

pub record IsValid (b : IrBuffer) : Type 0 where
  pub start : 5 ≤ b.bufstart
  pub literals : b.bufstart ≤ b.bufmin
  pub bias_above : b.bufmin ≤ ref_bias
  pub bias_below : ref_bias ≤ b.bufmax
  pub end : b.bufmax ≤ b.bufend
  pub width : b.bufend ≤ 2 ^ 16
  pub heads : (o : Opcode) → (b.chain o ≡ 0) ⊎ IsAt b o (b.chain o)
  pub low_heads : (o : Opcode) → is_literal o ≡ true → b.chain o < ref_bias
  pub high_heads : (o : Opcode) → is_literal o ≡ false → (b.chain o ≡ 0) ⊎ (ref_bias ≤ b.chain o)
  pub literal_links :
      (r : ℕ)
      → b.bufmin ≤ r
      → r < ref_bias
      → ((b.ins r).prev ≡ 0)
        ⊎ ((r < (b.ins r).prev)
            × ((b.ins r).prev < ref_bias)
            × ((b.ins (b.ins r).prev).opcode ≡ (b.ins r).opcode))
  pub ins_links :
      (r : ℕ)
      → ref_bias ≤ r
      → r < b.bufmax
      → ((b.ins r).prev ≡ 0)
        ⊎ ((ref_bias ≤ (b.ins r).prev)
            × ((b.ins r).prev < r)
            × ((b.ins (b.ins r).prev).opcode ≡ (b.ins r).opcode))
  pub halves :
      (r : ℕ) → b.bufmin ≤ r → r < ref_bias → (b.ins r).opcode ≡ Opcode.kword → b.bufmin < r

-- A chain stays with its opcode.
pub IsAt-prev :
    (b : IrBuffer) (o : Opcode) (r : ℕ)
    → IsValid b
    → IsAt b o r
    → ((b.ins r).prev ≡ 0) ⊎ IsAt b o (b.ins r).prev
IsAt-prev b o r v h = elim (Bool-cases (ltb r ref_bias)) [
  | inl low ↦ elim (v.literal_links r h.above (omega (arith, ltb→lt r ref_bias low))) [
    | inl e ↦ inl e
    | inr (p, q, e) ↦ inr (record {
      above = omega (arith, h.above);
      under = omega (arith, v.bias_below);
      same = e ∙ h.same;
    })
  ]
  | inr high ↦ elim (v.ins_links r (ground arith) h.under) [
    | inl e ↦ inl e
    | inr (p, q, e) ↦ inr (record {
      above = omega (arith, v.bias_above);
      under = omega (arith, h.under);
      same = e ∙ h.same;
    })
  ]
]

-- What a search along a chain finds is of the chain's opcode and passes the test.
pub find_sound :
    (fuel : ℕ) (b : IrBuffer) (o : Opcode) (test : ℕ → Bool) (r : ℕ)
    → IsValid b
    → (r ≡ 0) ⊎ IsAt b o r
    → (find fuel b test r ≡ 0)
      ⊎ (IsAt b o (find fuel b test r) × (test (find fuel b test r) ≡ true))
unfolding find
find_sound zero b o test r v h = inl refl
find_sound (suc fuel) b o test r v (inl e) = inl (rw e)
find_sound (suc fuel) b o test r v (inr at) =
    let ih = find_sound fuel b o test (b.ins r).prev v (IsAt-prev b o r v at) in
    ground (arith, ih, at)

IsAt-prev_low :
    (b : IrBuffer) (o : Opcode) (r : ℕ)
    → IsValid b
    → IsAt b o r
    → r < ref_bias
    → (b.ins r).prev < ref_bias
IsAt-prev_low b o r v h l = elim (v.literal_links r h.above l) [
  | inl e ↦ omega arith
  | inr (p, q, e) ↦ q
]

-- A search among the literals stays among them.
pub find_low :
    (fuel : ℕ) (b : IrBuffer) (o : Opcode) (test : ℕ → Bool) (r : ℕ)
    → IsValid b
    → (r ≡ 0) ⊎ IsAt b o r
    → r < ref_bias
    → find fuel b test r < ref_bias
unfolding find
find_low zero b o test r v h l = omega arith
find_low (suc fuel) b o test r v (inl e) l = ground arith
find_low (suc fuel) b o test r v (inr at) l =
    let ih =
      find_low fuel b o test (b.ins r).prev v (IsAt-prev b o r v at) (IsAt-prev_low b o r v at l) in
    ground (arith, ih)
