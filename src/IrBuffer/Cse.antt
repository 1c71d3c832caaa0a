-- ===== src/IrBuffer/Cse.antt =====
-- Common subexpressions (IRBuffer::optCSE of vm/ir.cc): what is found is an instruction that is the
-- same, and one that is the same is found.
use lambdachine.Common.{
  ℕ, zero, suc, ◌+◌, ◌≤◌, ◌<◌, ◌≡◌, ◌≢◌, ◌⊎◌, inl, inr, refl, sym, ◌∙◌, ap, Bool, true, false,
  arith, ◌==◌, if◌then◌else◌, Option, none, some, Bool-cases,
}
use lambdachine.Ir.{Opcode, op12, Ins, Tref, tref, ref_bias}
use lambdachine.IrBuffer.{IrBuffer, emit, find_cse, ins_fuel, later_operand, opt_cse}
use lambdachine.IrBuffer.Chains.{IsAt, IsValid, is_literal, IsAt-prev}
use lambdachine.IrBuffer.Emission.{Emits, emit_lem}
use mathlib.Core.Path.{subst, ap₂}

find_cse_sound :
    (fuel : ℕ) (b : IrBuffer) (o : Opcode) (word lim q r : ℕ)
    → IsValid b
    → (q ≡ 0) ⊎ IsAt b o q
    → find_cse fuel b word lim q ≡ some r
    → IsAt b o r × (op12 (b.ins r) ≡ word) × (lim < r)
unfolding find_cse
find_cse_sound zero b o word lim q r v h e = cc
find_cse_sound (suc fuel) b o word lim q r v (inl z) e = absurd (ground arith)
find_cse_sound (suc fuel) b o word lim q r v (inr at) e =
    elim (Bool-cases (op12 (b.ins q) == word)) [
      | inl same ↦
          let p : q ≡ r = ground arith in
          (
            subst (λ (x : ℕ). IsAt b o x) p at,
            ap (λ x. op12 (b.ins x)) (sym p) ∙ ground arith,
            ground arith,
          )
      | inr other ↦
          find_cse_sound fuel b o word lim (b.ins q).prev r v (IsAt-prev b o q v at) (ground arith)
    ]

-- An instruction is on a chain: the chain of `prev` leads from q to r.
pub data OnChain (b : IrBuffer) : ℕ → ℕ → Type 0 where
  here : (r : ℕ) → r ≢ 0 → OnChain b r r
  there : (q r : ℕ) → q ≢ 0 → OnChain b (b.ins q).prev r → OnChain b q r

OnChain-nonzero : (b : IrBuffer) (q r : ℕ) → OnChain b q r → q ≢ 0
OnChain-nonzero b _ _ (here r n) = n
OnChain-nonzero b _ _ (there q r n rest) = n

OnChain-le :
    (b : IrBuffer) (q r : ℕ) → IsValid b → ref_bias ≤ q → q < b.bufmax → OnChain b q r → r ≤ q
OnChain-le b _ _ v p l (here r n) = omega arith
OnChain-le b _ _ v p l (there q r n rest) = elim (v.ins_links q p l) [
  | inl e ↦ absurd (OnChain-nonzero b (b.ins q).prev r rest e)
  | inr (h, k, _) ↦ omega (arith, OnChain-le b (b.ins q).prev r v h (omega arith) rest)
]

-- From an instruction on, a search with fuel for each instruction before it finds whatever is on the
-- chain above the limit.
find_cse_complete :
    (fuel : ℕ) (b : IrBuffer) (word lim q r : ℕ)
    → IsValid b
    → ref_bias ≤ q
    → q < b.bufmax
    → q < ref_bias + fuel
    → OnChain b q r
    → lim < r
    → op12 (b.ins r) ≡ word
    → (k : ℕ) × (find_cse fuel b word lim q ≡ some k)
unfolding find_cse
find_cse_complete zero b word lim q r v p l f on h e = absurd (omega arith)
find_cse_complete (suc fuel) b word lim _ _ v p l f (here r n) h e = (r, ground arith)
find_cse_complete (suc fuel) b word lim _ _ v p l f (there q r n rest) h e =
    let le = OnChain-le b q r v p l (there q r n rest) in
    elim (v.ins_links q p l) [
      | inl z ↦ absurd (OnChain-nonzero b (b.ins q).prev r rest z)
      | inr (high, low, _) ↦
          let (k, found) =
            find_cse_complete fuel b word lim (b.ins q).prev r v high (omega arith) (omega arith)
              rest h e in
          elim (Bool-cases (op12 (b.ins q) == word)) [
            | inl same ↦ (q, ground arith)
            | inr other ↦ (k, ground (arith, found))
          ]
    ]

-- A reference to an instruction with the same opcode and operands, above both operands, and the buffer
-- as it was.
pub record Shared (b b' : IrBuffer) (i : Ins) (r : ℕ) : Type 0 where
  pub unchanged : b' ≡ b
  pub same_opcode : (b.ins r).opcode ≡ i.opcode
  pub same_operands : op12 (b.ins r) ≡ op12 i
  pub above : later_operand i < r
  pub under : r < b.bufmax

-- The result for what the search has found, with the optimisation on or off.
abbrev chosen : IrBuffer → Ins → Bool → Option ℕ → Option (Tref × IrBuffer)
chosen b i false o = emit b i
chosen b i true none = emit b i
chosen b i true (some r) = some (tref r (b.ins r).tag, b)

chosen_eq :
    (b : IrBuffer) (i : Ins) (on : Bool) (o : Option ℕ)
    → (if on
        then elim o [ none ↦ emit b i | some r ↦ some (tref r (b.ins r).tag, b) ]
        else emit b i)
      ≡ chosen b i on o
chosen_eq b i false o = refl
chosen_eq b i true none = refl
chosen_eq b i true (some r) = refl

opt_cse_eq :
    (b : IrBuffer) (i : Ins)
    → opt_cse b i
      ≡ chosen b i b.opt_cse (find_cse (ins_fuel b) b (op12 i) (later_operand i) (b.chain i.opcode))
unfolding opt_cse
opt_cse_eq b i = chosen_eq b i b.opt_cse _

-- Optimising an instruction that is no literal, over a well-formed buffer and without giving up,
-- gives one of two: the instruction is shared, with one that the buffer holds with the same opcode
-- and operands, which lies above both operands, or it is a new one at the end of the buffer.
pub opt_cse_lem :
    (b b' : IrBuffer) (i : Ins) (t : Tref)
    → IsValid b
    → is_literal i.opcode ≡ false
    → opt_cse b i ≡ some (t, b')
    → Shared b b' i t.ref_of ⊎ Emits b b' i t.ref_of
opt_cse_lem b b' i t v c e = go b.opt_cse _ refl (sym (opt_cse_eq b i) ∙ e)
  where
    go :
        (on : Bool) (o : Option ℕ)
        → find_cse (ins_fuel b) b (op12 i) (later_operand i) (b.chain i.opcode) ≡ o
        → chosen b i on o ≡ some (t, b')
        → Shared b b' i t.ref_of ⊎ Emits b b' i t.ref_of
    go false o found e = inr (emit_lem b b' i t v c e)
    go true none found e = inr (emit_lem b b' i t v c e)
    go true (some r) found e =
        let (at, same, above) =
          find_cse_sound (ins_fuel b) b i.opcode (op12 i) (later_operand i) (b.chain i.opcode) r v
            (v.heads i.opcode) found in
        let p : r ≡ t.ref_of = cc in
        let same_buffer : b' ≡ b = cc in
        inl (
          subst (Shared b b' i) p (record {
            unchanged = same_buffer;
            same_opcode = at.same;
            same_operands = same;
            above = above;
            under = at.under;
          }))

-- An instruction on the chain of its opcode in a well-formed buffer, above both operands, with the
-- same operands, is shared: where the optimisation is on there is a result, and the buffer does
-- not change.
pub opt_cse_shared :
    (b : IrBuffer) (i : Ins) (r : ℕ)
    → IsValid b
    → is_literal i.opcode ≡ false
    → b.opt_cse ≡ true
    → OnChain b (b.chain i.opcode) r
    → later_operand i < r
    → op12 (b.ins r) ≡ op12 i
    → (t : Tref) × (opt_cse b i ≡ some (t, b))
opt_cse_shared b i r v c on chain above same =
    let head : ref_bias ≤ b.chain i.opcode = elim (v.high_heads i.opcode c) [
      | inl z ↦ absurd (OnChain-nonzero b (b.chain i.opcode) r chain z)
      | inr high ↦ high
    ] in
    let last : b.chain i.opcode < b.bufmax = elim (v.heads i.opcode) [
      | inl z ↦ absurd (OnChain-nonzero b (b.chain i.opcode) r chain z)
      | inr at ↦ at.under
    ] in
    let (k, found) =
      find_cse_complete (ins_fuel b) b (op12 i) (later_operand i) (b.chain i.opcode) r v head last
        (omega arith) chain above same in
    (tref k (b.ins k).tag, opt_cse_eq b i ∙ ap₂ (chosen b i) on found)
