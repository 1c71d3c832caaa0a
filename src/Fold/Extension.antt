-- ===== src/Fold/Extension.antt =====
-- What further literals in the buffer leave true of the references and of the values in it
-- (vm/ir.cc, vm/ir_fold.cc).
use lambdachine.Common.{
  ℕ, ◌-◌, ◌%◌, ◌^◌, ◌≤◌, ◌<◌, ◌≡◌, ◌⊎◌, inl, inr, refl, ap, sym, ◌∙◌, Bool, true, arith, leb, not,
  ◌&&◌, if◌then◌else◌, some, Option-cases,
}
use mathlib.Core.Path.{subst}
use lambdachine.Ir.{Opcode, op12, is_integer, is_signed, Ins, Tref, ref_bias}
use lambdachine.IrBuffer.{IrBuffer, literal, literal_value, value_of}
use lambdachine.IrBuffer.Chains.{IsValid}
use lambdachine.IrBuffer.Extends.{Extends}
use lambdachine.IrBuffer.Growth.{Grows, literal-Grows}
use lambdachine.IrBuffer.Literals.{literal_value-literal}
use lambdachine.FoldRules.{FoldState, Outcome, give, set_ins, with_literal, zero_minus}
use lambdachine.Fold.Meaning.{
  is_arith, compute, meaning, IsRef, IsSecond, IsRef-IsSecond, Closed, Models, Ready, AllGood,
}

module _ (b b' : IrBuffer) (v : IsValid b) (x : Extends b b') where
  value_kept :
      (r : ℕ) (o : Opcode)
      → b.bufmin ≤ r
      → r < ref_bias
      → (b.ins r).opcode ≡ o
      → value_of b' r (b.ins r) o ≡ value_of b r (b.ins r) o
  value_kept r Opcode.kword p q h =
      let e = ap op12 (x.kept (r - 1) (omega (arith, v.halves r p q h))) in rw e refl
  value_kept r Opcode.kbaseo p q h = rw x.same_slots refl
  value_kept r _ p q h = refl

  pub literal_value_kept :
      (r : ℕ) → b.bufmin ≤ r → r < ref_bias → literal_value b' r ≡ literal_value b r
  unfolding literal_value
  literal_value_kept r p q = rw (x.kept r p) (value_kept r (b.ins r).opcode p q refl)

  pub IsRef-kept : (r : ℕ) → IsRef b r → IsRef b' r
  IsRef-kept r (inl (p, q, e)) = inl (omega (arith, x.lower), q, rw (x.kept r p) e)
  IsRef-kept r (inr (p, q)) = inr (p, omega (arith, x.same_max))

  IsSecond-kept : (o : Opcode) (r : ℕ) → IsSecond b o r → IsSecond b' o r
  IsSecond-kept Opcode.neg r h = tt
  IsSecond-kept _ r h = IsRef-kept r h

  pub Closed-kept : Closed b → Closed b'
  Closed-kept c r p q a =
      let e = x.kept r (omega (arith, v.bias_above)) in
      let (f, g) = c r p (omega (arith, x.same_max)) (rw e at a) in
      (rw e (IsRef-kept _ f), rw e (IsSecond-kept _ _ g))

  pub Models-kept : (V : ℕ → ℕ) → Models b' V → Models b V
  Models-kept V m = record {
    word = m.word;
    literals = λ r p q e.
        m.literals r (omega (arith, x.lower)) q (rw (x.kept r p) e) ∙ literal_value_kept r p q;
    computed = λ r p q a.
        let e = x.kept r (omega (arith, v.bias_above)) in
        m.computed r p (omega (arith, x.same_max)) (rw e a) ∙ ap (meaning V) e;
  }

module _ (fs : FoldState) (b : IrBuffer) (ready : Ready fs b) where
  comes_back :
      (k : ℕ) (s : Bool)
      → (s ≡ true) ⊎ (k ≡ 0)
      → (if not s && leb (2 ^ 64 - 2 ^ 31) k then k % 2 ^ 32 else k) ≡ k
  comes_back k s h = ground arith

  -- The literal of a rule: the buffer after it, and its value.
  pub literal_good :
      (b' : IrBuffer) (k : ℕ) (t : Tref)
      → k < 2 ^ 64
      → (is_signed fs.ins.tag.type ≡ true) ⊎ (k ≡ 0)
      → literal b fs.ins.tag.type k ≡ some (t, b')
      → Grows b b' t.ref_of × ((V : ℕ → ℕ) → Models b' V → V t.ref_of ≡ k)
  literal_good b' k t h s e =
      let g = literal-Grows b b' fs.ins.tag.type k t ready.valid e in
      (
        g,
        λ V m.
            m.literals t.ref_of g.above g.below g.holds_value
            ∙ literal_value-literal b b' fs.ins.tag.type k t ready.valid h e
            ∙ comes_back k (is_signed fs.ins.tag.type) s,
      )

  -- A new instruction with a literal among its operands.
  pub literal_rewrite :
      (b' : IrBuffer) (i : Ins)
      → Extends b b'
      → IsValid b'
      → is_arith i.opcode ≡ true
      → i.tag ≡ fs.ins.tag
      → IsRef b' i.op1
      → IsRef b' i.op2
      → ((V : ℕ → ℕ) → Models b' V → meaning V i ≡ meaning V fs.ins)
      → AllGood fs b (give Outcome.retry (set_ins fs i) b')
  literal_rewrite b' i x v a t p q means = record {
    ready = record {
      valid = v;
      closed = Closed-kept b b' ready.valid x ready.closed;
      ref1 = p;
      ref2 = IsRef-IsSecond b' i.opcode i.op2 q;
      arithmetic = a;
      signed =
          subst (λ (y : _). is_integer y.type ≡ true → is_signed y.type ≡ true) (sym t)
            ready.signed;
    };
    unchanged = λ e. cc;
    extends = x;
    means = means;
  }

  pub with_literal_good :
      (k : ℕ) (i : Ins)
      → k < 2 ^ 64
      → (is_signed fs.ins.tag.type ≡ true) ⊎ (k ≡ 0)
      → is_arith i.opcode ≡ true
      → i.tag ≡ fs.ins.tag
      → IsRef b i.op1
      → ((V : ℕ → ℕ) (r : ℕ) → Models b V → V r ≡ k → compute V i.opcode i.op1 r ≡ meaning V fs.ins)
      → AllGood fs b (with_literal fs b k i)
  unfolding with_literal
  with_literal_good k i h s a t p means = elim (Option-cases (literal b fs.ins.tag.type k)) [
    | inl e ↦ rw e tt
    | inr ((tr, b'), e) ↦
        let (g, value) = literal_good b' k tr h s e in
        rw e (
          literal_rewrite b' (record i { op2 = tr.ref_of }) g.extends g.valid a t
            (IsRef-kept b b' ready.valid g.extends i.op1 p) (inl (g.above, g.below, g.holds_value))
            (λ V m. means V tr.ref_of (Models-kept b b' ready.valid g.extends V m) (value V m)))
  ]

  pub zero_minus_good :
      (r : ℕ)
      → IsRef b r
      → ((V : ℕ → ℕ) (z : ℕ)
          → Models b V
          → V z ≡ 0
          → compute V fs.ins.opcode z r ≡ meaning V fs.ins)
      → AllGood fs b (zero_minus fs b r)
  unfolding zero_minus
  zero_minus_good r p means = elim (Option-cases (literal b fs.ins.tag.type 0)) [
    | inl e ↦ rw e tt
    | inr ((tr, b'), e) ↦
        let (g, value) = literal_good b' 0 tr (omega arith) (inr refl) e in
        rw e (
          literal_rewrite b' (record (fs.ins) { op1 = tr.ref_of; op2 = r }) g.extends g.valid
            ready.arithmetic refl (inl (g.above, g.below, g.holds_value))
            (IsRef-kept b b' ready.valid g.extends r p)
            (λ V m. means V tr.ref_of (Models-kept b b' ready.valid g.extends V m) (value V m)))
  ]
