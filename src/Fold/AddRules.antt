-- ===== src/Fold/AddRules.antt =====
-- The rules of vm/ir_fold.cc that an addition is tried on keep its value, and constant folding does.
use lambdachine.Common.{
  ℕ, ◌+◌, ◌%◌, ◌^◌, ◌≡◌, inl, refl, ap, sym, ◌∙◌, true, arith, ltb, ◌&&◌, ◌==◌,
}
use mathlib.Core.Path.{ap₂}
use lambdachine.Ir.{Opcode, IrType, is_signed, is_lit}
use lambdachine.Ir.Opcodes.{type_eq_sound}
use lambdachine.IrBuffer.{IrBuffer, literal_value}
use lambdachine.FoldRules.{
  FoldState, Outcome, give, arith_op, is_i64, kfold_arith, simplify_intadd_k, comm_swap,
  reassoc_int_arith,
}
use lambdachine.Fold.Meaning.{
  is_arith, IsRef, takes_two, second, compute, meaning, Models, Ready, Loaded, AllGood, if_good,
  give_good, rewrite_good, value_literal, left_value, left_refs,
}
use lambdachine.Fold.Extension.{with_literal_good}

arith_op_lem :
    (V : ℕ → ℕ) (o : Opcode) (x y : ℕ)
    → is_arith o ≡ true
    → arith_op (V x) (V y) o ≡ compute V o x y
unfolding arith_op
arith_op_lem V Opcode.add x y h = refl
arith_op_lem V Opcode.sub x y h = refl
arith_op_lem V Opcode.neg x y h = refl
arith_op_lem V _ x y h = cc

module _ (fs : FoldState) (b : IrBuffer) (ready : Ready fs b) where
  pub next_good : AllGood fs b (give Outcome.next fs b)
  next_good = give_good fs b ready Outcome.next (λ V m. refl)

  pub i64_signed : is_i64 fs.ins ≡ true → is_signed fs.ins.tag.type ≡ true
  unfolding is_signed
  i64_signed h = rw (type_eq_sound fs.ins.tag.type IrType.i64 h) refl

  pub kfold_arith_good :
      takes_two fs.ins.opcode ≡ true
      → is_lit fs.ins.op1 ≡ true
      → is_lit fs.ins.op2 ≡ true
      → AllGood fs b (kfold_arith fs b)
  unfolding kfold_arith
  kfold_arith_good two p q =
      if_good fs b (is_i64 fs.ins) _ _
        (λ h. give_good fs b ready _ (λ V m.
          ap₂ (λ x y. arith_op x y fs.ins.opcode)
            (sym (value_literal b V m fs.ins.op1 ready.ref1 p))
            (sym
              (value_literal b V m fs.ins.op2 (second b fs.ins.opcode fs.ins.op2 two ready.ref2) q))
          ∙ arith_op_lem V fs.ins.opcode fs.ins.op1 fs.ins.op2 ready.arithmetic))
        (λ h. next_good)

  module _ (is_add : fs.ins.opcode ≡ Opcode.add) where
    ref2 : IsRef b fs.ins.op2
    ref2 = second b fs.ins.opcode fs.ins.op2 (ap takes_two is_add) ready.ref2

    add_meaning : (V : ℕ → ℕ) → meaning V fs.ins ≡ (V fs.ins.op1 + V fs.ins.op2) % 2 ^ 64
    add_meaning V = ap (λ o. compute V o fs.ins.op1 fs.ins.op2) is_add

    pub simplify_intadd_k_good : is_lit fs.ins.op2 ≡ true → AllGood fs b (simplify_intadd_k fs b)
    unfolding simplify_intadd_k
    simplify_intadd_k_good q =
        if_good fs b (is_i64 fs.ins && literal_value b fs.ins.op2 == 0) _ _
          (λ h. give_good fs b ready (Outcome.use_ref fs.ins.op1) (λ V m.
            let l = value_literal b V m fs.ins.op2 ref2 q in
            let z : literal_value b fs.ins.op2 ≡ 0 = ground arith in
            omega (arith, add_meaning V, m.word fs.ins.op1)))
          (λ h. next_good)

    pub comm_swap_good : AllGood fs b (comm_swap fs b)
    unfolding comm_swap
    comm_swap_good =
        if_good fs b (ltb fs.ins.op1 fs.ins.op2) _ _
          (λ h.
            rewrite_good fs b ready fs.ins.opcode fs.ins.op2 fs.ins.op1 ready.arithmetic ref2
              ready.ref1
              (λ V m.
                let e = ap (λ o. compute V o fs.ins.op2 fs.ins.op1) is_add in
                omega (arith, e, add_meaning V)))
          (λ h. next_good)

    -- (x + k1) + k2 is x + (k1 + k2).
    pub reassoc_int_arith_good :
        Loaded fs b
        → fs.left.opcode ≡ Opcode.add
        → is_lit fs.ins.op2 ≡ true
        → AllGood fs b (reassoc_int_arith fs b)
    unfolding reassoc_int_arith arith_op
    reassoc_int_arith_good loaded p q =
        let k1 = literal_value b fs.left.op2 in
        let k2 = literal_value b fs.ins.op2 in
        let refs = left_refs fs b ready loaded Opcode.add refl refl p in
        let left =
          λ (V : ℕ → ℕ) (m : Models b V). left_value fs b ready loaded Opcode.add refl V m p in
        let right = λ (V : ℕ → ℕ) (m : Models b V). value_literal b V m fs.ins.op2 ref2 q in
        let sum : arith_op k1 k2 fs.ins.opcode ≡ (k1 + k2) % 2 ^ 64 = ap (arith_op k1 k2) is_add in
        if_good fs b (is_i64 fs.ins && is_lit fs.left.op2) _ _
          (λ h.
            let k1_value = λ (V : ℕ → ℕ) (m : Models b V).
              value_literal b V m fs.left.op2 refs.1 (ground arith) in
            if_good fs b (arith_op k1 k2 fs.ins.opcode == k1) _ _
              (λ same. give_good fs b ready (Outcome.use_ref fs.ins.op1) (λ V m.
                let same' : (k1 + k2) % 2 ^ 64 ≡ k1 = ground arith in
                omega (
                  arith,
                  add_meaning V,
                  left V m,
                  right V m,
                  k1_value V m,
                  m.word fs.ins.op2,
                  m.word fs.ins.op1,
                )))
              (λ other.
                if_good fs b fs.left.tag.phi _ _ (λ phi. next_good)
                  (λ no_phi.
                    with_literal_good fs b ready (arith_op k1 k2 fs.ins.opcode)
                      (record (fs.ins) { op1 = fs.left.op1 }) (omega (arith, sum))
                      (inl (i64_signed (ground arith))) ready.arithmetic refl refs.0
                      (λ V r m e.
                        let c = ap (λ o. compute V o fs.left.op1 r) is_add in
                        omega
                          (arith, c, e, sum, add_meaning V, left V m, right V m, k1_value V m)))))
          (λ h. next_good)
