-- ===== src/Fold/SubRules.antt =====
-- The rules of vm/ir_fold.cc that a subtraction is tried on keep its value.
use lambdachine.Common.{ℕ, ◌+◌, ◌-◌, ◌%◌, ◌^◌, ◌≡◌, inl, refl, ap, true, arith, not, ◌&&◌, ◌==◌}
use lambdachine.Ir.{Opcode, is_integer, is_float, is_lit}
use lambdachine.IrBuffer.{IrBuffer, literal_value}
use lambdachine.FoldRules.{
  FoldState, Outcome, simplify_sub_k, simplify_intsub_kleft, simplify_intsub,
  simplify_intsubadd_leftcancel, simplify_intsubsub_leftcancel, simplify_intsubsub_rightcancel,
  simplify_intsubadd_rightcancel,
}
use lambdachine.Fold.Meaning.{
  IsRef, takes_two, second, compute, meaning, Models, Ready, Loaded, AllGood, if_good, give_good,
  rewrite_good, value_literal, left_value, left_refs, right_value, right_refs,
}
use lambdachine.Fold.Extension.{with_literal_good, zero_minus_good}
use lambdachine.Fold.AddRules.{next_good}

module _ (fs : FoldState) (b : IrBuffer) (ready : Ready fs b)
    (is_sub : fs.ins.opcode ≡ Opcode.sub) where
  two : takes_two fs.ins.opcode ≡ true
  two = ap takes_two is_sub

  ref2 : IsRef b fs.ins.op2
  ref2 = second b fs.ins.opcode fs.ins.op2 two ready.ref2

  sub_meaning : (V : ℕ → ℕ) → meaning V fs.ins ≡ (V fs.ins.op1 + 2 ^ 64 - V fs.ins.op2) % 2 ^ 64
  sub_meaning V = ap (λ o. compute V o fs.ins.op1 fs.ins.op2) is_sub

  sub_of_meaning :
      (V : ℕ → ℕ) (x y : ℕ) → compute V fs.ins.opcode x y ≡ (V x + 2 ^ 64 - V y) % 2 ^ 64
  sub_of_meaning V x y = ap (λ o. compute V o x y) is_sub

  pub simplify_sub_k_good : is_lit fs.ins.op2 ≡ true → AllGood fs b (simplify_sub_k fs b)
  unfolding simplify_sub_k
  simplify_sub_k_good q =
      let k = literal_value b fs.ins.op2 in
      let right = λ (V : ℕ → ℕ) (m : Models b V). value_literal b V m fs.ins.op2 ref2 q in
      if_good fs b (is_integer fs.ins.tag.type) _ _
        (λ int.
          if_good fs b (k == 0) _ _
            (λ is_zero. give_good fs b ready (Outcome.use_ref fs.ins.op1) (λ V m.
              let z : k ≡ 0 = ground arith in
              omega (arith, sub_meaning V, right V m, m.word fs.ins.op1)))
            (λ other.
              with_literal_good fs b ready ((2 ^ 64 - k) % 2 ^ 64)
                (record (fs.ins) { opcode = Opcode.add }) (omega arith) (inl (ready.signed int))
                refl refl ready.ref1
                (λ V r m e. omega (arith, e, sub_meaning V, right V m, m.word fs.ins.op2))))
        (λ h. next_good fs b ready)

  pub simplify_intsub_kleft_good :
      is_lit fs.ins.op1 ≡ true → AllGood fs b (simplify_intsub_kleft fs b)
  unfolding simplify_intsub_kleft
  simplify_intsub_kleft_good p =
      if_good fs b (is_integer fs.ins.tag.type && literal_value b fs.ins.op1 == 0) _ _
        (λ h. rewrite_good fs b ready Opcode.neg fs.ins.op2 fs.ins.op2 refl ref2 ref2 (λ V m.
          let l = value_literal b V m fs.ins.op1 ready.ref1 p in
          let z : literal_value b fs.ins.op1 ≡ 0 = ground arith in omega (arith, sub_meaning V)))
        (λ h. next_good fs b ready)

  pub simplify_intsub_good : AllGood fs b (simplify_intsub fs b)
  unfolding simplify_intsub
  simplify_intsub_good =
      if_good fs b (fs.ins.op1 == fs.ins.op2 && not (is_float fs.ins.tag.type)) _ _
        (λ h. give_good fs b ready (Outcome.klit 0) (λ V m.
          let same : fs.ins.op1 ≡ fs.ins.op2 = ground arith in
          omega (arith, sub_meaning V, ap V same, m.word fs.ins.op1)))
        (λ h. next_good fs b ready)

  -- The rules that look at the operands' instructions.
  module _ (loaded : Loaded fs b) where
    pub simplify_intsubadd_leftcancel_good :
        fs.left.opcode ≡ Opcode.add → AllGood fs b (simplify_intsubadd_leftcancel fs b)
    unfolding simplify_intsubadd_leftcancel
    simplify_intsubadd_leftcancel_good p =
        let left =
          λ (V : ℕ → ℕ) (m : Models b V). left_value fs b ready loaded Opcode.add refl V m p in
        if_good fs b (is_float fs.ins.tag.type) _ _ (λ h. next_good fs b ready)
          (λ _.
            if_good fs b (fs.ins.op2 == fs.left.op1) _ _
              (λ h. give_good fs b ready (Outcome.use_ref fs.left.op2) (λ V m.
                let same : fs.ins.op2 ≡ fs.left.op1 = ground arith in
                omega (
                  arith,
                  sub_meaning V,
                  ap V same,
                  left V m,
                  m.word fs.left.op2,
                  m.word fs.left.op1,
                )))
              (λ _.
                if_good fs b (fs.ins.op2 == fs.left.op2) _ _
                  (λ h. give_good fs b ready (Outcome.use_ref fs.left.op1) (λ V m.
                    let same : fs.ins.op2 ≡ fs.left.op2 = ground arith in
                    omega (
                      arith,
                      sub_meaning V,
                      ap V same,
                      left V m,
                      m.word fs.left.op1,
                      m.word fs.left.op2,
                    )))
                  (λ h. next_good fs b ready)))

    pub simplify_intsubsub_leftcancel_good :
        fs.left.opcode ≡ Opcode.sub → AllGood fs b (simplify_intsubsub_leftcancel fs b)
    unfolding simplify_intsubsub_leftcancel
    simplify_intsubsub_leftcancel_good p =
        let refs = left_refs fs b ready loaded Opcode.sub refl refl p in
        let left =
          λ (V : ℕ → ℕ) (m : Models b V). left_value fs b ready loaded Opcode.sub refl V m p in
        if_good fs b (is_float fs.ins.tag.type) _ _ (λ h. next_good fs b ready)
          (λ _.
            if_good fs b fs.left.tag.phi _ _ (λ h. next_good fs b ready)
              (λ _.
                if_good fs b (fs.left.op1 == fs.ins.op2) _ _
                  (λ h. zero_minus_good fs b ready fs.left.op2 (refs.1) (λ V z m e.
                    let same : fs.left.op1 ≡ fs.ins.op2 = ground arith in
                    omega (
                      arith,
                      sub_of_meaning V z fs.left.op2,
                      e,
                      sub_meaning V,
                      ap V same,
                      left V m,
                      m.word fs.left.op1,
                      m.word fs.left.op2,
                    )))
                  (λ h. next_good fs b ready)))

    pub simplify_intsubsub_rightcancel_good :
        fs.right.opcode ≡ Opcode.sub → AllGood fs b (simplify_intsubsub_rightcancel fs b)
    unfolding simplify_intsubsub_rightcancel
    simplify_intsubsub_rightcancel_good p =
        let right =
          λ (V : ℕ → ℕ) (m : Models b V). right_value fs b ready loaded Opcode.sub refl two V m p in
        if_good fs b (is_float fs.ins.tag.type) _ _ (λ h. next_good fs b ready)
          (λ _.
            if_good fs b fs.left.tag.phi _ _ (λ h. next_good fs b ready)
              (λ _.
                if_good fs b (fs.ins.op1 == fs.right.op1) _ _
                  (λ h. give_good fs b ready (Outcome.use_ref fs.right.op2) (λ V m.
                    let same : fs.ins.op1 ≡ fs.right.op1 = ground arith in
                    omega (
                      arith,
                      sub_meaning V,
                      ap V same,
                      right V m,
                      m.word fs.right.op1,
                      m.word fs.right.op2,
                    )))
                  (λ h. next_good fs b ready)))

    pub simplify_intsubadd_rightcancel_good :
        fs.right.opcode ≡ Opcode.add → AllGood fs b (simplify_intsubadd_rightcancel fs b)
    unfolding simplify_intsubadd_rightcancel
    simplify_intsubadd_rightcancel_good p =
        let refs = right_refs fs b ready loaded Opcode.add refl two refl p in
        let right =
          λ (V : ℕ → ℕ) (m : Models b V). right_value fs b ready loaded Opcode.add refl two V m p in
        if_good fs b (is_float fs.ins.tag.type) _ _ (λ h. next_good fs b ready)
          (λ _.
            if_good fs b fs.right.tag.phi _ _ (λ h. next_good fs b ready)
              (λ _.
                if_good fs b (fs.ins.op1 == fs.right.op1) _ _
                  (λ h. zero_minus_good fs b ready fs.right.op2 (refs.1) (λ V z m e.
                    let same : fs.ins.op1 ≡ fs.right.op1 = ground arith in
                    omega (
                      arith,
                      sub_of_meaning V z fs.right.op2,
                      e,
                      sub_meaning V,
                      ap V same,
                      right V m,
                      m.word fs.right.op1,
                      m.word fs.right.op2,
                    )))
                  (λ _.
                    if_good fs b (fs.ins.op1 == fs.right.op2) _ _
                      (λ h. zero_minus_good fs b ready fs.right.op1 (refs.0) (λ V z m e.
                        let same : fs.ins.op1 ≡ fs.right.op2 = ground arith in
                        omega (
                          arith,
                          sub_of_meaning V z fs.right.op1,
                          e,
                          sub_meaning V,
                          ap V same,
                          right V m,
                          m.word fs.right.op1,
                          m.word fs.right.op2,
                        )))
                      (λ h. next_good fs b ready))))
