-- ===== src/Fold/SumsRule.antt =====
-- The rule of vm/ir_fold.cc for a difference of two sums that share a summand keeps its value.
use lambdachine.Common.{ℕ, ◌+◌, ◌-◌, ◌%◌, ◌^◌, ◌<◌, ◌≡◌, refl, ap, ◌∙◌, arith, ◌==◌}
use lambdachine.Ir.{Opcode, is_float}
use lambdachine.IrBuffer.{IrBuffer}
use lambdachine.FoldRules.{FoldState, simplify_intsubaddadd_cancel}
use lambdachine.Fold.Meaning.{
  takes_two, compute, meaning, Models, Ready, Loaded, AllGood, if_good, rewrite_good, left_value,
  left_refs, right_value, right_refs,
}
use lambdachine.Fold.AddRules.{next_good}

cancel :
    (x y z p q m : ℕ)
    → x < 2 ^ 64
    → y < 2 ^ 64
    → z < 2 ^ 64
    → p ≡ (x + y) % 2 ^ 64
    → q ≡ (x + z) % 2 ^ 64
    → m ≡ (p + 2 ^ 64 - q) % 2 ^ 64
    → (y + 2 ^ 64 - z) % 2 ^ 64 ≡ m
cancel x y z p q m h₁ h₂ h₃ e₁ e₂ e₃ = omega arith

module _ (fs : FoldState) (b : IrBuffer) (ready : Ready fs b) (is_sub : fs.ins.opcode ≡ Opcode.sub)
    (loaded : Loaded fs b) (p : fs.left.opcode ≡ Opcode.add)
    (q : fs.right.opcode ≡ Opcode.add) where
  -- y - z for x + y and x + z, in whichever order the sums have them.
  difference :
      (V : ℕ → ℕ) (x y z : ℕ)
      → Models b V
      → (V fs.left.op1 + V fs.left.op2 ≡ V x + V y)
      → (V fs.right.op1 + V fs.right.op2 ≡ V x + V z)
      → compute V fs.ins.opcode y z ≡ meaning V fs.ins
  difference V x y z m e₁ e₂ =
      let s = ap (λ o. compute V o fs.ins.op1 fs.ins.op2) is_sub in
      let d = ap (λ o. compute V o y z) is_sub in
      let l : V fs.ins.op1 ≡ (V x + V y) % 2 ^ 64 =
        left_value fs b ready loaded Opcode.add refl V m p ∙ ap (λ n. n % 2 ^ 64) e₁ in
      let r : V fs.ins.op2 ≡ (V x + V z) % 2 ^ 64 =
        right_value fs b ready loaded Opcode.add refl (ap takes_two is_sub) V m q
        ∙ ap (λ n. n % 2 ^ 64) e₂ in
      d
      ∙ cancel (V x) (V y) (V z) (V fs.ins.op1) (V fs.ins.op2) (meaning V fs.ins) (m.word x)
          (m.word y) (m.word z) l r s

  pub simplify_intsubaddadd_cancel_good : AllGood fs b (simplify_intsubaddadd_cancel fs b)
  unfolding simplify_intsubaddadd_cancel
  simplify_intsubaddadd_cancel_good =
      let (l1, l2) = left_refs fs b ready loaded Opcode.add refl refl p in
      let (r1, r2) = right_refs fs b ready loaded Opcode.add refl (ap takes_two is_sub) refl q in
      if_good fs b (is_float fs.ins.tag.type) _ _ (λ h. next_good fs b ready)
        (λ _.
          if_good fs b fs.left.tag.phi _ _ (λ h. next_good fs b ready)
            (λ _.
              if_good fs b fs.right.tag.phi _ _ (λ h. next_good fs b ready)
                (λ _.
                  if_good fs b (fs.left.op1 == fs.right.op1) _ _
                    (λ h.
                      rewrite_good fs b ready fs.ins.opcode fs.left.op2 fs.right.op2
                        ready.arithmetic l2 r2
                        (λ V m.
                          let same : fs.left.op1 ≡ fs.right.op1 = ground arith in
                          difference V fs.left.op1 fs.left.op2 fs.right.op2 m refl
                            (omega (arith, ap V same))))
                    (λ _.
                      if_good fs b (fs.left.op1 == fs.right.op2) _ _
                        (λ h.
                          rewrite_good fs b ready fs.ins.opcode fs.left.op2 fs.right.op1
                            ready.arithmetic l2 r1
                            (λ V m.
                              let same : fs.left.op1 ≡ fs.right.op2 = ground arith in
                              difference V fs.left.op1 fs.left.op2 fs.right.op1 m refl
                                (omega (arith, ap V same))))
                        (λ _.
                          if_good fs b (fs.left.op2 == fs.right.op1) _ _
                            (λ h.
                              rewrite_good fs b ready fs.ins.opcode fs.left.op1 fs.right.op2
                                ready.arithmetic l1 r2
                                (λ V m.
                                  let same : fs.left.op2 ≡ fs.right.op1 = ground arith in
                                  difference V fs.left.op2 fs.left.op1 fs.right.op2 m (omega arith)
                                    (omega (arith, ap V same))))
                            (λ _.
                              if_good fs b (fs.left.op2 == fs.right.op2) _ _
                                (λ h.
                                  rewrite_good fs b ready fs.ins.opcode fs.left.op1 fs.right.op1
                                    ready.arithmetic l1 r1
                                    (λ V m.
                                      let same : fs.left.op2 ≡ fs.right.op2 = ground arith in
                                      difference V fs.left.op2 fs.left.op1 fs.right.op1 m
                                        (omega arith) (omega (arith, ap V same))))
                                (λ h. next_good fs b ready)))))))
