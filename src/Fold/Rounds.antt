-- ===== src/Fold/Rounds.antt =====
-- One round of IRBuffer::doFold (vm/ir_fold.cc) on an addition, subtraction or negation: the rules of
-- its opcode in their order.
use lambdachine.Common.{
  ap, ◌∙◌, ℕ, ◌≡◌, ◌≢◌, inl, inr, refl, sym, Bool, true, false, ◌&&◌, arith, some, Option-cases,
  List, [], ◌∷◌,
}
use lambdachine.Ir.{Opcode, left_operand, right_operand, operand_is_ref}
use lambdachine.Ir.Opcodes.{opcode_eq_sound}
use lambdachine.IrBuffer.{IrBuffer}
use lambdachine.IrBuffer.Chains.{IsValid}
use lambdachine.FoldRules.{FoldState, Outcome, Folded, Rule}
use lambdachine.Fold.{run, fold_add, fold_sub, rules, load_operands, fold_round}
use lambdachine.Fold.Meaning.{is_arith, takes_two, second, IsRef, Ready, Loaded, Good, AllGood}
use lambdachine.Fold.AddRules.{
  next_good, kfold_arith_good, simplify_intadd_k_good, comm_swap_good, reassoc_int_arith_good,
}
use lambdachine.Fold.SubRules.{
  simplify_sub_k_good, simplify_intsub_kleft_good, simplify_intsub_good,
  simplify_intsubadd_leftcancel_good, simplify_intsubsub_leftcancel_good,
  simplify_intsubsub_rightcancel_good, simplify_intsubadd_rightcancel_good,
}
use lambdachine.Fold.SumsRule.{simplify_intsubaddadd_cancel_good}
use mathlib.Core.Path.{subst}

-- What each rule gives, where its test lets it apply.
abbrev RulesGood : FoldState → IrBuffer → List (Bool × Rule) → Type 0
RulesGood fs b [] = Unit {0}
RulesGood fs b ((g, rule) ∷ rest) = (g ≡ true → AllGood fs b (rule fs b)) × RulesGood fs b rest

applied :
    (fs : FoldState) (b : IrBuffer) (rest : Rule) (o : Outcome) (r : Folded)
    → r.outcome ≡ o
    → Good fs b r
    → AllGood fs b (rest fs b)
    → AllGood fs b (elim o [ Outcome.next ↦ rest r.state r.buf | _ ↦ some r ])
applied fs b rest Outcome.next r e good k = let (p, q) = good.unchanged e in rw (p, q) k
applied fs b rest Outcome.retry r e good k = good
applied fs b rest Outcome.fail r e good k = good
applied fs b rest Outcome.drop r e good k = good
applied fs b rest (Outcome.klit n) r e good k = good
applied fs b rest (Outcome.use_ref n) r e good k = good

run_good :
    (rules : List (Bool × Rule)) (fs : FoldState) (b : IrBuffer)
    → Ready fs b
    → RulesGood fs b rules
    → AllGood fs b (run rules fs b)
unfolding run
run_good [] fs b ready h = next_good fs b ready
run_good ((false, rule) ∷ rest) fs b ready (h, k) = run_good rest fs b ready k
run_good ((true, rule) ∷ rest) fs b ready (h, k) = elim (Option-cases (rule fs b)) [
  | inl e ↦ rw e tt
  | inr (r, e) ↦ rw e (
      applied fs b (run rest) r.outcome r refl (subst (AllGood fs b) e (h refl))
        (run_good rest fs b ready k))
]

both : (x y : Bool) → (x && y) ≡ true → (x ≡ true) × (y ≡ true)
both true true h = (refl, refl)
both true false h = (refl, h)
both false y h = (h, cc)

module _ (fs : FoldState) (b : IrBuffer) (ready : Ready fs b) (loaded : Loaded fs b) where
  fold_add_good : fs.ins.opcode ≡ Opcode.add → RulesGood fs b (fold_add fs)
  unfolding fold_add
  fold_add_good p = (
    λ h. let (l, r) = both _ _ h in kfold_arith_good fs b ready (ap takes_two p) l r,
    (
      λ h.
          let (l, r) = both _ _ h in
          reassoc_int_arith_good fs b ready p loaded (opcode_eq_sound _ _ l) r,
      (λ h. simplify_intadd_k_good fs b ready p h, (λ h. comm_swap_good fs b ready p, tt)),
    ),
  )

  fold_sub_good : fs.ins.opcode ≡ Opcode.sub → RulesGood fs b (fold_sub fs)
  unfolding fold_sub
  fold_sub_good p = (
    λ h. let (l, r) = both _ _ h in kfold_arith_good fs b ready (ap takes_two p) l r,
    (
      λ h. simplify_sub_k_good fs b ready p h,
      (
        λ h. simplify_intsub_kleft_good fs b ready p h,
        (
          λ h. simplify_intsub_good fs b ready p,
          (
            λ h. simplify_intsubadd_leftcancel_good fs b ready p loaded (opcode_eq_sound _ _ h),
            (
              λ h. simplify_intsubsub_leftcancel_good fs b ready p loaded (opcode_eq_sound _ _ h),
              (
                λ h.
                    simplify_intsubsub_rightcancel_good fs b ready p loaded (opcode_eq_sound _ _ h),
                (
                  λ h.
                      simplify_intsubadd_rightcancel_good fs b ready p loaded
                        (opcode_eq_sound _ _ h),
                  (
                    λ h.
                        let (l, r) = both _ _ h in
                        simplify_intsubaddadd_cancel_good fs b ready p loaded
                          (opcode_eq_sound _ _ l) (opcode_eq_sound _ _ r),
                    tt,
                  ),
                ),
              ),
            ),
          ),
        ),
      ),
    ),
  )

load_operands-Ready : (fs : FoldState) (b : IrBuffer) → Ready fs b → Ready (load_operands fs b) b
unfolding load_operands
load_operands-Ready fs b r = record {
  valid = r.valid;
  closed = r.closed;
  ref1 = r.ref1;
  ref2 = r.ref2;
  arithmetic = r.arithmetic;
  signed = r.signed;
}

nonzero : (b : IrBuffer) (r : ℕ) → IsValid b → IsRef b r → r ≢ 0
nonzero b r v (inl (p, q, e)) = omega (arith, v.start, v.literals)
nonzero b r v (inr (p, q)) = omega arith

load_operands-Loaded :
    (fs : FoldState) (b : IrBuffer) (o : Opcode)
    → Ready fs b
    → fs.ins.opcode ≡ o
    → takes_two o ≡ true
    → operand_is_ref (left_operand o) ≡ true
    → operand_is_ref (right_operand o) ≡ true
    → Loaded (load_operands fs b) b
unfolding load_operands
load_operands-Loaded fs b o r e t p q =
    let n1 = nonzero b fs.ins.op1 r.valid r.ref1 in
    let n2 =
      nonzero b fs.ins.op2 r.valid
        (second b fs.ins.opcode fs.ins.op2 (ap takes_two e ∙ t) r.ref2) in
    let p' = rw (sym e) at p in let q' = rw (sym e) at q in (ground arith, ground arith)

round_rules :
    (info_of : ℕ → ℕ) (fs : FoldState) (b : IrBuffer) (o : Opcode)
    → Ready fs b
    → fs.ins.opcode ≡ o
    → is_arith o ≡ true
    → RulesGood (load_operands fs b) b (rules info_of o (load_operands fs b))
unfolding rules load_operands left_operand right_operand
round_rules info_of fs b Opcode.add r e a =
    fold_add_good (load_operands fs b) b (load_operands-Ready fs b r)
      (load_operands-Loaded fs b Opcode.add r e refl refl refl) e
round_rules info_of fs b Opcode.sub r e a =
    fold_sub_good (load_operands fs b) b (load_operands-Ready fs b r)
      (load_operands-Loaded fs b Opcode.sub r e refl refl refl) e
round_rules info_of fs b Opcode.neg r e a = tt
round_rules info_of fs b _ r e a = cc

pub round_good :
    (info_of : ℕ → ℕ) (fs : FoldState) (b : IrBuffer)
    → Ready fs b
    → AllGood (load_operands fs b) b (fold_round info_of fs b)
unfolding fold_round
round_good info_of fs b r =
    run_good _ (load_operands fs b) b (load_operands-Ready fs b r)
      (round_rules info_of fs b fs.ins.opcode r refl r.arithmetic)
