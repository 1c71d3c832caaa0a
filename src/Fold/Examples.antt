-- ===== src/Fold/Examples.antt =====
-- Tests of the fold engine, and the theorem about it at a concrete instruction.
use lambdachine.Common.{
  ◌+◌, ◌≢◌, ℕ, ◌≤◌, ◌<◌, ◌≡◌, ◌⊎◌, inl, inr, refl, true, arith, ◌==◌, if◌then◌else◌, some,
}
use lambdachine.Ir.{
  Opcode, opcode_eq, number, IrType, is_signed, is_float, left_operand, right_operand, plain, Ins,
  ref_bias,
}
use lambdachine.IrBuffer.{IrBuffer, literal_value}
use lambdachine.IrBuffer.Examples.{sum, sum-IsValid}
use lambdachine.AbstractHeap.{set_field, update, num_fields, is_indirection}
use lambdachine.AbstractHeap.Examples.{one_object, one_object-IsValid}
use lambdachine.Fold.Forwarding.{Loads, do_fold-set_field, do_fold-update}
use lambdachine.FoldRules.{
  give, FoldState, Outcome, Folded, simplify_intsub, simplify_intsubadd_leftcancel,
}
use lambdachine.Fold.{do_fold, fold_round, load_operands}
use lambdachine.Fold.Meaning.{is_arith, Models, Ready}
use lambdachine.Fold.Sound.{Kept, do_fold_lem}

abbrev difference : Ins
difference = record {
  opcode = Opcode.sub;
  tag = plain IrType.i64;
  op1 = 32769;
  op2 = 32768;
  prev = 0;
}

-- (x + 5) - x.
abbrev state : FoldState
state = record { ins = difference; left = difference; right = difference }

abbrev five : Folded
five = record {
  outcome = Outcome.use_ref 32767;
  state = record state { left = sum.ins 32769; right = sum.ins 32768 };
  buf = sum;
}

abbrev info_of : ℕ → ℕ
info_of _ = 0

two_refs : (r : ℕ) → ref_bias ≤ r → r < 32770 → (r ≡ 32768) ⊎ (r ≡ 32769)
two_refs r p q = ground arith

only_add : (r : ℕ) → ref_bias ≤ r → r < 32770 → is_arith (sum.ins r).opcode ≡ true → r ≡ 32769
only_add r p q a = elim (two_refs r p q) [ inl load ↦ let a' = rw load at a in cc | inr add ↦ add ]

folded : do_fold info_of state sum ≡ some five
unfolding do_fold simplify_intsub simplify_intsubadd_leftcancel opcode_eq number is_float
    left_operand right_operand load_operands fold_round
folded = refl

abbrev values : ℕ → ℕ
values r = if r == 32767 then 5 else if r == 32768 then 100 else if r == 32769 then 105 else 0

state-Ready : Ready state sum
unfolding is_signed
state-Ready = record {
  valid = sum-IsValid;
  closed = λ r p q a.
      rw (only_add r p q a) (inr (omega arith, omega arith), inl (omega arith, omega arith, refl));
  ref1 = inr (omega arith, omega arith);
  ref2 = inr (omega arith, omega arith);
  arithmetic = refl;
  signed = λ h. refl;
}

-- A negation as the recorder emits it, without a second operand.
abbrev negation : FoldState
negation = record state { ins = record difference { opcode = Opcode.neg; op1 = 32769; op2 = 0 } }

negation-Ready : Ready negation sum
unfolding is_signed
negation-Ready = record {
  valid = sum-IsValid;
  closed = state-Ready.closed;
  ref1 = inr (omega arith, omega arith);
  ref2 = tt;
  arithmetic = refl;
  signed = λ h. refl;
}

values-Models : Models sum values
unfolding literal_value is_signed
values-Models = record {
  word = λ r. ground arith;
  literals = λ r p q e. let same : r ≡ 32767 = omega arith in rw same refl;
  computed = λ r p q a. rw (only_add r p q a) refl;
}

do_fold_lem_example : Kept values state sum five
do_fold_lem_example = do_fold_lem info_of state sum values five state-Ready folded values-Models

-- An object of two fields at 32770, a reference to its second field at 32771, and the load of it.
abbrev objects : IrBuffer
objects = record sum {
  ins = λ r.
      if r == 32770
      then record difference { opcode = Opcode.new; op1 = 32767; op2 = 0 }
      else if r == 32771
      then record difference { opcode = Opcode.fref; op1 = 32770; op2 = 2 }
      else sum.ins r;
  bufmax = 32772;
  heap = one_object;
}

abbrev load : FoldState
load = record state { ins = record difference { opcode = Opcode.fload; op1 = 32771; op2 = 0 } }

nonzero : (k : ℕ) → ◌≢◌ {A = ℕ} (k + 1) 0
nonzero k = λ e. absurd (omega arith)

load-Loads : Loads load objects 0 1
load-Loads = record {
  is_load = refl;
  nonzero = nonzero 32770;
  field = refl;
  object = refl;
  entry = refl;
}

do_fold-set_field_example :
    do_fold info_of load (record objects { heap = set_field one_object 0 1 32768 })
    ≡ give
        (Outcome.use_ref 32768)
        (load_operands load objects)
        (record objects { heap = set_field one_object 0 1 32768 })
unfolding num_fields is_indirection
do_fold-set_field_example =
    do_fold-set_field info_of load objects 0 1 32768 load-Loads one_object-IsValid (omega arith)
      (omega arith) refl (nonzero 32767)

-- A reference to the object's first field at 32772, the load of it, and the update of the object with
-- the reference 32769.
abbrev updating : IrBuffer
updating = record objects {
  ins = λ r.
      if r == 32772
      then record difference { opcode = Opcode.fref; op1 = 32770; op2 = 1 }
      else objects.ins r;
  bufmax = 32773;
}

abbrev first_load : FoldState
first_load = record state {
  ins = record difference { opcode = Opcode.fload; op1 = 32772; op2 = 0 };
}

abbrev object_update : FoldState
object_update = record state {
  ins = record difference { opcode = Opcode.update; op1 = 32770; op2 = 32769 };
}

do_fold-update_example :
    (do_fold info_of object_update updating
      ≡ give Outcome.next
          (load_operands object_update updating)
          (record updating { heap = update one_object 0 32769 }))
    × (do_fold info_of first_load (record updating { heap = update one_object 0 32769 })
        ≡ give
            (Outcome.use_ref 32769)
            (load_operands first_load updating)
            (record updating { heap = update one_object 0 32769 }))
do_fold-update_example =
    do_fold-update info_of object_update first_load updating 0 32769
      (record { is_update = refl; nonzero = nonzero 32769; object = refl; entry = refl; by = refl })
      (record {
        is_load = refl;
        nonzero = nonzero 32771;
        field = refl;
        object = refl;
        entry = refl;
      })
      (omega arith) (omega arith)
