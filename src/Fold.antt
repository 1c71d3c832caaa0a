-- ===== src/Fold.antt =====
-- The fold engine (IRBuffer::doFold and IRBuffer::optFold of vm/ir_fold.cc): which rules an
-- instruction is tried on, in which order, and what is emitted in the end.
pub mod Meaning
pub mod Extension
pub mod AddRules
pub mod SubRules
pub mod SumsRule
pub mod Rounds
pub mod Sound
pub mod Forwarding
pub mod Examples
use lambdachine.Common.{
  ℕ, zero, suc, ◌%◌, ◌^◌, Bool, true, false, ◌&&◌, ◌==◌, if◌then◌else◌, Option, none, some, ◌>>=◌,
  List, [], ◌∷◌,
}
use lambdachine.Ir.{
  Opcode, opcode_eq, kind, kind_is_pure, left_operand, right_operand, operand_is_ref, Ins, Tref,
  no_tref, tref, is_lit, IrType, plain,
}
use lambdachine.AbstractHeap.{heap_check}
use lambdachine.IrBuffer.{IrBuffer, emit, literal, opt_cse}
use lambdachine.FoldRules.{
  FoldState, Outcome, Folded, give, Rule, kfold_arith, simplify_intadd_k, comm_swap,
  reassoc_int_arith, simplify_sub_k, simplify_intsub_kleft, simplify_intsub,
  simplify_intsubadd_leftcancel, simplify_intsubsub_leftcancel, simplify_intsubsub_rightcancel,
  simplify_intsubadd_rightcancel, simplify_intsubaddadd_cancel, fold_heapcheck, kfold_eqinfo,
  kfold_cmp, load_fwd, kfold_update_new, kfold_eqinfo_new,
}

-- The rules of an opcode, each under its test (PATTERN), in order: the first that applies gives the
-- result.
unfoldable pub run : List (Bool × Rule) → Rule
run [] fs b = give Outcome.next fs b
run ((guard, rule) ∷ rest) fs b =
    let otherwise = run rest in
    if guard
    then (do r ← rule fs b; elim r.outcome [ Outcome.next ↦ otherwise r.state r.buf | _ ↦ some r ])
    else otherwise fs b

abbrev lit_left : FoldState → Bool
lit_left fs = is_lit fs.ins.op1

abbrev lit_right : FoldState → Bool
lit_right fs = is_lit fs.ins.op2

abbrev pub left_is : FoldState → Opcode → Bool
left_is fs o = opcode_eq fs.left.opcode o

abbrev right_is : FoldState → Opcode → Bool
right_is fs o = opcode_eq fs.right.opcode o

unfoldable pub fold_add : FoldState → List (Bool × Rule)
fold_add fs =
    (lit_left fs && lit_right fs, kfold_arith)
    ∷ (left_is fs Opcode.add && lit_right fs, reassoc_int_arith)
    ∷ (lit_right fs, simplify_intadd_k)
    ∷ (true, comm_swap)
    ∷ []

unfoldable pub fold_sub : FoldState → List (Bool × Rule)
fold_sub fs =
    (lit_left fs && lit_right fs, kfold_arith)
    ∷ (lit_right fs, simplify_sub_k)
    ∷ (lit_left fs, simplify_intsub_kleft)
    ∷ (true, simplify_intsub)
    ∷ (left_is fs Opcode.add, simplify_intsubadd_leftcancel)
    ∷ (left_is fs Opcode.sub, simplify_intsubsub_leftcancel)
    ∷ (right_is fs Opcode.sub, simplify_intsubsub_rightcancel)
    ∷ (right_is fs Opcode.add, simplify_intsubadd_rightcancel)
    ∷ (left_is fs Opcode.add && right_is fs Opcode.add, simplify_intsubaddadd_cancel)
    ∷ []

unfoldable pub fold_info : (ℕ → ℕ) → FoldState → List (Bool × Rule)
fold_info info_of fs =
    (lit_left fs && lit_right fs, kfold_eqinfo info_of)
    ∷ (left_is fs Opcode.new && lit_right fs, kfold_eqinfo_new)
    ∷ []

abbrev fold_cmp : FoldState → List (Bool × Rule)
fold_cmp fs = (lit_left fs && lit_right fs, kfold_cmp) ∷ []

-- The switch on the opcode.
unfoldable pub rules : (ℕ → ℕ) → Opcode → FoldState → List (Bool × Rule)
unfolding fold_add fold_sub fold_info
rules info_of Opcode.add fs = fold_add fs
rules info_of Opcode.sub fs = fold_sub fs
rules info_of Opcode.update fs = (left_is fs Opcode.new, kfold_update_new) ∷ []
rules info_of Opcode.eqinfo fs = fold_info info_of fs
rules info_of Opcode.neinfo fs = fold_info info_of fs
rules info_of Opcode.heapchk fs = (true, fold_heapcheck) ∷ []
rules info_of Opcode.eq fs = fold_cmp fs
rules info_of Opcode.ne fs = fold_cmp fs
rules info_of Opcode.fload fs = (true, load_fwd) ∷ []
rules info_of _ fs = []

-- The instructions of the operands that are references.
unfoldable pub load_operands : FoldState → IrBuffer → FoldState
load_operands fs b =
    let l = if operand_is_ref (left_operand fs.ins.opcode) then fs.ins.op1 else 0 in
    let r = if operand_is_ref (right_operand fs.ins.opcode) then fs.ins.op2 else 0 in
    record fs {
      left = if l == 0 then fs.left else b.ins l;
      right = if r == 0 then fs.right else b.ins r;
    }

unfoldable pub fold_round : (ℕ → ℕ) → Rule
unfolding run rules load_operands
fold_round info_of fs b =
    let loaded = load_operands fs b in run (rules info_of fs.ins.opcode loaded) loaded b

-- The rounds left; where they run out the instruction is emitted as it is.
unfoldable pub fold_loop : (ℕ → ℕ) → ℕ → Rule
fold_loop info_of zero fs b = give Outcome.next fs b
fold_loop info_of (suc rounds) fs b = do
  r ← fold_round info_of fs b
  elim r.outcome [ Outcome.retry ↦ fold_loop info_of rounds r.state r.buf | _ ↦ some r ]

unfoldable pub do_fold : (ℕ → ℕ) → Rule
unfolding fold_loop
do_fold info_of = fold_loop info_of 130

-- A reference with the buffer, the exception of a guard that always fails, or an exit.
pub data Emitted : Type 0 where
  emitted : Tref → IrBuffer → Emitted
  failing_guard : Emitted
  exit : Emitted

abbrev of_option : Option (Tref × IrBuffer) → Emitted
of_option none = exit
of_option (some (t, b)) = emitted t b

unfoldable pub emit_unfolded : IrBuffer → Ins → Emitted
emit_unfolded b i =
    if kind_is_pure (kind i.opcode) then of_option (opt_cse b i) else of_option (emit b i)

abbrev finish : Option Folded → Emitted
finish none = exit
finish (some r) = elim r.outcome [
  | Outcome.next ↦ emit_unfolded r.buf r.state.ins
  | Outcome.use_ref x ↦ emitted (tref x (r.buf.ins x).tag) r.buf
  | Outcome.klit k ↦ of_option (literal r.buf r.state.ins.tag.type k)
  | Outcome.fail ↦ failing_guard
  | _ ↦ emitted no_tref r.buf
]

unfoldable pub opt_fold : (ℕ → ℕ) → FoldState → IrBuffer → Emitted
unfolding do_fold emit_unfolded
opt_fold info_of fs b =
    if opcode_eq fs.ins.opcode Opcode.save
    then of_option (emit b fs.ins)
    else if b.opt_fold
    then finish (do_fold info_of fs b)
    else emit_unfolded b fs.ins

-- IRBuffer::emit through the optimisation, with the fold state that the last instruction left.
unfoldable pub emit_folded : (ℕ → ℕ) → FoldState → Ins → IrBuffer → Emitted
unfolding opt_fold
emit_folded info_of fs i b = opt_fold info_of (record fs { ins = i }) b

-- emitHeapCheck. No rule makes a heap check fail while it is recorded.
unfoldable pub emit_heap_check : (ℕ → ℕ) → FoldState → ℕ → IrBuffer → Emitted
unfolding emit_folded
emit_heap_check info_of fs nwords b =
    let i : Ins = record {
      opcode = Opcode.heapchk;
      tag = record (plain IrType.void) { guarded = true };
      op1 = nwords % 2 ^ 16;
      op2 = 0;
      prev = 0;
    } in
    elim (emit_folded info_of fs i b) [
      | emitted t b' ↦ emitted t (record b' { heap = heap_check b'.heap nwords })
      | other ↦ other
    ]
