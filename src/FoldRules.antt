-- ===== src/FoldRules.antt =====
-- The rules of the fold engine (vm/ir_fold.cc). A rule sees the instruction to emit and the
-- instructions of its operands; `none` is an exit of the program.
use lambdachine.Common.{
  ℕ, ◌+◌, ◌-◌, ◌*◌, ◌%◌, ◌^◌, Bool, true, false, not, ◌&&◌, ltb, ◌==◌, if◌then◌else◌, write, Option,
  none, some, ◌>>=◌,
}
use lambdachine.Ir.{Opcode, opcode_eq, IrType, type_eq, is_integer, is_float, Ins, is_lit, ref_ind}
use lambdachine.AbstractHeap.{update, is_indirection, get_field}
use lambdachine.IrBuffer.{IrBuffer, literal, literal_value}

pub record FoldState : Type 0 where
  pub ins : Ins
  pub left : Ins
  pub right : Ins

-- NEXTFOLD, RETRYFOLD, KLITFOLD with its literal, FAILFOLD, DROPFOLD, or a reference.
pub data Outcome : Type 0 where
  next retry fail drop : Outcome
  klit : ℕ → Outcome
  use_ref : ℕ → Outcome

pub record Folded : Type 0 where
  pub outcome : Outcome
  pub state : FoldState
  pub buf : IrBuffer

abbrev pub give : Outcome → FoldState → IrBuffer → Option Folded
give o fs b = some (record { outcome = o; state = fs; buf = b })

abbrev pub set_ins : FoldState → Ins → FoldState
set_ins fs i = record fs { ins = i }

-- kfold_intop: 64-bit arithmetic wraps.
unfoldable pub arith_op : ℕ → ℕ → Opcode → ℕ
arith_op k1 k2 Opcode.add = (k1 + k2) % 2 ^ 64
arith_op k1 k2 Opcode.sub = (k1 + 2 ^ 64 - k2) % 2 ^ 64
arith_op k1 k2 Opcode.mul = k1 * k2 % 2 ^ 64
arith_op k1 k2 Opcode.neg = (2 ^ 64 - k1) % 2 ^ 64
arith_op k1 k2 _ = k1

abbrev pub Rule : Type 0
Rule = FoldState → IrBuffer → Option Folded

abbrev pub is_i64 : Ins → Bool
is_i64 i = type_eq i.tag.type IrType.i64

unfoldable pub kfold_arith : Rule
kfold_arith fs b =
    if is_i64 fs.ins
    then give
        (Outcome.klit
          (arith_op (literal_value b fs.ins.op1) (literal_value b fs.ins.op2) fs.ins.opcode))
        fs b
    else give Outcome.next fs b

unfoldable pub simplify_intadd_k : Rule
simplify_intadd_k fs b =
    if is_i64 fs.ins && literal_value b fs.ins.op2 == 0
    then give (Outcome.use_ref fs.ins.op1) fs b
    else give Outcome.next fs b

unfoldable pub comm_swap : Rule
comm_swap fs b =
    if ltb fs.ins.op1 fs.ins.op2
    then give Outcome.retry (set_ins fs (record (fs.ins) { op1 = fs.ins.op2; op2 = fs.ins.op1 })) b
    else give Outcome.next fs b

-- The rest of a rule that makes a literal for the right operand.
unfoldable pub with_literal : FoldState → IrBuffer → ℕ → Ins → Option Folded
with_literal fs b k i = do
  (tr, b') ← literal b fs.ins.tag.type k
  give Outcome.retry (set_ins fs (record i { op2 = tr.ref_of })) b'

unfoldable pub reassoc_int_arith : Rule
unfolding with_literal
reassoc_int_arith fs b =
    let k1 = literal_value b fs.left.op2 in
    let k2 = literal_value b fs.ins.op2 in
    let k = arith_op k1 k2 fs.ins.opcode in
    if is_i64 fs.ins && is_lit fs.left.op2
    then (if k == k1
        then give (Outcome.use_ref fs.ins.op1) fs b
        else if fs.left.tag.phi
        then give Outcome.next fs b
        else with_literal fs b k (record (fs.ins) { op1 = fs.left.op1 }))
    else give Outcome.next fs b

unfoldable pub simplify_sub_k : Rule
unfolding with_literal
simplify_sub_k fs b =
    let k = literal_value b fs.ins.op2 in
    if is_integer fs.ins.tag.type
    then (if k == 0
        then give (Outcome.use_ref fs.ins.op1) fs b
        else with_literal fs b ((2 ^ 64 - k) % 2 ^ 64) (record (fs.ins) { opcode = Opcode.add }))
    else give Outcome.next fs b

unfoldable pub simplify_intsub_kleft : Rule
simplify_intsub_kleft fs b =
    if is_integer fs.ins.tag.type && literal_value b fs.ins.op1 == 0
    then give Outcome.retry (set_ins fs (record (fs.ins) { opcode = Opcode.neg; op1 = fs.ins.op2 }))
        b
    else give Outcome.next fs b

unfoldable pub simplify_intsub : Rule
simplify_intsub fs b =
    if fs.ins.op1 == fs.ins.op2 && not (is_float fs.ins.tag.type)
    then give (Outcome.klit 0) fs b
    else give Outcome.next fs b

unfoldable pub simplify_intsubadd_leftcancel : Rule
simplify_intsubadd_leftcancel fs b =
    if is_float fs.ins.tag.type
    then give Outcome.next fs b
    else if fs.ins.op2 == fs.left.op1
    then give (Outcome.use_ref fs.left.op2) fs b
    else if fs.ins.op2 == fs.left.op2
    then give (Outcome.use_ref fs.left.op1) fs b
    else give Outcome.next fs b

-- The rest of a rule that puts a literal 0 for the left operand.
unfoldable pub zero_minus : FoldState → IrBuffer → ℕ → Option Folded
zero_minus fs b r = do
  (tr, b') ← literal b fs.ins.tag.type 0
  give Outcome.retry (set_ins fs (record (fs.ins) { op1 = tr.ref_of; op2 = r })) b'

unfoldable pub simplify_intsubsub_leftcancel : Rule
unfolding zero_minus
simplify_intsubsub_leftcancel fs b =
    if is_float fs.ins.tag.type
    then give Outcome.next fs b
    else if fs.left.tag.phi
    then give Outcome.next fs b
    else if fs.left.op1 == fs.ins.op2
    then zero_minus fs b fs.left.op2
    else give Outcome.next fs b

-- The barrier looks at the left operand, as the code does.
unfoldable pub simplify_intsubsub_rightcancel : Rule
simplify_intsubsub_rightcancel fs b =
    if is_float fs.ins.tag.type
    then give Outcome.next fs b
    else if fs.left.tag.phi
    then give Outcome.next fs b
    else if fs.ins.op1 == fs.right.op1
    then give (Outcome.use_ref fs.right.op2) fs b
    else give Outcome.next fs b

unfoldable pub simplify_intsubadd_rightcancel : Rule
unfolding zero_minus
simplify_intsubadd_rightcancel fs b =
    if is_float fs.ins.tag.type
    then give Outcome.next fs b
    else if fs.right.tag.phi
    then give Outcome.next fs b
    else if fs.ins.op1 == fs.right.op1
    then zero_minus fs b fs.right.op2
    else if fs.ins.op1 == fs.right.op2
    then zero_minus fs b fs.right.op1
    else give Outcome.next fs b

abbrev sub_of : FoldState → IrBuffer → ℕ → ℕ → Option Folded
sub_of fs b x y = give Outcome.retry (set_ins fs (record (fs.ins) { op1 = x; op2 = y })) b

unfoldable pub simplify_intsubaddadd_cancel : Rule
simplify_intsubaddadd_cancel fs b =
    if is_float fs.ins.tag.type
    then give Outcome.next fs b
    else if fs.left.tag.phi
    then give Outcome.next fs b
    else if fs.right.tag.phi
    then give Outcome.next fs b
    else if fs.left.op1 == fs.right.op1
    then sub_of fs b fs.left.op2 fs.right.op2
    else if fs.left.op1 == fs.right.op2
    then sub_of fs b fs.left.op2 fs.right.op1
    else if fs.left.op2 == fs.right.op1
    then sub_of fs b fs.left.op1 fs.right.op2
    else if fs.left.op2 == fs.right.op2
    then sub_of fs b fs.left.op1 fs.right.op1
    else give Outcome.next fs b

-- foldHeapcheck: the check that is there is made larger, in 16 bits.
unfoldable pub fold_heapcheck : Rule
fold_heapcheck fs b =
    let r = b.chain Opcode.heapchk in
    let nwords = ((b.ins r).op1 + fs.ins.op1) % 2 ^ 16 in
    if r == 0
    then give Outcome.next fs b
    else give Outcome.drop fs (record b { ins = write b.ins r (record (b.ins r) { op1 = nwords }) })

abbrev pub verdict : Bool → Outcome
verdict true = Outcome.drop
verdict false = Outcome.fail

-- `info_of` reads the info table pointer of a closure in memory.
unfoldable pub kfold_eqinfo : (ℕ → ℕ) → Rule
kfold_eqinfo info_of fs b =
    let same = info_of (literal_value b fs.ins.op1) == literal_value b fs.ins.op2 in
    if opcode_eq fs.ins.opcode Opcode.eqinfo
    then give (verdict same) fs b
    else give (verdict (not same)) fs b

unfoldable pub kfold_cmp : Rule
kfold_cmp fs b =
    let same = literal_value b fs.ins.op1 == literal_value b fs.ins.op2 in
    if opcode_eq fs.ins.opcode Opcode.eq
    then give (verdict same) fs b
    else if opcode_eq fs.ins.opcode Opcode.ne
    then give (verdict (not same)) fs b
    else none

-- getHeapEntry; `none` is kInvalidHeapEntry.
unfoldable pub heap_entry : IrBuffer → ℕ → Option ℕ
heap_entry b r = if opcode_eq (b.ins r).opcode Opcode.new then some (b.ins r).op2 else none

-- References are above the codes of the outcomes, in every rule, so that of the numbers that a field
-- holds only 0 is a code: NEXTFOLD, for a field that was never set.
abbrev pub as_outcome : ℕ → Outcome
as_outcome r = if r == 0 then Outcome.next else Outcome.use_ref r

-- A load from an object that the trace has updated is one of its first field, as the code asserts: a
-- load of another field stops the program where assertions are compiled in, and else it gives what the
-- model says.
unfoldable pub load_fwd : Rule
unfolding heap_entry
load_fwd fs b = elim (heap_entry b fs.left.op1) [
  | none ↦ give Outcome.next fs b
  | some n ↦
      if is_indirection b.heap n == 0
      then give (as_outcome (get_field b.heap n (fs.left.op2 - 1))) fs b
      else give (Outcome.use_ref (is_indirection b.heap n)) fs b
]

unfoldable pub kfold_update_new : Rule
unfolding heap_entry
kfold_update_new fs b = elim (heap_entry b fs.ins.op1) [
  | none ↦ give Outcome.next fs b
  | some n ↦ give Outcome.next fs (record b { heap = update b.heap n fs.ins.op2 })
]

unfoldable pub kfold_eqinfo_new : Rule
unfolding heap_entry
kfold_eqinfo_new fs b =
    let op = if opcode_eq fs.ins.opcode Opcode.eqinfo then Opcode.eq else Opcode.ne in
    let updated : ℕ = elim (heap_entry b fs.ins.op1) [
      | none ↦ 0
      | some n ↦ is_indirection b.heap n
    ] in
    give Outcome.retry
      (set_ins fs
        (record (fs.ins) { opcode = op; op1 = if updated == 0 then fs.left.op1 else ref_ind }))
      b
