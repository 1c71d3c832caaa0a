-- ===== src/IrBuffer.antt =====
-- The buffer that a trace is recorded into (class IRBuffer of vm/ir.hh and vm/ir.cc): literals grow
-- down from the bias and instructions up from it, each opcode's instructions linked in a chain. The
-- program exits where the buffer is full, and the result is `none`. Assertions are not compiled in.
pub mod Chains
pub mod Literals
pub mod Extends
pub mod Pair
pub mod Growth
pub mod Emission
pub mod Cse
pub mod Start
pub mod Slots
pub mod Examples
use lambdachine.Common.{
  ℕ, zero, suc, ◌+◌, ◌-◌, ◌*◌, ◌/◌, ◌%◌, ◌^◌, Bool, true, false, ◌&&◌, ◌||◌, ltb, leb, ◌==◌,
  if◌then◌else◌, write, Option, none, some, ◌>>=◌, List, [], ◌∷◌, ◌++◌, length,
}
use lambdachine.Common.Int.{ℤ, pos, negsuc, to_i16, to_u16}
use lambdachine.Ir.{
  Opcode, opcode_eq, IrType, type_eq, is_signed, Tag, plain, Ins, op12, Tref, tref, ref_bias,
  ref_base, ref_ind, mark_written, is_none,
}
use lambdachine.Snapshot.{Snapshot, SnapshotData, empty_map}
use lambdachine.AbstractStack.{AbstractStack}
use lambdachine.AbstractStack
use lambdachine.AbstractHeap.{AbstractHeap, empty_heap, heap_check, new_entry}
use Prim.Native.Nat.{bit_or}

-- `snaps` is the vector of snapshots, the oldest first.
pub record IrBuffer : Type 0 where
  pub ins : ℕ → Ins
  pub bufmin : ℕ
  pub bufmax : ℕ
  pub bufstart : ℕ
  pub bufend : ℕ
  pub opt_cse : Bool
  pub opt_fold : Bool
  pub chain : Opcode → ℕ
  pub slots : AbstractStack
  pub snapmap : SnapshotData
  pub snaps : List Snapshot
  pub heap : AbstractHeap
  pub steps : ℕ
  pub pc : ℕ
  pub parent_heap_reserved : ℕ

unfoldable pub next_ins : IrBuffer → Option (ℕ × IrBuffer)
next_ins b =
    if leb b.bufend b.bufmax then none else some (b.bufmax, record b { bufmax = b.bufmax + 1 })

unfoldable pub next_lit : IrBuffer → Option (ℕ × IrBuffer)
next_lit b =
    if leb b.bufmin b.bufstart
    then none
    else some (b.bufmin - 1, record b { bufmin = b.bufmin - 1 })

-- An instruction put in its place, at the head of its opcode's chain.
unfoldable pub put : IrBuffer → ℕ → Ins → IrBuffer
put b ref i = record b {
  ins = write b.ins ref (record i { prev = b.chain i.opcode });
  chain = λ o. if opcode_eq o i.opcode then ref else b.chain o;
}

unfoldable pub snapshot : IrBuffer → ℕ → ℕ → IrBuffer
snapshot b ref pc =
    let taken = AbstractStack.snapshot b.slots b.snapmap ref pc in
    let snap = record (taken.0) {
      steps = (b.steps + 2 ^ 32 - 1) % 2 ^ 16;
      last_heap_entry =
          if b.chain Opcode.new == 0 then negsuc 0 else to_i16 (b.ins (b.chain Opcode.new)).op2;
    } in
    record b { snapmap = taken.1; snaps = b.snaps ++ snap ∷ [] }

-- Emit the instruction as it is, with a snapshot if it is a guard.
unfoldable pub emit : IrBuffer → Ins → Option (Tref × IrBuffer)
unfolding next_ins put
emit b i = do
  (ref, b') ← next_ins b
  let b'' = put b' ref i
  some (tref ref i.tag, if i.tag.guarded then snapshot b'' ref b.pc else b'')

-- `for (ref = chain; ref != 0; ref = prev)` up to the first instruction that passes the test; 0 if
-- there is none.
unfoldable pub find : ℕ → IrBuffer → (ℕ → Bool) → ℕ → ℕ
find zero b test ref = 0
find (suc fuel) b test ref =
    let rest = find fuel b test (b.ins ref).prev in
    if ref == 0 then 0 else (if test ref then ref else rest)

-- checki32: the word is the sign extension of its lower half.
abbrev pub is_i32 : ℕ → Bool
is_i32 lit = ltb lit (2 ^ 31) || leb (2 ^ 64 - 2 ^ 31) lit

-- A literal's 32 bits lie over the operands.
abbrev pub literal_ins : Opcode → Tag → ℕ → Ins
literal_ins o t u = record { opcode = o; tag = t; op1 = u % 2 ^ 16; op2 = u / 2 ^ 16; prev = 0 }

abbrev pub is_kint : IrBuffer → IrType → ℕ → ℕ → Bool
is_kint b ty k ref = op12 (b.ins ref) == k && type_eq (b.ins ref).tag.type ty

abbrev pub is_kword : IrBuffer → IrType → ℕ → ℕ → ℕ → Bool
is_kword b ty lo hi ref =
    type_eq (b.ins ref).tag.type ty && op12 (b.ins ref) == lo && op12 (b.ins (ref - 1)) == hi

-- The number of literals bounds the length of their chains.
abbrev pub literal_fuel : IrBuffer → ℕ
literal_fuel b = suc (ref_bias - b.bufmin)

unfoldable pub new_kint : IrBuffer → IrType → ℕ → Option (Tref × IrBuffer)
unfolding next_lit put
new_kint b ty k = do
  (ref, b') ← next_lit b
  some (tref ref (plain ty), put b' ref (literal_ins Opcode.kint (plain ty) k))

unfoldable pub new_kword : IrBuffer → IrType → ℕ → ℕ → Option (Tref × IrBuffer)
unfolding next_lit put
new_kword b ty lo hi = do
  (reflo, b1) ← next_lit b
  (refhi, b2) ← next_lit b1
  let b3 = put b2 reflo (literal_ins Opcode.kword (plain ty) lo)
  some (tref reflo (plain ty), put b3 refhi (literal_ins Opcode.kwordhi (plain ty) hi))

-- The literal of a type and a 64-bit word, shared with an equal one that is there.
unfoldable pub literal : IrBuffer → IrType → ℕ → Option (Tref × IrBuffer)
unfolding find new_kint new_kword
literal b ty lit =
    let k = lit % 2 ^ 32 in
    let hi = lit / 2 ^ 32 in
    let kint = find (literal_fuel b) b (is_kint b ty k) (b.chain Opcode.kint) in
    let kword = find (literal_fuel b) b (is_kword b ty k hi) (b.chain Opcode.kword) in
    if is_i32 lit
    then (if kint == 0 then new_kint b ty k else some (tref kint (plain ty), b))
    else (if kword == 0 then new_kword b ty k hi else some (tref kword (plain ty), b))

-- A pointer into the stack, by its offset from the stack's base.
unfoldable pub base_literal : IrBuffer → ℕ → Option (Tref × IrBuffer)
unfolding find next_lit put
base_literal b p =
    let offset = AbstractStack.base_offset b.slots p in
    let kbaseo =
      find (literal_fuel b) b (λ ref. op12 (b.ins ref) == offset) (b.chain Opcode.kbaseo) in
    let fresh : Option (Tref × IrBuffer) = do
      (ref, b') ← next_lit b
      some (
        tref ref (plain IrType.ptr),
        put b' ref (literal_ins Opcode.kbaseo (plain IrType.ptr) offset),
      )
    in if kbaseo == 0 then fresh else some (tref kbaseo (plain IrType.ptr), b)

-- The sign extension of 32 bits to 64.
abbrev pub extend_i32 : ℕ → ℕ
extend_i32 u = if ltb u (2 ^ 31) then u else u + (2 ^ 64 - 2 ^ 32)

-- 0 for what is no literal, where the code stops on an assertion.
abbrev pub value_of : IrBuffer → ℕ → Ins → Opcode → ℕ
value_of b ref i Opcode.kint = if is_signed i.tag.type then extend_i32 (op12 i) else op12 i
value_of b ref i Opcode.kword = bit_or (op12 i) (op12 (b.ins (ref - 1)) * 2 ^ 32)
value_of b ref i Opcode.kbaseo = (b.slots.real_orig_base * 8 + extend_i32 (op12 i) * 8) % 2 ^ 64
value_of b ref i _ = 0

unfoldable pub literal_value : IrBuffer → ℕ → ℕ
literal_value b ref = value_of b ref (b.ins ref) (b.ins ref).opcode

-- The search for a common subexpression: along the chain, down to the later operand.
unfoldable pub find_cse : ℕ → IrBuffer → ℕ → ℕ → ℕ → Option ℕ
find_cse zero b word lim ref = none
find_cse (suc fuel) b word lim ref =
    let rest = find_cse fuel b word lim (b.ins ref).prev in
    if ltb lim ref then (if op12 (b.ins ref) == word then some ref else rest) else none

abbrev pub ins_fuel : IrBuffer → ℕ
ins_fuel b = suc (b.bufmax - ref_base)

abbrev pub later_operand : Ins → ℕ
later_operand i = if ltb i.op1 i.op2 then i.op2 else i.op1

unfoldable pub opt_cse : IrBuffer → Ins → Option (Tref × IrBuffer)
unfolding find_cse
opt_cse b i =
    let found = find_cse (ins_fuel b) b (op12 i) (later_operand i) (b.chain i.opcode) in
    if b.opt_cse
    then elim found [ none ↦ emit b i | some ref ↦ some (tref ref (b.ins ref).tag, b) ]
    else emit b i

abbrev no_ins : Ins
no_ins = record { opcode = Opcode.nop; tag = plain IrType.unknown; op1 = 0; op2 = 0; prev = 0 }

-- IRBuffer::reset for a buffer of `size` instructions, a quarter of them literals. What the allocated
-- memory holds does not matter; `pc` is as it was.
abbrev pub blank : ℕ → ℕ → ℕ → ℕ → IrBuffer
blank size base top pc = record {
  ins = λ _. no_ins;
  bufmin = ref_bias;
  bufmax = ref_base;
  bufstart = ref_bias - size / 4;
  bufend = ref_bias - size / 4 + size;
  opt_cse = true;
  opt_fold = true;
  chain = λ _. 0;
  slots = AbstractStack.reset base top;
  snapmap = empty_map;
  snaps = [];
  heap = empty_heap;
  steps = 0;
  pc = pc;
  parent_heap_reserved = 0;
}

abbrev pub base_ins : Ins
base_ins = record { opcode = Opcode.base; tag = plain IrType.ptr; op1 = 0; op2 = 0; prev = 0 }

-- The reference is that of the literal for the info table of indirections.
unfoldable pub reset : ℕ → ℕ → ℕ → ℕ → ℕ → Option (Tref × IrBuffer)
unfolding emit literal
reset size base top pc ind_info = do
  (_, b) ← emit (blank size base top pc) base_ins
  literal b IrType.info ind_info

abbrev pub new_ins : ℕ → Ins
new_ins itblref = record {
  opcode = Opcode.new;
  tag = plain IrType.clos;
  op1 = itblref;
  op2 = 0;
  prev = 0;
}

-- emitNEW: the instruction, with the number of the heap entry in its second operand.
unfoldable pub emit_new : IrBuffer → ℕ → ℕ → Option (Tref × ℕ × IrBuffer)
unfolding emit
emit_new b itblref nfields = do
  (tr, b') ← emit b (new_ins itblref)
  (entry, heap') ← new_entry b'.heap tr.ref_of nfields
  let i = b'.ins tr.ref_of
  some (
    tr,
    entry,
    record b' { ins = write b'.ins tr.ref_of (record i { op2 = entry % 2 ^ 16 }); heap = heap' },
  )

abbrev pub sload_ins : ℕ → Ins
sload_ins n = record {
  opcode = Opcode.sload;
  tag = plain IrType.unknown;
  op1 = n;
  op2 = 0;
  prev = 0;
}

-- The reference that a slot holds; a slot that holds none is loaded.
unfoldable pub slot : IrBuffer → ℤ → Option (Tref × IrBuffer)
unfolding emit
slot b n =
    let s = AbstractStack.get b.slots n in
    if is_none s
    then (do
      (loaded, b') ← emit b (sload_ins (to_u16 (AbstractStack.absolute b.slots n)))
      some (loaded, record b' { slots = AbstractStack.set b'.slots n loaded }))
    else some (s, b)

unfoldable pub set_slot : IrBuffer → ℤ → Tref → IrBuffer
set_slot b n tr =
    let value = if tr.ref_of == 0 then tr else mark_written tr in
    record b { slots = AbstractStack.set b.slots n value }

unfoldable pub set_parent_heap_reserved : IrBuffer → ℕ → IrBuffer
set_parent_heap_reserved b nwords = record b {
  parent_heap_reserved = nwords;
  heap = record b.heap { reserved = pos nwords };
}
