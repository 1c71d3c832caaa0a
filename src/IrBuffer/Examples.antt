-- ===== src/IrBuffer/Examples.antt =====
-- A buffer with a literal and two instructions, and the theorems about making a literal in it.
use lambdachine.Common.{
  write, ℕ, ◌-◌, ◌^◌, ◌≤◌, ◌<◌, ◌≡◌, ◌≢◌, ◌⊎◌, inl, inr, refl, true, false, arith, ◌==◌,
  if◌then◌else◌, some, none, Option, [],
}
use lambdachine.Ir.{
  opcode_eq, Opcode, IrType, type_eq, is_signed, plain, Ins, Tref, tref, ref_bias, ref_ind,
}
use lambdachine.Common.Int.{pos, ◌+ℤ◌}
use lambdachine.Snapshot.{empty_map}
use lambdachine.AbstractStack.{AbstractStack}
use lambdachine.AbstractStack
use lambdachine.AbstractHeap.{empty_heap}
use lambdachine.IrBuffer.{IrBuffer, put, emit, opt_cse, literal, literal_ins, literal_value}
use lambdachine.IrBuffer.{next_ins, slot, blank, base_ins, reset, new_ins, emit_new}
use lambdachine.IrBuffer.Start.{Allocated, reset_lem, emit_new_lem}
use lambdachine.AbstractHeap.{AbstractHeap, new_entry, entry_room, reserve, place_entry}
use lambdachine.AbstractHeap.Examples.{empty_heap-IsValid}
use lambdachine.IrBuffer.Emission.{Emits, emit_lem}
use lambdachine.IrBuffer.Cse.{Shared, here, opt_cse_lem, opt_cse_shared}
use lambdachine.IrBuffer.Chains.{IsAt, IsValid, is_literal}
use lambdachine.IrBuffer.Growth.{Grows, literal-Grows}
use lambdachine.IrBuffer.Literals.{literal_value-literal}
use lambdachine.IrBuffer.Slots.{slot-slot}

abbrev ins_of : Opcode → ℕ → ℕ → Ins
ins_of o x y = record { opcode = o; tag = plain IrType.i64; op1 = x; op2 = y; prev = 0 }

-- The last literal and instruction of each opcode.
abbrev heads_of : Opcode → ℕ
heads_of Opcode.kint = 32767
heads_of Opcode.sload = 32768
heads_of Opcode.add = 32769
heads_of _ = 0

-- The literal 5 at 32767, a load at 32768 and their sum at 32769.
abbrev pub sum : IrBuffer
sum = record {
  ins = λ r.
      if r == 32767
      then literal_ins Opcode.kint (plain IrType.i64) 5
      else if r == 32768
      then ins_of Opcode.sload 0 0
      else if r == 32769
      then ins_of Opcode.add 32768 32767
      else ins_of Opcode.nop 0 0;
  bufmin = 32767;
  bufmax = 32770;
  bufstart = 32000;
  bufend = 34000;
  opt_cse = true;
  opt_fold = true;
  chain = heads_of;
  slots = AbstractStack.reset 1000 1006;
  snapmap = empty_map;
  snaps = [];
  heap = empty_heap;
  steps = 0;
  pc = 0;
  parent_heap_reserved = 0;
}

heads : (o : Opcode) → (heads_of o ≡ 0) ⊎ IsAt sum o (heads_of o)
heads Opcode.kint = inr (record { above = omega arith; under = omega arith; same = refl })
heads Opcode.sload = inr (record { above = omega arith; under = omega arith; same = refl })
heads Opcode.add = inr (record { above = omega arith; under = omega arith; same = refl })
heads _ = inl refl

low_heads : (o : Opcode) → is_literal o ≡ true → heads_of o < ref_bias
low_heads Opcode.sload h = cc
low_heads Opcode.add h = cc
low_heads _ h = omega arith

high_heads : (o : Opcode) → is_literal o ≡ false → (heads_of o ≡ 0) ⊎ (ref_bias ≤ heads_of o)
high_heads Opcode.kint h = cc
high_heads Opcode.sload h = inr (omega arith)
high_heads Opcode.add h = inr (omega arith)
high_heads _ h = inl refl

no_link : (r : ℕ) → (sum.ins r).prev ≡ 0
no_link r = ground arith

pub sum-IsValid : IsValid sum
sum-IsValid = record {
  start = omega arith;
  literals = omega arith;
  bias_above = omega arith;
  bias_below = omega arith;
  end = omega arith;
  width = omega arith;
  heads = heads;
  low_heads = low_heads;
  high_heads = high_heads;
  literal_links = λ r p q. inl (no_link r);
  ins_links = λ r p q. inl (no_link r);
  halves = λ r p q e. ground arith;
}

-- A literal of an unsigned type, below the other one.
abbrev with_ones : IrBuffer
with_ones =
    put (record sum { bufmin = 32766 }) 32766
      (literal_ins Opcode.kint (plain IrType.u64) (2 ^ 32 - 1))

ones : literal sum IrType.u64 (2 ^ 64 - 1) ≡ some (tref 32766 (plain IrType.u64), with_ones)
unfolding literal type_eq
ones = refl

-- All ones, made for an unsigned type, is read back as the lower half alone.
literal_value-literal_example : literal_value with_ones 32766 ≡ 2 ^ 32 - 1
unfolding is_signed
literal_value-literal_example =
    literal_value-literal sum with_ones IrType.u64 (2 ^ 64 - 1) (tref 32766 (plain IrType.u64))
      sum-IsValid (omega arith) ones

literal-Grows_example : Grows sum with_ones 32766
literal-Grows_example =
    literal-Grows sum with_ones IrType.u64 (2 ^ 64 - 1) (tref 32766 (plain IrType.u64)) sum-IsValid
      ones

-- A difference behind the sum.
abbrev with_difference : IrBuffer
with_difference = put (record sum { bufmax = 32771 }) 32770 (ins_of Opcode.sub 32769 32768)

emit_difference :
    emit sum (ins_of Opcode.sub 32769 32768) ≡ some (tref 32770 (plain IrType.i64), with_difference)
unfolding emit
emit_difference = refl

emit_lem_example : Emits sum with_difference (ins_of Opcode.sub 32769 32768) 32770
emit_lem_example =
    emit_lem sum with_difference (ins_of Opcode.sub 32769 32768) (tref 32770 (plain IrType.i64))
      sum-IsValid refl emit_difference

nonzero : ◌≢◌ {A = ℕ} 32769 0
nonzero = λ e. absurd (omega arith)

-- The sum again.
again : opt_cse sum (ins_of Opcode.add 32768 32767) ≡ some (tref 32769 (plain IrType.i64), sum)
unfolding opt_cse
again = refl

opt_cse_lem_example :
    Shared sum sum (ins_of Opcode.add 32768 32767) 32769
    ⊎ Emits sum sum (ins_of Opcode.add 32768 32767) 32769
opt_cse_lem_example =
    opt_cse_lem sum sum (ins_of Opcode.add 32768 32767) (tref 32769 (plain IrType.i64)) sum-IsValid
      refl again

opt_cse_shared_example : (t : Tref) × (opt_cse sum (ins_of Opcode.add 32768 32767) ≡ some (t, sum))
opt_cse_shared_example =
    opt_cse_shared sum (ins_of Opcode.add 32768 32767) 32769 sum-IsValid refl refl
      (here 32769 nonzero) (omega arith) refl

abbrev started : IrBuffer
started =
    put
      (record (put (record (blank 2048 1000 1006 0) { bufmax = 32769 }) 32768 base_ins) {
        bufmin = 32767;
      })
      32767 (literal_ins Opcode.kint (plain IrType.info) 40000)

start : reset 2048 1000 1006 0 40000 ≡ some (tref 32767 (plain IrType.info), started)
unfolding reset opcode_eq
start = refl

reset_lem_example : IsValid started × (32767 ≡ ref_ind)
reset_lem_example =
    reset_lem 2048 1000 1006 0 40000 (tref 32767 (plain IrType.info)) started (omega arith)
      (omega arith) start

-- An object of two fields, whose info table is the literal of the buffer.
abbrev pub heap_after : AbstractHeap
unfolding empty_heap
heap_after =
    place_entry (record empty_heap { nentries = 64 }) 32770 2 0
      (record { cells = λ _. 0; size = 32; next = 2 })

abbrev pub with_new : IrBuffer
with_new = put (record sum { bufmax = 32771 }) 32770 (new_ins 32767)

abbrev pub with_object : IrBuffer
with_object = record with_new {
  ins = write with_new.ins 32770 (record (with_new.ins 32770) { op2 = 0 });
  heap = heap_after;
}

allocation : emit_new sum 32767 2 ≡ some (tref 32770 (plain IrType.clos), 0, with_object)
unfolding emit_new new_entry entry_room reserve empty_heap
allocation = refl

emit_new_lem_example : Allocated sum with_object 32767 2 32770 0
unfolding empty_heap
emit_new_lem_example =
    emit_new_lem sum with_object 32767 2 0 (tref 32770 (plain IrType.clos)) sum-IsValid
      empty_heap-IsValid (omega arith) allocation

pub with_object-IsValid : IsValid with_object
unfolding empty_heap
with_object-IsValid =
    (emit_new_lem sum with_object 32767 2 0 (tref 32770 (plain IrType.clos)) sum-IsValid
      empty_heap-IsValid (omega arith) allocation).valid

abbrev buffer_of : Option (Tref × IrBuffer) → IrBuffer
buffer_of none = sum
buffer_of (some (t, b)) = b

-- The buffer after slot 2 is read for the first time.
abbrev slot_read : IrBuffer
slot_read = buffer_of (slot sum (pos 2))

slot_is_read : slot sum (pos 2) ≡ some (tref 32770 (plain IrType.unknown), slot_read)
unfolding slot emit next_ins put AbstractStack.get AbstractStack.reset type_eq
slot_is_read = refl

slot_in_range : AbstractStack.in_range sum.slots (pos 2) ≡ true
unfolding AbstractStack.in_range AbstractStack.reset ◌+ℤ◌
slot_in_range = refl

slot-slot_example : slot slot_read (pos 2) ≡ some (tref 32770 (plain IrType.unknown), slot_read)
slot-slot_example =
    slot-slot sum slot_read (pos 2) (tref 32770 (plain IrType.unknown)) sum-IsValid slot_in_range
      slot_is_read
