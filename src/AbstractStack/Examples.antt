-- ===== src/AbstractStack/Examples.antt =====
-- Tests of the abstract stack, and the theorems about it at a concrete stack.
use lambdachine.Common.{◌+◌, ◌*◌, ◌^◌, ◌≡◌, refl, arith, write}
use lambdachine.Common.Int.{pos, negsuc, ◌+ℤ◌}
use lambdachine.Ir.{IrType, Tref, no_tref, tref, plain, mark_written}
use lambdachine.Snapshot.{Snapshot, SnapshotData, slot, empty_map}
use lambdachine.AbstractStack.{AbstractStack, reset, set, frame, snapshot, capture}
use lambdachine.AbstractStack.Frames.{IsValid, frame-IsValid}
use lambdachine.AbstractStack.ReadBack.{CanCapture, slot-snapshot, slot-snapshot_earlier}

abbrev value : Tref
value = mark_written (tref 32770 (plain IrType.i64))

-- A frame of six slots, of which slot 2 is written.
abbrev start : AbstractStack
start = record {
  slots = λ _. no_tref;
  base = 250;
  top = 256;
  low = 250;
  high = 256;
  real_orig_base = 1000;
}

abbrev written : AbstractStack
written = record start { slots = write start.slots 252 value }

start_reset : reset 1000 1006 ≡ start
unfolding reset
start_reset = refl

written_set : set start (pos 2) value ≡ written
unfolding set ◌+ℤ◌
written_set = refl

start-IsValid : IsValid start
start-IsValid = record {
  ordered = omega arith;
  base_top = omega arith;
  top_high = omega arith;
  inside = omega arith;
  tracked = λ i e. cc;
}

-- A call: the next frame lies above the first one.
frame-IsValid_example : IsValid (frame start 1010 1015).0
unfolding frame
frame-IsValid_example =
    frame-IsValid start 1010 1015 (omega arith) (omega arith) (omega arith) start-IsValid refl

written-CanCapture : CanCapture written empty_map
unfolding empty_map capture
written-CanCapture = record {
  valid = record {
    ordered = omega arith;
    base_top = omega arith;
    top_high = omega arith;
    inside = omega arith;
    tracked = λ i e. ground arith;
  };
  fits = λ i. ground arith;
  above_base = omega arith;
  room = omega arith;
  few = omega arith;
}

slot-snapshot_example :
    slot (pos 2) (snapshot written empty_map 32771 0).0 (snapshot written empty_map 32771 0).1
    ≡ 32770
slot-snapshot_example = slot-snapshot written empty_map 32771 0 2 written-CanCapture

-- A map with the word of an earlier snapshot.
abbrev one_word : SnapshotData
one_word = record { words = λ _. 2 * 2 ^ 16 + 40; index = 1 }

abbrev earlier : Snapshot
earlier = record {
  ref = 32769;
  mapofs = 0;
  relbase = pos 0;
  entries = 1;
  framesize = 6;
  exit_counter = 7;
  steps = 0;
  last_heap_entry = negsuc 0;
  pc = 0;
}

slot-snapshot_earlier_example :
    slot (pos 2) earlier (snapshot written one_word 32771 0).1 ≡ slot (pos 2) earlier one_word
slot-snapshot_earlier_example =
    slot-snapshot_earlier written one_word 32771 0 (pos 2) earlier (omega arith)
