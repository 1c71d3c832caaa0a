-- ===== src/AbstractStack.antt =====
-- The abstract stack of the trace recorder (class AbstractStack of vm/ir.hh and vm/ir.cc). A
-- `Word *` is the number of its word; the arithmetic on `unsigned int` wraps at 2 ^ 32.
pub mod Frames
pub mod Capture
pub mod ReadBack
pub mod Examples
use lambdachine.Common.{
  ℕ, zero, suc, ◌+◌, ◌-◌, ◌*◌, ◌/◌, ◌%◌, ◌^◌, Bool, true, false, ltb, leb, if◌then◌else◌, write,
}
use lambdachine.Common.Int.{ℤ, pos, negsuc, ◌+ℤ◌, ◌-ℤ◌, pos_part, sub_ℕ, to_u16, to_i16}
use lambdachine.Ir.{Tref, no_tref}
use lambdachine.Snapshot.{Snapshot, SnapshotData, hot_side_exit_threshold}
use Prim.Native.Nat.{bit_or, min, max}

abbrev pub k_slots : ℕ
k_slots = 500

abbrev pub k_initial_base : ℕ
k_initial_base = 250

-- The indices `base`, `top`, `low` and `high` are into `slots`.
pub record AbstractStack : Type 0 where
  pub slots : ℕ → Tref
  pub base : ℕ
  pub top : ℕ
  pub low : ℕ
  pub high : ℕ
  pub real_orig_base : ℕ

-- The bottom of the frame is at or below its top, as the code asserts.
unfoldable pub reset : ℕ → ℕ → AbstractStack
reset base top = record {
  slots = λ _. no_tref;
  base = k_initial_base;
  top = k_initial_base + (top - base);
  low = k_initial_base;
  high = k_initial_base + (top - base);
  real_orig_base = base;
}

-- base_ + n, for an index that is in range.
abbrev pub index : AbstractStack → ℤ → ℕ
index s n = pos_part (pos s.base +ℤ n)

unfoldable pub in_range : AbstractStack → ℤ → Bool
in_range s n = elim (pos s.base +ℤ n) [ pos i ↦ ltb i k_slots | negsuc _ ↦ false ]

unfoldable pub get : AbstractStack → ℤ → Tref
get s n = s.slots (index s n)

unfoldable pub clear : AbstractStack → ℤ → AbstractStack
clear s n = record s { slots = write s.slots (index s n) no_tref }

unfoldable pub set : AbstractStack → ℤ → Tref → AbstractStack
set s n value =
    let slot = index s n in
    record s {
      slots = write s.slots slot value;
      low = if ltb slot s.low then slot else s.low;
      high = if ltb s.high slot then slot else s.high;
    }

unfoldable pub absolute : AbstractStack → ℤ → ℤ
absolute s n = pos s.base +ℤ n -ℤ pos k_initial_base

unfoldable pub get_absolute : AbstractStack → ℤ → Tref
get_absolute s n = s.slots (pos_part (pos k_initial_base +ℤ n))

unfoldable pub highest_slot : AbstractStack → ℤ
highest_slot s = sub_ℕ s.high k_initial_base

-- p - realOrigBase_, cut to an int.
unfoldable pub base_offset : AbstractStack → ℕ → ℕ
base_offset s p = (p + 2 ^ 64 - s.real_orig_base) % 2 ^ 32

-- Set the current frame; false on overflow, when the frame is set all the same, and on underflow.
unfoldable pub frame : AbstractStack → ℕ → ℕ → AbstractStack × Bool
frame s base top =
    let base' = (k_initial_base + base - s.real_orig_base) % 2 ^ 32 in
    let top' = (base' + 2 ^ 64 + top - base) % 2 ^ 32 in
    let last = (top' + 2 ^ 32 - 1) % 2 ^ 32 in
    let s' = record s { base = base'; top = top'; low = min s.low base'; high = max s.high last } in
    if ltb (k_initial_base + base) (s.real_orig_base + 3)
    then (s, false)
    else if leb (k_slots - 4) top'
    then (s', false)
    else (s', true)

-- The word of a snapshot for a slot.
unfoldable pub entry_word : ℕ → Tref → ℕ
entry_word slot tr = bit_or (to_u16 (sub_ℕ slot k_initial_base) * 2 ^ 16) tr.ref_of

-- The loop of AbstractStack::snapshot, by the slots left to look at.
unfoldable pub capture : (ℕ → Tref) → ℕ → ℕ → ℕ → (ℕ → ℕ) → (ℕ → ℕ) × ℕ
unfolding entry_word
capture slots zero slot ofs words = (words, ofs)
capture slots (suc rounds) slot ofs words =
    capture slots rounds (slot + 1) (if (slots slot).written then ofs + 1 else ofs)
      (if (slots slot).written then write words ofs (entry_word slot (slots slot)) else words)

-- The fields `steps` and `last_heap_entry` are for the caller to set.
unfoldable pub snapshot : AbstractStack → SnapshotData → ℕ → ℕ → Snapshot × SnapshotData
unfolding capture
snapshot s map ref pc =
    let taken = capture s.slots (s.high + 1 - s.low) s.low map.index map.words in
    (
      record {
        ref = ref;
        mapofs = map.index % 2 ^ 16;
        relbase = to_i16 (to_u16 (sub_ℕ s.base k_initial_base));
        entries = (taken.1 - map.index) % 2 ^ 8;
        framesize = (s.top + 2 ^ 32 - s.base) % 2 ^ 8;
        exit_counter = hot_side_exit_threshold;
        steps = 0;
        last_heap_entry = pos 0;
        pc = pc;
      },
      record { words = taken.0; index = taken.1 },
    )
