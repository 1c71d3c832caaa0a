-- ===== src/Snapshot/Examples.antt =====
-- Tests of the snapshots, and the theorems about them at a concrete snapshot.
use lambdachine.Common.{ℕ, ◌+◌, ◌*◌, ◌^◌, ◌≤◌, ◌<◌, ◌≡◌, ◌≢◌, refl, arith, ◌==◌, if◌then◌else◌}
use lambdachine.Common.Int.{pos, negsuc}
use lambdachine.Snapshot.{Snapshot, SnapshotData, key, slot, hot_side_exit_threshold}
use lambdachine.Snapshot.Search.{IsSorted, slot_found, slot_absent, slot_negative}

-- Slot 3 holds the reference 40, slot 5 the reference 41.
abbrev two_slots : SnapshotData
two_slots = record { words = λ i. if i == 0 then 3 * 2 ^ 16 + 40 else 5 * 2 ^ 16 + 41; index = 2 }

abbrev snap : Snapshot
snap = record {
  ref = 32770;
  mapofs = 0;
  relbase = pos 0;
  entries = 2;
  framesize = 6;
  exit_counter = hot_side_exit_threshold;
  steps = 0;
  last_heap_entry = negsuc 0;
  pc = 0;
}

slot_third : slot (pos 3) snap two_slots ≡ 40
unfolding slot
slot_third = refl

two_slots-IsSorted : IsSorted snap two_slots
two_slots-IsSorted i j p q r = ground arith

slot_found_example : slot (pos 5) snap two_slots ≡ 41
slot_found_example =
    slot_found snap two_slots 5 1 two_slots-IsSorted (omega arith) (omega arith) refl

no_fourth : (i : ℕ) → 0 ≤ i → i < 2 → key (two_slots.words i) ≢ 4
no_fourth i p q = λ e. ground arith

slot_absent_example : slot (pos 4) snap two_slots ≡ 0
slot_absent_example = slot_absent 4 snap two_slots no_fourth

-- A snapshot of slot -1 alone, which a search for slot -1 does not find.
abbrev below_base : SnapshotData
below_base = record { words = λ i. 65535 * 2 ^ 16 + 40; index = 1 }

slot_negative_example : slot (negsuc 0) (record snap { entries = 1 }) below_base ≡ 0
slot_negative_example = slot_negative 0 (record snap { entries = 1 }) below_base
