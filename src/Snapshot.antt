-- ===== src/Snapshot.antt =====
-- Snapshots of the abstract stack (class Snapshot and class SnapshotData of vm/ir.hh, and their
-- methods in vm/ir.cc). The map is an array of 32-bit words: the slot in the upper half, the
-- reference in the lower one.
pub mod Search
pub mod ExitCounter
pub mod Examples
use lambdachine.Common.{
  ℕ, zero, suc, ◌+◌, ◌-◌, ◌*◌, ◌/◌, ◌%◌, ◌^◌, Bool, true, false, ltb, ◌==◌, if◌then◌else◌,
}
use lambdachine.Common.Int.{ℤ, pos, negsuc}

-- `data` is read below `index` only; what `resize` appends lies above.
pub record SnapshotData : Type 0 where
  pub words : ℕ → ℕ
  pub index : ℕ

unfoldable pub empty_map : SnapshotData
empty_map = record { words = λ _. 0; index = 0 }

abbrev pub hot_side_exit_threshold : ℕ
hot_side_exit_threshold = 7

-- The widths are those of the fields: 16 bits for `mapofs`, 8 for `entries` and `framesize`.
pub record Snapshot : Type 0 where
  pub ref : ℕ
  pub mapofs : ℕ
  pub relbase : ℤ
  pub entries : ℕ
  pub framesize : ℕ
  pub exit_counter : ℕ
  pub steps : ℕ
  pub last_heap_entry : ℤ
  pub pc : ℕ

abbrev pub key : ℕ → ℕ
key word = word / 2 ^ 16

abbrev pub payload : ℕ → ℕ
payload word = word % 2 ^ 16

-- `n > slot` and `n < slot` for the int `n` and the upper half of a word.
abbrev pub above : ℤ → ℕ → Bool
above (pos m) slot = ltb slot m
above (negsuc _) slot = false

abbrev pub below : ℤ → ℕ → Bool
below (pos m) slot = ltb m slot
below (negsuc _) slot = true

-- The loop of Snapshot::slot. The variable `end` is the source's `hi + 1`; a round makes the
-- interval shorter, so its length is fuel enough.
unfoldable pub bisect : ℕ → ℤ → (ℕ → ℕ) → ℕ → ℕ → ℕ
bisect zero n words lo end = 0
bisect (suc fuel) n words lo end =
    let mid = (lo + end - 1) / 2 in
    let right = bisect fuel n words (mid + 1) end in
    let left = bisect fuel n words lo mid in
    let here =
      if above n (key (words mid))
      then right
      else if below n (key (words mid))
      then left
      else payload (words mid) in
    if ltb lo end then here else 0

-- The reference of a slot, or 0.
unfoldable pub slot : ℤ → Snapshot → SnapshotData → ℕ
unfolding bisect
slot n snap map = bisect (suc snap.entries) n map.words snap.mapofs (snap.mapofs + snap.entries)

-- The 16-bit counter runs down; at 0 it is set up again and the exit is hot.
unfoldable pub bump_exit_counter : Snapshot → Snapshot × Bool
bump_exit_counter snap =
    let c = (snap.exit_counter + 2 ^ 16 - 1) % 2 ^ 16 in
    if c == 0
    then (record snap { exit_counter = hot_side_exit_threshold }, true)
    else (record snap { exit_counter = c }, false)
