-- ===== src/Snapshot/ExitCounter.antt =====
-- Side exits become hot at every seventh exit (Snapshot::bumpExitCounter of vm/ir.hh).
use lambdachine.Common.{ℕ, zero, suc, ◌+◌, ◌-◌, ◌%◌, ◌≡◌, Bool, arith, ◌==◌}
use lambdachine.Snapshot.{Snapshot, bump_exit_counter, hot_side_exit_threshold}

-- The result of the last of n + 1 exits in a row.
abbrev pub exits : ℕ → Snapshot → Snapshot × Bool
exits zero snap = bump_exit_counter snap
exits (suc n) snap = bump_exit_counter (exits n snap).0

counter-exits :
    (n : ℕ) (snap : Snapshot)
    → snap.exit_counter ≡ 7
    → ((exits n snap).0.exit_counter ≡ 7 - (n + 1) % 7) × ((exits n snap).1 ≡ ((n + 1) % 7 == 0))
unfolding bump_exit_counter
counter-exits zero snap h = ground arith
counter-exits (suc n) snap h = ground (arith, counter-exits n snap h)

-- From a fresh counter, an exit is reported hot exactly when the number of exits so far is a
-- multiple of seven.
pub hot-exits :
    (n : ℕ) (snap : Snapshot)
    → snap.exit_counter ≡ hot_side_exit_threshold
    → (exits n snap).1 ≡ ((n + 1) % 7 == 0)
hot-exits n snap h = (counter-exits n snap h).1
