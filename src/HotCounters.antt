-- ===== src/HotCounters.antt =====
-- The hot counters of the interpreter (class HotCounters of vm/jit.hh, its constructor in vm/jit.cc):
-- 1024 counters of 16 bits, indexed by a hash of the program counter.
pub mod Ticks
pub mod Examples
use lambdachine.Common.{ℕ, ◌+◌, ◌-◌, ◌/◌, ◌%◌, ◌^◌, Bool, true, false, ◌==◌, if◌then◌else◌, write}
use Prim.Native.Nat.{bit_xor}

abbrev k_num_counters : ℕ
k_num_counters = 1024

pub record HotCounters : Type 0 where
  pub counters : ℕ → ℕ
  pub threshold : ℕ

-- `& (kNumCounters - 1)` is `% kNumCounters`, a power of two.
unfoldable pub hot_count_hash : ℕ → ℕ
hot_count_hash pc = bit_xor (pc / 2 ^ 12) (pc / 2 ^ 4) % k_num_counters

unfoldable pub init : ℕ → HotCounters
init threshold = record { counters = λ _. threshold; threshold = threshold }

unfoldable pub get : HotCounters → ℕ → ℕ
get c pc = c.counters (hot_count_hash pc)

unfoldable pub set : HotCounters → ℕ → ℕ → HotCounters
set c pc value = record c { counters = write c.counters (hot_count_hash pc) value }

unfoldable pub reset : HotCounters → ℕ → HotCounters
reset c pc = record c { counters = write c.counters (hot_count_hash pc) c.threshold }

unfoldable pub tick : HotCounters → ℕ → HotCounters × Bool
unfolding set
tick c pc =
    let count = (c.counters (hot_count_hash pc) + 2 ^ 16 - 1) % 2 ^ 16 in
    let c' = record c { counters = write c.counters (hot_count_hash pc) count } in
    if count == 0 then (set c' pc c'.threshold, true) else (c', false)
