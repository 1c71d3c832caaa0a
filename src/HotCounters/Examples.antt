-- ===== src/HotCounters/Examples.antt =====
-- Tests of the hot counters, and the theorem about them at a concrete threshold.
use lambdachine.Common.{◌≡◌, refl, true, false, arith, ◌==◌, [], ◌∷◌}
use lambdachine.HotCounters.{hot_count_hash, init, get, reset, tick}
use lambdachine.HotCounters.Ticks.{ticks, hits, tick_hot}

hash_shared : hot_count_hash 0x1_0000 ≡ hot_count_hash 0x1_0001
unfolding hot_count_hash
hash_shared = refl

hash_apart : (hot_count_hash 0x1_0000 == hot_count_hash 0x1_0010) ≡ false
unfolding hot_count_hash
hash_apart = refl

-- One tick of the counter, and one of another, before the tick that is hot.
tick_hot_example :
    (get (ticks (reset (init 2) 0x1_0000) (0x1_0000 ∷ 0x1_0010 ∷ [])) 0x1_0000 ≡ 1)
    × ((tick (ticks (reset (init 2) 0x1_0000) (0x1_0000 ∷ 0x1_0010 ∷ [])) 0x1_0000).1 ≡ true)
    × (get (tick (ticks (reset (init 2) 0x1_0000) (0x1_0000 ∷ 0x1_0010 ∷ [])) 0x1_0000).0 0x1_0000
        ≡ 2)
unfolding hits hot_count_hash init
tick_hot_example = tick_hot (init 2) 0x1_0000 (0x1_0000 ∷ 0x1_0010 ∷ []) (omega arith) (omega arith)
