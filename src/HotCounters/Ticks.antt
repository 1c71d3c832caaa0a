-- ===== src/HotCounters/Ticks.antt =====
-- When a program counter becomes hot (HotCounters::tick of vm/jit.hh).
use lambdachine.Common.{ℕ, ◌+◌, ◌-◌, ◌^◌, ◌<◌, ◌≡◌, refl, arith, ◌==◌, if◌then◌else◌, List, [], ◌∷◌}
use lambdachine.HotCounters.{HotCounters, hot_count_hash, get, set, reset, tick}

-- A tick of each program counter of a list, in turn.
unfoldable pub ticks : HotCounters → List ℕ → HotCounters
ticks c [] = c
ticks c (pc ∷ pcs) = ticks (tick c pc).0 pcs

-- How many of them share the counter of `pc`.
unfoldable pub hits : ℕ → List ℕ → ℕ
hits pc [] = 0
hits pc (q ∷ qs) = (if hot_count_hash q == hot_count_hash pc then 1 else 0) + hits pc qs

threshold-ticks : (c : HotCounters) (pcs : List ℕ) → (ticks c pcs).threshold ≡ c.threshold
unfolding ticks tick set
threshold-ticks c [] = refl
threshold-ticks c (pc ∷ pcs) = ground (arith, threshold-ticks (tick c pc).0 pcs)

get-ticks :
    (c : HotCounters) (pc : ℕ) (pcs : List ℕ)
    → get c pc < 2 ^ 16
    → hits pc pcs < get c pc
    → get (ticks c pcs) pc ≡ get c pc - hits pc pcs
unfolding ticks hits tick set get
get-ticks c pc [] b h = omega arith
get-ticks c pc (q ∷ qs) b h = ground (arith, get-ticks (tick c q).0 pc qs)

-- For a threshold below 2 ^ 16, after a reset, with fewer than `threshold` ticks on its counter, a
-- program counter stands at the threshold less those ticks, whatever other ticks come between; the
-- next tick is reported hot exactly if it is the threshold-th, and then sets the counter up again.
pub tick_hot :
    (c : HotCounters) (pc : ℕ) (pcs : List ℕ)
    → c.threshold < 2 ^ 16
    → hits pc pcs < c.threshold
    → (get (ticks (reset c pc) pcs) pc ≡ c.threshold - hits pc pcs)
      × ((tick (ticks (reset c pc) pcs) pc).1 ≡ (hits pc pcs + 1 == c.threshold))
      × (get (tick (ticks (reset c pc) pcs) pc).0 pc
          ≡ (if hits pc pcs + 1 == c.threshold then c.threshold else c.threshold - hits pc pcs - 1))
unfolding tick reset get set
tick_hot c pc pcs b h =
    let left = get-ticks (reset c pc) pc pcs in
    let kept = threshold-ticks (reset c pc) pcs in
    (ground (arith, left), ground (arith, left, kept), ground (arith, left, kept))
