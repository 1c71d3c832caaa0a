-- ===== src/AbstractStack/Frames.antt =====
-- Reading, writing and moving the frame of the abstract stack (vm/ir.hh, vm/ir.cc).
use lambdachine.Common.{ℕ, ◌+◌, ◌^◌, ◌≤◌, ◌<◌, ◌≡◌, refl, true, arith, if◌then◌else◌, ◌==◌}
use lambdachine.Common.Int.{ℤ, ◌+ℤ◌}
use lambdachine.Ir.{Tref}
use lambdachine.AbstractStack.{
  AbstractStack, reset, index, in_range, get, clear, set, frame, k_slots,
}

-- The frame lies inside the slots, and the range that snapshots look at holds every written slot.
pub record IsValid (s : AbstractStack) : Type 0 where
  pub ordered : s.low ≤ s.base
  pub base_top : s.base ≤ s.top
  pub top_high : s.top ≤ s.high + 1
  pub inside : s.high < k_slots
  pub tracked : (i : ℕ) → (s.slots i).written ≡ true → (s.low ≤ i) × (i ≤ s.high)

pub reset-IsValid : (base top : ℕ) → base ≤ top → top < base + 250 → IsValid (reset base top)
unfolding reset
reset-IsValid base top h k = record {
  ordered = omega arith;
  base_top = omega arith;
  top_high = omega arith;
  inside = omega arith;
  tracked = λ i e. cc;
}

pub get-set :
    (s : AbstractStack) (n m : ℤ) (v : Tref)
    → in_range s n ≡ true
    → in_range s m ≡ true
    → get (set s n v) m ≡ (if index s m == index s n then v else get s m)
unfolding get set
get-set s n m v h k = refl

-- Writing a slot that is in range keeps the stack well formed.
pub set-IsValid :
    (s : AbstractStack) (n : ℤ) (v : Tref) → in_range s n ≡ true → IsValid s → IsValid (set s n v)
unfolding set in_range ◌+ℤ◌
set-IsValid s n v h k = record {
  ordered = ground arith;
  base_top = k.base_top;
  top_high = ground arith;
  inside = ground arith;
  tracked = λ i e. ground (arith, k.tracked i);
}

pub clear-IsValid : (s : AbstractStack) (n : ℤ) → IsValid s → IsValid (clear s n)
unfolding clear
clear-IsValid s n k = record {
  ordered = k.ordered;
  base_top = k.base_top;
  top_high = k.top_high;
  inside = k.inside;
  tracked = λ i e. ground (arith, k.tracked i);
}

-- Where `frame` reports success the stack stays well formed, for a frame whose bottom is at or
-- below its top, and of which neither the size nor the distance above the base of the trace
-- reaches 2 ^ 30 words.
pub frame-IsValid :
    (s : AbstractStack) (base top : ℕ)
    → base ≤ top
    → top < base + 2 ^ 30
    → base < s.real_orig_base + 2 ^ 30
    → IsValid s
    → (frame s base top).1 ≡ true
    → IsValid (frame s base top).0
unfolding frame
frame-IsValid s base top h w d v e = record {
  ordered = ground arith;
  base_top = ground arith;
  top_high = ground arith;
  inside = ground arith;
  tracked = λ i t. ground (arith, v.tracked i);
}
