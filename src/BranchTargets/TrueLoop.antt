-- ===== src/BranchTargets/TrueLoop.antt =====
-- The false loop filter, BranchTargetBuffer::isTrueLoop (vm/ir.cc).
use lambdachine.Common.{
  ℕ, zero, suc, ◌-◌, ◌≤◌, ◌<◌, ◌≡◌, true, ltb, if◌then◌else◌, Option, none, some, List, [], ◌∷◌,
  length,
}
use lambdachine.CallStack.{CallStack}
use lambdachine.CallStack.Frames.{frames}
use lambdachine.BranchTargets.{BranchTargets, lowest, same_frames}

abbrev pub take : ℕ → List ℕ → List ℕ
take zero xs = []
take (suc n) [] = []
take (suc n) (x ∷ xs) = x ∷ take n xs

-- An entry whose loop is a true one.
abbrev pub IsTrueAt : BranchTargets → CallStack → ℕ → ℕ → Type 0
IsTrueAt b calls pc i = (b.addr i ≡ pc) × (same_frames b calls i ≡ true)

-- An index is the first in a range with a property, or there is none.
abbrev pub FirstOf : (ℕ → Type 0) → ℕ → ℕ → Option ℕ → Type 0
FirstOf P from to none = (i : ℕ) → from ≤ i → i < to → ¬ P i
FirstOf P from to (some i) = (from ≤ i) × (i < to) × P i × ((j : ℕ) → from ≤ j → j < i → ¬ P j)

-- How many frames of the two stacks the trace has pushed since the entry: those above the lowest
-- depth in between.
pub own_frames : BranchTargets → CallStack → ℕ → ℕ
own_frames b calls i =
    let k1 = length (frames calls (b.stack i)) in
    let k2 = length (frames calls calls.current) in
    let m = lowest b calls (b.next - i) i k1 in
    if ltb k2 m then k1 - m else (if ltb k1 k2 then k1 - m else k2 - m)

-- An entry for the pc at which the trace's own frames are those of the current stack.
abbrev pub IsLoopAt : BranchTargets → CallStack → ℕ → ℕ → Type 0
IsLoopAt b calls pc i =
    (b.addr i ≡ pc)
    × (take (own_frames b calls i) (frames calls (b.stack i))
        ≡ take (own_frames b calls i) (frames calls calls.current))
