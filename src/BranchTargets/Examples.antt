-- ===== src/BranchTargets/Examples.antt =====
-- Tests of the branch targets, and the theorem about them at a concrete trace.
use lambdachine.Common.{◌≡◌, refl, some, write}
use lambdachine.CallStack.{depth, compare_stacks}
use lambdachine.CallStack.Examples.{called}
use lambdachine.BranchTargets.{BranchTargets, is_true_loop, same_frames}

-- A trace that starts at 500 and calls a function at 600.
abbrev targets : BranchTargets
targets = record {
  addr = write (write (λ _. 0) 0 500) 1 600;
  stack = write (write (λ _. 0) 0 0) 1 1;
  next = 2;
  size = 16;
}

-- The call back to 500 is a true loop, at the first entry.
loop_found : is_true_loop targets called 500 ≡ some 0
unfolding is_true_loop same_frames depth compare_stacks
loop_found = refl
