-- ===== src/CallStack/Examples.antt =====
-- Tests of the call stacks, and the theorems about them at concrete stacks.
use lambdachine.Common.{ℕ, ◌<◌, ◌≡◌, ◌≢◌, ◌↔◌, refl, write, none, some, [], ◌∷◌}
use lambdachine.CallStack.{CallStack, no_ref, reset, push_frame, return_to, compare_stacks, depth}
use lambdachine.CallStack.Ranks.{IsForest, reset-IsForest, push_frame-IsForest}
use lambdachine.CallStack.Frames.{frames, frames-push_frame, frames-return_to}
use lambdachine.CallStack.Compare.{first_difference, compare_stacks_lem}

abbrev blank : CallStack
blank = record { parent = λ _. 0; address = λ _. 0; current = 0; next = 0; size = 0 }

-- The stack after a reset.
abbrev pub fresh : CallStack
fresh = record {
  parent = write (λ _. 0) 0 no_ref;
  address = write (λ _. 0) 0 0;
  current = 0;
  next = 1;
  size = 32;
}

-- A frame that returns to 77.
abbrev pub called : CallStack
called = record {
  parent = write fresh.parent 1 0;
  address = write fresh.address 1 77;
  current = 1;
  next = 2;
  size = 32;
}

abbrev back : CallStack
back = record called { current = 0 }

-- A return to 88 from the oldest frame.
abbrev learned : CallStack
learned = record {
  parent = write (write fresh.parent 1 no_ref) 0 1;
  address = write (write fresh.address 0 88) 1 0;
  current = 1;
  next = 2;
  size = 32;
}

reset-fresh : reset blank ≡ some fresh
unfolding reset
reset-fresh = refl

push_called : push_frame fresh 77 ≡ some called
unfolding push_frame
push_called = refl

return_back : return_to called 77 ≡ some back
unfolding return_to
return_back = refl

return_learned : return_to fresh 88 ≡ some learned
unfolding return_to
return_learned = refl

depth-called : depth called 1 ≡ 2
unfolding depth
depth-called = refl

pub fresh-IsForest : IsForest fresh
fresh-IsForest = reset-IsForest blank fresh reset-fresh

pub called-IsForest : IsForest called
called-IsForest = push_frame-IsForest fresh called 77 fresh-IsForest push_called

frames-push_frame_example :
    (frames called 1 ≡ 77 ∷ frames fresh 0) × ((n : ℕ) → n < 1 → frames called n ≡ frames fresh n)
frames-push_frame_example = frames-push_frame fresh called 77 fresh-IsForest push_called

frames-return_to_example :
    (frames back 1 ≡ 77 ∷ frames back 0)
    × (called.parent called.current ≢ no_ref → (n : ℕ) → n < 2 → frames back n ≡ frames called n)
    × (called.parent called.current ≡ no_ref → frames back 0 ≡ 0 ∷ [])
frames-return_to_example = frames-return_to called back 77 called-IsForest return_back (λ h. refl)

compare_stacks_lem_example :
    (compare_stacks called 1 0 ≡ first_difference 0 (frames called 1) (frames called 0))
    × ((compare_stacks called 1 0 ≡ none) ↔ (frames called 1 ≡ frames called 0))
compare_stacks_lem_example = compare_stacks_lem called 1 0
