-- ===== src/CallStack/Compare.antt =====
-- CallStack::compare (vm/ir.cc) against the first difference of two lists of return addresses.
use lambdachine.Common.{
  ℕ, zero, suc, ◌+◌, ◌≡◌, ◌↔◌, refl, ap, sym, ◌∙◌, arith, ◌==◌, if◌then◌else◌, Option, none, some,
  List, [], ◌∷◌,
}
use lambdachine.CallStack.{CallStack, compare_from, compare_stacks}
use lambdachine.CallStack.Frames.{frames, frames_upto}

-- The position where two lists first differ, a missing element counting as different.
unfoldable pub first_difference : ℕ → List ℕ → List ℕ → Option ℕ
first_difference d [] [] = none
first_difference d [] (y ∷ ys) = some d
first_difference d (x ∷ xs) [] = some d
first_difference d (x ∷ xs) (y ∷ ys) =
    let rest = first_difference (d + 1) xs ys in if x == y then rest else some d

first_difference_refl : (d : ℕ) (xs : List ℕ) → first_difference d xs xs ≡ none
unfolding first_difference
first_difference_refl d [] = refl
first_difference_refl d (x ∷ xs) = ground (arith, first_difference_refl (d + 1) xs)

first_difference-none : (d : ℕ) (xs ys : List ℕ) → first_difference d xs ys ≡ none → xs ≡ ys
unfolding first_difference
first_difference-none d [] [] h = refl
first_difference-none d [] (y ∷ ys) h = cc
first_difference-none d (x ∷ xs) [] h = cc
first_difference-none d (x ∷ xs) (y ∷ ys) h = ground (arith, first_difference-none (d + 1) xs ys)

compare_from_eq :
    (fuel : ℕ) (s : CallStack) (a b d : ℕ)
    → compare_from fuel s a b d ≡ first_difference d (frames_upto fuel s a) (frames_upto fuel s b)
unfolding compare_from frames_upto first_difference
compare_from_eq zero s a b d = refl
compare_from_eq (suc fuel) s a b d = ground (
  arith,
  compare_from_eq fuel s (s.parent a) (s.parent b) (d + 1),
  first_difference_refl (d + 1) (frames_upto fuel s (s.parent a)),
)

-- Comparing two stacks gives the first position, counted from the top, at which their return
-- addresses differ or one of them ends, and none exactly when all their addresses are equal.
pub compare_stacks_lem :
    (s : CallStack) (a b : ℕ)
    → (compare_stacks s a b ≡ first_difference 0 (frames s a) (frames s b))
      × ((compare_stacks s a b ≡ none) ↔ (frames s a ≡ frames s b))
unfolding compare_stacks frames
compare_stacks_lem s a b =
    let e = compare_from_eq (suc s.next) s a b 0 in
    (
      e,
      (
        λ h. first_difference-none 0 _ _ (sym e ∙ h),
        λ h.
            e ∙ ap (first_difference 0 (frames s a)) (sym h) ∙ first_difference_refl 0 (frames s a),
      ),
    )
