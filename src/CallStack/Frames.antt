-- ===== src/CallStack/Frames.antt =====
-- The return addresses of a stack as a list, top first: what pushing a frame and returning do to
-- them (CallStack::pushFrame, CallStack::returnTo of vm/ir.cc).
use lambdachine.Common.{
  ℕ, zero, suc, ◌+◌, ◌%◌, ◌^◌, ◌≤◌, ◌<◌, ◌≡◌, ◌≢◌, ◌⊎◌, inr, refl, ap, sym, ◌∙◌, arith, ◌==◌,
  if◌then◌else◌, some, List, [], ◌∷◌, length,
}
use mathlib.Core.Path.{ap₂}
use native.Mathlib.Decide.{ℕ_discrete}
use lambdachine.CallStack.{CallStack, no_ref, push_frame, return_to, depth_from, depth}
use lambdachine.CallStack.Ranks.{IsForest, push_frame-IsForest, return_to-IsForest}

-- The addresses from a node to the oldest frame, by at most so many parents.
unfoldable pub frames_upto : ℕ → CallStack → ℕ → List ℕ
frames_upto zero s node = []
frames_upto (suc fuel) s node =
    if node == no_ref then [] else s.address node ∷ frames_upto fuel s (s.parent node)

unfoldable pub frames : CallStack → ℕ → List ℕ
frames s node = frames_upto (suc s.next) s node

-- Rounds that reach the oldest frame.
abbrev Enough : (s : CallStack) → IsForest s → ℕ → ℕ → Type 0
Enough s v fuel n = (n ≡ no_ref) ⊎ ((n < s.next) × (v.rank n < fuel))

Enough-parent :
    (s : CallStack) (v : IsForest s) (fuel n : ℕ)
    → n < s.next
    → v.rank n < suc fuel
    → Enough s v fuel (s.parent n)
Enough-parent s v fuel n h k = ground (arith, v.ranked n)

frames_upto_eq :
    (s : CallStack) (v : IsForest s) (f g n : ℕ)
    → Enough s v f n
    → Enough s v g n
    → frames_upto f s n ≡ frames_upto g s n
unfolding frames_upto
frames_upto_eq s v zero zero n p q = refl
frames_upto_eq s v zero (suc g) n p q = ground arith
frames_upto_eq s v (suc f) zero n p q = ground arith
frames_upto_eq s v (suc f) (suc g) n p q =
    ground (arith, v.ranked n, frames_upto_eq s v f g (s.parent n))

pub frames-no_ref : (s : CallStack) → frames s no_ref ≡ []
unfolding frames frames_upto
frames-no_ref s = refl

pub frames_node :
    (s : CallStack) (n : ℕ)
    → IsForest s
    → n < s.next
    → frames s n ≡ s.address n ∷ frames s (s.parent n)
unfolding frames frames_upto
frames_node s n v h =
    let known : n ≢ no_ref = omega (arith, v.next_size, v.size_limit) in
    let tail =
      frames_upto_eq s v s.next (suc s.next) (s.parent n)
        (Enough-parent s v s.next n h (ground (arith, v.ranked n)))
        (Enough-parent s v (suc s.next) n h (ground (arith, v.ranked n))) in
    ground (arith, tail)

depth_from-frames_upto :
    (fuel : ℕ) (s : CallStack) (n : ℕ) → depth_from fuel s n ≡ length (frames_upto fuel s n)
unfolding depth_from frames_upto
depth_from-frames_upto zero s n = refl
depth_from-frames_upto (suc fuel) s n = ground (arith, depth_from-frames_upto fuel s (s.parent n))

-- The depth of a stack is the number of its frames.
pub depth-frames : (s : CallStack) (n : ℕ) → depth s n ≡ length (frames s n)
unfolding depth frames
depth-frames s n = depth_from-frames_upto (suc s.next) s n

length-frames_upto-le : (fuel : ℕ) (s : CallStack) (n : ℕ) → length (frames_upto fuel s n) ≤ fuel
unfolding frames_upto
length-frames_upto-le zero s n = omega arith
length-frames_upto-le (suc fuel) s n = ground (arith, length-frames_upto-le fuel s (s.parent n))

pub length-frames-le : (s : CallStack) (n : ℕ) → length (frames s n) ≤ s.next + 1
unfolding frames
length-frames-le s n = omega (arith, length-frames_upto-le (suc s.next) s n)

-- Two stacks that agree on the nodes of the first have the same frames at them.
frames_upto_agree :
    (s t : CallStack) (fuel n : ℕ)
    → IsForest s
    → ((i : ℕ) → i < s.next → (s.parent i ≡ t.parent i) × (s.address i ≡ t.address i))
    → (n ≡ no_ref) ⊎ (n < s.next)
    → frames_upto fuel s n ≡ frames_upto fuel t n
unfolding frames_upto
frames_upto_agree s t zero n v a p = refl
frames_upto_agree s t (suc fuel) n v a p =
    ground (arith, a n, v.ranked n, frames_upto_agree s t fuel (s.parent n) v a)

module _ (s t : CallStack) (addr : ℕ) (v : IsForest s) (pushed : push_frame s addr ≡ some t) where
  push_next : (t.next ≡ s.next + 1) × (t.current ≡ s.next)
  unfolding push_frame
  push_next = ground arith

  push_keeps : (i : ℕ) → i < s.next → (s.parent i ≡ t.parent i) × (s.address i ≡ t.address i)
  unfolding push_frame
  push_keeps i h = ground arith

  push_node : (t.address t.current ≡ addr % 2 ^ 16) × (t.parent t.current ≡ s.current)
  unfolding push_frame
  push_node = ground arith

  push_others : (n : ℕ) → n < s.next → frames t n ≡ frames s n
  unfolding frames
  push_others n h =
      let w = push_frame-IsForest s t addr v pushed in
      let size = push_next.0 in
      let known : n < t.next = omega arith in
      let bound = (w.ranked n known).0 in
      frames_upto_eq t w (suc t.next) (suc s.next) n (inr (known, omega arith))
        (inr (known, omega arith))
      ∙ sym (frames_upto_agree s t (suc s.next) n v push_keeps (inr h))

  -- After a frame is pushed on a well-formed forest, if that does not give up, the current stack
  -- is the old one with the return address, in the 16 bits that the code keeps of it, on top, and
  -- every other stack is as it was.
  pub frames-push_frame :
      (frames t t.current ≡ addr % 2 ^ 16 ∷ frames s s.current)
      × ((n : ℕ) → n < s.next → frames t n ≡ frames s n)
  frames-push_frame =
      let w = push_frame-IsForest s t addr v pushed in
      let top = frames_node t t.current w w.current_in in
      let under = push_others s.current v.current_in in
      (top ∙ rw (push_node.0, push_node.1) (ap (◌∷◌ (addr % 2 ^ 16)) under), push_others)

module _ (s t : CallStack) (addr : ℕ) (v : IsForest s) (returned : return_to s addr ≡ some t) where
  return_known :
      s.parent s.current ≢ no_ref
      → (t.next ≡ s.next)
        × (t.current ≡ s.parent s.current)
        × ((i : ℕ) → (s.parent i ≡ t.parent i) × (s.address i ≡ t.address i))
  unfolding return_to
  return_known h = (ground arith, ground arith, λ i. ground arith)

  return_root :
      s.parent s.current ≡ no_ref
      → (t.current ≡ s.next)
        × (t.next ≡ s.next + 1)
        × (t.address s.current ≡ addr % 2 ^ 16)
        × (t.parent s.current ≡ s.next)
        × (t.address s.next ≡ 0)
        × (t.parent s.next ≡ no_ref)
  unfolding return_to
  return_root h =
      let k = v.current_in in
      (ground arith, ground arith, ground arith, ground arith, ground arith, ground arith)

  return_others : s.parent s.current ≢ no_ref → (n : ℕ) → n < s.next → frames t n ≡ frames s n
  unfolding frames
  return_others k n h =
      let (size, _, keeps) = return_known k in
      ap (λ k. frames_upto (suc k) t n) size
      ∙ sym (frames_upto_agree s t (suc s.next) n v (λ i _. keeps i) (inr h))

  return_node :
      (s.parent s.current ≢ no_ref → s.address s.current ≡ addr % 2 ^ 16)
      → (s.current < t.next)
        × (t.address s.current ≡ addr % 2 ^ 16)
        × (t.parent s.current ≡ t.current)
  return_node same = elim (ℕ_discrete (s.parent s.current) no_ref) [
    | yes root ↦
        let (a, b, c, d, _, _) = return_root root in (omega (arith, v.current_in), c, d ∙ sym a)
    | no known ↦
        let (a, b, c) = return_known known in
        let (p, q) = c s.current in (omega (arith, v.current_in), sym q ∙ same known, sym p ∙ sym b)
  ]

  -- On a well-formed forest, a return that does not give up takes the frame's return address, in
  -- the 16 bits that the code keeps of it, off the stack, and leaves every stack as it was, if the
  -- frame's caller is known and the address is the one that was pushed. From the oldest known
  -- frame the address is learned, and the stack is then one frame of unknown address.
  pub frames-return_to :
      (s.parent s.current ≢ no_ref → s.address s.current ≡ addr % 2 ^ 16)
      → (frames t s.current ≡ addr % 2 ^ 16 ∷ frames t t.current)
        × (s.parent s.current ≢ no_ref → (n : ℕ) → n < s.next → frames t n ≡ frames s n)
        × (s.parent s.current ≡ no_ref → frames t t.current ≡ 0 ∷ [])
  frames-return_to same =
      let w = return_to-IsForest s t addr v returned in
      let (inside, a, p) = return_node same in
      (
        frames_node t s.current w inside ∙ rw (a, p),
        return_others,
        λ root.
            let (c, d, _, _, e, f) = return_root root in
            frames_node t t.current w w.current_in
            ∙ ap₂ ◌∷◌ (ap t.address c ∙ e) (ap (frames t) (ap t.parent c ∙ f) ∙ frames-no_ref t),
      )
