-- ===== src/CallStack/Ranks.antt =====
-- The nodes of a call stack form a forest: a rank that falls from a node to its parent, and stays
-- below the number of nodes, so that following the parents ends within `next` rounds.
use lambdachine.Common.{ℕ, ◌+◌, ◌≤◌, ◌<◌, ◌≡◌, ◌⊎◌, arith, ◌==◌, if◌then◌else◌, write, some}
use lambdachine.CallStack.{CallStack, no_ref, reset, push_frame, return_to}

abbrev pub limit : ℕ
limit = 2048

-- One node against the rank.
abbrev pub Ranked : CallStack → (ℕ → ℕ) → ℕ → Type 0
Ranked s rank n =
    (rank n < s.next)
    × ((s.parent n ≡ no_ref) ⊎ ((s.parent n < s.next) × (rank (s.parent n) < rank n)))

pub record IsForest (s : CallStack) : Type 0 where
  pub rank : ℕ → ℕ
  pub ranked : (n : ℕ) → n < s.next → Ranked s rank n
  pub current_in : s.current < s.next
  pub next_size : s.next ≤ s.size
  pub size_limit : s.size ≤ limit

-- A reset that does not give up leaves a well-formed forest.
pub reset-IsForest : (s t : CallStack) → reset s ≡ some t → IsForest t
unfolding reset
reset-IsForest s t e = record {
  rank = λ _. 0;
  ranked = λ n h. ground arith;
  current_in = ground arith;
  next_size = ground arith;
  size_limit = ground arith;
}

-- Pushing a frame keeps a forest well formed, if that does not give up.
pub push_frame-IsForest :
    (s t : CallStack) (addr : ℕ) → IsForest s → push_frame s addr ≡ some t → IsForest t
unfolding push_frame
push_frame-IsForest s t addr v e = record {
  rank = write v.rank s.next (v.rank s.current + 1);
  ranked = λ n h. ground (arith, v.ranked n, v.ranked s.current);
  current_in = ground arith;
  next_size = ground (arith, v.next_size);
  size_limit = ground (arith, v.size_limit);
}

-- Returning from a frame, the oldest known one included, keeps a forest well formed, if that does
-- not give up.
pub return_to-IsForest :
    (s t : CallStack) (addr : ℕ) → IsForest s → return_to s addr ≡ some t → IsForest t
unfolding return_to
return_to-IsForest s t addr v e = record {
  rank = λ n.
      if s.parent s.current == no_ref then (if n == s.next then 0 else v.rank n + 1) else v.rank n;
  ranked = λ n h. ground (arith, v.ranked n, v.ranked s.current);
  current_in = ground (arith, v.ranked s.current);
  next_size = ground (arith, v.next_size);
  size_limit = ground (arith, v.size_limit);
}
