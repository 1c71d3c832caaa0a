-- ===== src/CallStack.antt =====
-- The call stacks of the trace recorder (class CallStack of vm/ir.hh and vm/ir.cc): a tree of frames
-- in one buffer, each node with its parent, so that stacks share their tails. Where the buffer cannot
-- grow the program exits, and the result is `none`.
pub mod Ranks
pub mod Frames
pub mod Compare
pub mod Examples
use lambdachine.Common.{
  ℕ, zero, suc, ◌+◌, ◌*◌, ◌%◌, ◌^◌, ◌<◌, Bool, true, false, ltb, leb, ◌==◌, if◌then◌else◌, write,
  Option, none, some, ◌>>=◌, List, [], ◌∷◌,
}

-- STACK_NO_REF, the 16-bit ~0. Nodes are below 2048, and addresses are kept in 16 bits.
abbrev pub no_ref : ℕ
no_ref = 65535

pub record CallStack : Type 0 where
  pub parent : ℕ → ℕ
  pub address : ℕ → ℕ
  pub current : ℕ
  pub next : ℕ
  pub size : ℕ

unfoldable pub grow_buffer : CallStack → Option CallStack
grow_buffer s =
    if ltb 1024 s.size
    then none
    else some (record s { size = if ltb (s.size * 2) 32 then 32 else s.size * 2 })

unfoldable pub place : CallStack → ℕ → ℕ → ℕ × CallStack
place s up addr = (
  s.next,
  record s {
    parent = write s.parent s.next up;
    address = write s.address s.next (addr % 2 ^ 16);
    next = s.next + 1;
  },
)

unfoldable pub create_node : CallStack → ℕ → ℕ → Option (ℕ × CallStack)
unfolding grow_buffer place
create_node s up addr =
    if leb s.size s.next
    then (do s' ← grow_buffer s; some (place s' up addr))
    else some (place s up addr)

-- The buffer is freed: nothing is left of what it held.
unfoldable pub reset : CallStack → Option CallStack
unfolding create_node
reset s = do
  (root, s') ← create_node (record s { next = 0; size = 0 }) no_ref 0
  some (record s' { current = root })

unfoldable pub push_frame : CallStack → ℕ → Option CallStack
unfolding create_node
push_frame s ret_addr = do
  (node, s') ← create_node s s.current ret_addr
  some (record s' { current = node })

-- A return below the oldest known frame makes its address known, and a new oldest frame under it.
unfoldable pub extend_root : CallStack → ℕ → Option CallStack
unfolding create_node
extend_root s ret_addr = do
  (up, s') ←
      create_node (record s { address = write s.address s.current (ret_addr % 2 ^ 16) }) no_ref 0
  some (record s' { parent = write s'.parent s'.current up })

abbrev pop_current : CallStack → CallStack
pop_current s = record s { current = s.parent s.current }

unfoldable pub return_to : CallStack → ℕ → Option CallStack
unfolding extend_root
return_to s ret_addr =
    if s.parent s.current == no_ref
    then (do s' ← extend_root s ret_addr; some (pop_current s'))
    else some (pop_current s)

-- The loops follow the parents; `fuel` bounds their rounds, and `next` is enough.
unfoldable pub depth_from : ℕ → CallStack → ℕ → ℕ
depth_from zero s node = 0
depth_from (suc fuel) s node = if node == no_ref then 0 else suc (depth_from fuel s (s.parent node))

unfoldable pub depth : CallStack → ℕ → ℕ
unfolding depth_from
depth s node = depth_from (suc s.next) s node

-- `none` stands for the -1 of two equal stacks.
unfoldable pub compare_from : ℕ → CallStack → ℕ → ℕ → ℕ → Option ℕ
compare_from zero s stack1 stack2 d = none
compare_from (suc fuel) s stack1 stack2 d =
    let rest = compare_from fuel s (s.parent stack1) (s.parent stack2) (d + 1) in
    if stack1 == stack2
    then none
    else if stack1 == no_ref
    then some d
    else if stack2 == no_ref
    then some d
    else if s.address stack1 == s.address stack2
    then rest
    else some d

unfoldable pub compare_stacks : CallStack → ℕ → ℕ → Option ℕ
unfolding compare_from
compare_stacks s stack1 stack2 = compare_from (suc s.next) s stack1 stack2 0
