-- ===== src/BranchTargets.antt =====
-- The branch target buffer of the trace recorder (class BranchTargetBuffer of vm/ir.hh and vm/ir.cc):
-- the branch targets of a trace with the call stack at each, and the filter of false loops.
pub mod TrueLoop
pub mod Dominated
pub mod Examples
use lambdachine.Common.{
  ℕ, zero, suc, ◌+◌, ◌-◌, ◌*◌, ◌%◌, ◌^◌, Bool, true, false, ◌&&◌, ltb, leb, ◌==◌, if◌then◌else◌,
  write, Option, none, some, ◌>>=◌,
}
use lambdachine.CallStack.{CallStack, depth, compare_stacks}
use lambdachine.HotCounters.{HotCounters}
use lambdachine.HotCounters
use Prim.Native.Nat.{min}

pub record BranchTargets : Type 0 where
  pub addr : ℕ → ℕ
  pub stack : ℕ → ℕ
  pub next : ℕ
  pub size : ℕ

unfoldable pub grow_buffer : BranchTargets → Option BranchTargets
grow_buffer b =
    if ltb 256 b.size
    then none
    else some (record b { size = if ltb (b.size * 2) 16 then 16 else b.size * 2 })

unfoldable pub append : BranchTargets → ℕ → ℕ → BranchTargets
append b pc node = record b {
  addr = write b.addr b.next pc;
  stack = write b.stack b.next node;
  next = b.next + 1;
}

unfoldable pub emit : BranchTargets → CallStack → ℕ → Option BranchTargets
unfolding grow_buffer append
emit b calls pc =
    if leb b.size b.next
    then (do b' ← grow_buffer b; some (append b' pc calls.current))
    else some (append b pc calls.current)

unfoldable pub reset : BranchTargets → CallStack → ℕ → Option BranchTargets
unfolding emit
reset b calls entry_pc = emit (record b { next = 0; size = 0 }) calls entry_pc

-- The least depth of the stacks from entry j on, for so many entries, and of m.
unfoldable pub lowest : BranchTargets → CallStack → ℕ → ℕ → ℕ → ℕ
lowest b calls zero j m = m
lowest b calls (suc rounds) j m =
    let d = depth calls (b.stack j) in lowest b calls rounds (j + 1) (if ltb d m then d else m)

-- The test of an entry whose address is the pc: whether the stacks differ, if at all, only beyond the
-- frames that belong to the trace. The differences wrap at 2 ^ 32.
unfoldable pub same_frames : BranchTargets → CallStack → ℕ → Bool
unfolding lowest
same_frames b calls i =
    let k1 = depth calls (b.stack i) in
    let k2 = depth calls calls.current in
    let m = lowest b calls (b.next - i) i k1 in
    elim (compare_stacks calls (b.stack i) calls.current) [
      | none ↦ true
      | some n ↦ leb (min ((k1 + 2 ^ 32 - m) % 2 ^ 32) ((k2 + 2 ^ 32 - m) % 2 ^ 32)) n
    ]

-- The loop over the entries; `none` stands for -1.
unfoldable pub true_loop_from : ℕ → BranchTargets → CallStack → ℕ → ℕ → Option ℕ
true_loop_from zero b calls pc i = none
true_loop_from (suc rounds) b calls pc i =
    let rest = true_loop_from rounds b calls pc (i + 1) in
    if b.addr i == pc then (if same_frames b calls i then some i else rest) else rest

unfoldable pub is_true_loop : BranchTargets → CallStack → ℕ → Option ℕ
unfolding true_loop_from
is_true_loop b calls pc = true_loop_from b.next b calls pc 0

-- resetDominatedCounters: every target that lies before the one that comes before it.
unfoldable pub reset_from : ℕ → BranchTargets → HotCounters → ℕ → ℕ → HotCounters
reset_from zero b counters i target = counters
reset_from (suc rounds) b counters i target =
    reset_from rounds b
      (if ltb (b.addr i) target then HotCounters.reset counters (b.addr i) else counters) (i + 1)
      (b.addr i)

unfoldable pub reset_dominated_counters : BranchTargets → HotCounters → HotCounters
unfolding reset_from
reset_dominated_counters b counters = reset_from b.next b counters 0 0
