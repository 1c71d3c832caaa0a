-- ===== src/BranchTargets/Dominated.antt =====
-- The counters of dominated branch targets (BranchTargetBuffer::resetDominatedCounters of vm/ir.cc).
use lambdachine.Common.{
  ℕ, zero, suc, ◌+◌, ◌-◌, ◌≤◌, ◌<◌, ◌≡◌, ◌≢◌, inl, inr, refl, sym, ap, ◌∙◌, arith, ltb, ◌==◌,
  if◌then◌else◌, Bool-cases,
}
use mathlib.Core.Path.{subst}
use lambdachine.HotCounters.{HotCounters, hot_count_hash, get, reset}
use lambdachine.BranchTargets.{BranchTargets, reset_from, reset_dominated_counters}

-- The counters after one round of the loop.
abbrev after : HotCounters → ℕ → ℕ → HotCounters
after c pc target = if ltb pc target then reset c pc else c

threshold-after : (c : HotCounters) (pc target : ℕ) → (after c pc target).threshold ≡ c.threshold
unfolding reset
threshold-after c pc target = ground arith

get-after :
    (c : HotCounters) (q target pc : ℕ)
    → get (after c q target) pc ≡ (
        if ltb q target
        then (if hot_count_hash pc == hot_count_hash q then c.threshold else get c pc)
        else get c pc)
unfolding get reset
get-after c q target pc = ground arith

-- A counter that stands at the threshold stays there.
stays_up :
    (rounds : ℕ) (b : BranchTargets) (c : HotCounters) (j target pc : ℕ)
    → get c pc ≡ c.threshold
    → get (reset_from rounds b c j target) pc ≡ c.threshold
unfolding reset_from
stays_up zero b c j target pc h = h
stays_up (suc rounds) b c j target pc h =
    let t = threshold-after c (b.addr j) target in
    let g = get-after c (b.addr j) target pc in
    stays_up rounds b (after c (b.addr j) target) (j + 1) (b.addr j) pc (ground arith) ∙ t

-- The address of an entry below the one before it, or below the target at the first one.
abbrev Dominated : BranchTargets → ℕ → ℕ → ℕ → Type 0
Dominated b j target i = b.addr i < (if i == j then target else b.addr (i - 1))

before :
    (b : BranchTargets) (j target i : ℕ)
    → j + 1 ≤ i
    → (if i == j then target else b.addr (i - 1))
      ≡ (if i == j + 1 then b.addr j else b.addr (i - 1))
before b j target i h = elim (Bool-cases (i == j + 1)) [
  | inl next ↦
      let n : i ≡ j + 1 = ground arith in
      let e : i - 1 ≡ j = omega arith in let a = ap b.addr e in ground arith
  | inr later ↦ ground arith
]

reset_from_up :
    (rounds : ℕ) (b : BranchTargets) (c : HotCounters) (j target i : ℕ)
    → j ≤ i
    → i < j + rounds
    → Dominated b j target i
    → get (reset_from rounds b c j target) (b.addr i) ≡ c.threshold
unfolding reset_from
reset_from_up zero b c j target i p q d = absurd (omega arith)
reset_from_up (suc rounds) b c j target i p q d =
    let t = threshold-after c (b.addr j) target in
    elim (Bool-cases (i == j)) [
      | inl same ↦
          let e : i ≡ j = ground arith in
          let g = get-after c (b.addr j) target (b.addr i) in
          let a = ap b.addr e in
          let hashes = ap hot_count_hash a in
          let low : b.addr i < target = rw same at d in
          let up : get (after c (b.addr j) target) (b.addr i)
              ≡ (after c (b.addr j) target).threshold =
            g ∙ ground arith ∙ sym t in
          stays_up rounds b (after c (b.addr j) target) (j + 1) (b.addr j) (b.addr i) up ∙ t
      | inr later ↦
          reset_from_up rounds b (after c (b.addr j) target) (j + 1) (b.addr j) i (ground arith)
            (omega arith) (omega (arith, d, before b j target i (ground arith)))
          ∙ t
    ]

reset_from_other :
    (rounds : ℕ) (b : BranchTargets) (c : HotCounters) (j target pc : ℕ)
    → ((i : ℕ)
        → j ≤ i
        → i < j + rounds
        → Dominated b j target i
        → hot_count_hash pc ≢ hot_count_hash (b.addr i))
    → get (reset_from rounds b c j target) pc ≡ get c pc
unfolding reset_from
reset_from_other zero b c j target pc h = refl
reset_from_other (suc rounds) b c j target pc h =
    let here : b.addr j < target → hot_count_hash pc ≢ hot_count_hash (b.addr j) =
      λ low. h j (omega arith) (omega arith) (ground arith) in
    let first : (if ltb (b.addr j) target
          then (if hot_count_hash pc == hot_count_hash (b.addr j) then c.threshold else get c pc)
          else get c pc)
        ≡ get c pc =
      ground arith in
    reset_from_other rounds b (after c (b.addr j) target) (j + 1) (b.addr j) pc
      (λ i p q d. h i (omega arith) (omega arith) (omega (arith, d, before b j target i p)))
    ∙ get-after c (b.addr j) target pc
    ∙ first

top : (b : BranchTargets) (i : ℕ) → (if i + 1 == 0 then 0 else b.addr (i + 1 - 1)) ≡ b.addr i
top b i = let e : i + 1 - 1 ≡ i = omega arith in let a = ap b.addr e in ground arith

-- Resetting the dominated counters sets up the counter of a branch target that lies below the one
-- before it.
pub reset_dominated_counters-up :
    (b : BranchTargets) (c : HotCounters) (i : ℕ)
    → i + 1 < b.next
    → b.addr (i + 1) < b.addr i
    → get (reset_dominated_counters b c) (b.addr (i + 1)) ≡ c.threshold
unfolding reset_dominated_counters
reset_dominated_counters-up b c i p d =
    reset_from_up b.next b c 0 0 (i + 1) (omega arith) (omega arith) (omega (arith, d, top b i))

-- Resetting the dominated counters leaves the counter of a program counter alone that shares it
-- with no branch target below the one before it.
pub reset_dominated_counters-other :
    (b : BranchTargets) (c : HotCounters) (pc : ℕ)
    → ((i : ℕ)
        → i + 1 < b.next
        → b.addr (i + 1) < b.addr i
        → hot_count_hash pc ≢ hot_count_hash (b.addr (i + 1)))
    → get (reset_dominated_counters b c) pc ≡ get c pc
unfolding reset_dominated_counters
reset_dominated_counters-other b c pc h = reset_from_other b.next b c 0 0 pc apart
  where
    apart :
        (i : ℕ)
        → 0 ≤ i
        → i < 0 + b.next
        → Dominated b 0 0 i
        → hot_count_hash pc ≢ hot_count_hash (b.addr i)
    apart zero p q d = absurd (ground arith)
    apart (suc i) p q d =
        let e : i + 1 ≡ suc i = omega arith in
        let d' : Dominated b 0 0 (i + 1) = subst (λ (n : ℕ). Dominated b 0 0 n) (sym e) d in
        subst (λ (n : ℕ). hot_count_hash pc ≢ hot_count_hash (b.addr n)) e
          (h i (omega arith) (omega (arith, d', top b i)))
