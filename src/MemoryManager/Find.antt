-- ===== src/MemoryManager/Find.antt =====
-- The search for a free block in the newest region, and in a new one (the loop of grabFreeBlock).
use lambdachine.Common.{
  ℕ, zero, suc, ◌^◌, ◌≡◌, inl, inr, refl, sym, ap, ◌∙◌, write, none, some, Option-cases, some_pair,
  arith,
}
use mathlib.Core.Path.{subst}
use lambdachine.Regions.{
  Memory, block_at, Mmap, init_blocks, new_region, small_object, grab_in_region,
}
use lambdachine.Regions.Mapping.{IsMmap, map_from-IsPlace}
use lambdachine.MemoryManager.{Manager, grab_from_region}
use lambdachine.MemoryManager.Valid.{IsValid, IsKept, IsKept-refl, IsKept-trans}
use lambdachine.MemoryManager.Grow.{
  IsGrown, IsGrown-IsValid, IsGrown-IsUsed, grown_owned, grown_block,
}
use lambdachine.MemoryManager.Newest.{with_region, with_header, new_region-some, grown-IsGrown}

-- The newest region's front block popped, in the memory.
abbrev pub popped : Memory → ℕ → ℕ → Memory
popped m r b = record m {
  next_free = write m.next_free r (m.block b).link;
  block = write m.block b (record (m.block b) { link = none });
}

-- What the loop leaves: a state with regions added, whose newest region has the block at its front.
pub record IsFound (s : Manager) (b : ℕ) (s' : Manager) : Type 0 where
  pub before : Manager
  pub kept : IsKept s before
  pub free : before.free ≡ s.free
  pub front : before.memory.next_free before.region ≡ some b
  pub after : s' ≡ record before { memory = popped before.memory before.region b }

IsFound-trans :
    (s t : Manager) (b : ℕ) (s' : Manager)
    → IsKept s t
    → t.free ≡ s.free
    → IsFound t b s'
    → IsFound s b s'
IsFound-trans s t b s' k e f = record {
  before = f.before;
  kept = IsKept-trans s t f.before k f.kept;
  free = f.free ∙ e;
  front = f.front;
  after = f.after;
}

grab_in_region-some :
    (m : Memory) (r b : ℕ) → m.next_free r ≡ some b → grab_in_region m r ≡ some (b, popped m r b)
unfolding grab_in_region
grab_in_region-some m r b e = rw (grab_in_region, e) refl

grab_in_region-none : (m : Memory) (r : ℕ) → m.next_free r ≡ none → grab_in_region m r ≡ none
unfolding grab_in_region
grab_in_region-none m r e = rw (grab_in_region, e) refl

module _ (mmap : Mmap) (rounds : ℕ) (s : Manager) where
  pub grab_from_region-here :
      (b : ℕ)
      → s.memory.next_free s.region ≡ some b
      → grab_from_region mmap (suc rounds) s
        ≡ some (b, record s { memory = popped s.memory s.region b })
  unfolding grab_from_region
  grab_from_region-here b e = rw (grab_from_region, grab_in_region-some s.memory s.region b e) refl

  grab_from_region-out :
      s.memory.next_free s.region ≡ none
      → new_region mmap s.memory small_object ≡ none
      → grab_from_region mmap (suc rounds) s ≡ none
  unfolding grab_from_region
  grab_from_region-out e n =
      rw (grab_from_region, grab_in_region-none s.memory s.region e) (rw n refl)

  grab_from_region-grown :
      (r : ℕ) (m : Memory)
      → s.memory.next_free s.region ≡ none
      → new_region mmap s.memory small_object ≡ some (r, m)
      → grab_from_region mmap (suc rounds) s ≡ grab_from_region mmap rounds (with_region s r m)
  unfolding grab_from_region
  grab_from_region-grown r m e n =
      rw (grab_from_region, grab_in_region-none s.memory s.region e) (rw n refl)

module _ (mmap : Mmap) (documented : IsMmap mmap) where
  -- A new region keeps the state, and its first block is at its front.
  region_added :
      (s : Manager) (r : ℕ) (m : Memory)
      → IsValid s
      → new_region mmap s.memory small_object ≡ some (r, m)
      → IsKept s (with_region s r m)
        × ((with_region s r m).free ≡ s.free)
        × ((with_region s r m).memory.next_free r ≡ some (block_at r 0))
  region_added s r m v e =
      let (hint, f, eq) = new_region-some mmap s.memory m r e in
      let here =
        map_from-IsPlace mmap s.memory.regions 33 s.memory.alloc_hint (2 ^ 20) r hint documented
          (omega arith) f in
      let g : IsGrown s r (with_region s r (init_blocks (with_header s.memory r hint) r)) =
        grown-IsGrown s r hint
          (write (init_blocks (with_header s.memory r hint) r).region_link r (some s.region))
          here in
      let t : IsGrown s r (with_region s r m) =
        subst (λ (n : Memory). IsGrown s r (with_region s r n)) (sym eq) g in
      let s' = with_region s r m in
      (
        record {
          valid = IsGrown-IsValid s r s' v.sound t;
          used = IsGrown-IsUsed s r s' v.sound t;
          owned = grown_owned s r s' v.sound t;
          blocks = λ b o n. grown_block s r s' v.sound t b o;
          heads = λ h. refl;
          allocated = refl;
          next_gc = refl;
        },
        refl,
        t.next,
      )

  pub grab_from_region-IsFound :
      (rounds : ℕ) (s s' : Manager) (b : ℕ)
      → IsValid s
      → grab_from_region mmap rounds s ≡ some (b, s')
      → IsFound s b s'
  grab_from_region-IsFound zero s s' b v e = absurd (unfold grab_from_region in cc)
  grab_from_region-IsFound (suc rounds) s s' b v e =
      elim (Option-cases (s.memory.next_free s.region)) [
        | inr (c, f) ↦
            let after : ℕ → Manager = λ a. record s { memory = popped s.memory s.region a } in
            let (same, eq) =
              some_pair c b (after c) s' (sym (grab_from_region-here mmap rounds s c f) ∙ e) in
            record {
              before = s;
              kept = IsKept-refl s v;
              free = refl;
              front = f ∙ ap some same;
              after = sym eq ∙ ap after same;
            }
        | inl f ↦ elim (Option-cases (new_region mmap s.memory small_object)) [
          | inl n ↦ absurd (let w = sym (grab_from_region-out mmap rounds s f n) ∙ e in cc)
          | inr ((r, m), n) ↦
              let (k, same, next) = region_added s r m v n in
              IsFound-trans s (with_region s r m) b s' k same (
                grab_from_region-IsFound rounds (with_region s r m) s' b k.valid
                  (sym (grab_from_region-grown mmap rounds s r m f n) ∙ e))
        ]
      ]

  -- With memory for one more region, two rounds find a block.
  pub grab_from_region-finds :
      (s : Manager)
      → IsValid s
      → (p : ℕ × Memory) × (new_region mmap s.memory small_object ≡ some p)
      → (q : ℕ × Manager) × (grab_from_region mmap 2 s ≡ some q)
  grab_from_region-finds s v ((r, m), n) = elim (Option-cases (s.memory.next_free s.region)) [
    | inr (c, f) ↦ (_, grab_from_region-here mmap 1 s c f)
    | inl f ↦
        let t = with_region s r m in
        let (k, same, next) = region_added s r m v n in
        (
          _,
          grab_from_region-grown mmap 1 s r m f n
              ∙ grab_from_region-here mmap 0 t (block_at r 0) next,
        )
  ]
