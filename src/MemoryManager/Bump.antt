-- ===== src/MemoryManager/Bump.antt =====
-- The bump allocator of the mutator: sync, and the next block when one is used up.
use lambdachine.Common.{
  ℕ, ◌+◌, ◌-◌, ◌%◌, ◌^◌, ◌≤◌, ◌<◌, ◌≡◌, ◌≢◌, ◌↔◌, ◌⊎◌, inl, refl, ◌∙◌, ◌==◌, true, false, none,
  some, arith,
}
use lambdachine.Regions.{Block, Mmap}
use lambdachine.Regions.Mapping.{IsMmap}
use lambdachine.MemoryManager.{
  Manager, closures_head, head_block, block_full, sync, bump_bounds, bump_full_no_gc,
}
use lambdachine.MemoryManager.Valid.{IsValid, IsUsed}
use lambdachine.MemoryManager.Touch.{past_free, touched-IsValid, touched-IsUsed}
use lambdachine.MemoryManager.Refill.{
  HasRoom, block_full-IsRefilled, block_full-fills, head_used, head_laid,
}

abbrev closure_block : Manager → Block
closure_block s = head_block s closures_head

-- The heap pointer that the mutator gives back is within the block that it allocates into.
abbrev pub IsHeap : Manager → ℕ → Type 0
IsHeap s heap =
    (s.heads closures_head ≢ 0) × ((closure_block s).free ≤ heap) × (heap ≤ (closure_block s).end)

-- s' has in use what s has and what the mutator allocated up to `heap`.
pub record IsSynced (s : Manager) (heap : ℕ) (s' : Manager) : Type 0 where
  pub valid : IsValid s'
  pub used : (x : ℕ) → IsUsed s' x ↔ (IsUsed s x ⊎ (((closure_block s).free ≤ x) × (x < heap)))
  pub allocated : s'.allocated ≡ (s.allocated + (heap - (closure_block s).free)) % 2 ^ 64

module _ (s : Manager) (heap : ℕ) (v : IsValid s) (w : IsHeap s heap) where
  pub sync-IsSynced : (n : ℕ) → IsSynced s heap (record (sync s heap) { next_gc = n })
  unfolding sync
  sync-IsSynced n =
      let b = s.heads closures_head in
      let old = head_block s closures_head in
      let a : Block = record old { free = heap } in
      let o = (v.sound.heads closures_head w.0).0 in
      let nz = head_used s closures_head v w.0 in
      let laid = head_laid s closures_head v w.0 in
      let lower = w.1 in
      let count = (s.allocated + heap + 2 ^ 64 - old.free) % 2 ^ 64 in
      record {
        valid =
            touched-IsValid s b a s.heads count n v o nz refl refl refl (omega arith) w.2
              (λ k. inl refl);
        used = λ x. touched-IsUsed s b a s.heads count n v o nz refl refl refl x laid.0 lower;
        allocated = omega arith;
      }

-- The mutator goes on in an empty block: s' is the state and lo and hi are its bounds.
pub record IsBumped (s : Manager) (heap : ℕ) (s' : Manager) (lo hi : ℕ) : Type 0 where
  pub synced : IsSynced s heap s'
  pub next_gc : s'.next_gc + 1 ≡ s.next_gc
  pub low : lo ≡ (closure_block s').free
  pub high : hi ≡ (closure_block s').end
  pub room : lo + (2 ^ 15 - 1312) ≤ hi
  pub fresh : (x : ℕ) → lo ≤ x → x < hi → ¬ IsUsed s' x

bump_eq :
    (mmap : Mmap) (s t : Manager) (heap : ℕ)
    → 2 ≤ s.next_gc
    → s.next_gc < 2 ^ 32
    → block_full mmap (record (sync s heap) { next_gc = s.next_gc - 1 }) closures_head ≡ some t
    → bump_full_no_gc mmap s heap ≡ some (t, some ((closure_block t).free, (closure_block t).end))
unfolding bump_full_no_gc bump_bounds
bump_eq mmap s t heap lo hi e =
    let left : (s.next_gc + 2 ^ 32 - 1) % 2 ^ 32 ≡ s.next_gc - 1 = omega arith in
    let more : (s.next_gc - 1 == 0) ≡ false = ground arith in
    rw (bump_full_no_gc, left, more, e) refl

-- When the mutator gives back a heap pointer within its block, a collection is not due, and there
-- is memory for one more region, it gets the bounds of an empty block with at least the room of
-- the smallest one, none of which is in use; what is in use is what was and what the mutator
-- allocated, the blocks to the next collection are one less, and the state stays valid.
pub bump_full_no_gc_lem :
    (mmap : Mmap) (s : Manager) (heap : ℕ)
    → IsMmap mmap
    → IsValid s
    → IsHeap s heap
    → 2 ≤ s.next_gc
    → s.next_gc < 2 ^ 32
    → HasRoom mmap s
    → (s' : Manager) × (lo : ℕ) × (hi : ℕ) × (bump_full_no_gc mmap s heap
        ≡ some (s', some (lo, hi)))
      × IsBumped s heap s' lo hi
unfolding sync
bump_full_no_gc_lem mmap s heap documented v w two small room =
    let t = record (sync s heap) { next_gc = s.next_gc - 1 } in
    let y = sync-IsSynced s heap v w (s.next_gc - 1) in
    let (s', e) = block_full-fills mmap t closures_head documented y.valid room in
    let r = block_full-IsRefilled mmap t s' closures_head documented y.valid w.0 e in
    let (a, b, c, d) = head_laid s' closures_head r.valid r.set in
    let first = r.empty in
    let (o, f) = r.valid.sound.heads closures_head r.set in
    (
      s',
      (closure_block s').free,
      (closure_block s').end,
      bump_eq mmap s s' heap two small e,
      record {
        synced = record {
          valid = r.valid;
          used = λ x. (λ u. (y.used x).0 ((r.used x).0 u), λ u. (r.used x).1 ((y.used x).1 u));
          allocated = r.allocated ∙ y.allocated;
        };
        next_gc = let g = r.next_gc in omega arith;
        low = refl;
        high = refl;
        room = omega arith;
        fresh = λ x lo hi. past_free s' (s'.heads closures_head) x r.valid o lo hi;
      },
    )

-- When the last block before a collection is used up, the state only takes in what was allocated.
pub bump_full_no_gc-collect :
    (mmap : Mmap) (s : Manager) (heap : ℕ)
    → IsValid s
    → IsHeap s heap
    → s.next_gc ≡ 1
    → (s' : Manager) × (bump_full_no_gc mmap s heap ≡ some (s', none))
      × IsSynced s heap s'
      × (s'.next_gc ≡ 1)
unfolding bump_full_no_gc
bump_full_no_gc-collect mmap s heap v w one =
    let t = record (sync s heap) { next_gc = 1 } in
    let left : ((s.next_gc + 2 ^ 32 - 1) % 2 ^ 32 == 0) ≡ true = ground arith in
    (t, rw (bump_full_no_gc, left) refl, sync-IsSynced s heap v w 1, refl)
