-- ===== src/MemoryManager/Alloc.antt =====
-- allocInto: memory that is handed out is fresh, and it is always found when there is memory for one
-- more region.
use lambdachine.Common.{
  ℕ, zero, suc, ◌+◌, ◌-◌, ◌%◌, ◌^◌, ◌≤◌, ◌<◌, ◌≡◌, ◌≢◌, ◌↔◌, ◌⊎◌, inl, inr, refl, sym, ap, ◌∙◌,
  true, false, ltb, none, some, Option-cases, some_pair, arith, Bool-cases,
}
use mathlib.Core.Path.{subst}
use lambdachine.Regions.{Block, Mmap, alloc}
use lambdachine.Regions.Mapping.{IsMmap}
use lambdachine.MemoryManager.{
  Manager, Head, head_contents, head_block, set_block, block_full, alloc_into,
}
use lambdachine.MemoryManager.Valid.{IsValid, IsUsed}
use lambdachine.MemoryManager.Grab.{write-here}
use lambdachine.MemoryManager.Touch.{past_free, touched-IsValid, touched-IsUsed}
use lambdachine.MemoryManager.Refill.{
  HasRoom, IsRefilled, block_full-IsRefilled, block_full-fills, head_used, head_laid,
}

-- The bytes from p on were handed out to head h, being free before, and nothing else was.
pub record IsAllocated (s : Manager) (h : Head) (bytes p : ℕ) (s' : Manager) : Type 0 where
  pub valid : IsValid s'
  pub set : s'.heads h ≢ 0
  pub used : (x : ℕ) → IsUsed s' x ↔ (IsUsed s x ⊎ ((p ≤ x) × (x < p + bytes)))
  pub fresh : (x : ℕ) → p ≤ x → x < p + bytes → ¬ IsUsed s x
  pub within : (head_block s' h).start ≤ p
  pub last : (head_block s' h).free ≡ p + bytes
  pub other_heads : (k : Head) → head_contents k ≢ head_contents h → s'.heads k ≡ s.heads k
  pub allocated : s'.allocated ≡ (s.allocated + bytes) % 2 ^ 64

alloc-fits :
    (b : Block) (bytes : ℕ)
    → b.free + bytes ≤ b.end
    → b.end < 2 ^ 64
    → alloc b bytes ≡ some (b.free, record b { free = b.free + bytes })
unfolding alloc
alloc-fits b bytes h l =
    let e : (b.free + bytes) % 2 ^ 64 ≡ b.free + bytes = omega arith in
    let f : ltb b.end (b.free + bytes) ≡ false = ground arith in rw (e, f) refl

alloc-full :
    (b : Block) (bytes : ℕ)
    → b.end < b.free + bytes
    → b.free + bytes < 2 ^ 64
    → alloc b bytes ≡ none
unfolding alloc
alloc-full b bytes h l =
    let e : (b.free + bytes) % 2 ^ 64 ≡ b.free + bytes = omega arith in
    let f : ltb b.end (b.free + bytes) ≡ true = ground arith in rw (e, f) refl

module _ (mmap : Mmap) (s : Manager) (h : Head) (bytes : ℕ) where
  -- The state when the head has room.
  abbrev filled : Manager
  filled =
      record (set_block s (s.heads h)
        (record (head_block s h) { free = (head_block s h).free + bytes })) {
          allocated = (s.allocated + bytes) % 2 ^ 64;
        }

  alloc_into-fits :
      (rounds : ℕ)
      → (head_block s h).free + bytes ≤ (head_block s h).end
      → (head_block s h).end < 2 ^ 64
      → alloc_into mmap (suc rounds) s h bytes ≡ some ((head_block s h).free, filled)
  unfolding alloc_into
  alloc_into-fits rounds a b = rw (alloc_into, alloc-fits (head_block s h) bytes a b) refl

  alloc_into-out :
      (rounds : ℕ)
      → (head_block s h).end < (head_block s h).free + bytes
      → (head_block s h).free + bytes < 2 ^ 64
      → block_full mmap s h ≡ none
      → alloc_into mmap (suc rounds) s h bytes ≡ none
  unfolding alloc_into
  alloc_into-out rounds a b n = rw (alloc_into, alloc-full (head_block s h) bytes a b) (rw n refl)

  alloc_into-refills :
      (rounds : ℕ) (t : Manager)
      → (head_block s h).end < (head_block s h).free + bytes
      → (head_block s h).free + bytes < 2 ^ 64
      → block_full mmap s h ≡ some t
      → alloc_into mmap (suc rounds) s h bytes ≡ alloc_into mmap rounds t h bytes
  unfolding alloc_into
  alloc_into-refills rounds t a b n =
      rw (alloc_into, alloc-full (head_block s h) bytes a b) (rw n refl)

  module _ (v : IsValid s) (z : s.heads h ≢ 0) where
    filled-IsAllocated :
        (head_block s h).free + bytes ≤ (head_block s h).end
        → IsAllocated s h bytes (head_block s h).free filled
    filled-IsAllocated room =
        let b = s.heads h in
        let old = head_block s h in
        let a : Block = record old { free = old.free + bytes } in
        let o = (v.sound.heads h z).0 in
        let n = head_used s h v z in
        let laid = head_laid s h v z in
        let here : head_block filled h ≡ a = write-here s.memory.block b a in
        let count = (s.allocated + bytes) % 2 ^ 64 in
        record {
          valid =
              touched-IsValid s b a s.heads count s.next_gc v o n refl refl refl (omega arith) room
                (λ k. inl refl);
          set = z;
          used = λ x.
              touched-IsUsed s b a s.heads count s.next_gc v o n refl refl refl x laid.0
                (omega arith);
          fresh = λ x lo hi. past_free s b x v o lo (omega arith);
          within = subst (λ (k : Block). k.start ≤ old.free) (sym here) laid.0;
          last = ap (λ (k : Block). k.free) here;
          other_heads = λ k m. refl;
          allocated = refl;
        }

IsAllocated-refilled :
    (s t : Manager) (h : Head) (bytes p : ℕ) (s' : Manager)
    → IsRefilled s h t
    → IsAllocated t h bytes p s'
    → IsAllocated s h bytes p s'
IsAllocated-refilled s t h bytes p s' r a = record {
  valid = a.valid;
  set = a.set;
  used = λ x. (
    λ u. elim ((a.used x).0 u) [ inl w ↦ inl ((r.used x).0 w) | inr w ↦ inr w ],
    λ u. elim u [ inl w ↦ (a.used x).1 (inl ((r.used x).1 w)) | inr w ↦ (a.used x).1 (inr w) ],
  );
  fresh = λ x lo hi u. a.fresh x lo hi ((r.used x).1 u);
  within = a.within;
  last = a.last;
  other_heads = λ k m. a.other_heads k m ∙ r.other_heads k m;
  allocated = a.allocated ∙ ap (λ (n : ℕ). (n + bytes) % 2 ^ 64) r.allocated;
}

module _ (mmap : Mmap) (documented : IsMmap mmap) where
  -- Whatever the number of rounds: what the loop returns is right.
  pub alloc_into-IsAllocated :
      (rounds : ℕ) (s : Manager) (h : Head) (bytes p : ℕ) (s' : Manager)
      → IsValid s
      → s.heads h ≢ 0
      → bytes < 2 ^ 63
      → alloc_into mmap rounds s h bytes ≡ some (p, s')
      → IsAllocated s h bytes p s'
  alloc_into-IsAllocated zero s h bytes p s' v z l e = absurd (unfold alloc_into in cc)
  alloc_into-IsAllocated (suc rounds) s h bytes p s' v z l e =
      let (a, b, c, d) = head_laid s h v z in
      elim (Bool-cases (ltb (head_block s h).end ((head_block s h).free + bytes))) [
        | inr room ↦
            let fits : (head_block s h).free + bytes ≤ (head_block s h).end = ground arith in
            let t = filled mmap s h bytes in
            let (same, eq) =
              some_pair (head_block s h).free p t s'
                (sym (alloc_into-fits mmap s h bytes rounds fits (omega arith)) ∙ e) in
            subst (λ (q : ℕ). IsAllocated s h bytes q s') same
              (subst (IsAllocated s h bytes (head_block s h).free) eq
                (filled-IsAllocated mmap s h bytes v z fits))
        | inl full ↦
            let past : (head_block s h).end < (head_block s h).free + bytes = ground arith in
            let low : (head_block s h).free + bytes < 2 ^ 64 = omega arith in
            elim (Option-cases (block_full mmap s h)) [
              | inl n ↦
                  absurd (let w = sym (alloc_into-out mmap s h bytes rounds past low n) ∙ e in cc)
              | inr (t, f) ↦
                  let r = block_full-IsRefilled mmap s t h documented v z f in
                  IsAllocated-refilled s t h bytes p s' r (
                    alloc_into-IsAllocated rounds t h bytes p s' r.valid r.set l
                      (sym (alloc_into-refills mmap s h bytes rounds t past low f) ∙ e))
            ]
      ]

  -- Two rounds are enough for what fits in the smallest block.
  alloc_into-returns :
      (s : Manager) (h : Head) (bytes : ℕ)
      → IsValid s
      → s.heads h ≢ 0
      → bytes ≤ 2 ^ 15 - 1312
      → HasRoom mmap s
      → (q : ℕ × Manager) × (alloc_into mmap 2 s h bytes ≡ some q)
  alloc_into-returns s h bytes v z l more =
      let (a, b, c, d) = head_laid s h v z in
      elim (Bool-cases (ltb (head_block s h).end ((head_block s h).free + bytes))) [
        | inr room ↦ (_, alloc_into-fits mmap s h bytes 1 (ground arith) (omega arith))
        | inl full ↦
            let (t, f) = block_full-fills mmap s h documented v more in
            let r = block_full-IsRefilled mmap s t h documented v z f in
            let (a', b', c', d') = head_laid t h r.valid r.set in
            let first = r.empty in
            (
              _,
              alloc_into-refills mmap s h bytes 1 t (ground arith) (omega arith) f
                  ∙ alloc_into-fits mmap t h bytes 0 (omega arith) (omega arith),
            )
      ]

  -- In a valid state, for a head that is set, at most as many bytes as the smallest block has, and
  -- memory for one more region, two rounds of the allocation loop are enough: the result is an
  -- address p from which on that many bytes, free before, are handed out to the head, at the end
  -- of its block; the addresses in use are those before and these; the other heads stay, the
  -- counter of allocated bytes advances, and the state stays valid.
  pub alloc_into_lem :
      (s : Manager) (h : Head) (bytes : ℕ)
      → IsValid s
      → s.heads h ≢ 0
      → bytes ≤ 2 ^ 15 - 1312
      → HasRoom mmap s
      → (p : ℕ) × (s' : Manager) × (alloc_into mmap 2 s h bytes ≡ some (p, s'))
        × IsAllocated s h bytes p s'
  alloc_into_lem s h bytes v z l more =
      let ((p, s'), e) = alloc_into-returns s h bytes v z l more in
      (p, s', e, alloc_into-IsAllocated 2 s h bytes p s' v z (omega arith) e)
