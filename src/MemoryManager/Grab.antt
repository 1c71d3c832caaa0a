-- ===== src/MemoryManager/Grab.antt =====
-- grabFreeBlock and blockFull: what they return, and that they return.
use lambdachine.Common.{
  ℕ, ◌≡◌, ◌≢◌, inl, inr, refl, sym, ap, ◌∙◌, write, Option, none, some, ◌>>=◌, >>=-eq-some,
  Option-cases, some_pair, arith,
}
use mathlib.Core.Path.{subst}
use lambdachine.Regions.{Block, Memory, Mmap, new_region, small_object}
use lambdachine.Regions.Mapping.{IsMmap}
use lambdachine.MemoryManager.{Manager, grab_from_region, grab_free_block, set_block}
use lambdachine.MemoryManager.Valid.{
  Cell, free_cell, next_cell, link_cell, deref, IsValid, IsKept, IsKept-trans, IsGrabbed,
}
use lambdachine.MemoryManager.Take.{
  IsRoot, the_list, a_region, IsTaken, IsTaken-IsGrabbed, number_cases,
}
use lambdachine.MemoryManager.Find.{popped, grab_from_region-IsFound, grab_from_region-finds}

pub write-here : {A : Type 0} (f : ℕ → A) (i : ℕ) (a : A) → write f i a i ≡ a
write-here f i a = ground arith

pub write-other : {A : Type 0} (f : ℕ → A) (i j : ℕ) (a : A) → j ≢ i → write f i a j ≡ f j
write-other f i j a n = ground arith

-- The list's front taken.
abbrev listed : Manager → ℕ → ℕ → Manager
listed s flags b =
    let old = s.memory.block b in
    set_block (record s { free = old.link }) b (record old { link = none; flags = flags })

list_kept :
    (s : Manager) (flags b : ℕ) (j : Cell)
    → IsRoot j
    → j ≢ free_cell
    → deref (listed s flags b) j ≡ deref s j
list_kept s flags b free_cell r n = absurd (n refl)
list_kept s flags b (next_cell q) r n = refl
list_kept s flags b (link_cell q) r n = elim r [ ]

listed-IsTaken :
    (s : Manager) (flags b : ℕ)
    → s.free ≡ some b
    → flags ≢ 0
    → IsTaken s free_cell b flags (listed s flags b)
listed-IsTaken s flags b e n = record {
  root = the_list;
  live = omega arith;
  front = e;
  nonzero = n;
  regions = refl;
  info = λ r. refl;
  heads = λ h. refl;
  region = refl;
  here = write-here s.memory.block b _;
  others = λ a m. write-other s.memory.block b a _ m;
  popped = refl;
  kept = list_kept s flags b;
}

-- The newest region's front taken.
abbrev pub from_region : Manager → ℕ → ℕ → Manager
from_region s flags b =
    let s' : Manager = record s { memory = popped s.memory s.region b } in
    set_block s' b (record (s'.memory.block b) { flags = flags })

region_kept :
    (s : Manager) (flags b : ℕ) (j : Cell)
    → IsRoot j
    → j ≢ next_cell s.region
    → deref (from_region s flags b) j ≡ deref s j
region_kept s flags b free_cell r n = refl
region_kept s flags b (next_cell q) r n =
    write-other s.memory.next_free s.region q _ (λ e. n (ap next_cell e))
region_kept s flags b (link_cell q) r n = elim r [ ]

pub from_region-IsTaken :
    (s : Manager) (flags b : ℕ)
    → IsValid s
    → s.memory.next_free s.region ≡ some b
    → flags ≢ 0
    → IsTaken s (next_cell s.region) b flags (from_region s flags b)
from_region-IsTaken s flags b v e n = record {
  root = a_region s.region;
  live = v.region;
  front = e;
  nonzero = n;
  regions = refl;
  info = λ r. refl;
  heads = λ h. refl;
  region = refl;
  here =
      let inner = write-here s.memory.block b (record (s.memory.block b) { link = none }) in
      write-here (popped s.memory s.region b).block b _
      ∙ ap (λ (a : Block). let w : Block = record a { flags = flags } in w) inner;
  others = λ a m.
      write-other (popped s.memory s.region b).block b a _ m ∙ write-other s.memory.block b a _ m;
  popped = write-here s.memory.next_free s.region _;
  kept = region_kept s flags b;
}

-- What is left to do when a region gave the block.
abbrev pub flagged : ℕ → ℕ × Manager → Option (ℕ × Manager)
flagged flags (b, s') = some (b, set_block s' b (record (s'.memory.block b) { flags = flags }))

IsGrabbed-kept :
    (s t : Manager) (flags b : ℕ) (s' : Manager)
    → IsKept s t
    → IsGrabbed t flags b s'
    → IsGrabbed s flags b s'
IsGrabbed-kept s t flags b s' k g = record {
  kept = IsKept-trans s t s' k g.kept;
  owned = g.owned;
  contents = g.contents;
  empty = g.empty;
  unused = λ o. elim (number_cases (s.memory.block b).flags 0) [
    | inl e ↦ e
    | inr n ↦ sym (ap (λ (a : Block). a.flags) (k.blocks b o n)) ∙ g.unused (k.owned b o)
  ];
}

module _ (mmap : Mmap) (s : Manager) (flags : ℕ) where
  grab_free_block-listed :
      (b : ℕ) → s.free ≡ some b → grab_free_block mmap s flags ≡ some (b, listed s flags b)
  unfolding grab_free_block
  grab_free_block-listed b e = rw (grab_free_block, e) refl

  pub grab_free_block-region :
      s.free ≡ none → grab_free_block mmap s flags ≡ (grab_from_region mmap 2 s >>= flagged flags)
  unfolding grab_free_block
  grab_free_block-region e = simp (grab_free_block, e)

  pub grab_free_block-IsGrabbed :
      (b : ℕ) (s' : Manager)
      → IsMmap mmap
      → IsValid s
      → flags ≢ 0
      → grab_free_block mmap s flags ≡ some (b, s')
      → IsGrabbed s flags b s'
  grab_free_block-IsGrabbed b s' documented v n e = elim (Option-cases s.free) [
    | inr (c, f) ↦
        let (same, eq) =
          some_pair c b (listed s flags c) s' (sym (grab_free_block-listed c f) ∙ e) in
        let t = listed-IsTaken s flags c f n in
        let g = IsTaken-IsGrabbed s free_cell c flags (listed s flags c) v t refl refl in
        subst (λ (a : ℕ). IsGrabbed s flags a s') same (subst (IsGrabbed s flags c) eq g)
    | inl f ↦
        let ((c, t), g, h) =
          >>=-eq-some (grab_from_region mmap 2 s) (flagged flags)
            (sym (grab_free_block-region f) ∙ e) in
        let found = grab_from_region-IsFound mmap documented 2 s t c v g in
        let after : Manager → Manager =
          λ (q : Manager). set_block q c (record (q.memory.block c) { flags = flags }) in
        let (same, eq) = some_pair c b (after t) s' h in
        let q = found.before in
        let t' = from_region-IsTaken q flags c found.kept.valid found.front n in
        let g' =
          IsTaken-IsGrabbed q (next_cell q.region) c flags (from_region q flags c) found.kept.valid
            t' refl refl in
        let result = IsGrabbed-kept s q flags c (from_region q flags c) found.kept g' in
        subst (λ (a : ℕ). IsGrabbed s flags a s') same
          (subst (IsGrabbed s flags c) (sym (ap after found.after) ∙ eq) result)
  ]

  pub grab_free_block-grabs :
      IsMmap mmap
      → IsValid s
      → (p : ℕ × Memory) × (new_region mmap s.memory small_object ≡ some p)
      → (q : ℕ × Manager) × (grab_free_block mmap s flags ≡ some q)
  grab_free_block-grabs documented v room = elim (Option-cases s.free) [
    | inr (c, f) ↦ (_, grab_free_block-listed c f)
    | inl f ↦
        let ((c, t), g) = grab_from_region-finds mmap documented s v room in
        (_, grab_free_block-region f ∙ ap (λ (o : Option (ℕ × Manager)). o >>= flagged flags) g)
  ]
