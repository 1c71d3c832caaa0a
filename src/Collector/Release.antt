-- ===== src/Collector/Release.antt =====
-- The old heap given back at the end of a collection: the list of free blocks.
use lambdachine.Common.{
  ℕ, suc, ◌≤◌, ◌≡◌, ◌≢◌, refl, sym, ap, ◌∙◌, length, Option, none, some, List, [], ◌∷◌, arith,
}
use mathlib.Core.Path.{subst}
use lambdachine.Regions.{Block, mark_as_free}
use lambdachine.MemoryManager.{Manager, set_block}
use lambdachine.MemoryManager.Grab.{write-here, write-other}
use lambdachine.LargeObjects.Linked.{NotIn}
use lambdachine.LargeObjects.Collected.{Disjoint, Disjoint-add, onto}
use lambdachine.Collector.Gc.{release}

-- The blocks of the list follow each other by their links from o on, none of them twice.
abbrev pub IsLinked : Manager → Option ℕ → List ℕ → Type 0
IsLinked s o [] = o ≡ none
IsLinked s o (b ∷ bs) = (o ≡ some b) × NotIn b bs × IsLinked s (s.memory.block b).link bs

-- Each of the blocks is free and empty, and stands where it stood.
abbrev pub AreFreed : Manager → Manager → List ℕ → Type 0
AreFreed s t [] = 0 ≤ 0
AreFreed s t (b ∷ bs) =
    ((t.memory.block b).flags ≡ 0)
    × ((t.memory.block b).start ≡ (s.memory.block b).start)
    × ((t.memory.block b).end ≡ (s.memory.block b).end)
    × ((t.memory.block b).free ≡ (s.memory.block b).start)
    × AreFreed s t bs

-- One block given back.
abbrev released : Manager → ℕ → Manager
released s b = record (set_block s b (record (mark_as_free (s.memory.block b)) { link = s.free })) {
  free = some b;
}

IsLinked-kept :
    (s t : Manager) (o : Option ℕ) (bs : List ℕ) (b : ℕ)
    → ((c : ℕ) → c ≢ b → t.memory.block c ≡ s.memory.block c)
    → NotIn b bs
    → IsLinked s o bs
    → IsLinked t o bs
IsLinked-kept s t o [] b same n l = l
IsLinked-kept s t o (c ∷ bs) b same n (e, m, l) = (
  e,
  m,
  subst (λ (p : Option ℕ). IsLinked t p bs)
      (sym (ap (λ (k : Block). k.link) (same c (λ f. n.0 (sym f)))))
      (IsLinked-kept s t (s.memory.block c).link bs b same n.1 l),
)

freed_kept :
    (s s' t : Manager) (bs : List ℕ) (b : ℕ)
    → ((c : ℕ) → c ≢ b → s'.memory.block c ≡ s.memory.block c)
    → NotIn b bs
    → AreFreed s' t bs
    → AreFreed s t bs
freed_kept s s' t [] b same n l = l
freed_kept s s' t (c ∷ bs) b same n (f, st, en, fr, l) =
    let e = same c (λ g. n.0 (sym g)) in
    let start = ap (λ (k : Block). k.start) e in
    (f, st ∙ start, en ∙ ap (λ (k : Block). k.end) e, fr ∙ start, freed_kept s s' t bs b same n.1 l)

-- What giving back the old blocks leaves.
pub record IsReleased (s : Manager) (olds frees : List ℕ) (t : Manager) : Type 0 where
  pub list : IsLinked t t.free (onto olds frees)
  pub freed : AreFreed s t olds
  pub others : (c : ℕ) → NotIn c olds → t.memory.block c ≡ s.memory.block c

release-step :
    (rounds : ℕ) (s : Manager) (b : ℕ)
    → release (suc rounds) s (some b) ≡ release rounds (released s b) (s.memory.block b).link
unfolding release mark_as_free
release-step rounds s b = refl

release-end : (s : Manager) → release 1 s none ≡ some s
unfolding release
release-end s = refl

-- For an old heap whose blocks follow each other without repetition and lie apart from the free
-- list, the loop that gives the blocks back ends, with one round more than there are blocks: the
-- free list has them in front, the last one first, each of them is free and empty where it stood,
-- and the other blocks are as before.
pub release_lem :
    (s : Manager) (o : Option ℕ) (olds frees : List ℕ)
    → IsLinked s o olds
    → IsLinked s s.free frees
    → Disjoint olds frees
    → (t : Manager) × (release (suc (length olds)) s o ≡ some t) × IsReleased s olds frees t
unfolding mark_as_free
release_lem s o [] frees e l d = (
  s,
  ap (release 1 s) e ∙ release-end s,
  record { list = l; freed = omega arith; others = λ c n. refl },
)
release_lem s o (b ∷ olds) frees (e, n, k) l d =
    let s' = released s b in
    let new : Block = record (mark_as_free (s.memory.block b)) { link = s.free } in
    let here : s'.memory.block b ≡ new = write-here s.memory.block b new in
    let same : (c : ℕ) → c ≢ b → s'.memory.block c ≡ s.memory.block c =
      λ c m. write-other s.memory.block b c new m in
    let rest = IsLinked-kept s s' (s.memory.block b).link olds b same n k in
    let front : IsLinked s' (some b) (b ∷ frees) = (
      refl,
      d.0,
      subst (λ (p : Option ℕ). IsLinked s' p frees) (sym (ap (λ (a : Block). a.link) here))
          (IsLinked-kept s s' s.free frees b same d.0 l),
    ) in
    let (t, f, r) =
      release_lem s' (s.memory.block b).link olds (b ∷ frees) rest front
        (Disjoint-add olds frees b n d.1) in
    let now = r.others b n ∙ here in
    (
      t,
      ap (release (suc (suc (length olds))) s) e ∙ release-step (suc (length olds)) s b ∙ f,
      record {
        list = r.list;
        freed = (
          ap (λ (a : Block). a.flags) now,
          ap (λ (a : Block). a.start) now,
          ap (λ (a : Block). a.end) now,
          ap (λ (a : Block). a.free) now,
          freed_kept s s' t olds b same n r.freed,
        );
        others = λ c m. r.others c m.1 ∙ same c m.0;
      },
    )
