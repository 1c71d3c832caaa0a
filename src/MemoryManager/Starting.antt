-- ===== src/MemoryManager/Starting.antt =====
-- The heads set one after the other by the constructor, from the blocks of the first region.
use lambdachine.Common.{
  ℕ, ◌+◌, ◌≤◌, ◌<◌, ◌≡◌, ◌≢◌, inl, inr, refl, sym, ap, ◌∙◌, ◌==◌, write, Option, none, some, ◌>>=◌,
  [], arith, Bool-cases,
}
use mathlib.Core.Path.{subst}
use lambdachine.Regions.{Block, Memory, IsMem, Mmap, block_at}
use lambdachine.Regions.Layout.{free_block}
use lambdachine.MemoryManager.{
  Manager, Head, head_contents, head_block, set_head, grab_free_block, grab_head,
}
use lambdachine.MemoryManager.Valid.{
  IsOwned, IsFree, IsLive, deref, Cell, free_cell, next_cell, link_cell, IsSound, IsValid, IsUsed,
  IsGrabbed,
}
use lambdachine.MemoryManager.Take.{IsTaken, IsTaken-IsGrabbed, nonzero_head}
use lambdachine.MemoryManager.Find.{grab_from_region-here}
use lambdachine.MemoryManager.Grab.{
  write-here, flagged, from_region, from_region-IsTaken, grab_free_block-region,
}
use lambdachine.MemoryManager.Refill.{head_same}

-- The manager before it has a region.
abbrev pub unset : Memory → Manager
unset m = record {
  memory = m;
  region = 0;
  free = none;
  heads = λ h. 0;
  min_heap_size = 2;
  next_gc = 2;
  allocated = 0;
}

no_points :
    (m : Memory)
    → m.regions ≡ []
    → (k : Cell) (b : ℕ) → IsLive (unset m) k
    → deref (unset m) k ≡ some b
    → IsFree (unset m) b
no_points m e free_cell b l f = absurd (cc)
no_points m e (next_cell r) b l f = absurd (subst (IsMem r) e l.0)
no_points m e (link_cell a) b l f = let (r, i, o) = l.0 in absurd (subst (IsMem r) e o.0.0)

pub unset-IsSound : (m : Memory) → m.regions ≡ [] → IsSound (unset m)
unset-IsSound m e = record {
  place = λ r h. absurd (subst (IsMem r) e h);
  laid = λ b r i h. absurd (subst (IsMem r) e h.0.0);
  empty = λ b h. let (r, i, o) = h.0 in absurd (subst (IsMem r) e o.0.0);
  points = no_points m e;
  unique = λ j k b lj lk ej ek.
      let (r, i, o) = (no_points m e j b lj ej).0 in absurd (subst (IsMem r) e o.0.0);
  heads = λ h z. absurd (z refl);
}

module _ (s : Manager) (h : Head) (b : ℕ) where
  same-IsLive : (k : Cell) → IsLive (set_head s h b) k → IsLive s k
  same-IsLive free_cell l = l
  same-IsLive (next_cell r) l = l
  same-IsLive (link_cell c) l = l

  same_deref : (k : Cell) → deref (set_head s h b) k ≡ deref s k
  same_deref free_cell = refl
  same_deref (next_cell r) = refl
  same_deref (link_cell c) = refl

  set_head-heads :
      (k : Head)
      → (s.heads k ≢ 0 → IsOwned s (s.heads k) × ((head_block s k).flags ≡ head_contents k))
      → IsOwned s b
      → (s.memory.block b).flags ≡ head_contents h
      → (set_head s h b).heads k ≢ 0
      → IsOwned s ((set_head s h b).heads k)
        × ((s.memory.block ((set_head s h b).heads k)).flags ≡ head_contents k)
  set_head-heads k old o f z = elim (Bool-cases (head_contents k == head_contents h)) [
    | inl e ↦ rw e (o, f ∙ ground arith)
    | inr e ↦
        let other : (set_head s h b).heads k ≡ s.heads k = rw e refl in
        rw e (old (λ q. z (other ∙ q)))
  ]

  set_head-IsValid :
      IsValid s
      → IsOwned s b
      → (s.memory.block b).flags ≡ head_contents h
      → IsValid (set_head s h b)
  set_head-IsValid v o f = record {
    sound = record {
      place = v.sound.place;
      laid = v.sound.laid;
      empty = v.sound.empty;
      points = λ k c l e. v.sound.points k c (same-IsLive k l) (sym (same_deref k) ∙ e);
      unique = λ j k c lj lk ej ek.
          v.sound.unique j k c (same-IsLive j lj) (same-IsLive k lk) (sym (same_deref j) ∙ ej)
            (sym (same_deref k) ∙ ek);
      heads = λ k z. set_head-heads k (v.sound.heads k) o f z;
    };
    region = v.region;
  }

-- The blocks of region r from block i on are free, in their order, and the next to be taken.
pub record IsStarting (s : Manager) (r i : ℕ) : Type 0 where
  pub valid : IsValid s
  pub free : s.free ≡ none
  pub region : s.region ≡ r
  pub front : s.memory.next_free r ≡ some (block_at r i)
  pub left : (j : ℕ) → i ≤ j → j < 32 → s.memory.block (block_at r j) ≡ free_block r j
  pub nothing : (x : ℕ) → ¬ IsUsed s x

-- Whether head k is set in s', when it was in s or is h.
abbrev pub KeepsHeads : Manager → Head → Manager → Type 0
KeepsHeads s h s' = (s'.heads h ≢ 0) × ((k : Head) → s.heads k ≢ 0 → s'.heads k ≢ 0)

grab_free_block-front :
    (mmap : Mmap) (s : Manager) (flags b : ℕ)
    → s.free ≡ none
    → s.memory.next_free s.region ≡ some b
    → grab_free_block mmap s flags ≡ some (b, from_region s flags b)
grab_free_block-front mmap s flags b e f =
    grab_free_block-region mmap s flags e
    ∙ ap (λ (o : Option (ℕ × Manager)). o >>= flagged flags) (grab_from_region-here mmap 1 s b f)

next_block : (r i : ℕ) → i < 31 → (free_block r i).link ≡ some (block_at r (i + 1))
next_block r i more = ground arith

module _ (s : Manager) (r i : ℕ) (h : Head) (st : IsStarting s r i) (more : i < 31) where
  abbrev pub stepped : Manager
  stepped = set_head (from_region s (head_contents h) (block_at r i)) h (block_at r i)

  stepped-IsTaken :
      IsTaken s
        (next_cell s.region)
        (block_at r i)
        (head_contents h)
        (from_region s (head_contents h) (block_at r i))
  stepped-IsTaken =
      let front : s.memory.next_free s.region ≡ some (block_at r i) =
        ap (λ (q : ℕ). s.memory.next_free q) st.region ∙ st.front in
      from_region-IsTaken s (head_contents h) (block_at r i) st.valid front (nonzero_head h)

  stepped-IsGrabbed :
      IsGrabbed s (head_contents h) (block_at r i) (from_region s (head_contents h) (block_at r i))
  stepped-IsGrabbed =
      IsTaken-IsGrabbed s (next_cell s.region) (block_at r i) (head_contents h)
        (from_region s (head_contents h) (block_at r i)) st.valid stepped-IsTaken refl refl

  pub stepped-IsStarting : IsStarting stepped r (i + 1)
  stepped-IsStarting =
      let g = stepped-IsGrabbed in
      let b = block_at r i in
      record {
        valid =
            set_head-IsValid (from_region s (head_contents h) b) h b g.kept.valid g.owned
              g.contents;
        free = st.free;
        region = st.region;
        front =
            let link = (s.memory.block b).link in
            ap (λ (q : ℕ). write s.memory.next_free q link r) st.region
            ∙ write-here s.memory.next_free r link
            ∙ ap (λ (a : Block). a.link) (st.left i (omega arith) (omega arith))
            ∙ next_block r i more;
        left = λ j lo hi.
            let n : block_at r j ≢ block_at r i = λ e. omega arith in
            stepped-IsTaken.others (block_at r j) n ∙ st.left j (omega arith) hi;
        nothing = λ x u. st.nothing x ((g.kept.used x).0 u);
      }

  pub stepped-KeepsHeads : KeepsHeads s h stepped
  stepped-KeepsHeads =
      let g = stepped-IsGrabbed in
      let now = head_same h (block_at r i) (s.heads h) in
      (
        λ e. omega arith,
        λ k z. elim (Bool-cases (head_contents k == head_contents h)) [
          | inl e ↦ rw e (λ q. omega arith)
          | inr e ↦ rw e z
        ],
      )

  pub grab_head-steps : (mmap : Mmap) → grab_head mmap s h ≡ some stepped
  unfolding grab_head
  grab_head-steps mmap =
      let front : s.memory.next_free s.region ≡ some (block_at r i) =
        ap (λ (q : ℕ). s.memory.next_free q) st.region ∙ st.front in
      let e = grab_free_block-front mmap s (head_contents h) (block_at r i) st.free front in
      ap (λ (o : Option (ℕ × Manager)). o >>= λ (b, t). some (set_head t h b)) e
