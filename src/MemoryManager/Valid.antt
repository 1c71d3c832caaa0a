-- ===== src/MemoryManager/Valid.antt =====
-- The invariant of the memory manager, and the memory that it has handed out.
use lambdachine.Common.{
  ℕ, ◌+◌, ◌*◌, ◌%◌, ◌^◌, ◌≤◌, ◌<◌, ◌≡◌, ◌≢◌, ◌↔◌, refl, sym, ap, ◌∙◌, Option, some,
}
use lambdachine.Regions.{Block, IsMem, block_at}
use lambdachine.Regions.Layout.{data_start}
use lambdachine.MemoryManager.{Manager, Head, head_contents, head_block}

-- A region of small objects that the program holds.
abbrev pub IsSmall : Manager → ℕ → Type 0
IsSmall s r = IsMem r s.memory.regions × (s.memory.region_info r ≡ 1)

-- The block header at b is block i of such a region r.
abbrev pub IsBlock : Manager → ℕ → ℕ → ℕ → Type 0
IsBlock s b r i = IsSmall s r × (i < 32) × (b ≡ block_at r i)

abbrev pub IsOwned : Manager → ℕ → Type 0
IsOwned s b = (r : ℕ) × (i : ℕ) × IsBlock s b r i

-- The places that point to free blocks: the manager's list, a region's list, the link of a free block.
pub data Cell : Type 0 where
  free_cell : Cell
  next_cell : ℕ → Cell
  link_cell : ℕ → Cell

abbrev pub deref : Manager → Cell → Option ℕ
deref s free_cell = s.free
deref s (next_cell r) = s.memory.next_free r
deref s (link_cell b) = (s.memory.block b).link

abbrev pub IsFree : Manager → ℕ → Type 0
IsFree s b = IsOwned s b × ((s.memory.block b).flags ≡ 0)

abbrev pub IsLive : Manager → Cell → Type 0
IsLive s free_cell = 0 ≤ 0
IsLive s (next_cell r) = IsSmall s r
IsLive s (link_cell b) = IsFree s b

-- A block of a region has the region's layout, and its free pointer is within it.
abbrev pub IsLaid : Block → ℕ → ℕ → Type 0
IsLaid b r i =
    (b.start ≡ data_start r i)
    × (b.end ≡ r + (i + 1) * 2 ^ 15)
    × (b.start ≤ b.free)
    × (b.free ≤ b.end)

-- Regions are at their boundaries; blocks are laid out; a free block is empty; the pointers to free
-- blocks point to free blocks, no two of them to the same; each head that is set has its contents.
pub record IsSound (s : Manager) : Type 0 where
  pub place : (r : ℕ) → IsMem r s.memory.regions → (r % 2 ^ 20 ≡ 0) × (r + 2 ^ 20 ≤ 2 ^ 47)
  pub laid : (b r i : ℕ) → IsBlock s b r i → IsLaid (s.memory.block b) r i
  pub empty : (b : ℕ) → IsFree s b → (s.memory.block b).free ≡ (s.memory.block b).start
  pub points : (k : Cell) (b : ℕ) → IsLive s k → deref s k ≡ some b → IsFree s b
  pub unique :
      (j k : Cell) (b : ℕ)
      → IsLive s j
      → IsLive s k
      → deref s j ≡ some b
      → deref s k ≡ some b
      → j ≡ k
  pub heads :
      (h : Head)
      → s.heads h ≢ 0
      → IsOwned s (s.heads h) × ((head_block s h).flags ≡ head_contents h)

-- And there is a region to take blocks from.
pub record IsValid (s : Manager) : Type 0 where
  pub sound : IsSound s
  pub region : IsSmall s s.region

-- The address x belongs to what is handed out of a block, to any of what is handed out.
abbrev pub IsUsedIn : ℕ → Block → Type 0
IsUsedIn x a = (a.flags ≢ 0) × (a.start ≤ x) × (x < a.free)

abbrev pub IsUsed : Manager → ℕ → Type 0
IsUsed s x = (b : ℕ) × IsOwned s b × IsUsedIn x (s.memory.block b)

-- s' has all that s has, and no more memory is handed out: at most regions were added and free blocks
-- taken.
pub record IsKept (s s' : Manager) : Type 0 where
  pub valid : IsValid s'
  pub used : (x : ℕ) → IsUsed s' x ↔ IsUsed s x
  pub owned : (b : ℕ) → IsOwned s b → IsOwned s' b
  pub blocks :
      (b : ℕ) → IsOwned s b → (s.memory.block b).flags ≢ 0 → s'.memory.block b ≡ s.memory.block b
  pub heads : (h : Head) → s'.heads h ≡ s.heads h
  pub allocated : s'.allocated ≡ s.allocated
  pub next_gc : s'.next_gc ≡ s.next_gc

pub IsKept-refl : (s : Manager) → IsValid s → IsKept s s
IsKept-refl s v = record {
  valid = v;
  used = λ x. (λ u. u, λ u. u);
  owned = λ b o. o;
  blocks = λ b o n. refl;
  heads = λ h. refl;
  allocated = refl;
  next_gc = refl;
}

pub IsKept-trans : (s t u : Manager) → IsKept s t → IsKept t u → IsKept s u
IsKept-trans s t u p q = record {
  valid = q.valid;
  used = λ x. (λ w. (p.used x).0 ((q.used x).0 w), λ w. (q.used x).1 ((p.used x).1 w));
  owned = λ b o. q.owned b (p.owned b o);
  blocks = λ b o n.
      let e = p.blocks b o n in
      let f = ap (λ (a : Block). a.flags) e in q.blocks b (p.owned b o) (λ z. n (sym f ∙ z)) ∙ e;
  heads = λ h. q.heads h ∙ p.heads h;
  allocated = q.allocated ∙ p.allocated;
  next_gc = q.next_gc ∙ p.next_gc;
}

-- Block b is grabbed for the contents `flags`: it is empty, and it was in use for nothing.
pub record IsGrabbed (s : Manager) (flags b : ℕ) (s' : Manager) : Type 0 where
  pub kept : IsKept s s'
  pub owned : IsOwned s' b
  pub contents : (s'.memory.block b).flags ≡ flags
  pub empty : (s'.memory.block b).free ≡ (s'.memory.block b).start
  pub unused : IsOwned s b → (s.memory.block b).flags ≡ 0
