-- ===== src/MemoryManager/Refill.antt =====
-- blockFull: a new, empty block before the full one, and the rest of the heap as it was.
use lambdachine.Common.{
  ℕ, ◌+◌, ◌-◌, ◌%◌, ◌^◌, ◌≤◌, ◌<◌, ◌≡◌, ◌≢◌, ◌↔◌, inl, inr, refl, sym, ap, ◌∙◌, ◌==◌, if◌then◌else◌,
  false, Option, some, ◌>>=◌, >>=-eq-some, ◌∷◌, arith, Bool-cases,
}
use mathlib.Core.Path.{subst}
use lambdachine.Regions.{
  Block, Memory, Mmap, contents, map_from, init_region, new_region, small_object,
}
use lambdachine.Regions.Mapping.{IsMmap}
use lambdachine.MemoryManager.{
  Manager, Head, closures_head, static_closures_head, info_tables_head, strings_head, bytecode_head,
  head_contents, head_block, set_block, set_head, grab_free_block, block_full,
}
use lambdachine.MemoryManager.Valid.{IsOwned, IsValid, IsUsed, IsGrabbed}
use lambdachine.MemoryManager.Take.{nonzero_head}
use lambdachine.MemoryManager.Grab.{
  write-here, write-other, grab_free_block-IsGrabbed, grab_free_block-grabs,
}
use lambdachine.MemoryManager.Touch.{touched-IsValid, touched-IsUsed}

-- What newRegion does with the memory that it mapped.
abbrev rest_of_region : Memory → ℕ × ℕ → Option (ℕ × Memory)
rest_of_region m (r, hint) =
    some (r, init_region (record m { regions = r ∷ m.regions; alloc_hint = hint }) small_object r)

-- A memory that has room for one more region.
abbrev pub HasRoom : Mmap → Manager → Type 0
HasRoom mmap s =
    (q : ℕ × ℕ) × (map_from mmap s.memory.regions 33 s.memory.alloc_hint (2 ^ 20) ≡ some q)

region_mapped :
    (mmap : Mmap) (s : Manager)
    → HasRoom mmap s
    → (p : ℕ × Memory) × (new_region mmap s.memory small_object ≡ some p)
unfolding new_region
region_mapped mmap s (q, e) = (_, ap (λ (o : Option (ℕ × ℕ)). o >>= rest_of_region s.memory) e)

-- The head h of s' is a new, empty block before the old one, and nothing else is different.
pub record IsRefilled (s : Manager) (h : Head) (s' : Manager) : Type 0 where
  pub valid : IsValid s'
  pub used : (x : ℕ) → IsUsed s' x ↔ IsUsed s x
  pub blocks :
      (b : ℕ) → IsOwned s b → (s.memory.block b).flags ≢ 0 → s'.memory.block b ≡ s.memory.block b
  pub empty : (head_block s' h).free ≡ (head_block s' h).start
  pub link : (head_block s' h).link ≡ some (s.heads h)
  pub other_heads : (k : Head) → head_contents k ≢ head_contents h → s'.heads k ≡ s.heads k
  pub set : s'.heads h ≢ 0
  pub allocated : s'.allocated ≡ s.allocated
  pub next_gc : s'.next_gc ≡ s.next_gc

contents_mod : (h : Head) → head_contents h % 256 ≡ head_contents h
contents_mod closures_head = refl
contents_mod static_closures_head = refl
contents_mod info_tables_head = refl
contents_mod strings_head = refl
contents_mod bytecode_head = refl

head_flags :
    (s : Manager) (h : Head)
    → IsValid s
    → s.heads h ≢ 0
    → contents (head_block s h) ≡ head_contents h
head_flags s h v z = ap (λ (f : ℕ). f % 256) (v.sound.heads h z).1 ∙ contents_mod h

pub head_used : (s : Manager) (h : Head) → IsValid s → s.heads h ≢ 0 → (head_block s h).flags ≢ 0
head_used s h v z e = nonzero_head h (sym (v.sound.heads h z).1 ∙ e)

pub head_laid :
    (s : Manager) (h : Head)
    → IsValid s
    → s.heads h ≢ 0
    → ((head_block s h).start ≤ (head_block s h).free)
      × ((head_block s h).free ≤ (head_block s h).end)
      × ((head_block s h).end < 2 ^ 48)
      × ((head_block s h).start + (2 ^ 15 - 1312) ≤ (head_block s h).end)
head_laid s h v z =
    let (r, i, m) = (v.sound.heads h z).0 in
    let (a, b, c, d) = v.sound.laid (s.heads h) r i m in
    let p = v.sound.place r m.0.0 in let lt = m.1 in (c, d, omega arith, ground arith)

pub head_same :
    (h : Head) {A : Type 0} (a b : A) → (if head_contents h == head_contents h then a else b) ≡ a
head_same h a b = ground arith

pub not_null : (s : Manager) (b : ℕ) → IsValid s → IsOwned s b → b ≢ 0
not_null s b v (r, i, m) e = let eq = m.2 in omega arith

-- The grabbed block linked and made the head.
abbrev refilled : Manager → Head → ℕ → Manager → Manager
refilled s h b t =
    set_head (set_block t b (record (t.memory.block b) { link = some (s.heads h) })) h b

refilled-IsRefilled :
    (s t : Manager) (h : Head) (b : ℕ)
    → IsValid s
    → IsGrabbed s (head_contents h) b t
    → IsRefilled s h (refilled s h b t)
refilled-IsRefilled s t h b v g =
    let a : Block = record (t.memory.block b) { link = some (s.heads h) } in
    let heads' : Head → ℕ = λ k. if head_contents k == head_contents h then b else t.heads k in
    let n : (t.memory.block b).flags ≢ 0 = λ e. nonzero_head h (sym g.contents ∙ e) in
    let (r, i, m) = g.owned in
    let laid = g.kept.valid.sound.laid b r i m in
    let now = head_same h b (t.heads h) in
    let head_is : head_block (refilled s h b t) h ≡ a =
      ap (λ (j : ℕ). (refilled s h b t).memory.block j) now ∙ write-here t.memory.block b a in
    record {
      valid =
          touched-IsValid t b a heads' t.allocated t.next_gc g.kept.valid g.owned n refl refl refl
            laid.2 laid.3
            (λ k. elim (Bool-cases (head_contents k == head_contents h)) [
              | inl e ↦ inr (rw e refl, g.contents ∙ ground arith)
              | inr e ↦ inl (rw e refl)
            ]);
      used = λ x.
          let w =
            touched-IsUsed t b a heads' t.allocated t.next_gc g.kept.valid g.owned n refl refl refl
              x laid.2 (omega arith) in
          (
            λ u. elim (w.0 u) [ inl p ↦ (g.kept.used x).0 p | inr (lo, hi) ↦ absurd (omega arith) ],
            λ u. w.1 (inl ((g.kept.used x).1 u)),
          );
      blocks = λ c o m.
          write-other t.memory.block b c a
            (λ e. m (ap (λ (j : ℕ). (s.memory.block j).flags) e ∙ g.unused (subst (IsOwned s) e o)))
          ∙ g.kept.blocks c o m;
      empty =
          ap (λ (k : Block). k.free) head_is ∙ g.empty ∙ sym (ap (λ (k : Block). k.start) head_is);
      link = ap (λ (k : Block). k.link) head_is;
      other_heads = λ k m.
          let f : (head_contents k == head_contents h) ≡ false = ground arith in
          rw f (g.kept.heads k);
      set = λ e. not_null t b g.kept.valid g.owned (sym now ∙ e);
      allocated = g.kept.allocated;
      next_gc = g.kept.next_gc;
    }

block_full-eq :
    (mmap : Mmap) (s s' : Manager) (h : Head)
    → block_full mmap s h ≡ some s'
    → (b : ℕ) × (t : Manager) × (grab_free_block mmap s (contents (head_block s h)) ≡ some (b, t))
      × (refilled s h b t ≡ s')
unfolding block_full
block_full-eq mmap s s' h e =
    let ((b, t), f, g) = >>=-eq-some (grab_free_block mmap s (contents (head_block s h))) _ e in
    (b, t, f, cc)

pub block_full-IsRefilled :
    (mmap : Mmap) (s s' : Manager) (h : Head)
    → IsMmap mmap
    → IsValid s
    → s.heads h ≢ 0
    → block_full mmap s h ≡ some s'
    → IsRefilled s h s'
block_full-IsRefilled mmap s s' h documented v z e =
    let (b, t, f, g) = block_full-eq mmap s s' h e in
    let kind = head_flags s h v z in
    let n : contents (head_block s h) ≢ 0 = λ q. nonzero_head h (sym kind ∙ q) in
    let grabbed =
      grab_free_block-IsGrabbed mmap s (contents (head_block s h)) b t documented v n f in
    subst (IsRefilled s h) g
      (refilled-IsRefilled s t h b v (subst (λ (c : ℕ). IsGrabbed s c b t) kind grabbed))

pub block_full-fills :
    (mmap : Mmap) (s : Manager) (h : Head)
    → IsMmap mmap
    → IsValid s
    → HasRoom mmap s
    → (s' : Manager) × (block_full mmap s h ≡ some s')
unfolding block_full
block_full-fills mmap s h documented v room =
    let ((b, t), f) =
      grab_free_block-grabs mmap s (contents (head_block s h)) documented v
        (region_mapped mmap s room) in
    (refilled s h b t, ap (λ (o : Option (ℕ × Manager)). o >>= λ (b, t). some (refilled s h b t)) f)
