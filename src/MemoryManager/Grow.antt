-- ===== src/MemoryManager/Grow.antt =====
-- A region of free blocks added: the invariant and the memory handed out.
use lambdachine.Common.{
  ℕ, zero, suc, ◌+◌, ◌%◌, ◌^◌, ◌≤◌, ◌<◌, ◌≡◌, ◌≢◌, ◌↔◌, ◌⊎◌, inl, inr, refl, sym, ap, ◌∙◌, ◌==◌,
  if◌then◌else◌, none, some, arith, Bool-cases, ◌∷◌,
}
use mathlib.Core.Path.{subst}
use lambdachine.Regions.{Block, IsMem, block_at}
use lambdachine.Regions.Layout.{free_block}
use lambdachine.Regions.Mapping.{IsPlace}
use lambdachine.MemoryManager.{Manager, Head, head_contents, head_block}
use lambdachine.MemoryManager.Valid.{
  IsSmall, IsBlock, IsOwned, Cell, free_cell, next_cell, link_cell, deref, IsFree, IsLive, IsLaid,
  IsSound, IsValid, IsUsedIn, IsUsed,
}

-- s' is s with the region r, which has only free blocks, as its newest.
pub record IsGrown (s : Manager) (r : ℕ) (s' : Manager) : Type 0 where
  pub place : IsPlace s.memory.regions r
  pub regions : s'.memory.regions ≡ r ∷ s.memory.regions
  pub info : s'.memory.region_info r ≡ 1
  pub info_others : (q : ℕ) → q ≢ r → s'.memory.region_info q ≡ s.memory.region_info q
  pub heads : (h : Head) → s'.heads h ≡ s.heads h
  pub region : s'.region ≡ r
  pub free : s'.free ≡ s.free
  pub next : s'.memory.next_free r ≡ some (block_at r 0)
  pub next_others : (q : ℕ) → q ≢ r → s'.memory.next_free q ≡ s.memory.next_free q
  pub blocks : (i : ℕ) → i < 32 → s'.memory.block (block_at r i) ≡ free_block r i
  pub others :
      (a : ℕ) → ((j : ℕ) → j < 32 → a ≢ block_at r j) → s'.memory.block a ≡ s.memory.block a

module _ (s : Manager) (r : ℕ) (s' : Manager) (v : IsSound s) (t : IsGrown s r s') where
  apart : (q : ℕ) → IsMem q s.memory.regions → (q + 2 ^ 20 ≤ r) ⊎ (r + 2 ^ 20 ≤ q)
  apart q m = t.place.3 q m

  old_region : (q : ℕ) → IsMem q s.memory.regions → q ≢ r
  old_region q m e = elim (apart q m) [ inl h ↦ omega arith | inr h ↦ omega arith ]

  mem : (q : ℕ) → IsMem q s'.memory.regions → (q ≡ r) ⊎ IsMem q s.memory.regions
  mem q m = subst (IsMem q) t.regions m

  IsSmall-back : (q : ℕ) → IsSmall s q → IsSmall s' q
  IsSmall-back q m =
      (subst (IsMem q) (sym t.regions) (inr m.0), t.info_others q (old_region q m.0) ∙ m.1)

  IsSmall-new : IsSmall s' r
  IsSmall-new = (subst (IsMem r) (sym t.regions) (inl refl), t.info)

  IsSmall-cases : (q : ℕ) → IsSmall s' q → (q ≡ r) ⊎ IsSmall s q
  IsSmall-cases q m = elim (mem q m.0) [
    | inl e ↦ inl e
    | inr o ↦ inr (o, sym (t.info_others q (old_region q o)) ∙ m.1)
  ]

  pub grown_owned : (b : ℕ) → IsOwned s b → IsOwned s' b
  grown_owned b (q, i, (m, lt, e)) = (q, i, (IsSmall-back q m, lt, e))

  old_block : (b : ℕ) → IsOwned s b → (j : ℕ) → j < 32 → b ≢ block_at r j
  old_block b (q, i, (m, lt, e)) j hj f = elim (apart q m.0) [
    | inl h ↦ omega arith
    | inr h ↦ omega arith
  ]

  pub grown_block : (b : ℕ) → IsOwned s b → s'.memory.block b ≡ s.memory.block b
  grown_block b o = t.others b (old_block b o)

  owned_new : (i : ℕ) → i < 32 → IsOwned s' (block_at r i)
  owned_new i h = (r, i, (IsSmall-new, h, refl))

  -- A block of s', with its region: an old one, or one of the new region.
  IsBlock-cases :
      (b q i : ℕ) → IsBlock s' b q i → IsBlock s b q i ⊎ ((q ≡ r) × (i < 32) × (b ≡ block_at r i))
  IsBlock-cases b q i (m, lt, e) = elim (IsSmall-cases q m) [
    | inl f ↦ inr (f, lt, e ∙ ap (λ (a : ℕ). block_at a i) f)
    | inr o ↦ inl (o, lt, e)
  ]

  IsFree-cases : (b : ℕ) → IsFree s' b → IsFree s b ⊎ ((i : ℕ) × (i < 32) × (b ≡ block_at r i))
  IsFree-cases b ((q, i, m), f) = elim (IsBlock-cases b q i m) [
    | inl o ↦
        let w : IsOwned s b = (q, i, o) in
        inl (w, sym (ap (λ (a : Block). a.flags) (grown_block b w)) ∙ f)
    | inr n ↦ inr (i, n.1, n.2)
  ]

  IsFree-back : (b : ℕ) → IsFree s b → IsFree s' b
  IsFree-back b (o, f) = (grown_owned b o, ap (λ (a : Block). a.flags) (grown_block b o) ∙ f)

  IsFree-new : (i : ℕ) → i < 32 → IsFree s' (block_at r i)
  IsFree-new i h = (owned_new i h, ap (λ (a : Block). a.flags) (t.blocks i h))

  -- The cells of the new region, in the order of what they point to.
  abbrev new_cell : ℕ → Cell
  new_cell zero = next_cell r
  new_cell (suc i) = link_cell (block_at r i)

  next_link :
      (i : ℕ) → (free_block r i).link ≡ (if suc i == 32 then none else some (block_at r (suc i)))
  next_link i = ground arith

  IsNew : Cell → Type 0
  IsNew j =
      (i : ℕ) × (j ≡ new_cell i)
      × (deref s' j ≡ (if i == 32 then none else some (block_at r i)))
      × (i ≤ 32)

  cell_cases : (j : Cell) → IsLive s' j → (IsLive s j × (deref s' j ≡ deref s j)) ⊎ IsNew j
  unfolding IsNew
  cell_cases free_cell l = inl (l, t.free)
  cell_cases (next_cell q) l = elim (IsSmall-cases q l) [
    | inl e ↦
        inr (zero, ap next_cell e, ap (λ (a : ℕ). s'.memory.next_free a) e ∙ t.next, omega arith)
    | inr o ↦ inl (o, t.next_others q (old_region q o.0))
  ]
  cell_cases (link_cell b) l = elim (IsFree-cases b l) [
    | inl o ↦ inl (o, ap (λ (a : Block). a.link) (grown_block b o.0))
    | inr (i, h, e) ↦ inr (
      suc i,
      ap link_cell e,
      ap (λ (a : ℕ). (s'.memory.block a).link) e
          ∙ ap (λ (a : Block). a.link) (t.blocks i h)
          ∙ next_link i,
      omega arith,
    )
  ]

  new_target :
      (j : Cell) (b : ℕ)
      → IsNew j
      → deref s' j ≡ some b
      → (i : ℕ) × (j ≡ new_cell i) × (i < 32) × (b ≡ block_at r i)
  unfolding IsNew
  new_target j b (i, e, d, le) h =
      let f : (if i == 32 then none else some (block_at r i)) ≡ some b = sym d ∙ h in
      elim (Bool-cases (i == 32)) [
        | inl last ↦ absurd (let g = rw last at f in cc)
        | inr more ↦ let g = rw more at f in (i, e, ground arith, cc)
      ]

  points_grown : (j : Cell) (b : ℕ) → IsLive s' j → deref s' j ≡ some b → IsFree s' b
  points_grown j b l h = elim (cell_cases j l) [
    | inl (lo, same) ↦ IsFree-back b (v.points j b lo (sym same ∙ h))
    | inr n ↦
        let (i, e, lt, eq) = new_target j b n h in subst (IsFree s') (sym eq) (IsFree-new i lt)
  ]

  unique_grown :
      (j k : Cell) (b : ℕ)
      → IsLive s' j
      → IsLive s' k
      → deref s' j ≡ some b
      → deref s' k ≡ some b
      → j ≡ k
  unique_grown j k b lj lk ej ek = elim (cell_cases j lj) [
    | inl (oj, sj) ↦ elim (cell_cases k lk) [
      | inl (ok, sk) ↦ v.unique j k b oj ok (sym sj ∙ ej) (sym sk ∙ ek)
      | inr nk ↦
          let (i, e, lt, eq) = new_target k b nk ek in
          absurd (old_block b (v.points j b oj (sym sj ∙ ej)).0 i lt eq)
    ]
    | inr nj ↦
        let (i, e, lt, eq) = new_target j b nj ej in
        elim (cell_cases k lk) [
          | inl (ok, sk) ↦ absurd (old_block b (v.points k b ok (sym sk ∙ ek)).0 i lt eq)
          | inr nk ↦
              let (i', e', lt', eq') = new_target k b nk ek in
              let same : i ≡ i' = omega arith in e ∙ ap new_cell same ∙ sym e'
        ]
  ]

  IsLaid-grown : (b q i : ℕ) → IsBlock s' b q i → IsLaid (s'.memory.block b) q i
  IsLaid-grown b q i m = elim (IsBlock-cases b q i m) [
    | inl o ↦ subst (λ (a : Block). IsLaid a q i) (sym (grown_block b (q, i, o))) (v.laid b q i o)
    | inr (f, lt, e) ↦
        let at_r : IsLaid (free_block r i) r i = (refl, refl, omega arith, ground arith) in
        let here = subst (λ (a : Block). IsLaid a r i) (sym (t.blocks i lt)) at_r in
        subst (λ (a : ℕ). IsLaid (s'.memory.block a) q i) (sym e)
          (subst (λ (p : ℕ). IsLaid (s'.memory.block (block_at r i)) p i) (sym f) here)
  ]

  empty_grown : (b : ℕ) → IsFree s' b → (s'.memory.block b).free ≡ (s'.memory.block b).start
  empty_grown b f = elim (IsFree-cases b f) [
    | inl o ↦
        let e = grown_block b o.0 in
        ap (λ (a : Block). a.free) e ∙ v.empty b o ∙ sym (ap (λ (a : Block). a.start) e)
    | inr (i, lt, e) ↦
        let here = t.blocks i lt in
        subst (λ (a : ℕ). (s'.memory.block a).free ≡ (s'.memory.block a).start) (sym e)
          (ap (λ (a : Block). a.free) here ∙ sym (ap (λ (a : Block). a.start) here))
  ]

  heads_grown :
      (h : Head)
      → s'.heads h ≢ 0
      → IsOwned s' (s'.heads h) × ((head_block s' h).flags ≡ head_contents h)
  heads_grown h z =
      let (o, f) = v.heads h (λ e. z (t.heads h ∙ e)) in
      subst (λ (a : ℕ). IsOwned s' a × ((s'.memory.block a).flags ≡ head_contents h))
        (sym (t.heads h))
        (grown_owned (s.heads h) o, ap (λ (a : Block). a.flags) (grown_block (s.heads h) o) ∙ f)

  pub IsGrown-IsValid : IsValid s'
  IsGrown-IsValid = record {
    sound = record {
      place = λ q m. elim (mem q m) [
        | inl e ↦
            subst (λ (a : ℕ). (a % 2 ^ 20 ≡ 0) × (a + 2 ^ 20 ≤ 2 ^ 47)) (sym e)
              (t.place.0, t.place.2)
        | inr o ↦ v.place q o
      ];
      laid = IsLaid-grown;
      empty = empty_grown;
      points = points_grown;
      unique = unique_grown;
      heads = heads_grown;
    };
    region = subst (IsSmall s') (sym t.region) IsSmall-new;
  }

  pub IsGrown-IsUsed : (x : ℕ) → IsUsed s' x ↔ IsUsed s x
  IsGrown-IsUsed x = (
    λ (b, (q, i, m), u). elim (IsBlock-cases b q i m) [
      | inl o ↦ let w : IsOwned s b = (q, i, o) in (b, w, subst (IsUsedIn x) (grown_block b w) u)
      | inr (f, lt, e) ↦
          let u' = subst (λ (a : ℕ). IsUsedIn x (s'.memory.block a)) e u in
          absurd (u'.0 (ap (λ (a : Block). a.flags) (t.blocks i lt)))
    ],
    λ (b, o, u). (b, grown_owned b o, subst (IsUsedIn x) (sym (grown_block b o)) u),
  )
