-- ===== src/MemoryManager/Take.antt =====
-- A free block taken from the front of a list: the invariant and the memory handed out.
use lambdachine.Common.{
  ℕ, ◌≤◌, ◌<◌, ◌≡◌, ◌≢◌, ◌↔◌, ◌⊎◌, inl, inr, refl, sym, ap, ◌∙◌, ◌==◌, none, some, arith,
  Bool-cases,
}
use mathlib.Core.Path.{subst}
use lambdachine.Regions.{Block, IsMem}
use lambdachine.MemoryManager.{
  Manager, Head, closures_head, static_closures_head, info_tables_head, strings_head, bytecode_head,
  head_contents, head_block,
}
use lambdachine.MemoryManager.Valid.{
  IsSmall, IsBlock, IsOwned, Cell, free_cell, next_cell, link_cell, deref, IsFree, IsLive, IsLaid,
  IsValid, IsUsedIn, IsUsed, IsGrabbed,
}

-- The front of a list, not the link of a block.
pub data IsRoot : Cell → Type 0 where
  the_list : IsRoot free_cell
  a_region : (r : ℕ) → IsRoot (next_cell r)

-- s' is s with block c taken from the cell k and given the flags.
pub record IsTaken (s : Manager) (k : Cell) (c flags : ℕ) (s' : Manager) : Type 0 where
  pub root : IsRoot k
  pub live : IsLive s k
  pub front : deref s k ≡ some c
  pub nonzero : flags ≢ 0
  pub regions : s'.memory.regions ≡ s.memory.regions
  pub info : (r : ℕ) → s'.memory.region_info r ≡ s.memory.region_info r
  pub heads : (h : Head) → s'.heads h ≡ s.heads h
  pub region : s'.region ≡ s.region
  pub here : s'.memory.block c ≡ record (s.memory.block c) { link = none; flags = flags }
  pub others : (a : ℕ) → a ≢ c → s'.memory.block a ≡ s.memory.block a
  pub popped : deref s' k ≡ (s.memory.block c).link
  pub kept : (j : Cell) → IsRoot j → j ≢ k → deref s' j ≡ deref s j

-- The link of a block is no front.
not_link : (k : Cell) (c : ℕ) → IsRoot k → k ≢ link_cell c
not_link free_cell c r = λ e. cc
not_link (next_cell q) c r = λ e. cc
not_link (link_cell q) c r = elim r [ ]

same_front : (j k : Cell) → IsRoot j → IsRoot k → (j ≡ k) ⊎ (j ≢ k)
same_front free_cell free_cell r q = inl refl
same_front free_cell (next_cell b) r q = inr (λ e. cc)
same_front free_cell (link_cell b) r q = elim q [ ]
same_front (next_cell a) (link_cell b) r q = elim q [ ]
same_front (link_cell a) k r q = elim r [ ]
same_front (next_cell a) free_cell r q = inr (λ e. cc)
same_front (next_cell a) (next_cell b) r q = elim (Bool-cases (a == b)) [
  | inl e ↦ inl (ap next_cell (ground arith))
  | inr e ↦ inr (λ f. let g : a ≡ b = cc in ground arith)
]

pub number_cases : (a b : ℕ) → (a ≡ b) ⊎ (a ≢ b)
number_cases a b = elim (Bool-cases (a == b)) [
  | inl e ↦ inl (ground arith)
  | inr e ↦ inr (ground arith)
]

pub nonzero_head : (h : Head) → head_contents h ≢ 0
nonzero_head closures_head = λ e. omega arith
nonzero_head static_closures_head = λ e. omega arith
nonzero_head info_tables_head = λ e. omega arith
nonzero_head strings_head = λ e. omega arith
nonzero_head bytecode_head = λ e. omega arith

module _ (s : Manager) (k : Cell) (c flags : ℕ) (s' : Manager) (v : IsValid s)
    (t : IsTaken s k c flags s') where
  small : (r : ℕ) → IsSmall s' r → IsSmall s r
  small r m = (subst (IsMem r) t.regions m.0, sym (t.info r) ∙ m.1)

  IsSmall-back : (r : ℕ) → IsSmall s r → IsSmall s' r
  IsSmall-back r m = (subst (IsMem r) (sym t.regions) m.0, t.info r ∙ m.1)

  owned : (b : ℕ) → IsOwned s' b → IsOwned s b
  owned b (r, i, (m, lt, e)) = (r, i, (small r m, lt, e))

  pub taken_owned : (b : ℕ) → IsOwned s b → IsOwned s' b
  taken_owned b (r, i, (m, lt, e)) = (r, i, (IsSmall-back r m, lt, e))

  pub taken-IsFree : IsFree s c
  taken-IsFree = v.sound.points k c t.live t.front

  flags_here : (s'.memory.block c).flags ≡ flags
  flags_here = ap (λ (b : Block). b.flags) t.here

  not_taken : (b : ℕ) → (s'.memory.block b).flags ≡ 0 → b ≢ c
  not_taken b e same =
      t.nonzero (sym flags_here ∙ subst (λ (a : ℕ). (s'.memory.block a).flags ≡ 0) same e)

  was-IsFree : (b : ℕ) → IsFree s' b → IsFree s b
  was-IsFree b (o, e) =
      (owned b o, sym (ap (λ (a : Block). a.flags) (t.others b (not_taken b e))) ∙ e)

  -- The cell of s that holds what cell j of s' holds.
  Origin : Cell → Type 0
  Origin j =
      (o : Cell) × IsLive s o
      × (deref s' j ≡ deref s o)
      × (((j ≡ k) × (o ≡ link_cell c)) ⊎ ((j ≢ k) × (o ≡ j) × (o ≢ link_cell c)))

  Origin-front : (j : Cell) → IsRoot j → IsLive s j → Origin j
  unfolding Origin
  Origin-front j r l = elim (same_front j k r t.root) [
    | inl e ↦ (link_cell c, taken-IsFree, ap (λ (i : Cell). deref s' i) e ∙ t.popped, inl (e, refl))
    | inr n ↦ (j, l, t.kept j r n, inr (n, refl, not_link j c r))
  ]

  origin : (j : Cell) → IsLive s' j → Origin j
  unfolding Origin
  origin free_cell l = Origin-front free_cell the_list l
  origin (next_cell r) l = Origin-front (next_cell r) (a_region r) (small r l)
  origin (link_cell b) l =
      let n = not_taken b l.1 in
      (
        link_cell b,
        was-IsFree b l,
        ap (λ (a : Block). a.link) (t.others b n),
        inr (λ e. not_link k b t.root (sym e), refl, λ e. n (cc)),
      )

  points_taken : (j : Cell) (b : ℕ) → IsLive s' j → deref s' j ≡ some b → IsFree s' b
  unfolding Origin
  points_taken j b l e =
      let (o, lo, same, how) = origin j l in
      let f = v.sound.points o b lo (sym same ∙ e) in
      let n : b ≢ c = λ q.
        let eo = v.sound.unique o k b lo t.live (sym same ∙ e) (t.front ∙ ap some (sym q)) in
        elim how [ inl h ↦ not_link k c t.root (sym eo ∙ h.1) | inr h ↦ h.0 (sym h.1 ∙ eo) ] in
      (taken_owned b f.0, ap (λ (a : Block). a.flags) (t.others b n) ∙ f.1)

  unique_taken :
      (i j : Cell) (b : ℕ)
      → IsLive s' i
      → IsLive s' j
      → deref s' i ≡ some b
      → deref s' j ≡ some b
      → i ≡ j
  unfolding Origin
  unique_taken i j b li lj ei ej =
      let (o, lo, so, ho) = origin i li in
      let (p, lp, sp, hp) = origin j lj in
      let same = v.sound.unique o p b lo lp (sym so ∙ ei) (sym sp ∙ ej) in
      elim ho [
        | inl h ↦ elim hp [ inl g ↦ h.0 ∙ sym g.0 | inr g ↦ absurd (g.2 (sym same ∙ h.1)) ]
        | inr h ↦ elim hp [ inl g ↦ absurd (h.2 (same ∙ g.1)) | inr g ↦ sym h.1 ∙ same ∙ g.1 ]
      ]

  IsLaid-taken : (b r i : ℕ) → IsBlock s' b r i → IsLaid (s'.memory.block b) r i
  IsLaid-taken b r i m =
      let l = v.sound.laid b r i (small r m.0, m.1, m.2) in
      elim (number_cases b c) [
        | inl e ↦
            let l' = subst (λ (a : ℕ). IsLaid (s.memory.block a) r i) e l in
            subst (λ (a : ℕ). IsLaid (s'.memory.block a) r i) (sym e)
              (subst (λ (a : Block). IsLaid a r i) (sym t.here) l')
        | inr n ↦ subst (λ (a : Block). IsLaid a r i) (sym (t.others b n)) l
      ]

  heads_taken :
      (h : Head)
      → s'.heads h ≢ 0
      → IsOwned s' (s'.heads h) × ((head_block s' h).flags ≡ head_contents h)
  heads_taken h z =
      let (o, f) = v.sound.heads h (λ e. z (t.heads h ∙ e)) in
      let n : s.heads h ≢ c =
        λ e. nonzero_head h (sym f ∙ ap (λ (a : ℕ). (s.memory.block a).flags) e ∙ taken-IsFree.1) in
      subst (λ (a : ℕ). IsOwned s' a × ((s'.memory.block a).flags ≡ head_contents h))
        (sym (t.heads h))
        (taken_owned (s.heads h) o, ap (λ (a : Block). a.flags) (t.others (s.heads h) n) ∙ f)

  pub IsTaken-IsValid : IsValid s'
  IsTaken-IsValid = record {
    sound = record {
      place = λ r m. v.sound.place r (subst (IsMem r) t.regions m);
      laid = IsLaid-taken;
      empty = λ b f.
          let e = t.others b (not_taken b f.1) in
          ap (λ (a : Block). a.free) e
          ∙ v.sound.empty b (was-IsFree b f)
          ∙ sym (ap (λ (a : Block). a.start) e);
      points = points_taken;
      unique = unique_taken;
      heads = heads_taken;
    };
    region = subst (IsSmall s') (sym t.region) (IsSmall-back s.region v.region);
  }

  -- The block was empty, so that no memory is handed out by taking it.
  pub IsTaken-IsUsed : (x : ℕ) → IsUsed s' x ↔ IsUsed s x
  IsTaken-IsUsed x = (
    λ (b, o, u). elim (number_cases b c) [
      | inl e ↦ absurd (
          let h = subst (λ (a : ℕ). IsUsedIn x (s'.memory.block a)) e u in
          let h' = subst (IsUsedIn x) t.here h in
          let f = v.sound.empty c taken-IsFree in
          let lo : (s.memory.block c).start ≤ x = h'.1 in
          let hi : x < (s.memory.block c).free = h'.2 in omega arith)
      | inr m ↦ (b, owned b o, subst (IsUsedIn x) (t.others b m) u)
    ],
    λ (b, o, u).
        let m : b ≢ c = λ e. u.0 (ap (λ (a : ℕ). (s.memory.block a).flags) e ∙ taken-IsFree.1) in
        (b, taken_owned b o, subst (IsUsedIn x) (sym (t.others b m)) u),
  )

  pub IsTaken-IsGrabbed :
      s'.allocated ≡ s.allocated → s'.next_gc ≡ s.next_gc → IsGrabbed s flags c s'
  IsTaken-IsGrabbed ea en = record {
    kept = record {
      valid = IsTaken-IsValid;
      used = IsTaken-IsUsed;
      owned = taken_owned;
      blocks = λ b o n.
          t.others b (λ e. n (ap (λ (a : ℕ). (s.memory.block a).flags) e ∙ taken-IsFree.1));
      heads = t.heads;
      allocated = ea;
      next_gc = en;
    };
    owned = taken_owned c taken-IsFree.0;
    contents = flags_here;
    empty =
        ap (λ (a : Block). a.free) t.here
        ∙ v.sound.empty c taken-IsFree
        ∙ sym (ap (λ (a : Block). a.start) t.here);
    unused = λ o. taken-IsFree.1;
  }
