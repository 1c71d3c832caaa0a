-- ===== src/MemoryManager/Touch.antt =====
-- A block in use written: its free pointer or its link, with the heads.
use lambdachine.Common.{
  ℕ, ◌+◌, ◌*◌, ◌^◌, ◌≤◌, ◌<◌, ◌≡◌, ◌≢◌, ◌↔◌, ◌⊎◌, inl, inr, refl, sym, ap, ◌∙◌, write, arith,
  Bool-cases, ltb,
}
use mathlib.Core.Path.{subst}
use lambdachine.Regions.{Block, block_at}
use lambdachine.Regions.Layout.{data_start}
use lambdachine.MemoryManager.{Manager, Head, head_contents}
use lambdachine.MemoryManager.Valid.{
  IsOwned, Cell, free_cell, next_cell, link_cell, deref, IsFree, IsLive, IsLaid, IsValid, IsUsedIn,
  IsUsed,
}
use lambdachine.MemoryManager.Take.{number_cases}
use lambdachine.MemoryManager.Grab.{write-here, write-other}

-- No two blocks share an address.
pub same_place :
    (s : Manager) (b c x : ℕ)
    → IsValid s
    → IsOwned s b
    → IsOwned s c
    → (s.memory.block b).start ≤ x
    → x < (s.memory.block b).end
    → (s.memory.block c).start ≤ x
    → x < (s.memory.block c).end
    → b ≡ c
same_place s b c x v (q, i, mb) (r, j, mc) lb ub lc uc =
    let (sb, eb, _, _) = v.sound.laid b q i mb in
    let (sc, ec, _, _) = v.sound.laid c r j mc in
    let pq = v.sound.place q mb.0.0 in
    let pr = v.sound.place r mc.0.0 in
    let ib = mb.1 in
    let jc = mc.1 in
    let lb' : data_start q i ≤ x = subst (λ (a : ℕ). a ≤ x) sb lb in
    let ub' : x < q + (i + 1) * 2 ^ 15 = subst (λ (a : ℕ). x < a) eb ub in
    let lc' : data_start r j ≤ x = subst (λ (a : ℕ). a ≤ x) sc lc in
    let uc' : x < r + (j + 1) * 2 ^ 15 = subst (λ (a : ℕ). x < a) ec uc in
    let same_r : q ≡ r = ground arith in
    let same_i : i ≡ j = ground arith in
    mb.2 ∙ ap (λ (a : ℕ). block_at a i) same_r ∙ ap (λ (a : ℕ). block_at r a) same_i ∙ sym mc.2

-- What a block has not handed out is not handed out.
pub past_free :
    (s : Manager) (b x : ℕ)
    → IsValid s
    → IsOwned s b
    → (s.memory.block b).free ≤ x
    → x < (s.memory.block b).end
    → ¬ IsUsed s x
past_free s b x v (r, i, m) lo hi (c, (q, j, k), u) =
    let lb = v.sound.laid b r i m in
    let lc = v.sound.laid c q j k in
    let from_b = lb.2 in
    let from_c = u.1 in
    let in_c = u.2 in
    let to_c = lc.3 in
    let e = same_place s b c x v (r, i, m) (q, j, k) (omega arith) hi from_c (omega arith) in
    let h : x < (s.memory.block b).free =
      subst (λ (d : ℕ). x < (s.memory.block d).free) (sym e) in_c in
    omega arith

module _ (s : Manager) (b : ℕ) (a : Block) (heads : Head → ℕ) (n g : ℕ) where
  abbrev pub touched : Manager
  touched = record s {
    memory = record s.memory { block = write s.memory.block b a };
    heads = heads;
    allocated = n;
    next_gc = g;
  }

  module _ (v : IsValid s) (o : IsOwned s b) (used : (s.memory.block b).flags ≢ 0)
      (starts : a.start ≡ (s.memory.block b).start) (ends : a.end ≡ (s.memory.block b).end)
      (flagged : a.flags ≡ (s.memory.block b).flags) where
    here : touched.memory.block b ≡ a
    here = write-here s.memory.block b a

    others : (c : ℕ) → c ≢ b → touched.memory.block c ≡ s.memory.block c
    others c m = write-other s.memory.block b c a m

    same_flags : (c : ℕ) → (touched.memory.block c).flags ≡ (s.memory.block c).flags
    same_flags c = elim (number_cases c b) [
      | inl e ↦
          ap (λ (i : ℕ). (touched.memory.block i).flags) e
          ∙ ap (λ (k : Block). k.flags) here
          ∙ flagged
          ∙ sym (ap (λ (i : ℕ). (s.memory.block i).flags) e)
      | inr m ↦ ap (λ (k : Block). k.flags) (others c m)
    ]

    was-IsFree : (c : ℕ) → IsFree touched c → IsFree s c
    was-IsFree c (w, f) = (w, sym (same_flags c) ∙ f)

    not_here : (c : ℕ) → IsFree s c → c ≢ b
    not_here c (w, f) e = used (sym (ap (λ (i : ℕ). (s.memory.block i).flags) e) ∙ f)

    live : (k : Cell) → IsLive touched k → IsLive s k
    live free_cell l = l
    live (next_cell r) l = l
    live (link_cell c) l = was-IsFree c l

    same_cell : (k : Cell) → IsLive touched k → deref touched k ≡ deref s k
    same_cell free_cell l = refl
    same_cell (next_cell r) l = refl
    same_cell (link_cell c) l = ap (λ (k : Block). k.link) (others c (not_here c (was-IsFree c l)))

    pub touched-IsValid :
        a.start ≤ a.free
        → a.free ≤ a.end
        → ((h : Head) → (heads h ≡ s.heads h) ⊎ ((heads h ≡ b) × (a.flags ≡ head_contents h)))
        → IsValid touched
    touched-IsValid lo hi hs = record {
      sound = record {
        place = v.sound.place;
        laid = λ c r i m.
            let l = v.sound.laid c r i m in
            elim (number_cases c b) [
              | inl e ↦
                  let l' = subst (λ (j : ℕ). IsLaid (s.memory.block j) r i) e l in
                  let w : IsLaid a r i = (starts ∙ l'.0, ends ∙ l'.1, lo, hi) in
                  subst (λ (j : ℕ). IsLaid (touched.memory.block j) r i) (sym e)
                    (subst (λ (k : Block). IsLaid k r i) (sym here) w)
              | inr n ↦ subst (λ (k : Block). IsLaid k r i) (sym (others c n)) l
            ];
        empty = λ c f.
            let e = others c (not_here c (was-IsFree c f)) in
            ap (λ (k : Block). k.free) e
            ∙ v.sound.empty c (was-IsFree c f)
            ∙ sym (ap (λ (k : Block). k.start) e);
        points = λ k c l e.
            let (w, f) = v.sound.points k c (live k l) (sym (same_cell k l) ∙ e) in
            (w, same_flags c ∙ f);
        unique = λ j k c lj lk ej ek.
            v.sound.unique j k c (live j lj) (live k lk) (sym (same_cell j lj) ∙ ej)
              (sym (same_cell k lk) ∙ ek);
        heads = λ h z.
            let P = λ (i : ℕ). IsOwned s i × ((touched.memory.block i).flags ≡ head_contents h) in
            elim (hs h) [
              | inl e ↦
                  let (w, f) = v.sound.heads h (λ q. z (e ∙ q)) in
                  subst P (sym e) (w, same_flags (s.heads h) ∙ f)
              | inr (e, f) ↦ subst P (sym e) (o, ap (λ (k : Block). k.flags) here ∙ f)
            ];
      };
      region = v.region;
    }

    used_here : (x : ℕ) → a.start ≤ x → x < a.free → IsUsed touched x
    used_here x lo hi = (b, o, subst (IsUsedIn x) (sym here) (λ z. used (sym flagged ∙ z), lo, hi))

    -- What is handed out more is what the free pointer passed.
    pub touched-IsUsed :
        (x : ℕ)
        → (s.memory.block b).start ≤ (s.memory.block b).free
        → (s.memory.block b).free ≤ a.free
        → IsUsed touched x ↔ (IsUsed s x ⊎ (((s.memory.block b).free ≤ x) × (x < a.free)))
    touched-IsUsed x order up = (
      λ (c, w, u). elim (number_cases c b) [
        | inl e ↦
            let u' =
              subst (IsUsedIn x) here
                (subst (λ (i : ℕ). IsUsedIn x (touched.memory.block i)) e u) in
            let lo : (s.memory.block b).start ≤ x = subst (λ (i : ℕ). i ≤ x) starts u'.1 in
            let hi : x < a.free = u'.2 in
            elim (Bool-cases (ltb x (s.memory.block b).free)) [
              | inl l ↦ inl (b, o, (used, lo, ground arith))
              | inr l ↦ inr (ground arith, hi)
            ]
        | inr m ↦ inl (c, w, subst (IsUsedIn x) (others c m) u)
      ],
      λ t. elim t [
        | inl (c, w, u) ↦ elim (number_cases c b) [
          | inl e ↦
              let u' = subst (λ (i : ℕ). IsUsedIn x (s.memory.block i)) e u in
              used_here x (subst (λ (i : ℕ). i ≤ x) (sym starts) u'.1) (let h = u'.2 in omega arith)
          | inr m ↦ (c, w, subst (IsUsedIn x) (sym (others c m)) u)
        ]
        | inr (l, h) ↦ used_here x (omega arith) h
      ],
    )
