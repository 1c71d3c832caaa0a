-- ===== src/Regions/Layout.antt =====
-- The layout that initBlocks gives to the blocks of a region (vm/memorymanager.cc).
use lambdachine.Common.{
  ℕ, zero, suc, ◌+◌, ◌*◌, ◌%◌, ◌^◌, ◌≤◌, ◌<◌, ◌≡◌, ◌≢◌, refl, ◌∙◌, ap, inl, inr, ◌==◌,
  if◌then◌else◌, write, none, some, arith, Bool-cases,
}
use lambdachine.Regions.{
  Block, Memory, block_at, round_up, init_free, init_metadata, init_blocks, small_data_size,
  uninitialized,
}

-- The next boundary of a block, after a byte of it.
pub round_up_lem :
    (r i p : ℕ)
    → r % 2 ^ 20 ≡ 0
    → r + 2 ^ 20 ≤ 2 ^ 63
    → i < 32
    → r + i * 2 ^ 15 ≤ p
    → p < r + (i + 1) * 2 ^ 15
    → round_up 15 (p + 1) ≡ r + (i + 1) * 2 ^ 15
unfolding round_up
round_up_lem r i p a b c d e = omega arith

init_free-other :
    (n : ℕ) (blocks : ℕ → Block) (r i p a : ℕ)
    → ((j : ℕ) → i ≤ j → j < i + n → a ≢ block_at r j)
    → init_free n blocks r i p a ≡ blocks a
unfolding init_free
init_free-other zero blocks r i p a h = refl
init_free-other (suc n) blocks r i p a h =
    let end = round_up 15 (p + 1) in
    let this : a ≢ block_at r i = h i (omega arith) (omega arith) in
    let b : Block = record {
      start = p;
      end = end;
      free = p;
      link = some (block_at r (i + 1));
      flags = uninitialized;
    } in
    let e : write blocks (block_at r i) b a ≡ blocks a = ground arith in
    init_free-other n (write blocks (block_at r i) b) r (i + 1) end a
      (λ j lo hi. h j (omega arith) (omega arith))
    ∙ e

-- Block j of a region as it is at the start, before the last link is cut.
abbrev pub linked_block : ℕ → ℕ → ℕ → Block
linked_block r j start = record {
  start = start;
  end = r + (j + 1) * 2 ^ 15;
  free = start;
  link = some (block_at r (j + 1));
  flags = uninitialized;
}

init_free_lem :
    (n : ℕ) (blocks : ℕ → Block) (r i p : ℕ)
    → r % 2 ^ 20 ≡ 0
    → r + 2 ^ 20 ≤ 2 ^ 63
    → i + n ≤ 32
    → r + i * 2 ^ 15 ≤ p
    → p < r + (i + 1) * 2 ^ 15
    → (j : ℕ) → i ≤ j
    → j < i + n
    → init_free n blocks r i p (block_at r j)
      ≡ linked_block r j (if j == i then p else r + j * 2 ^ 15)
unfolding init_free
init_free_lem zero blocks r i p ha hb hn lo hi j le lt = absurd (omega arith)
init_free_lem (suc n) blocks r i p ha hb hn lo hi j le lt =
    let e = round_up_lem r i p ha hb (omega arith) lo hi in
    let q : ℕ = r + (i + 1) * 2 ^ 15 in
    let b = linked_block r i p in
    let next = write blocks (block_at r i) b in
    rw e (elim (Bool-cases (j == i)) [
      | inl same ↦
          let eq : j ≡ i = ground arith in
          let here : next (block_at r i) ≡ b = ground arith in
          let rest = init_free-other n next r (i + 1) q (block_at r i) (λ k l u. omega arith) in
          rw eq (rest ∙ ground arith)
      | inr other ↦
          let rest =
            init_free_lem n next r (i + 1) q ha hb (omega arith) (omega arith) (omega arith) j
              (ground arith) (omega arith) in
          rest ∙ ap (linked_block r j) (ground arith)
    ])

abbrev pub data_start : ℕ → ℕ → ℕ
data_start r i = if i == 0 then r + small_data_size else r + i * 2 ^ 15

-- Block i of a region that nothing has been taken from.
abbrev pub free_block : ℕ → ℕ → Block
free_block r i = record {
  start = data_start r i;
  end = r + (i + 1) * 2 ^ 15;
  free = data_start r i;
  link = if i == 31 then none else some (block_at r (i + 1));
  flags = uninitialized;
}

-- The loop over the available blocks, which are all of them.
linked : Memory → ℕ → ℕ → Block
linked m r = init_free 32 m.block r 0 (r + small_data_size)

init_blocks-block :
    (m : Memory) (r a : ℕ)
    → (init_blocks m r).block a
      ≡ write (linked m r) (block_at r 31) (record (linked m r (block_at r 31)) { link = none }) a
unfolding init_blocks init_metadata linked
init_blocks-block m r a = refl

module _ (m : Memory) (r : ℕ) (ha : r % 2 ^ 20 ≡ 0) (hb : r + 2 ^ 20 ≤ 2 ^ 63) where
  linked_lem : (i : ℕ) → i < 32 → linked m r (block_at r i) ≡ linked_block r i (data_start r i)
  unfolding linked
  linked_lem i hi =
      init_free_lem 32 m.block r 0 (r + small_data_size) ha hb (omega arith) (omega arith)
        (omega arith) i (omega arith) (omega arith)

  pub init_blocks_lem : (i : ℕ) → i < 32 → (init_blocks m r).block (block_at r i) ≡ free_block r i
  init_blocks_lem i hi = init_blocks-block m r (block_at r i) ∙ elim (Bool-cases (i == 31)) [
    | inl last ↦
        let eq : i ≡ 31 = ground arith in rw (eq, linked_lem 31 (omega arith)) (ground arith)
    | inr other ↦ rw (linked_lem i hi) (ground arith)
  ]

pub init_blocks-other :
    (m : Memory) (r a : ℕ)
    → ((j : ℕ) → j < 32 → a ≢ block_at r j)
    → (init_blocks m r).block a ≡ m.block a
unfolding linked
init_blocks-other m r a h =
    let last : a ≢ block_at r 31 = h 31 (omega arith) in
    let rest = init_free-other 32 m.block r 0 (r + small_data_size) a (λ j lo hi. h j hi) in
    let skip : (f : ℕ → Block) (b : Block) → write f (block_at r 31) b a ≡ f a =
      λ f b. ground arith in
    init_blocks-block m r a ∙ skip (linked m r) _ ∙ rest
