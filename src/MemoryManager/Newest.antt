-- ===== src/MemoryManager/Newest.antt =====
-- The state that newRegion leaves with a new region of free blocks, the newest.
use lambdachine.Common.{
  ℕ, ◌^◌, ◌≡◌, refl, sym, ap, ◌∙◌, write, Option, none, some, >>=-eq-some, some_pair, arith, ◌∷◌,
}
use mathlib.Core.Path.{subst}
use lambdachine.Regions.{Memory, Mmap, map_from, init_blocks, init_region, new_region, small_object}
use lambdachine.Regions.Layout.{init_blocks_lem, init_blocks-other}
use lambdachine.Regions.Mapping.{IsPlace}
use lambdachine.MemoryManager.{Manager}
use lambdachine.MemoryManager.Grow.{IsGrown}

-- The state with a new region, as newRegion and the two lines after it leave it.
abbrev pub with_region : Manager → ℕ → Memory → Manager
with_region s r m = record s {
  memory = record m { region_link = write m.region_link r (some s.region) };
  region = r;
}

abbrev pub mapped_memory : Memory → ℕ → ℕ → Memory
mapped_memory m r hint = record m { regions = r ∷ m.regions; alloc_hint = hint }

-- The header of the region written, before the blocks are initialised.
abbrev pub with_header : Memory → ℕ → ℕ → Memory
with_header m r hint = record (mapped_memory m r hint) {
  region_info = write m.region_info r 1;
  region_link = write m.region_link r none;
}

pub new_region-some :
    (mmap : Mmap) (m m' : Memory) (r : ℕ)
    → new_region mmap m small_object ≡ some (r, m')
    → (hint : ℕ) × (map_from mmap m.regions 33 m.alloc_hint (2 ^ 20) ≡ some (r, hint))
      × (m' ≡ init_blocks (with_header m r hint) r)
unfolding new_region init_region
new_region-some mmap m m' r e =
    let (p, f, g) = >>=-eq-some (map_from mmap m.regions 33 m.alloc_hint (2 ^ 20)) _ e in
    let after : ℕ → Memory = λ q. init_blocks (with_header m q p.1) q in
    let (same, eq) = some_pair p.0 r (after p.0) m' g in
    (
      p.1,
      f ∙ ap (λ (q : ℕ). let pair : ℕ × ℕ = (q, p.1) in some pair) same,
      sym (subst (λ (q : ℕ). after q ≡ m') same eq),
    )

module _ (s : Manager) (r hint : ℕ) (links : ℕ → Option ℕ) (here : IsPlace s.memory.regions r) where
  abbrev pub grown : Manager
  grown = record s {
    memory = record (init_blocks (with_header s.memory r hint) r) { region_link = links };
    region = r;
  }

  pub grown-IsGrown : IsGrown s r grown
  grown-IsGrown = record {
    place = here;
    regions = unfold init_blocks in refl;
    info = unfold init_blocks in ground arith;
    info_others = λ q n. unfold init_blocks in ground arith;
    heads = λ h. refl;
    region = refl;
    free = refl;
    next = unfold init_blocks in ground arith;
    next_others = λ q n. unfold init_blocks in ground arith;
    blocks = λ i lt. init_blocks_lem (with_header s.memory r hint) r here.0 (omega arith) i lt;
    others = λ a n. init_blocks-other (with_header s.memory r hint) r a n;
  }
