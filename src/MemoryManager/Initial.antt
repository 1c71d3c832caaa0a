-- ===== src/MemoryManager/Initial.antt =====
-- The constructor of the memory manager: the state that it leaves.
use lambdachine.Common.{ℕ, ◌+◌, ◌^◌, ◌<◌, ◌≡◌, ◌≢◌, refl, ap, ◌∙◌, Option, some, ◌>>=◌, [], arith}
use mathlib.Core.Path.{subst}
use lambdachine.Regions.{
  Memory, IsMem, Mmap, map_from, init_blocks, init_region, new_region, small_object,
}
use lambdachine.Regions.Mapping.{IsMmap, IsPlace, map_from-IsPlace}
use lambdachine.MemoryManager.{
  Manager, Head, closures_head, static_closures_head, info_tables_head, strings_head, bytecode_head,
  grab_head, set_heads, initial,
}
use lambdachine.MemoryManager.Valid.{IsValid, IsUsed}
use lambdachine.MemoryManager.Grow.{IsGrown, IsGrown-IsValid, IsGrown-IsUsed}
use lambdachine.MemoryManager.Newest.{with_header, grown-IsGrown}
use lambdachine.MemoryManager.Starting.{
  unset, unset-IsSound, IsStarting, KeepsHeads, stepped, stepped-IsStarting, stepped-KeepsHeads,
  grab_head-steps,
}

-- The state with the first region, before a head is set.
module _ (m : Memory) (r hint : ℕ) (e : m.regions ≡ []) (here : IsPlace m.regions r) where
  abbrev first : Manager
  first = record (unset m) { memory = init_blocks (with_header m r hint) r; region = r }

  first-IsGrown : IsGrown (unset m) r first
  first-IsGrown =
      grown-IsGrown (unset m) r hint (init_blocks (with_header m r hint) r).region_link here

  first-IsUsed : (x : ℕ) → ¬ IsUsed first x
  first-IsUsed x u =
      let (b, (q, i, o), w) =
        (IsGrown-IsUsed (unset m) r first (unset-IsSound m e) first-IsGrown x).0 u in
      absurd (subst (IsMem q) e o.0.0)

  first-IsStarting : IsStarting first r 0
  first-IsStarting =
      let g = first-IsGrown in
      record {
        valid = IsGrown-IsValid (unset m) r first (unset-IsSound m e) g;
        free = refl;
        region = refl;
        front = g.next;
        left = λ j lo hi. g.blocks j hi;
        nothing = first-IsUsed;
      }

-- A state that the constructor may leave: valid, with every head set, and nothing handed out.
pub record IsInitial (s : Manager) : Type 0 where
  pub valid : IsValid s
  pub set : (h : Head) → s.heads h ≢ 0
  pub nothing : (x : ℕ) → ¬ IsUsed s x

-- One head set: the step returns, the start goes on and the heads that are set stay set.
IsStep : Mmap → Manager → ℕ → ℕ → Head → Manager → Type 0
IsStep mmap s r i h s' =
    (grab_head mmap s h ≡ some s') × IsStarting s' r (i + 1) × KeepsHeads s h s'

grab_head-returns :
    (mmap : Mmap) (s : Manager) (r i : ℕ) (h : Head)
    → IsStarting s r i
    → i < 31
    → (s' : Manager) × IsStep mmap s r i h s'
unfolding IsStep
grab_head-returns mmap s r i h st more = (
  stepped s r i h st more,
  (
    grab_head-steps s r i h st more mmap,
    stepped-IsStarting s r i h st more,
    stepped-KeepsHeads s r i h st more,
  ),
)

set_heads-some :
    (mmap : Mmap) (s0 s1 s2 s3 s4 s5 : Manager)
    → grab_head mmap s0 static_closures_head ≡ some s1
    → grab_head mmap s1 info_tables_head ≡ some s2
    → grab_head mmap s2 closures_head ≡ some s3
    → grab_head mmap s3 strings_head ≡ some s4
    → grab_head mmap s4 bytecode_head ≡ some s5
    → set_heads mmap s0 ≡ some s5
unfolding set_heads
set_heads-some mmap s0 s1 s2 s3 s4 s5 e1 e2 e3 e4 e5 = simp (set_heads, e1, e2, e3, e4, e5)

every_head :
    (P : Head → Type 0)
    → P closures_head
    → P static_closures_head
    → P info_tables_head
    → P strings_head
    → P bytecode_head
    → (h : Head) → P h
every_head P c s i t b closures_head = c
every_head P c s i t b static_closures_head = s
every_head P c s i t b info_tables_head = i
every_head P c s i t b strings_head = t
every_head P c s i t b bytecode_head = b

set_heads-returns :
    (mmap : Mmap) (s : Manager) (r : ℕ)
    → IsStarting s r 0
    → (s' : Manager) × (set_heads mmap s ≡ some s') × IsInitial s'
unfolding IsStep
set_heads-returns mmap s r i0 =
    let (s1, (e1, i1, k1)) = grab_head-returns mmap s r 0 static_closures_head i0 (omega arith) in
    let (s2, (e2, i2, k2)) = grab_head-returns mmap s1 r 1 info_tables_head i1 (omega arith) in
    let (s3, (e3, i3, k3)) = grab_head-returns mmap s2 r 2 closures_head i2 (omega arith) in
    let (s4, (e4, i4, k4)) = grab_head-returns mmap s3 r 3 strings_head i3 (omega arith) in
    let (s5, (e5, i5, k5)) = grab_head-returns mmap s4 r 4 bytecode_head i4 (omega arith) in
    let h1 = static_closures_head in
    let h2 = info_tables_head in
    let h3 = closures_head in
    let set =
      every_head (λ h. s5.heads h ≢ 0) (k5.1 h3 (k4.1 h3 k3.0))
        (k5.1 h1 (k4.1 h1 (k3.1 h1 (k2.1 h1 k1.0)))) (k5.1 h2 (k4.1 h2 (k3.1 h2 k2.0)))
        (k5.1 strings_head k4.0) k5.0 in
    (
      s5,
      set_heads-some mmap s s1 s2 s3 s4 s5 e1 e2 e3 e4 e5,
      record { valid = i5.valid; set = set; nothing = i5.nothing },
    )

new_region-from :
    (mmap : Mmap) (m : Memory) (r hint : ℕ)
    → map_from mmap m.regions 33 m.alloc_hint (2 ^ 20) ≡ some (r, hint)
    → new_region mmap m small_object ≡ some (r, init_blocks (with_header m r hint) r)
unfolding new_region init_region
new_region-from mmap m r hint f = simp (new_region, f)

-- What the constructor does with its first region.
abbrev with_heads : Mmap → ℕ × Memory → Option Manager
with_heads mmap (r, m) = set_heads mmap (record (unset m) { region = r })

-- When no region exists yet and the system maps one, the constructor returns a valid state in
-- which every head is set and no memory is handed out.
pub initial_lem :
    (mmap : Mmap) (m : Memory) (r hint : ℕ)
    → IsMmap mmap
    → m.regions ≡ []
    → map_from mmap m.regions 33 m.alloc_hint (2 ^ 20) ≡ some (r, hint)
    → (s : Manager) × (initial mmap m ≡ some s) × IsInitial s
unfolding initial
initial_lem mmap m r hint documented e f =
    let here =
      map_from-IsPlace mmap m.regions 33 m.alloc_hint (2 ^ 20) r hint documented (omega arith) f in
    let (s, g, i) =
      set_heads-returns mmap (first m r hint e here) r (first-IsStarting m r hint e here) in
    (
      s,
      ap (λ (o : Option (ℕ × Memory)). o >>= with_heads mmap) (new_region-from mmap m r hint f) ∙ g,
      i,
    )
