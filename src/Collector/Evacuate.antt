-- ===== src/Collector/Evacuate.antt =====
-- Evacuating an object: a copy, and the same copy for every slot that holds the object.
use lambdachine.Common.{
  ℕ, suc, ◌+◌, ◌-◌, ◌*◌, ◌/◌, ◌%◌, ◌^◌, ◌≤◌, ◌<◌, ◌≡◌, ◌≢◌, ◌⊎◌, refl, sym, ap, ◌∙◌, true, ◌==◌,
  write, Option, some, ◌>>=◌, arith,
}
use lambdachine.Common.Bits.{bit_or-add, bit_or_comm}
use Prim.Native.Nat.{bit_or}
use lambdachine.Regions.{Mmap}
use lambdachine.Regions.Mapping.{IsMmap}
use lambdachine.MemoryManager.{Manager, closures_head, alloc_into}
use lambdachine.MemoryManager.Valid.{IsValid, IsUsed}
use lambdachine.MemoryManager.Grab.{write-here, write-other}
use lambdachine.MemoryManager.Alloc.{IsAllocated, alloc_into-IsAllocated}
use lambdachine.Collector.{
  Heap, set_word, payload_at, copy_payload, copy, alloc_closure, make_forwarding, get_forwarding,
  is_forwarding, forwarded, copied, action, evacuate_from, evacuate,
}
use lambdachine.Collector.Copy.{copy_payload-other, copy_payload-arrives}

make_forwarding_eq : (p : ℕ) → p % 2 ≡ 0 → make_forwarding p ≡ p + 1
unfolding make_forwarding
make_forwarding_eq p e =
    let h : p ≡ p / 2 * 2 ^ 1 = omega arith in
    let or : bit_or 1 (p / 2 * 2 ^ 1) ≡ 1 + p / 2 * 2 ^ 1 = bit_or-add 1 1 (p / 2) (omega arith) in
    bit_or_comm p 1 ∙ ap (λ (k : ℕ). bit_or 1 k) h ∙ or ∙ omega arith

-- The object q of the slot p may be copied to `to`: the object is in use, the slot is neither in it
-- nor in the copy, and the copy is at an even address.
pub record IsCopyable (g : Heap) (p q size to : ℕ) : Type 0 where
  pub slot : g.word p ≡ q
  pub object : (i : ℕ) → i ≤ size → IsUsed g.manager (q + 8 * i)
  pub out_of_object : (p + 8 ≤ q) ⊎ (q + 8 * (1 + size) ≤ p)
  pub out_of_copy : (p + 8 ≤ to) ⊎ (to + 8 * (1 + size) ≤ p)
  pub even : to % 2 ≡ 0

-- g' is g with the object q copied to `to` and the slot p pointing there.
pub record IsCopied (g : Heap) (p q size to : ℕ) (g' : Heap) : Type 0 where
  pub slot : g'.word p ≡ to
  pub header : g'.word to ≡ g.word q
  pub payload : (i : ℕ) → i < size → g'.word (payload_at to i) ≡ g.word (payload_at q i)
  pub forwards : g'.word q ≡ to + 1
  pub rest : (a : ℕ) → a ≢ p → a ≢ q → (a < to) ⊎ (to + 8 * (1 + size) ≤ a) → g'.word a ≡ g.word a

module _ (g : Heap) (p q size to : ℕ) (m : Manager) (c : IsCopyable g p q size to)
    (a : IsAllocated g.manager closures_head ((1 + size) * 8) to m) where
  -- No word of the object is in the copy.
  apart : (i j : ℕ) → i ≤ size → j ≤ size → q + 8 * i ≢ to + 8 * j
  apart i j hi hj e = a.fresh (q + 8 * i) (omega arith) (omega arith) (c.object i hi)

  abbrev after : Heap
  after =
      let w1 = write (write g.word to (g.word q)) p to in
      record g { manager = m; word = write (copy_payload size w1 q to 0) q (make_forwarding to) }

  after-IsCopied : IsCopied g p q size to after
  after-IsCopied =
      let w0 = write g.word to (g.word q) in
      let w1 = write w0 p to in
      let w2 = copy_payload size w1 q to 0 in
      let out_q = c.out_of_object in
      let out_t = c.out_of_copy in
      let p_q : p ≢ q = λ e. ground arith in
      let p_t : p ≢ to = λ e. ground arith in
      let p_j : (j : ℕ) → j < size → p ≢ payload_at to j = λ j h e. ground arith in
      let p_i : (i : ℕ) → i < size → payload_at q i ≢ p = λ i h e. ground arith in
      let q_t : q ≢ to = λ e. apart 0 0 (omega arith) (omega arith) (omega arith) in
      let q_j : (j : ℕ) → j < size → q ≢ payload_at to j =
        λ j h e. apart 0 (j + 1) (omega arith) (omega arith) (omega arith) in
      let i_t : (i : ℕ) → i < size → payload_at q i ≢ to =
        λ i h e. apart (i + 1) 0 (omega arith) (omega arith) (omega arith) in
      let i_j : (i j : ℕ) → i < 0 + size → j < 0 + size → payload_at q i ≢ payload_at to j =
        λ i j h k e. apart (i + 1) (j + 1) (omega arith) (omega arith) (omega arith) in
      let f = make_forwarding to in
      record {
        slot =
            write-other w2 q p f p_q
            ∙ copy_payload-other size w1 q to 0 p (λ j lo hi. p_j j (omega arith))
            ∙ write-here w0 p to;
        header =
            write-other w2 q to f (λ e. q_t (sym e))
            ∙ copy_payload-other size w1 q to 0 to (λ j lo hi. omega arith)
            ∙ write-other w0 p to to (λ e. p_t (sym e))
            ∙ write-here g.word to (g.word q);
        payload = λ i h.
            write-other w2 q (payload_at to i) f (λ e. q_j i h (sym e))
            ∙ copy_payload-arrives size w1 q to 0 i_j i (omega arith) (omega arith)
            ∙ write-other w0 p (payload_at q i) to (p_i i h)
            ∙ write-other g.word to (payload_at q i) (g.word q) (i_t i h);
        forwards = write-here w2 q f ∙ make_forwarding_eq to c.even;
        rest = λ x np nq out.
            write-other w2 q x f nq
            ∙ copy_payload-other size w1 q to 0 x (λ j lo hi e. ground arith)
            ∙ write-other w0 p x to np
            ∙ write-other g.word to x (g.word q) (λ e. ground arith);
      }

-- The steps of copy after the memory is allocated, and after the closure is.
abbrev new_closure : Heap → ℕ → ℕ × Manager → Option (ℕ × Heap)
new_closure g info (cl, m) = some (cl, set_word (record g { manager = m }) cl info)

abbrev filled : ℕ → ℕ → ℕ → ℕ × Heap → Option Heap
filled src size from (to, g) = some (record g {
  word = write (copy_payload size (write g.word src to) from to 0) from (make_forwarding to);
})

copy_eq :
    (mmap : Mmap) (g : Heap) (p q size info to : ℕ) (m : Manager)
    → g.word p ≡ q
    → alloc_into mmap 2 g.manager closures_head ((1 + size) * 8) ≡ some (to, m)
    → copy mmap g p info size ≡ filled p size q (to, set_word (record g { manager = m }) to info)
unfolding copy alloc_closure
copy_eq mmap g p q size info to m e f =
    ap (λ (o : Option (ℕ × Manager)). o >>= new_closure g info >>= filled p size (g.word p)) f
    ∙ ap (λ (r : ℕ). filled p size r (to, set_word (record g { manager = m }) to info)) e

evacuate-slot :
    (fuel : ℕ) (mmap : Mmap) (g : Heap) (p q : ℕ)
    → g.word p ≡ q
    → evacuate fuel mmap g p ≡ evacuate_from fuel mmap g p q
unfolding evacuate
evacuate-slot fuel mmap g p q e = ap (evacuate_from fuel mmap g p) e

evacuate_from-copied :
    (fuel : ℕ) (mmap : Mmap) (g : Heap) (p q size : ℕ)
    → action g q ≡ copied size
    → evacuate_from (suc fuel) mmap g p q ≡ copy mmap g p (g.word q) size
unfolding evacuate_from
evacuate_from-copied fuel mmap g p q size e = rw (evacuate_from, e) refl

evacuate_from-forwarded :
    (fuel : ℕ) (mmap : Mmap) (g : Heap) (p q : ℕ)
    → action g q ≡ forwarded
    → evacuate_from (suc fuel) mmap g p q ≡ some (set_word g p (get_forwarding (g.word q)))
unfolding evacuate_from
evacuate_from-forwarded fuel mmap g p q e = rw (evacuate_from, e) refl

-- If an object of a heap with a valid memory manager is one that evacuate copies, and a closure of
-- its size is allocated at an even address, its slot lying neither in the object nor in the copy,
-- then evacuating the slot returns a heap in which the slot points to the copy, the copy has the
-- header and the payload of the object, the object forwards to the copy, and every word outside of
-- these is as before.
pub evacuate-copies :
    (fuel : ℕ) (mmap : Mmap) (g : Heap) (p q size to : ℕ) (m : Manager)
    → IsMmap mmap
    → IsValid g.manager
    → g.manager.heads closures_head ≢ 0
    → size < 2 ^ 32
    → action g q ≡ copied size
    → alloc_into mmap 2 g.manager closures_head ((1 + size) * 8) ≡ some (to, m)
    → IsCopyable g p q size to
    → (g' : Heap) × (evacuate (suc fuel) mmap g p ≡ some g')
      × IsCopied g p q size to g'
      × (g'.manager ≡ m)
evacuate-copies fuel mmap g p q size to m documented v set small act e c =
    let a =
      alloc_into-IsAllocated mmap documented 2 g.manager closures_head ((1 + size) * 8) to m v set
        (omega arith) e in
    (
      after g p q size to m c a,
      evacuate-slot (suc fuel) mmap g p q c.slot
          ∙ evacuate_from-copied fuel mmap g p q size act
          ∙ copy_eq mmap g p q size (g.word q) to m c.slot e,
      after-IsCopied g p q size to m c a,
      refl,
    )

action-forwarded : (g : Heap) (q : ℕ) → g.word q % 2 ≡ 1 → action g q ≡ forwarded
unfolding action is_forwarding
action-forwarded g q e = let t : (g.word q % 2 == 1) ≡ true = ground arith in rw (action, t) refl

-- After an object is copied, evacuating any slot that still holds it makes the slot point to the
-- same copy, and allocates and writes nothing else.
pub evacuate-shares :
    (fuel : ℕ) (mmap : Mmap) (g : Heap) (p q size to : ℕ) (g' : Heap) (p' : ℕ)
    → IsCopyable g p q size to
    → IsCopied g p q size to g'
    → g'.word p' ≡ q
    → (g'' : Heap) × (evacuate (suc fuel) mmap g' p' ≡ some g'')
      × (g''.word p' ≡ to)
      × (g''.manager ≡ g'.manager)
      × ((a : ℕ) → a ≢ p' → g''.word a ≡ g'.word a)
unfolding get_forwarding
evacuate-shares fuel mmap g p q size to g' p' c d e =
    let f = d.forwards in
    let even = c.even in
    let odd : g'.word q % 2 ≡ 1 = omega arith in
    let back : g'.word q - 1 ≡ to = omega arith in
    (
      set_word g' p' (g'.word q - 1),
      evacuate-slot (suc fuel) mmap g' p' q e
          ∙ evacuate_from-forwarded fuel mmap g' p' q (action-forwarded g' q odd),
      write-here g'.word p' (g'.word q - 1) ∙ back,
      refl,
      λ a n. write-other g'.word p' a (g'.word q - 1) n,
    )
