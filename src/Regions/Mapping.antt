-- ===== src/Regions/Mapping.antt =====
-- The loop of newRegion that maps memory at a region's boundary (vm/memorymanager.cc).
use lambdachine.Common.{
  ℕ, zero, suc, ◌+◌, ◌-◌, ◌%◌, ◌^◌, ◌≤◌, ◌<◌, ◌≡◌, ◌⊎◌, inl, inr, refl, sym, ap, ◌∙◌, true, false,
  leb, ◌==◌, Option, none, some, List, arith, Bool-cases, Option-cases,
}
use mathlib.Core.Path.{subst}
use lambdachine.Regions.{
  Mmap, IsMem, Attempt, mapped, again, attempt, map_from, at_address, is_aligned, round_up,
}

-- What the manual of mmap promises of the memory that it gives: it is below the end of the addresses
-- of a process, and no part of it is mapped already.
abbrev pub IsMmap : Mmap → Type 0
IsMmap mmap =
    (regions : List ℕ) (left hint size p : ℕ)
    → mmap regions left hint size ≡ some p
    → (0 < p)
      × (p + size ≤ 2 ^ 47)
      × ((r : ℕ) → IsMem r regions → (r + 2 ^ 20 ≤ p) ⊎ (p + size ≤ r))

-- A region may start at r: at a boundary, within the addresses, apart from the regions there are.
abbrev pub IsPlace : List ℕ → ℕ → Type 0
IsPlace regions r =
    (r % 2 ^ 20 ≡ 0)
    × (0 < r)
    × (r + 2 ^ 20 ≤ 2 ^ 47)
    × ((q : ℕ) → IsMem q regions → (q + 2 ^ 20 ≤ r) ⊎ (r + 2 ^ 20 ≤ q))

pub round_up_region :
    (p : ℕ)
    → p ≤ 2 ^ 47
    → (round_up 20 p % 2 ^ 20 ≡ 0) × (p ≤ round_up 20 p) × (round_up 20 p < p + 2 ^ 20)
unfolding round_up
round_up_region p h = omega arith

-- What an attempt with enough size promises.
abbrev IsGood : List ℕ → Attempt → Type 0
IsGood regions (mapped p hint) = IsPlace regions p
IsGood regions (again hint size) = 2 ^ 20 ≤ size

attempt-some :
    (mmap : Mmap) (regions : List ℕ) (left hint size p : ℕ)
    → mmap regions left hint size ≡ some p
    → attempt mmap regions left hint size ≡ at_address p hint size
unfolding attempt
attempt-some mmap regions left hint size p e = rw (attempt, e) refl

attempt-none :
    (mmap : Mmap) (regions : List ℕ) (left hint size : ℕ)
    → mmap regions left hint size ≡ none
    → attempt mmap regions left hint size ≡ again hint size
unfolding attempt
attempt-none mmap regions left hint size e = rw (attempt, e) refl

at_address-IsGood :
    (regions : List ℕ) (hint size p : ℕ)
    → 2 ^ 20 ≤ size
    → 0 < p
    → p + size ≤ 2 ^ 47
    → ((r : ℕ) → IsMem r regions → (r + 2 ^ 20 ≤ p) ⊎ (p + size ≤ r))
    → IsGood regions (at_address p hint size)
unfolding at_address is_aligned
at_address-IsGood regions hint size p hs h0 hp apart =
    let up = round_up_region p (omega arith) in
    let q = round_up 20 p in
    elim (Bool-cases (p % 2 ^ 20 == 0)) [
      | inl e ↦ rw e (
        ground arith,
        h0,
        omega arith,
        λ r m. elim (apart r m) [ inl a ↦ inl a | inr a ↦ inr (omega arith) ],
      )
      | inr e ↦ rw e (elim (Bool-cases (leb (q + 2 ^ 20) (p + size))) [
        | inl f ↦ rw f (
          up.0,
          omega arith,
          ground arith,
          λ r m. elim (apart r m) [ inl a ↦ inl (omega arith) | inr a ↦ inr (ground arith) ],
        )
        | inr f ↦ rw f (ground arith)
      ])
    ]

attempt-IsGood :
    (mmap : Mmap) (regions : List ℕ) (left hint size : ℕ)
    → IsMmap mmap
    → 2 ^ 20 ≤ size
    → IsGood regions (attempt mmap regions left hint size)
attempt-IsGood mmap regions left hint size h hs =
    elim (Option-cases (mmap regions left hint size)) [
      | inl e ↦ rw (attempt-none mmap regions left hint size e) hs
      | inr (p, e) ↦
          let d = h regions left hint size p e in
          rw (attempt-some mmap regions left hint size p e)
            (at_address-IsGood regions hint size p hs d.0 d.1 d.2)
    ]

Attempt-cases :
    (t : Attempt)
    → ((p : ℕ) × (hint : ℕ) × (t ≡ mapped p hint))
      ⊎ ((hint : ℕ) × (size : ℕ) × (t ≡ again hint size))
Attempt-cases (mapped p hint) = inl (p, hint, refl)
Attempt-cases (again hint size) = inr (hint, size, refl)

map_from-mapped :
    (mmap : Mmap) (regions : List ℕ) (left hint size p hint' : ℕ)
    → attempt mmap regions left hint size ≡ mapped p hint'
    → map_from mmap regions (suc left) hint size ≡ some (p, hint')
unfolding map_from
map_from-mapped mmap regions left hint size p hint' t = rw (map_from, t) refl

-- What the loop does after an attempt that failed.
abbrev retry : Mmap → List ℕ → ℕ → ℕ → ℕ → Option (ℕ × ℕ)
retry mmap regions left hint size = elim (leb (2 ^ 40) hint) [
  | true ↦ none
  | false ↦ map_from mmap regions left hint size
]

map_from-again :
    (mmap : Mmap) (regions : List ℕ) (left hint size hint' size' : ℕ)
    → attempt mmap regions left hint size ≡ again hint' size'
    → map_from mmap regions (suc left) hint size ≡ retry mmap regions left hint' size'
map_from-again mmap regions left hint size hint' size' t = unfold map_from in rw (map_from, t) refl

some_pair : (p q h k : ℕ) → ◌≡◌ {A = Option (ℕ × ℕ)} (some (p, h)) (some (q, k)) → p ≡ q
some_pair p q h k e = cc

-- With an mmap that gives unmapped memory only, and a size of at least a region, the loop that
-- maps a region gives only an address at a boundary of regions from which on a whole region is
-- apart from every region that the program holds.
pub map_from-IsPlace :
    (mmap : Mmap) (regions : List ℕ) (left hint size r hint' : ℕ)
    → IsMmap mmap
    → 2 ^ 20 ≤ size
    → map_from mmap regions left hint size ≡ some (r, hint')
    → IsPlace regions r
map_from-IsPlace mmap regions zero hint size r hint' h hs e = absurd (unfold map_from in cc)
map_from-IsPlace mmap regions (suc left) hint size r hint' h hs e =
    let good = attempt-IsGood mmap regions left hint size h hs in
    elim (Attempt-cases (attempt mmap regions left hint size)) [
      | inl (p, hint1, t) ↦
          let same =
            some_pair p r hint1 hint'
              (sym (map_from-mapped mmap regions left hint size p hint1 t) ∙ e) in
          subst (IsPlace regions) same (subst (IsGood regions) t good)
      | inr (hint1, size1, t) ↦
          let large : 2 ^ 20 ≤ size1 = subst (IsGood regions) t good in
          let e1 = sym (map_from-again mmap regions left hint size hint1 size1 t) ∙ e in
          elim (Bool-cases (leb (2 ^ 40) hint1)) [
            | inl f ↦ absurd (let n = rw (retry, f) at e1 in cc)
            | inr f ↦
                map_from-IsPlace mmap regions left hint1 size1 r hint' h large (rw (retry, f) at e1)
          ]
    ]

retry-below :
    (mmap : Mmap) (regions : List ℕ) (left hint size : ℕ)
    → hint < 2 ^ 40
    → retry mmap regions left hint size ≡ map_from mmap regions left hint size
retry-below mmap regions left hint size h =
    let n : leb (2 ^ 40) hint ≡ false = ground arith in rw (retry, n) refl

at_address-aligned :
    (p hint size : ℕ)
    → p < 2 ^ 40
    → (p % 2 ^ 20 == 0) ≡ true
    → at_address p hint size ≡ mapped (round_up 20 p) (hint + size)
unfolding at_address is_aligned
at_address-aligned p hint size h e =
    let same : p ≡ round_up 20 p = unfold round_up in ground arith in
    rw e (ap (λ q. mapped q (hint + size)) same)

at_address-cases :
    (p hint size : ℕ)
    → p < 2 ^ 40
    → ((hint' : ℕ) × (at_address p hint size ≡ mapped (round_up 20 p) hint'))
      ⊎ ((at_address p hint size ≡ again p (round_up 20 p + 2 ^ 20 - p))
          × (p + size < round_up 20 p + 2 ^ 20))
unfolding at_address is_aligned
at_address-cases p hint size h = elim (Bool-cases (p % 2 ^ 20 == 0)) [
  | inl e ↦ inl (hint + size, at_address-aligned p hint size h e)
  | inr e ↦ elim (Bool-cases (leb (round_up 20 p + 2 ^ 20) (p + size))) [
    | inl f ↦ inl (round_up 20 p + 2 ^ 20, rw (e, f) refl)
    | inr f ↦ inr (rw (e, f) refl, ground arith)
  ]
]

-- If an attempt gets memory at an address below 1 TB, and the next one, with the hint and the size
-- that the loop computes from it, gets the same address, then the loop maps the region at the next
-- boundary.
pub map_from-second :
    (mmap : Mmap) (regions : List ℕ) (left hint size p : ℕ)
    → mmap regions (suc left) hint size ≡ some p
    → mmap regions left p (round_up 20 p + 2 ^ 20 - p) ≡ some p
    → p < 2 ^ 40
    → (hint' : ℕ) × (map_from mmap regions (suc (suc left)) hint size ≡ some (round_up 20 p, hint'))
map_from-second mmap regions left hint size p e e' h =
    let t = attempt-some mmap regions (suc left) hint size p e in
    let size' = round_up 20 p + 2 ^ 20 - p in
    let t' = attempt-some mmap regions left p size' p e' in
    elim (at_address-cases p hint size h) [
      | inl (hint1, f) ↦
          (hint1, map_from-mapped mmap regions (suc left) hint size (round_up 20 p) hint1 (t ∙ f))
      | inr (f, _) ↦ elim (at_address-cases p p size' h) [
        | inl (hint2, g) ↦ (
          hint2,
          map_from-again mmap regions (suc left) hint size p size' (t ∙ f)
              ∙ retry-below mmap regions (suc left) p size' h
              ∙ map_from-mapped mmap regions left p size' (round_up 20 p) hint2 (t' ∙ g),
        )
        | inr (g, short) ↦ absurd (let up = round_up_region p (omega arith) in omega arith)
      ]
    ]
