-- ===== src/AbstractHeap/Entries.antt =====
-- Allocation in the abstract heap (AbstractHeap::newEntry and the field accesses of vm/ir.hh and
-- vm/ir.cc): the fields of different objects do not overlap.
use lambdachine.Common.{
  ◌⊎◌, true, false, ◌%◌, ℕ, zero, suc, ◌+◌, ◌*◌, ◌^◌, ◌≤◌, ◌<◌, ◌≡◌, inl, inr, refl, ap, ◌∙◌, ◌&&◌,
  arith, ltb, ◌==◌, if◌then◌else◌, none, some, Option-cases, >>=-eq-some,
}
use native.Mathlib.Nat.{pow-suc, mul-le-mul_right, mul-le-mul, pow-le-pow_right}
use lambdachine.AbstractHeap.{
  AbstractHeap, HeapSnapData, Room, with_room, too_large, grow_top, make_room, reserve, entry_room,
  place_entry, new_entry, set_field, get_field, update, num_fields, is_indirection,
  max_heap_entries,
}

-- The cells of entry n lie between those of the entries before it and those of the entries after.
pub record IsValid (h : AbstractHeap) : Type 0 where
  pub within : (n : ℕ) → n < h.nextentry → (h.entries n).ofs + (h.entries n).size ≤ h.data_of.next
  pub apart :
      (n m : ℕ)
      → n < m
      → m < h.nextentry
      → (h.entries n).ofs + (h.entries n).size ≤ (h.entries m).ofs
  pub entry_room : h.nextentry ≤ h.nentries
  pub entry_limit : h.nentries ≤ max_heap_entries
  pub cell_room : h.data_of.next ≤ h.data_of.size

grow_top_lem :
    (d d' : HeapSnapData)
    → grow_top d ≡ some d'
    → (d.size * 2 ≤ d'.size) × (2 ^ 5 ≤ d'.size) × (d'.next ≡ d.next) × (d'.cells ≡ d.cells)
unfolding grow_top
grow_top_lem d d' e = (ground arith, ground arith, ground arith, ground arith)

fits_or_not : (a b : ℕ) → (a < b) ⊎ (b ≤ a)
fits_or_not a b = ground arith

grow_top-none : (d : HeapSnapData) → grow_top d ≡ none → 50000 < d.size
unfolding grow_top
grow_top-none d e = ground arith

grow_top-full : (d : HeapSnapData) → 50000 < d.size → grow_top d ≡ none
unfolding grow_top
grow_top-full d h = ground arith

-- A table with room for n more cells, which holds what d does.
pub record IsRoom (d d' : HeapSnapData) (n : ℕ) : Type 0 where
  pub next : d'.next ≡ d.next
  pub fits : d.next + n < d'.size
  pub cells : d'.cells ≡ d.cells

-- The two ends of the loop: there is room, or what the table was to hold is over the limit.
abbrev pub Ends : HeapSnapData → ℕ → Room → Type 0
Ends d n r =
    ((d' : HeapSnapData) × (r ≡ with_room d') × IsRoom d d' n)
    ⊎ ((r ≡ too_large) × (50000 < d.next + n))

module _ (fuel : ℕ) (d : HeapSnapData) (n : ℕ) where
  make_room-room : d.next + n < d.size → make_room (suc fuel) d n ≡ with_room d
  unfolding make_room
  make_room-room h = let e : ltb (d.next + n) d.size ≡ true = ground arith in rw (make_room, e) refl

  make_room-large : d.size ≤ d.next + n → grow_top d ≡ none → make_room (suc fuel) d n ≡ too_large
  unfolding make_room
  make_room-large h g =
      let e : ltb (d.next + n) d.size ≡ false = ground arith in rw (make_room, e, g) refl

  make_room-grown :
      (d' : HeapSnapData)
      → d.size ≤ d.next + n
      → grow_top d ≡ some d'
      → make_room (suc fuel) d n ≡ make_room fuel d' n
  unfolding make_room
  make_room-grown d' h g =
      let e : ltb (d.next + n) d.size ≡ false = ground arith in rw (make_room, e, g) refl

  -- One round, given that the rounds after it end or are not needed.
  make_room_round :
      ((d' : HeapSnapData) → grow_top d ≡ some d' → Ends d' n (make_room fuel d' n))
      → Ends d n (make_room (suc fuel) d n)
  make_room_round rest = elim (fits_or_not (d.next + n) d.size) [
    | inl h ↦ inl (d, make_room-room h, record { next = refl; fits = h; cells = refl })
    | inr h ↦ elim (Option-cases (grow_top d)) [
      | inl g ↦ let limit = grow_top-none d g in inr (make_room-large h g, omega arith)
      | inr (d', g) ↦
          let (_, _, next, cells) = grow_top_lem d d' g in
          let step = make_room-grown d' h g in
          elim (rest d' g) [
            | inl (t, e, r) ↦ inl (
              t,
              step ∙ e,
              record {
                next = r.next ∙ next;
                fits = let f = r.fits in omega arith;
                cells = r.cells ∙ cells;
              },
            )
            | inr (e, l) ↦ inr (step ∙ e, omega arith)
          ]
    ]
  ]

make_room-Ends :
    (fuel : ℕ) (d : HeapSnapData) (n : ℕ)
    → 2 ^ 16 ≤ d.size * 2 ^ fuel
    → Ends d n (make_room (suc fuel) d n)
make_room-Ends zero d n h =
    make_room_round 0 d n
      (λ d' g. absurd (let e : grow_top d ≡ none = grow_top-full d (omega arith) in cc))
make_room-Ends (suc fuel) d n h = make_room_round (suc fuel) d n (λ d' g.
    let grows = mul-le-mul_right (2 ^ fuel) (grow_top_lem d d' g).0 in
    make_room-Ends fuel d' n (omega (arith, grows, ap (λ k. d.size * k) (pow-suc 2 fuel))))

-- The loop that makes room for n more cells ends within 16 rounds, from a table of any size: with
-- a table that has the room and the same contents, or, as the table would have to hold more than
-- 50000 cells, with the exit of the program.
pub make_room_enough :
    (fuel : ℕ) (d : HeapSnapData) (n : ℕ) → 16 ≤ fuel → Ends d n (make_room fuel d n)
make_room_enough zero d n h = absurd (omega arith)
make_room_enough (suc zero) d n h = absurd (omega arith)
make_room_enough (suc (suc f)) d n h =
    let power : 2 ^ 11 ≤ 2 ^ f = pow-le-pow_right {n = 2} (omega arith) {i = 11} (omega arith) in
    make_room_round (suc f) d n
      (λ d' g. make_room-Ends f d' n (mul-le-mul (grow_top_lem d d' g).1 power))

reserve-keeps :
    (d d' : HeapSnapData) (n ofs : ℕ)
    → reserve d n ≡ some (ofs, d')
    → (ofs ≡ d.next)
      × (d'.next ≡ d.next + n)
      × (d'.next ≤ d'.size)
      × ((j : ℕ) → d'.cells j ≡ d.cells j)
unfolding reserve
reserve-keeps d d' n ofs e = elim (make_room_enough 16 d n (omega arith)) [
  | inr (f, _) ↦ let e' = rw (f, reserve) at e in cc
  | inl (t, f, r) ↦
      let e' = rw (f, reserve) at e in
      let fits = r.fits in
      let next = r.next in
      (
        ground (arith, e'),
        ground (arith, e'),
        ground (arith, e'),
        λ j. ground (arith, e', ap (λ (c : ℕ → ℕ). c j) r.cells),
      )
]

entry_room-keeps :
    (h h' : AbstractHeap)
    → IsValid h
    → entry_room h ≡ some h'
    → (h'.nextentry ≡ h.nextentry)
      × (h'.nextentry < h'.nentries)
      × (h'.nentries ≤ max_heap_entries)
      × ((n : ℕ) → h'.entries n ≡ h.entries n)
      × (h'.data_of ≡ h.data_of)
unfolding entry_room
entry_room-keeps h h' v e =
    let r = v.entry_room in
    let l = v.entry_limit in
    (ground arith, ground arith, ground arith, λ n. ground arith, ground arith)

module _ (h h' : AbstractHeap) (cells : HeapSnapData) (ref nfields ofs : ℕ) (v : IsValid h)
    (small : h.data_of.next + nfields < 2 ^ 16) (room : entry_room h ≡ some h')
    (got : reserve h'.data_of nfields ≡ some (ofs, cells)) where
  cells_got :
      (ofs ≡ h.data_of.next)
      × (cells.next ≡ h.data_of.next + nfields)
      × (cells.next ≤ cells.size)
      × ((j : ℕ) → cells.cells j ≡ h.data_of.cells j)
  cells_got =
      let same = (entry_room-keeps h h' v room).4 in
      rw same at (reserve-keeps h'.data_of cells nfields ofs got)

  place_entry-IsValid : IsValid (place_entry h' ref nfields ofs cells)
  unfolding place_entry
  place_entry-IsValid =
      let (a, b, c, d, _) = entry_room-keeps h h' v room in
      let (p, q, r, _) = cells_got in
      record {
        within = λ n k. ground (arith, d n, v.within n);
        apart = λ n m k l. ground (arith, d n, d m, v.apart n m, v.within n);
        entry_room = ground arith;
        entry_limit = c;
        cell_room = r;
      }

  place_entry-old :
      (m i : ℕ)
      → m < h.nextentry
      → (get_field (place_entry h' ref nfields ofs cells) m i ≡ get_field h m i)
        × (is_indirection (place_entry h' ref nfields ofs cells) m ≡ is_indirection h m)
  unfolding place_entry get_field is_indirection
  place_entry-old m i k =
      let (a, _, _, d, _) = entry_room-keeps h h' v room in
      let c = cells_got.3 in (ground (arith, d m, c ((h.entries m).ofs + i)), ground (arith, d m))

  place_entry-new :
      (num_fields (place_entry h' ref nfields ofs cells) h'.nextentry ≡ nfields)
      × (is_indirection (place_entry h' ref nfields ofs cells) h'.nextentry ≡ 0)
      × ((place_entry h' ref nfields ofs cells).nextentry ≡ h'.nextentry + 1)
  unfolding place_entry num_fields is_indirection
  place_entry-new = ground arith

-- An allocation that does not give up, in a well-formed heap whose cells stay under 2 ^ 16: the
-- new entry is the next one and is counted, has the given number of fields and is not an
-- indirection; the entries before it keep their contents, and the heap stays well formed, so that
-- the fields of different entries do not overlap.
pub new_entry_lem :
    (h t : AbstractHeap) (ref nfields n : ℕ)
    → IsValid h
    → h.data_of.next + nfields < 2 ^ 16
    → new_entry h ref nfields ≡ some (n, t)
    → IsValid t
      × (n ≡ h.nextentry)
      × (t.nextentry ≡ n + 1)
      × (num_fields t n ≡ nfields)
      × (is_indirection t n ≡ 0)
      × ((m i : ℕ)
          → m < n
          → (get_field t m i ≡ get_field h m i) × (is_indirection t m ≡ is_indirection h m))
unfolding new_entry
new_entry_lem h t ref nfields n v small e =
    let (h', room, e₁) = >>=-eq-some (entry_room h) _ e in
    let ((ofs, cells), got, e₂) = >>=-eq-some (reserve h'.data_of nfields) _ e₁ in
    let same : n ≡ h'.nextentry = cc in
    let placed : t ≡ place_entry h' ref nfields ofs cells = cc in
    let count = (entry_room-keeps h h' v room).0 in
    rw (same, placed)
      (
        place_entry-IsValid h h' cells ref nfields ofs v small room got,
        count,
        (place_entry-new h h' cells ref nfields ofs v small room got).2,
        (place_entry-new h h' cells ref nfields ofs v small room got).0,
        (place_entry-new h h' cells ref nfields ofs v small room got).1,
        λ m i k. place_entry-old h h' cells ref nfields ofs v small room got m i (omega arith),
      )

set_field-IsValid : (h : AbstractHeap) (n i r : ℕ) → IsValid h → IsValid (set_field h n i r)
unfolding set_field
set_field-IsValid h n i r v = record {
  within = v.within;
  apart = v.apart;
  entry_room = v.entry_room;
  entry_limit = v.entry_limit;
  cell_room = v.cell_room;
}

-- In a well-formed heap, writing a field of one object changes that field and no other, of that
-- object or of another, for fields that the objects have.
pub get_field-set_field :
    (h : AbstractHeap) (n m i j r : ℕ)
    → IsValid h
    → n < h.nextentry
    → m < h.nextentry
    → i < num_fields h n
    → j < num_fields h m
    → get_field (set_field h n i r) m j ≡ (if m == n && j == i then r else get_field h m j)
unfolding get_field set_field num_fields
get_field-set_field h n m i j r v hn hm hi hj = ground (arith, v.apart n m, v.apart m n)

-- An update makes one object an indirection, and leaves all fields and the other objects alone.
pub update_lem :
    (h : AbstractHeap) (n m i fwdref : ℕ)
    → (is_indirection (update h n fwdref) m
        ≡ (if m == n then fwdref % 2 ^ 16 else is_indirection h m))
      × (get_field (update h n fwdref) m i ≡ get_field h m i)
      × (num_fields (update h n fwdref) m ≡ num_fields h m)
unfolding update is_indirection get_field num_fields
update_lem h n m i fwdref = (ground arith, ground arith, ground arith)
