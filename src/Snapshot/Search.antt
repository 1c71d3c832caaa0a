-- ===== src/Snapshot/Search.antt =====
-- The binary search of Snapshot::slot (vm/ir.cc) against its specification on a sorted map.
use lambdachine.Common.{
  ℕ, zero, suc, ◌+◌, ◌-◌, ◌/◌, ◌≤◌, ◌<◌, ◌≡◌, ◌≢◌, refl, ap, ◌⊎◌, inl, inr, arith,
}
use lambdachine.Common.Int.{ℤ, pos, negsuc}
use lambdachine.Snapshot.{Snapshot, SnapshotData, key, payload, bisect, slot}

-- The slots of the words from lo up to end (end excluded) grow.
abbrev pub Sorted : (ℕ → ℕ) → ℕ → ℕ → Type 0
Sorted words lo end = (i j : ℕ) → lo ≤ i → i < j → j < end → key (words i) < key (words j)

Sorted-narrow :
    (words : ℕ → ℕ) (lo end lo' end' : ℕ)
    → lo ≤ lo'
    → end' ≤ end
    → Sorted words lo end
    → Sorted words lo' end'
Sorted-narrow words lo end lo' end' p q s = λ i j a b c. s i j (omega arith) b (omega arith)

lt_cases : (i j : ℕ) → (i < j) ⊎ ((i ≡ j) ⊎ (j < i))
lt_cases i j = ground arith

bisect_found :
    (fuel m : ℕ) (words : ℕ → ℕ) (lo end i : ℕ)
    → end < fuel + lo
    → Sorted words lo end
    → lo ≤ i
    → i < end
    → key (words i) ≡ m
    → bisect fuel (pos m) words lo end ≡ payload (words i)
unfolding bisect
bisect_found zero m words lo end i f s p q e = absurd (omega arith)
bisect_found (suc fuel) m words lo end i f s p q e =
    let mid = (lo + end - 1) / 2 in
    let inside : (lo ≤ mid) × (mid < end) = omega arith in
    elim (lt_cases i mid) [
      | inl h ↦ ground (
        arith,
        s i mid p h inside.1,
        bisect_found fuel m words lo mid i (omega arith)
            (Sorted-narrow words lo end lo mid (omega arith) (omega arith) s) p h e,
      )
      | inr (inl h) ↦ ground (arith, ap (λ k. words k) h)
      | inr (inr h) ↦ ground (
        arith,
        s mid i inside.0 h q,
        bisect_found fuel m words (mid + 1) end i (omega arith)
            (Sorted-narrow words lo end (mid + 1) end (omega arith) (omega arith) s) (omega arith) q
            e,
      )
    ]

bisect_absent :
    (fuel m : ℕ) (words : ℕ → ℕ) (lo end : ℕ)
    → ((i : ℕ) → lo ≤ i → i < end → key (words i) ≢ m)
    → bisect fuel (pos m) words lo end ≡ 0
unfolding bisect
bisect_absent zero m words lo end h = refl
bisect_absent (suc fuel) m words lo end h =
    let mid = (lo + end - 1) / 2 in
    ground (
      arith,
      h mid,
      bisect_absent fuel m words (mid + 1) end (λ i p q. h i (omega arith) q),
      λ (l : lo < end). bisect_absent fuel m words lo mid (λ i p q. h i p (omega arith)),
    )

bisect_below : (fuel k : ℕ) (words : ℕ → ℕ) (lo end : ℕ) → bisect fuel (negsuc k) words lo end ≡ 0
unfolding bisect
bisect_below zero k words lo end = refl
bisect_below (suc fuel) k words lo end =
    ground (arith, bisect_below fuel k words lo ((lo + end - 1) / 2))

-- The words of a snapshot, in increasing order of their slots.
abbrev pub IsSorted : Snapshot → SnapshotData → Type 0
IsSorted snap map = Sorted map.words snap.mapofs (snap.mapofs + snap.entries)

-- The search for a slot that a word of a sorted snapshot is about finds the word's reference.
pub slot_found :
    (snap : Snapshot) (map : SnapshotData) (m i : ℕ)
    → IsSorted snap map
    → snap.mapofs ≤ i
    → i < snap.mapofs + snap.entries
    → key (map.words i) ≡ m
    → slot (pos m) snap map ≡ payload (map.words i)
unfolding slot
slot_found snap map m i s p q e =
    bisect_found (suc snap.entries) m map.words snap.mapofs (snap.mapofs + snap.entries) i
      (omega arith) s p q e

-- The search returns 0 for a slot of which there is no word, whatever the order of the words.
pub slot_absent :
    (m : ℕ) (snap : Snapshot) (map : SnapshotData)
    → ((i : ℕ) → snap.mapofs ≤ i → i < snap.mapofs + snap.entries → key (map.words i) ≢ m)
    → slot (pos m) snap map ≡ 0
unfolding slot
slot_absent m snap map h = bisect_absent (suc snap.entries) m map.words _ _ h

-- The search returns 0 for every negative slot, whatever the snapshot holds: the upper half of a
-- word is read as an unsigned number.
pub slot_negative : (k : ℕ) (snap : Snapshot) (map : SnapshotData) → slot (negsuc k) snap map ≡ 0
unfolding slot
slot_negative k snap map = bisect_below (suc snap.entries) k map.words _ _

bisect_agree :
    (fuel : ℕ) (n : ℤ) (words words' : ℕ → ℕ) (lo end : ℕ)
    → ((i : ℕ) → i < end → words i ≡ words' i)
    → bisect fuel n words lo end ≡ bisect fuel n words' lo end
unfolding bisect
bisect_agree zero n words words' lo end h = refl
bisect_agree (suc fuel) n words words' lo end h =
    let mid = (lo + end - 1) / 2 in
    ground (
      arith,
      h mid,
      bisect_agree fuel n words words' (mid + 1) end h,
      λ (l : lo < end). bisect_agree fuel n words words' lo mid (λ i p. h i (omega arith)),
    )

-- The search looks at no word at or after the end of the snapshot.
pub slot_agree :
    (n : ℤ) (snap : Snapshot) (map map' : SnapshotData)
    → ((i : ℕ) → i < snap.mapofs + snap.entries → map.words i ≡ map'.words i)
    → slot n snap map ≡ slot n snap map'
unfolding slot
slot_agree n snap map map' h = bisect_agree (suc snap.entries) n map.words map'.words _ _ h
