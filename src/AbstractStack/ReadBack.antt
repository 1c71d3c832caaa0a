-- ===== src/AbstractStack/ReadBack.antt =====
-- Snapshots read back: Snapshot::slot after AbstractStack::snapshot (vm/ir.cc).
use lambdachine.Common.{
  ℕ, ◌+◌, ◌-◌, ◌^◌, ◌≤◌, ◌<◌, ◌≡◌, inl, inr, ◌∙◌, true, false, arith, if◌then◌else◌, Bool-cases,
}
use lambdachine.Common.Int.{ℤ, pos}
use lambdachine.Snapshot.{Snapshot, SnapshotData, key, slot}
use lambdachine.Snapshot.Search.{IsSorted, slot_found, slot_absent, slot_agree}
use lambdachine.AbstractStack.{
  AbstractStack, entry_word, capture, snapshot, k_slots, k_initial_base,
}
use lambdachine.AbstractStack.Frames.{IsValid}
use lambdachine.AbstractStack.Capture.{
  Fits, entry_word_parts, capture_frame, capture_sound, capture_complete, capture-Sorted,
}

-- The stack and the map from which a snapshot is taken: no slot below the base at the start of the
-- trace is tracked, the words have room under 2 ^ 16, and at most 255 slots are written.
pub record CanCapture (s : AbstractStack) (map : SnapshotData) : Type 0 where
  pub valid : IsValid s
  pub fits : Fits s.slots
  pub above_base : k_initial_base ≤ s.low
  pub room : map.index + k_slots < 2 ^ 16
  pub few : (capture s.slots (s.high + 1 - s.low) s.low map.index map.words).1 < map.index + 2 ^ 8

module _ (s : AbstractStack) (map : SnapshotData) (ref pc : ℕ) where
  shape :
      CanCapture s map
      → ((snapshot s map ref pc).0.mapofs ≡ map.index)
        × ((snapshot s map ref pc).0.mapofs + (snapshot s map ref pc).0.entries
            ≡ (snapshot s map ref pc).1.index)
  unfolding snapshot
  shape c =
      let frame = capture_frame s.slots (s.high + 1 - s.low) s.low map.index map.words in
      let few = c.few in let room = c.room in (omega arith, omega (arith, frame.0))

  span : CanCapture s map → s.low + (s.high + 1 - s.low) ≡ s.high + 1
  span c = omega (arith, c.valid.ordered, c.valid.base_top, c.valid.top_high)

  sorted : CanCapture s map → IsSorted (snapshot s map ref pc).0 (snapshot s map ref pc).1
  unfolding snapshot
  sorted c =
      let facts = shape c in
      λ i j p q r.
        capture-Sorted s.slots c.fits (s.high + 1 - s.low) s.low map.index map.words c.above_base
          (omega (arith, c.valid.inside, span c)) i j (omega (arith, facts.0)) q
          (omega (arith, facts.1))

  written_read :
      (m : ℕ)
      → CanCapture s map
      → (s.slots (m + k_initial_base)).written ≡ true
      → slot (pos m) (snapshot s map ref pc).0 (snapshot s map ref pc).1
        ≡ (s.slots (m + k_initial_base)).ref_of
  unfolding snapshot
  written_read m c e =
      let n = m + k_initial_base in
      let facts = shape c in
      let here = c.valid.tracked n e in
      let (i, p, q, w) =
        capture_complete s.slots (s.high + 1 - s.low) s.low map.index map.words n here.0
          (omega (arith, span c)) e in
      let parts =
        entry_word_parts n (s.slots n) (omega arith) (omega (arith, c.valid.inside)) (c.fits n) in
      slot_found _ (snapshot s map ref pc).1 m i (sorted c) (omega (arith, facts.0))
        (omega (arith, facts.1)) (rw w (omega (arith, parts.0)))
      ∙ rw w parts.1

  unwritten_read :
      (m : ℕ)
      → CanCapture s map
      → (s.slots (m + k_initial_base)).written ≡ false
      → slot (pos m) (snapshot s map ref pc).0 (snapshot s map ref pc).1 ≡ 0
  unfolding snapshot
  unwritten_read m c e =
      let facts = shape c in
      slot_absent m _ (snapshot s map ref pc).1 (λ i p q k.
        let (n, a, b, w, d) =
          capture_sound s.slots (s.high + 1 - s.low) s.low map.index map.words i
            (omega (arith, facts.0)) (omega (arith, facts.1)) in
        let k' : key (entry_word n (s.slots n)) ≡ m = rw d at k in
        let parts =
          entry_word_parts n (s.slots n) (omega (arith, c.above_base))
            (omega (arith, c.valid.inside, span c)) (c.fits n) in
        let same : m + k_initial_base ≡ n = omega (arith, parts.0) in
        let w' = rw (← same) at w in cc)

  -- After a snapshot of a well-formed abstract stack that tracks no slot below the base of the
  -- trace and has at most 255 written slots, with references of 16 bits, into a map with room for
  -- all slots under 2 ^ 16 words, looking up a slot that is not negative gives the reference in
  -- that slot of the abstract stack if the trace has written it, and 0 otherwise.
  pub slot-snapshot :
      (m : ℕ)
      → CanCapture s map
      → slot (pos m) (snapshot s map ref pc).0 (snapshot s map ref pc).1 ≡ (
          if (s.slots (m + k_initial_base)).written
          then (s.slots (m + k_initial_base)).ref_of
          else 0)
  slot-snapshot m c = elim (Bool-cases (s.slots (m + k_initial_base)).written) [
    | inl e ↦ rw e (written_read m c e)
    | inr e ↦ rw e (unwritten_read m c e)
  ]

  -- A snapshot whose words lie below the index of the map reads the same after a later snapshot,
  -- at every slot.
  pub slot-snapshot_earlier :
      (n : ℤ) (earlier : Snapshot)
      → earlier.mapofs + earlier.entries ≤ map.index
      → slot n earlier (snapshot s map ref pc).1 ≡ slot n earlier map
  unfolding snapshot
  slot-snapshot_earlier n earlier h = slot_agree n earlier (snapshot s map ref pc).1 map (λ i p.
      (capture_frame s.slots (s.high + 1 - s.low) s.low map.index map.words).2 i (omega arith))
