-- ===== src/AbstractStack/Capture.antt =====
-- What AbstractStack::snapshot records (vm/ir.cc): one word for each slot that the trace has
-- written, in the order of the slots, so that Snapshot::slot reads the abstract stack back.
use lambdachine.Common.{
  ℕ, zero, suc, ◌+◌, ◌-◌, ◌*◌, ◌^◌, ◌≤◌, ◌<◌, ◌≡◌, ◌⊎◌, inl, inr, refl, true, false, arith,
  Bool-cases, write,
}
use lambdachine.Common.Bits.{bit_or-add, bit_or_comm}
use lambdachine.Common.Int.{sub_ℕ, to_u16}
use lambdachine.Ir.{Tref}
use lambdachine.Snapshot.{key, payload, slot}
use lambdachine.Snapshot.Search.{Sorted}
use lambdachine.AbstractStack.{entry_word, capture, k_slots, k_initial_base}

-- The reference of a slot is a 16-bit number.
abbrev pub Fits : (ℕ → Tref) → Type 0
Fits slots = (i : ℕ) → (slots i).ref_of < 2 ^ 16

pub entry_word_parts :
    (slot : ℕ) (tr : Tref)
    → k_initial_base ≤ slot
    → slot < k_slots
    → tr.ref_of < 2 ^ 16
    → (key (entry_word slot tr) + k_initial_base ≡ slot)
      × (payload (entry_word slot tr) ≡ tr.ref_of)
unfolding entry_word to_u16
entry_word_parts slot tr h k f =
    let hi = to_u16 (sub_ℕ slot k_initial_base) in
    let e : hi ≡ slot - 250 = ground arith in
    rw (bit_or_comm (hi * 2 ^ 16) tr.ref_of, bit_or-add 16 tr.ref_of hi f)
      (omega arith, omega arith)

eq_or_lt : (a b : ℕ) → a ≤ b → (a ≡ b) ⊎ (a + 1 ≤ b)
eq_or_lt a b h = ground arith

module _ (slots : ℕ → Tref) where
  capture_written :
      (rounds first ofs : ℕ) (words : ℕ → ℕ)
      → (slots first).written ≡ true
      → capture slots (suc rounds) first ofs words
        ≡ capture slots rounds
            (first + 1)
            (ofs + 1)
            (write words ofs (entry_word first (slots first)))
  unfolding capture
  capture_written rounds first ofs words e = rw (e, capture)

  capture_skipped :
      (rounds first ofs : ℕ) (words : ℕ → ℕ)
      → (slots first).written ≡ false
      → capture slots (suc rounds) first ofs words ≡ capture slots rounds (first + 1) ofs words
  unfolding capture
  capture_skipped rounds first ofs words e = rw (e, capture)

  -- The words before the start stay, and there are at most as many new ones as slots.
  pub capture_frame :
      (rounds first ofs : ℕ) (words : ℕ → ℕ)
      → (ofs ≤ (capture slots rounds first ofs words).1)
        × ((capture slots rounds first ofs words).1 ≤ ofs + rounds)
        × ((j : ℕ) → j < ofs → (capture slots rounds first ofs words).0 j ≡ words j)
  capture_frame zero first ofs words = unfold capture in (omega arith, omega arith, λ j h. refl)
  capture_frame (suc rounds) first ofs words = elim (Bool-cases (slots first).written) [
    | inl e ↦
        let words' = write words ofs (entry_word first (slots first)) in
        let ih = capture_frame rounds (first + 1) (ofs + 1) words' in
        rw (capture_written rounds first ofs words e)
          (omega (arith, ih.0), omega (arith, ih.1), λ j h. ground (arith, ih.2 j))
    | inr e ↦
        let ih = capture_frame rounds (first + 1) ofs words in
        rw (capture_skipped rounds first ofs words e)
          (omega (arith, ih.0), omega (arith, ih.1), λ j h. ih.2 j h)
  ]

  -- The word of the first slot, if it is written.
  capture_head :
      (rounds first ofs : ℕ) (words : ℕ → ℕ)
      → (capture slots rounds
            (first + 1)
            (ofs + 1)
            (write words ofs (entry_word first (slots first)))).0
          ofs
        ≡ entry_word first (slots first)
  capture_head rounds first ofs words =
      let words' = write words ofs (entry_word first (slots first)) in
      let stays = (capture_frame rounds (first + 1) (ofs + 1) words').2 ofs in ground (arith, stays)

  -- Every new word is that of a written slot in the range.
  pub capture_sound :
      (rounds first ofs : ℕ) (words : ℕ → ℕ) (i : ℕ)
      → ofs ≤ i
      → i < (capture slots rounds first ofs words).1
      → (s : ℕ) × (first ≤ s)
        × (s < first + rounds)
        × ((slots s).written ≡ true)
        × ((capture slots rounds first ofs words).0 i ≡ entry_word s (slots s))
  capture_sound zero first ofs words i p q = unfold capture in absurd (omega arith)
  capture_sound (suc rounds) first ofs words i p q = elim (Bool-cases (slots first).written) [
    | inl e ↦
        let words' = write words ofs (entry_word first (slots first)) in
        let step = capture_written rounds first ofs words e in
        elim (eq_or_lt ofs i p) [
          | inl same ↦ rw step (
            first,
            omega arith,
            omega arith,
            e,
            rw (← same) (capture_head rounds first ofs words),
          )
          | inr later ↦
              let q' = rw step at q in
              let (s, a, b, c, d) = capture_sound rounds (first + 1) (ofs + 1) words' i later q' in
              rw step (s, omega arith, omega arith, c, d)
        ]
    | inr e ↦
        let step = capture_skipped rounds first ofs words e in
        let q' = rw step at q in
        let (s, a, b, c, d) = capture_sound rounds (first + 1) ofs words i p q' in
        rw step (s, omega arith, omega arith, c, d)
  ]

  -- Every written slot in the range has a word.
  pub capture_complete :
      (rounds first ofs : ℕ) (words : ℕ → ℕ) (s : ℕ)
      → first ≤ s
      → s < first + rounds
      → (slots s).written ≡ true
      → (i : ℕ) × (ofs ≤ i)
        × (i < (capture slots rounds first ofs words).1)
        × ((capture slots rounds first ofs words).0 i ≡ entry_word s (slots s))
  capture_complete zero first ofs words s p q w = absurd (omega arith)
  capture_complete (suc rounds) first ofs words s p q w = elim (Bool-cases (slots first).written) [
    | inl e ↦
        let words' = write words ofs (entry_word first (slots first)) in
        let step = capture_written rounds first ofs words e in
        elim (eq_or_lt first s p) [
          | inl same ↦
              let grows = (capture_frame rounds (first + 1) (ofs + 1) words').0 in
              rw (step, ← same)
                (ofs, omega arith, omega (arith, grows), capture_head rounds first ofs words)
          | inr later ↦
              let (i, a, b, c) =
                capture_complete rounds (first + 1) (ofs + 1) words' s later (omega arith) w in
              rw step (i, omega arith, b, c)
        ]
    | inr e ↦
        let later : first + 1 ≤ s = ground (arith, eq_or_lt first s p) in
        let (i, a, b, c) = capture_complete rounds (first + 1) ofs words s later (omega arith) w in
        rw (capture_skipped rounds first ofs words e) (i, a, b, c)
  ]

  module _ (fits : Fits slots) where
    key-entry :
        (s : ℕ)
        → k_initial_base ≤ s
        → s < k_slots
        → key (entry_word s (slots s)) + k_initial_base ≡ s
    key-entry s h k = (entry_word_parts s (slots s) h k (fits s)).0

    -- The words stand in the order of the slots, which lie above the base of the trace.
    pub capture-Sorted :
        (rounds first ofs : ℕ) (words : ℕ → ℕ)
        → k_initial_base ≤ first
        → first + rounds ≤ k_slots
        → Sorted
            (capture slots rounds first ofs words).0
            ofs
            (capture slots rounds first ofs words).1
    capture-Sorted zero first ofs words h k = unfold capture in (λ i j p q r. absurd (omega arith))
    capture-Sorted (suc rounds) first ofs words h k = elim (Bool-cases (slots first).written) [
      | inl e ↦
          let words' = write words ofs (entry_word first (slots first)) in
          let ih = capture-Sorted rounds (first + 1) (ofs + 1) words' (omega arith) (omega arith) in
          rw (capture_written rounds first ofs words e) (λ i j p q r. elim (eq_or_lt ofs i p) [
            | inl same ↦
                let (s, a, b, c, d) =
                  capture_sound rounds (first + 1) (ofs + 1) words' j (omega arith) r in
                rw (← same, capture_head rounds first ofs words, d)
                  (omega (
                    arith,
                    key-entry first h (omega arith),
                    key-entry s (omega arith) (omega arith),
                  ))
            | inr later ↦ ih i j later q r
          ])
      | inr e ↦
          rw (capture_skipped rounds first ofs words e)
            (capture-Sorted rounds (first + 1) ofs words (omega arith) (omega arith))
    ]
