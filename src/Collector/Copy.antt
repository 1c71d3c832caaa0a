-- ===== src/Collector/Copy.antt =====
-- Copying a closure: the new closure, the forwarding pointer and the rest of the memory.
use lambdachine.Common.{
  ℕ, zero, suc, ◌+◌, ◌≤◌, ◌<◌, ◌≡◌, ◌≢◌, inl, inr, refl, ◌∙◌, ◌==◌, write, arith, Bool-cases,
}
use lambdachine.MemoryManager.Grab.{write-here, write-other}
use lambdachine.Collector.{payload_at, copy_payload}

-- The payload's words arrive, and no other word is written.
pub copy_payload-other :
    (n : ℕ) (word : ℕ → ℕ) (from to i a : ℕ)
    → ((j : ℕ) → i ≤ j → j < i + n → a ≢ payload_at to j)
    → copy_payload n word from to i a ≡ word a
unfolding copy_payload
copy_payload-other zero word from to i a h = refl
copy_payload-other (suc n) word from to i a h =
    copy_payload-other n (write word (payload_at to i) (word (payload_at from i))) from to (i + 1) a
      (λ j lo hi. h j (omega arith) (omega arith))
    ∙ write-other word (payload_at to i) a (word (payload_at from i))
        (h i (omega arith) (omega arith))

pub copy_payload-arrives :
    (n : ℕ) (word : ℕ → ℕ) (from to i : ℕ)
    → ((j k : ℕ) → j < i + n → k < i + n → payload_at from j ≢ payload_at to k)
    → (j : ℕ) → i ≤ j
    → j < i + n
    → copy_payload n word from to i (payload_at to j) ≡ word (payload_at from j)
unfolding copy_payload
copy_payload-arrives zero word from to i apart j lo hi = absurd (omega arith)
copy_payload-arrives (suc n) word from to i apart j lo hi =
    let w = write word (payload_at to i) (word (payload_at from i)) in
    elim (Bool-cases (j == i)) [
      | inl e ↦
          let same : j ≡ i = ground arith in
          rw same (
            copy_payload-other n w from to (i + 1) (payload_at to i) (λ k l u. omega arith)
            ∙ write-here word (payload_at to i) (word (payload_at from i)))
      | inr e ↦
          copy_payload-arrives n w from to (i + 1)
            (λ a b l u. apart a b (omega arith) (omega arith)) j (ground arith) (omega arith)
          ∙ write-other word (payload_at to i) (payload_at from j) (word (payload_at from i))
              (apart j i (omega arith) (omega arith))
    ]
