-- ===== src/InfoTables/Protection.antt =====
-- Allocation within a pair of beginAllocInfoTable and endAllocInfoTable, and the protection after it.
use lambdachine.Common.{
  ℕ, ◌+◌, ◌-◌, ◌≡◌, refl, sym, Bool, true, false, ◌==◌, write, inl, inr, arith, Bool-cases,
}
use lambdachine.InfoTables.{InfoTables, table_block, begin_alloc, end_alloc}

write_back : (f : ℕ → Bool) (i j : ℕ) → f i ≡ true → write (write f i false) i true j ≡ f j
write_back f i j e = elim (Bool-cases (j == i)) [
  | inl h ↦ let same : j ≡ i = ground arith in rw (h, same) (sym e)
  | inr h ↦ rw h refl
]

-- A pair with nothing in it, inside of other pairs or not, leaves the protection as it was, if outside
-- of all pairs the block in use is read-only.
pub end_alloc-begin_alloc :
    (s : InfoTables) (b : ℕ)
    → (s.level ≡ 0 → s.read_only (table_block s) ≡ true)
    → ((end_alloc (begin_alloc s)).read_only b ≡ s.read_only b)
      × ((end_alloc (begin_alloc s)).level ≡ s.level)
unfolding end_alloc begin_alloc
end_alloc-begin_alloc s b h = elim (Bool-cases (s.level == 0)) [
  | inl e ↦
      let w : (s.level + 1 - 1 == 0) ≡ true = ground arith in
      rw (end_alloc, begin_alloc, e, w)
        (write_back s.read_only (table_block s) b (h (ground arith)), omega arith)
  | inr e ↦
      let w : (s.level + 1 - 1 == 0) ≡ false = ground arith in
      rw (end_alloc, begin_alloc, e, w) (refl, omega arith)
]
