-- ===== src/HeapOffsets/Returns.antt =====
-- The walk over allocations and heap checks ends.
use lambdachine.Common.{
  ℕ, zero, suc, ◌+◌, ◌^◌, ◌≤◌, ◌<◌, ◌≡◌, ◌⊎◌, inl, inr, refl, sym, ap, ◌∙◌, true, false, ltb, ◌==◌,
  some, arith, Bool-cases,
}
use lambdachine.Ir.{Opcode, Ins, ref_bias}
use mathlib.Core.Path.{subst}
use lambdachine.IrBuffer.{IrBuffer}
use lambdachine.IrBuffer.Chains.{IsAt, IsValid, is_literal}
use lambdachine.HeapOffsets.{heap_offsets, place_object, set_heap_offsets}

-- An instruction of a chain, or its end, that is no literal.
abbrev IsIn : IrBuffer → Opcode → ℕ → Type 0
IsIn b o r = (r ≡ 0) ⊎ (IsAt b o r × (ref_bias ≤ r))

previous :
    (b : IrBuffer) (o : Opcode) (r : ℕ)
    → IsValid b
    → IsAt b o r
    → ref_bias ≤ r
    → IsIn b o (b.ins r).prev × ((b.ins r).prev < r)
previous b o r v at h = elim (v.ins_links r h at.under) [
  | inl e ↦ (inl e, omega arith)
  | inr (p, q, e) ↦ (
    inr (
      record {
        above = let l = v.bias_above in omega arith;
        under = let u = at.under in omega arith;
        same = e ∙ at.same;
      },
      p,
    ),
    q,
  )
]

module _ (fuel : ℕ) (b : IrBuffer) (cur chkref reserved checks : ℕ) where
  heap_offsets-check :
      cur < chkref
      → heap_offsets (suc fuel) b cur chkref reserved checks
        ≡ heap_offsets fuel b cur (b.ins chkref).prev 0 (checks + 1)
  unfolding heap_offsets
  heap_offsets-check h = let e : ltb cur chkref ≡ true = ground arith in rw (heap_offsets, e) refl

  heap_offsets-end :
      cur ≡ 0 → chkref ≡ 0 → heap_offsets (suc fuel) b cur chkref reserved checks ≡ some (b, checks)
  unfolding heap_offsets
  heap_offsets-end z y =
      let e : ltb cur chkref ≡ false = ground arith in
      let f : (cur == 0) ≡ true = ground arith in rw (heap_offsets, e, f) refl

  heap_offsets-object :
      0 < cur
      → chkref ≤ cur
      → heap_offsets (suc fuel) b cur chkref reserved checks
        ≡ heap_offsets fuel
            (place_object b cur reserved)
            (b.ins cur).prev
            chkref
            (reserved + (b.heap.entries (b.ins cur).op2).size + 1)
            checks
  unfolding heap_offsets
  heap_offsets-object h k =
      let e : ltb cur chkref ≡ false = ground arith in
      let f : (cur == 0) ≡ false = ground arith in rw (heap_offsets, e, f) refl

placed-ins : (b : IrBuffer) (cur reserved : ℕ) → (place_object b cur reserved).ins ≡ b.ins
unfolding place_object
placed-ins b cur reserved = refl

-- Each round goes one step down a chain of the buffer b0, whose instructions are not changed.
heap_offsets-returns :
    (fuel : ℕ) (b0 b : IrBuffer) (cur chkref reserved checks : ℕ)
    → IsValid b0
    → b.ins ≡ b0.ins
    → IsIn b0 Opcode.new cur
    → IsIn b0 Opcode.heapchk chkref
    → cur + chkref < fuel
    → (q : IrBuffer × ℕ) × (heap_offsets fuel b cur chkref reserved checks ≡ some q)
heap_offsets-returns zero b0 b cur chkref reserved checks v same n k h = absurd (omega arith)
heap_offsets-returns (suc fuel) b0 b cur chkref reserved checks v same n k h =
    elim (Bool-cases (ltb cur chkref)) [
      | inl e ↦ elim k [
        | inl z ↦ absurd (ground arith)
        | inr (at, up) ↦
            let (p, l) = previous b0 Opcode.heapchk chkref v at up in
            let here = ap (λ (f : ℕ → Ins). (f chkref).prev) same in
            let (q, f) =
              heap_offsets-returns fuel b0 b cur (b.ins chkref).prev 0 (checks + 1) v same n
                (subst (IsIn b0 Opcode.heapchk) (sym here) p) (omega arith) in
            (q, heap_offsets-check fuel b cur chkref reserved checks (ground arith) ∙ f)
      ]
      | inr e ↦ elim n [
        | inl z ↦ (_, heap_offsets-end fuel b cur chkref reserved checks z (ground arith))
        | inr (at, up) ↦
            let (p, l) = previous b0 Opcode.new cur v at up in
            let here = ap (λ (f : ℕ → Ins). (f cur).prev) same in
            let next = reserved + (b.heap.entries (b.ins cur).op2).size + 1 in
            let (q, f) =
              heap_offsets-returns fuel b0 (place_object b cur reserved) (b.ins cur).prev chkref
                next checks v (placed-ins b cur reserved ∙ same)
                (subst (IsIn b0 Opcode.new) (sym here) p) k (omega arith) in
            (
              q,
              heap_offsets-object fuel b cur chkref reserved checks (omega arith) (ground arith)
                  ∙ f,
            )
      ]
    ]

head-IsIn : (b : IrBuffer) (o : Opcode) → IsValid b → is_literal o ≡ false → IsIn b o (b.chain o)
head-IsIn b o v e = elim (v.heads o) [
  | inl z ↦ inl z
  | inr at ↦ elim (v.high_heads o e) [ inl z ↦ inl z | inr h ↦ inr (at, h) ]
]

-- In a well-formed buffer the walk over the chains of allocations and heap checks that sets the
-- offsets from the heap pointer ends with a result, for the fuel that the model gives it.
pub set_heap_offsets_lem :
    (b : IrBuffer) → IsValid b → (q : IrBuffer × ℕ) × (set_heap_offsets b ≡ some q)
unfolding set_heap_offsets
set_heap_offsets_lem b v =
    let below : (o : Opcode) → IsIn b o (b.chain o) → b.chain o < 2 ^ 16 = λ o i. elim i [
      | inl z ↦ omega arith
      | inr (at, h) ↦ let u = at.under in let t = v.end in let w = v.width in omega arith
    ] in
    let n = head-IsIn b Opcode.new v refl in
    let k = head-IsIn b Opcode.heapchk v refl in
    let bn = below Opcode.new n in
    let bk = below Opcode.heapchk k in
    heap_offsets-returns (2 ^ 17) b b (b.chain Opcode.new) (b.chain Opcode.heapchk) 0 0 v refl n k
      (omega arith)
