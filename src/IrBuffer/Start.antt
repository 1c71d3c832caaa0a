-- ===== src/IrBuffer/Start.antt =====
-- The buffer at the start of a trace (IRBuffer::reset of vm/ir.cc), and allocations (IRBuffer::emitNEW).
use lambdachine.Common.{
  ℕ, ◌+◌, ◌/◌, ◌%◌, ◌^◌, ◌≤◌, ◌<◌, ◌≡◌, inl, inr, refl, true, sym, ◌∙◌, ap, arith, ◌==◌, write,
  Option, some, >>=-eq-some, Bool-cases, ◌⊎◌,
}
use lambdachine.Ir.{Opcode, IrType, Tref, ref_bias, ref_ind}
use lambdachine.AbstractHeap.Entries
use lambdachine.AbstractHeap.{AbstractHeap, new_entry, num_fields}
use lambdachine.AbstractHeap.Entries.{new_entry_lem}
use lambdachine.IrBuffer.{
  IrBuffer, next_lit, find, new_kint, new_kword, emit, literal, blank, base_ins, reset, new_ins,
  emit_new,
}
use mathlib.Core.Path.{subst}
use lambdachine.IrBuffer.Chains.{IsAt, IsValid}
use lambdachine.IrBuffer.Emission.{emit_lem}
use lambdachine.IrBuffer.Growth.{literal-Grows}

blank-IsValid :
    (size base top pc : ℕ)
    → size / 4 + 5 ≤ ref_bias
    → size ≤ ref_bias + size / 4
    → IsValid (blank size base top pc)
blank-IsValid size base top pc h k = record {
  start = omega arith;
  literals = omega arith;
  bias_above = omega arith;
  bias_below = omega arith;
  end = omega arith;
  width = omega arith;
  heads = λ o. inl refl;
  low_heads = λ o l. omega arith;
  high_heads = λ o l. inl refl;
  literal_links = λ r p q. inl refl;
  ins_links = λ r p q. inl refl;
  halves = λ r p q e. cc;
}

first_literal :
    (b b' : IrBuffer) (ty : IrType) (lit : ℕ) (t : Tref)
    → b.chain Opcode.kint ≡ 0
    → b.chain Opcode.kword ≡ 0
    → literal b ty lit ≡ some (t, b')
    → t.ref_of + 1 ≡ b.bufmin
unfolding literal find new_kint new_kword next_lit
first_literal b b' ty lit t p q e = ground arith

-- A buffer whose literals and instructions fit into 16 bits is well formed after a reset that does
-- not give up, and the literal for the info table of indirections is the reference that the code
-- relies on.
pub reset_lem :
    (size base top pc ind_info : ℕ) (t : Tref) (b : IrBuffer)
    → size / 4 + 5 ≤ ref_bias
    → size ≤ ref_bias + size / 4
    → reset size base top pc ind_info ≡ some (t, b)
    → IsValid b × (t.ref_of ≡ ref_ind)
unfolding reset
reset_lem size base top pc ind_info t b h k e =
    let v = blank-IsValid size base top pc h k in
    let ((u, b1), emitted, made) = >>=-eq-some (emit (blank size base top pc) base_ins) _ e in
    let em = emit_lem (blank size base top pc) b1 base_ins u v refl emitted in
    let g = literal-Grows b1 b IrType.info ind_info t em.valid made in
    let kint = em.other_heads Opcode.kint (λ x. cc) in
    let kword = em.other_heads Opcode.kword (λ x. cc) in
    let first = first_literal b1 b IrType.info ind_info t kint kword made in
    (g.valid, omega (arith, first, em.same_min))

-- The second operand of an instruction, and the heap, do not matter to the shape.
module _ (b : IrBuffer) (r n : ℕ) (h : AbstractHeap) (v : IsValid b) where
  unfoldable with_op2 : IrBuffer
  with_op2 = record b { ins = write b.ins r (record (b.ins r) { op2 = n }); heap = h }

  op2_ins :
      (q : ℕ)
      → ((with_op2.ins q).opcode ≡ (b.ins q).opcode) × ((with_op2.ins q).prev ≡ (b.ins q).prev)
  unfolding with_op2
  op2_ins q = elim (Bool-cases (q == r)) [
    | inl same ↦
        let e : q ≡ r = ground arith in
        rw same (ap (λ x. (b.ins x).opcode) (sym e), ap (λ x. (b.ins x).prev) (sym e))
    | inr other ↦ rw other (refl, refl)
  ]

  op2_self : ((with_op2.ins r).op1 ≡ (b.ins r).op1) × ((with_op2.ins r).op2 ≡ n)
  unfolding with_op2
  op2_self = let same : (r == r) ≡ true = ground arith in rw same (refl, refl)

  op2_links :
      (P : ℕ → Opcode → Opcode → Type 0) (q : ℕ)
      → P (b.ins q).prev (b.ins (b.ins q).prev).opcode (b.ins q).opcode
      → P (with_op2.ins q).prev (with_op2.ins (with_op2.ins q).prev).opcode (with_op2.ins q).opcode
  op2_links P q x = rw ((op2_ins q).1, (op2_ins q).0, (op2_ins (b.ins q).prev).0) x

  op2_heads : (o : Opcode) → (b.chain o ≡ 0) ⊎ IsAt with_op2 o (b.chain o)
  op2_heads o = elim (v.heads o) [
    | inl e ↦ inl e
    | inr at ↦ inr (record {
      above = unfold with_op2 in at.above;
      under = unfold with_op2 in at.under;
      same = (op2_ins (b.chain o)).0 ∙ at.same;
    })
  ]

  with_op2-IsValid : IsValid with_op2
  with_op2-IsValid = record {
    start = unfold with_op2 in v.start;
    literals = unfold with_op2 in v.literals;
    bias_above = unfold with_op2 in v.bias_above;
    bias_below = unfold with_op2 in v.bias_below;
    end = unfold with_op2 in v.end;
    width = unfold with_op2 in v.width;
    heads = λ o. unfold with_op2 in op2_heads o;
    low_heads = λ o l. unfold with_op2 in v.low_heads o l;
    high_heads = λ o l. unfold with_op2 in v.high_heads o l;
    literal_links = λ q p l.
        op2_links (λ k x y. (k ≡ 0) ⊎ ((q < k) × (k < ref_bias) × (x ≡ y))) q
          (v.literal_links q (unfold with_op2 in p) l);
    ins_links = λ q p l.
        op2_links (λ k x y. (k ≡ 0) ⊎ ((ref_bias ≤ k) × (k < q) × (x ≡ y))) q
          (v.ins_links q p (unfold with_op2 in l));
    halves = λ q p l w. unfold with_op2 in v.halves q p l (sym (op2_ins q).0 ∙ w);
  }

-- The instruction of an allocation and the heap entry that it names.
pub record Allocated (b b' : IrBuffer) (itblref nfields r n : ℕ) : Type 0 where
  pub valid : IsValid b'
  pub heap_valid : Entries.IsValid b'.heap
  pub new_opcode : (b'.ins r).opcode ≡ Opcode.new
  pub info : (b'.ins r).op1 ≡ itblref
  pub entry : (b'.ins r).op2 ≡ n
  pub next : n ≡ b.heap.nextentry
  pub fields : num_fields b'.heap n ≡ nfields

some_inj :
    (u t : Tref) (m n : ℕ) (w b : IrBuffer)
    → ◌≡◌ {A = Option (Tref × ℕ × IrBuffer)} (some (u, m, w)) (some (t, n, b))
    → (u ≡ t) × (m ≡ n) × (w ≡ b)
some_inj u t m n w b e = (cc, cc, cc)

-- An allocation that does not give up, in a well-formed buffer with a well-formed heap, emits an
-- instruction that names its info table and a new heap entry with the given number of fields;
-- buffer and heap stay well formed, for a heap with room for the fields under 2 ^ 16 cells.
pub emit_new_lem :
    (b b' : IrBuffer) (itblref nfields n : ℕ) (t : Tref)
    → IsValid b
    → Entries.IsValid b.heap
    → b.heap.data_of.next + nfields < 2 ^ 16
    → emit_new b itblref nfields ≡ some (t, n, b')
    → Allocated b b' itblref nfields t.ref_of n
unfolding emit_new
emit_new_lem b b' itblref nfields n t v hv room e =
    let ((u, b1), emitted, rest) = >>=-eq-some (emit b (new_ins itblref)) _ e in
    let ((m, h), placed, last) = >>=-eq-some (new_entry b1.heap u.ref_of nfields) _ rest in
    let em = emit_lem b b1 (new_ins itblref) u v refl emitted in
    let hv' : Entries.IsValid b1.heap = subst Entries.IsValid (sym em.same_heap) hv in
    let room' : b1.heap.data_of.next + nfields < 2 ^ 16 =
      subst (λ (x : AbstractHeap). x.data_of.next + nfields < 2 ^ 16) (sym em.same_heap) room in
    let (ok, at, counted, size, _, _) =
      new_entry_lem b1.heap h u.ref_of nfields m hv' room' placed in
    let small : m % 2 ^ 16 ≡ m = omega (arith, ok.entry_room, ok.entry_limit) in
    let (p, q, w) = some_inj u t m n _ b' last in
    let built : Allocated b (with_op2 b1 u.ref_of (m % 2 ^ 16) h em.valid) itblref nfields u.ref_of
        m =
      record {
        valid = with_op2-IsValid b1 u.ref_of (m % 2 ^ 16) h em.valid;
        heap_valid = unfold with_op2 in ok;
        new_opcode =
            (op2_ins b1 u.ref_of (m % 2 ^ 16) h em.valid u.ref_of).0 ∙ ap (λ x. x.opcode) em.held;
        info = (op2_self b1 u.ref_of (m % 2 ^ 16) h em.valid).0 ∙ ap (λ x. x.op1) em.held;
        entry = (op2_self b1 u.ref_of (m % 2 ^ 16) h em.valid).1 ∙ small;
        next = at ∙ ap (λ x. x.nextentry) em.same_heap;
        fields = unfold with_op2 in size;
      } in
    subst (λ (x : Tref). Allocated b b' itblref nfields x.ref_of n) p
      (subst (λ (x : ℕ). Allocated b b' itblref nfields u.ref_of x) q
        (subst (λ (x : IrBuffer). Allocated b x itblref nfields u.ref_of m) w
          (unfold with_op2 in built)))
