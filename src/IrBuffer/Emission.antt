-- ===== src/IrBuffer/Emission.antt =====
-- Emitting an instruction (IRBuffer::emit of vm/ir.cc): the buffer stays well formed, and keeps what
-- it holds.
use lambdachine.Common.{
  ℕ, ◌+◌, ◌<◌, ◌≡◌, ◌≢◌, inl, inr, refl, sym, ◌∙◌, ap, Bool, true, false, arith, if◌then◌else◌,
  some, Bool-cases, >>=-eq-some,
}
use lambdachine.Ir.{Opcode, opcode_eq, Ins, Tref}
use lambdachine.Ir.Opcodes.{opcode_eq_sound, opcode_eq_refl}
use lambdachine.IrBuffer.{IrBuffer, next_ins, put, snapshot, emit}
use lambdachine.IrBuffer.Chains.{IsAt, IsValid, is_literal}
use mathlib.Core.Path.{subst}

next_ins_lem :
    (b b' : IrBuffer) (r : ℕ)
    → next_ins b ≡ some (r, b')
    → (r ≡ b.bufmax) × (r < b.bufend) × (b' ≡ record b { bufmax = r + 1 })
unfolding next_ins
next_ins_lem b b' r e = (ground arith, ground arith, ground arith)

IsAt-put :
    (b : IrBuffer) (r q : ℕ) (o : Opcode) (i : Ins)
    → r ≡ b.bufmax
    → IsAt b o q
    → IsAt (put (record b { bufmax = r + 1 }) r i) o q
unfolding put
IsAt-put b r q o i e at = record {
  above = at.above;
  under = omega (arith, at.under);
  same = ground (arith, at.under, at.same);
}

put_high-IsValid :
    (b : IrBuffer) (r : ℕ) (i : Ins)
    → IsValid b
    → r ≡ b.bufmax
    → r < b.bufend
    → is_literal i.opcode ≡ false
    → IsValid (put (record b { bufmax = r + 1 }) r i)
unfolding put
put_high-IsValid b r i v e s c = record {
  start = v.start;
  literals = v.literals;
  bias_above = v.bias_above;
  bias_below = omega (arith, v.bias_below);
  end = omega arith;
  width = v.width;
  heads = λ o. elim (Bool-cases (opcode_eq o i.opcode)) [
    | inl same ↦
        let p = opcode_eq_sound o i.opcode same in
        rw same (
          inr (record {
            above = omega (arith, v.bias_above, v.bias_below);
            under = omega arith;
            same = ground (arith, p);
          }))
    | inr other ↦ elim (v.heads o) [
      | inl none_yet ↦ rw other (inl none_yet)
      | inr at ↦ rw other (inr (unfold put in (IsAt-put b r (b.chain o) o i e at)))
    ]
  ];
  low_heads = λ o l. elim (Bool-cases (opcode_eq o i.opcode)) [
    | inl same ↦ let p = opcode_eq_sound o i.opcode same in let l' = rw p at l in cc
    | inr other ↦ rw other (v.low_heads o l)
  ];
  high_heads = λ o l. ground (arith, v.high_heads o l, v.bias_below);
  literal_links = λ q p l. ground (arith, v.literal_links q, v.bias_below);
  ins_links = λ q p l. ground (arith, v.ins_links q, v.heads i.opcode, v.high_heads i.opcode c);
  halves = λ q p l w. ground (arith, v.halves q, v.bias_below);
}

snapshot-IsValid : (b : IrBuffer) (ref pc : ℕ) → IsValid b → IsValid (snapshot b ref pc)
unfolding snapshot
snapshot-IsValid b ref pc v = record {
  start = v.start;
  literals = v.literals;
  bias_above = v.bias_above;
  bias_below = v.bias_below;
  end = v.end;
  width = v.width;
  heads = λ o. elim (v.heads o) [
    | inl e ↦ inl e
    | inr at ↦ inr (record { above = at.above; under = at.under; same = at.same })
  ];
  low_heads = v.low_heads;
  high_heads = v.high_heads;
  literal_links = v.literal_links;
  ins_links = v.ins_links;
  halves = v.halves;
}

-- What the buffer holds of an instruction after it has been emitted, with a snapshot or without.
pub record Emits (b b' : IrBuffer) (i : Ins) (r : ℕ) : Type 0 where
  pub valid : IsValid b'
  pub at_end : r ≡ b.bufmax
  pub counted : b'.bufmax ≡ b.bufmax + 1
  pub held : b'.ins r ≡ record i { prev = b.chain i.opcode }
  pub head : b'.chain i.opcode ≡ r
  pub other_heads : (o : Opcode) → o ≢ i.opcode → b'.chain o ≡ b.chain o
  pub same_min : b'.bufmin ≡ b.bufmin
  pub same_heap : b'.heap ≡ b.heap
  pub kept : (q : ℕ) → q ≢ r → b'.ins q ≡ b.ins q

put-Emits :
    (b : IrBuffer) (i : Ins) (pc : ℕ) (guarded : Bool)
    → IsValid b
    → b.bufmax < b.bufend
    → is_literal i.opcode ≡ false
    → let b1 = put (record b { bufmax = b.bufmax + 1 }) b.bufmax i in
      Emits b (if guarded then snapshot b1 b.bufmax pc else b1) i b.bufmax
put-Emits b i pc true v s c = record {
  valid = snapshot-IsValid _ b.bufmax _ (put_high-IsValid b b.bufmax i v refl s c);
  at_end = refl;
  counted = unfold put snapshot in refl;
  held = unfold put snapshot in ground arith;
  head = unfold put snapshot in ground (arith, opcode_eq_refl i.opcode);
  other_heads = λ o h. unfold put snapshot in ground (arith, opcode_eq_sound o i.opcode);
  same_min = unfold put snapshot in refl;
  same_heap = unfold put snapshot in refl;
  kept = λ q h. unfold put snapshot in ground arith;
}
put-Emits b i pc false v s c = record {
  valid = put_high-IsValid b b.bufmax i v refl s c;
  at_end = refl;
  counted = unfold put in refl;
  held = unfold put in ground arith;
  head = unfold put in ground (arith, opcode_eq_refl i.opcode);
  other_heads = λ o h. unfold put in ground (arith, opcode_eq_sound o i.opcode);
  same_min = unfold put in refl;
  same_heap = unfold put in refl;
  kept = λ q h. unfold put in ground arith;
}

-- Emitting an instruction that is no literal in a well-formed buffer, if that does not give up,
-- puts it behind the others, at the head of its opcode's chain, and leaves the others as they are;
-- the buffer stays well formed.
pub emit_lem :
    (b b' : IrBuffer) (i : Ins) (t : Tref)
    → IsValid b
    → is_literal i.opcode ≡ false
    → emit b i ≡ some (t, b')
    → Emits b b' i t.ref_of
unfolding emit
emit_lem b b' i t v c e =
    let ((r, b1), got, e') = >>=-eq-some (next_ins b) _ e in
    let (at, room, moved) = next_ins_lem b b1 r got in
    let full : b.bufmax < b.bufend = omega arith in
    let p : t.ref_of ≡ b.bufmax = ground arith in
    let last : (if i.tag.guarded then snapshot (put b1 r i) r b.pc else put b1 r i) ≡ b' = cc in
    let q : b' ≡ (
        if i.tag.guarded
        then snapshot (put (record b { bufmax = b.bufmax + 1 }) b.bufmax i) b.bufmax b.pc
        else put (record b { bufmax = b.bufmax + 1 }) b.bufmax i) =
      sym last
      ∙ ap (λ x. if i.tag.guarded then snapshot (put x r i) r b.pc else put x r i) moved
      ∙ ap
          (λ k.
            if i.tag.guarded
            then snapshot (put (record b { bufmax = k + 1 }) k i) k b.pc
            else put (record b { bufmax = k + 1 }) k i)
          at in
    subst (λ (x : ℕ). Emits b b' i x) (sym p)
      (subst (λ (x : IrBuffer). Emits b x i b.bufmax) (sym q)
        (put-Emits b i b.pc i.tag.guarded v full c))
