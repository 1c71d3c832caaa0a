-- ===== src/IrBuffer/Extends.antt =====
-- A literal more in the buffer of vm/ir.cc: what it leaves alone, and that the buffer stays well
-- formed.
use lambdachine.Common.{ℕ, ◌+◌, ◌≤◌, ◌≡◌, ◌≢◌, inl, inr, refl, ◌∙◌, true, arith, some, Bool-cases}
use lambdachine.Ir.{Opcode, opcode_eq, Ins}
use lambdachine.Ir.Opcodes.{opcode_eq_sound}
use lambdachine.IrBuffer.{IrBuffer, next_lit, put}
use lambdachine.IrBuffer.Chains.{IsAt, IsValid, is_literal}

-- The later buffer has further literals, and is otherwise the earlier one.
pub record Extends (b b' : IrBuffer) : Type 0 where
  pub lower : b'.bufmin ≤ b.bufmin
  pub same_max : b'.bufmax ≡ b.bufmax
  pub same_start : b'.bufstart ≡ b.bufstart
  pub same_end : b'.bufend ≡ b.bufend
  pub same_heap : b'.heap ≡ b.heap
  pub same_slots : b'.slots ≡ b.slots
  pub same_cse : b'.opt_cse ≡ b.opt_cse
  pub kept : (r : ℕ) → b.bufmin ≤ r → b'.ins r ≡ b.ins r
  pub chains :
      (o : Opcode)
      → o ≢ Opcode.kint
      → o ≢ Opcode.kword
      → o ≢ Opcode.kwordhi
      → b'.chain o ≡ b.chain o

pub Extends-refl : (b : IrBuffer) → Extends b b
Extends-refl b = record {
  lower = omega arith;
  same_max = refl;
  same_start = refl;
  same_end = refl;
  same_heap = refl;
  same_slots = refl;
  same_cse = refl;
  kept = λ r h. refl;
  chains = λ o h k l. refl;
}

pub Extends-trans : (b c d : IrBuffer) → Extends b c → Extends c d → Extends b d
Extends-trans b c d p q = record {
  lower = omega (arith, p.lower, q.lower);
  same_max = q.same_max ∙ p.same_max;
  same_start = q.same_start ∙ p.same_start;
  same_end = q.same_end ∙ p.same_end;
  same_heap = q.same_heap ∙ p.same_heap;
  same_slots = q.same_slots ∙ p.same_slots;
  same_cse = q.same_cse ∙ p.same_cse;
  kept = λ r h. q.kept r (omega (arith, p.lower)) ∙ p.kept r h;
  chains = λ o h k l. q.chains o h k l ∙ p.chains o h k l;
}

pub next_lit_lem :
    (b b' : IrBuffer) (r : ℕ)
    → next_lit b ≡ some (r, b')
    → (r + 1 ≡ b.bufmin) × (b.bufstart ≤ r) × (b' ≡ record b { bufmin = r })
unfolding next_lit
next_lit_lem b b' r e = (ground arith, ground arith, ground arith)

-- A chain's head, seen after another literal has been put below it.
IsAt-put :
    (b : IrBuffer) (r q : ℕ) (o : Opcode) (i : Ins)
    → r + 1 ≡ b.bufmin
    → IsAt b o q
    → IsAt (put (record b { bufmin = r }) r i) o q
unfolding put
IsAt-put b r q o i e at = record {
  above = omega (arith, at.above);
  under = at.under;
  same = ground (arith, at.above, at.same);
}

pub put_low-IsValid :
    (b : IrBuffer) (r : ℕ) (i : Ins)
    → IsValid b
    → r + 1 ≡ b.bufmin
    → b.bufstart ≤ r
    → is_literal i.opcode ≡ true
    → i.opcode ≢ Opcode.kword
    → IsValid (put (record b { bufmin = r }) r i)
unfolding put
put_low-IsValid b r i v e s c k = record {
  start = v.start;
  literals = omega arith;
  bias_above = omega (arith, v.bias_above);
  bias_below = v.bias_below;
  end = v.end;
  width = v.width;
  heads = λ o. elim (Bool-cases (opcode_eq o i.opcode)) [
    | inl same ↦
        let p = opcode_eq_sound o i.opcode same in
        rw same (
          inr (record {
            above = omega arith;
            under = omega (arith, v.bias_above, v.bias_below);
            same = ground (arith, p);
          }))
    | inr other ↦ elim (v.heads o) [
      | inl none_yet ↦ rw other (inl none_yet)
      | inr at ↦ rw other (inr (unfold put in (IsAt-put b r (b.chain o) o i e at)))
    ]
  ];
  low_heads = λ o l. ground (arith, v.low_heads o l, v.bias_above);
  high_heads = λ o l. elim (Bool-cases (opcode_eq o i.opcode)) [
    | inl same ↦ let p = opcode_eq_sound o i.opcode same in let l' = rw p at l in cc
    | inr other ↦ rw other (v.high_heads o l)
  ];
  literal_links =
      λ q p l. ground (arith, v.literal_links q, v.heads i.opcode, v.low_heads i.opcode c);
  ins_links = λ q p l. ground (arith, v.ins_links q, v.bias_above);
  halves = λ q p l w. ground (arith, v.halves q);
}

pub put_low-Extends :
    (b : IrBuffer) (r : ℕ) (i : Ins)
    → r + 1 ≡ b.bufmin
    → i.opcode ≡ Opcode.kint
    → Extends b (put (record b { bufmin = r }) r i)
unfolding put
put_low-Extends b r i e k = record {
  lower = omega arith;
  same_max = refl;
  same_start = refl;
  same_end = refl;
  same_heap = refl;
  same_slots = refl;
  same_cse = refl;
  kept = λ q h. ground arith;
  chains = λ o h _ _. ground (arith, opcode_eq_sound o i.opcode);
}
