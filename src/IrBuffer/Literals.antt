-- ===== src/IrBuffer/Literals.antt =====
-- Literals of the IR buffer (IRBuffer::literal and IRBuffer::literalValue of vm/ir.cc).
use lambdachine.Common.{
  ℕ, ◌+◌, ◌-◌, ◌*◌, ◌/◌, ◌%◌, ◌^◌, ◌≤◌, ◌<◌, ◌≡◌, ◌≢◌, inl, inr, ◌∙◌, ap, true, false, not, ◌&&◌,
  arith, leb, if◌then◌else◌, some, Bool-cases, >>=-eq-some,
}
use lambdachine.Common.Bits.{bit_or-add}
use lambdachine.Ir.{Opcode, IrType, is_signed, plain, Ins, op12, Tref}
use lambdachine.Ir.Opcodes.{type_eq_sound}
use lambdachine.IrBuffer.{
  IrBuffer, next_lit, put, find, is_i32, is_kint, is_kword, literal_ins, literal_fuel, new_kint,
  new_kword, literal, literal_value, extend_i32,
}
use lambdachine.IrBuffer.Chains.{IsValid, find_sound}
use mathlib.Core.Path.{ap₂}

-- What a literal of a type gives back for a word.
abbrev pub stored : IrType → ℕ → ℕ
stored ty lit = if not (is_signed ty) && leb (2 ^ 64 - 2 ^ 31) lit then lit % 2 ^ 32 else lit

value-kint :
    (b : IrBuffer) (r : ℕ)
    → (b.ins r).opcode ≡ Opcode.kint
    → literal_value b r
      ≡ (if is_signed (b.ins r).tag.type then extend_i32 (op12 (b.ins r)) else op12 (b.ins r))
unfolding literal_value
value-kint b r e = rw (e, literal_value)

value-kword :
    (b : IrBuffer) (r : ℕ)
    → (b.ins r).opcode ≡ Opcode.kword
    → op12 (b.ins r) < 2 ^ 32
    → literal_value b r ≡ op12 (b.ins r) + op12 (b.ins (r - 1)) * 2 ^ 32
unfolding literal_value
value-kword b r e h =
    rw (e, literal_value) (bit_or-add 32 (op12 (b.ins r)) (op12 (b.ins (r - 1))) h)

-- The two forms of a literal hold its word.
kint_stored :
    (ty : IrType) (lit k : ℕ)
    → is_i32 lit ≡ true
    → lit < 2 ^ 64
    → k ≡ lit % 2 ^ 32
    → (if is_signed ty then extend_i32 k else k) ≡ stored ty lit
kint_stored ty lit k i h e = ground arith

kword_stored :
    (ty : IrType) (lit : ℕ)
    → is_i32 lit ≡ false
    → lit % 2 ^ 32 + lit / 2 ^ 32 * 2 ^ 32 ≡ stored ty lit
kword_stored ty lit i = ground arith

kint_found :
    (b : IrBuffer) (ty : IrType) (lit r : ℕ)
    → is_i32 lit ≡ true
    → lit < 2 ^ 64
    → (b.ins r).opcode ≡ Opcode.kint
    → is_kint b ty (lit % 2 ^ 32) r ≡ true
    → literal_value b r ≡ stored ty lit
kint_found b ty lit r i h o t =
    let e : op12 (b.ins r) ≡ lit % 2 ^ 32 = ground arith in
    let p : (b.ins r).tag.type ≡ ty = type_eq_sound _ ty (ground arith) in
    value-kint b r o
    ∙ ap (λ τ. if is_signed τ then extend_i32 (op12 (b.ins r)) else op12 (b.ins r)) p
    ∙ kint_stored ty lit (op12 (b.ins r)) i h e

kword_found :
    (b : IrBuffer) (ty : IrType) (lit r : ℕ)
    → is_i32 lit ≡ false
    → lit < 2 ^ 64
    → (b.ins r).opcode ≡ Opcode.kword
    → is_kword b ty (lit % 2 ^ 32) (lit / 2 ^ 32) r ≡ true
    → literal_value b r ≡ stored ty lit
kword_found b ty lit r i h o t =
    let lo : op12 (b.ins r) ≡ lit % 2 ^ 32 = ground arith in
    let hi : op12 (b.ins (r - 1)) ≡ lit / 2 ^ 32 = ground arith in
    value-kword b r o (omega arith) ∙ rw (lo, hi) (kword_stored ty lit i)

put_self :
    (b : IrBuffer) (r : ℕ) (i : Ins) → (put b r i).ins r ≡ record i { prev = b.chain i.opcode }
unfolding put
put_self b r i = ground arith

put_other : (b : IrBuffer) (r q : ℕ) (i : Ins) → q ≢ r → (put b r i).ins q ≡ b.ins q
unfolding put
put_other b r q i h = ground arith

kint_put :
    (b : IrBuffer) (r : ℕ) (ty : IrType) (lit : ℕ)
    → is_i32 lit ≡ true
    → lit < 2 ^ 64
    → literal_value (put b r (literal_ins Opcode.kint (plain ty) (lit % 2 ^ 32))) r ≡ stored ty lit
kint_put b r ty lit i h =
    let b' = put b r (literal_ins Opcode.kint (plain ty) (lit % 2 ^ 32)) in
    let self = put_self b r (literal_ins Opcode.kint (plain ty) (lit % 2 ^ 32)) in
    value-kint b' r (ap (λ j. j.opcode) self)
    ∙ ap (λ j. if is_signed j.tag.type then extend_i32 (op12 j) else op12 j) self
    ∙ kint_stored ty lit (op12 (literal_ins Opcode.kint (plain ty) (lit % 2 ^ 32))) i h
        (omega arith)

kint_new :
    (b b' : IrBuffer) (ty : IrType) (lit : ℕ) (t : Tref)
    → is_i32 lit ≡ true
    → lit < 2 ^ 64
    → new_kint b ty (lit % 2 ^ 32) ≡ some (t, b')
    → literal_value b' t.ref_of ≡ stored ty lit
unfolding new_kint
kint_new b b' ty lit t i h e =
    let ((r, b1), _, e') = >>=-eq-some (next_lit b) _ e in
    let p : t.ref_of ≡ r = ground arith in
    let q : b' ≡ put b1 r (literal_ins Opcode.kint (plain ty) (lit % 2 ^ 32)) = cc in
    ap₂ literal_value q p ∙ kint_put b1 r ty lit i h

kword_put :
    (b : IrBuffer) (r : ℕ) (ty : IrType) (lit : ℕ)
    → 0 < r
    → is_i32 lit ≡ false
    → lit < 2 ^ 64
    → literal_value
        (put
          (put b r (literal_ins Opcode.kword (plain ty) (lit % 2 ^ 32)))
          (r - 1)
          (literal_ins Opcode.kwordhi (plain ty) (lit / 2 ^ 32)))
        r
      ≡ stored ty lit
kword_put b r ty lit pos_r i h =
    let low = literal_ins Opcode.kword (plain ty) (lit % 2 ^ 32) in
    let high = literal_ins Opcode.kwordhi (plain ty) (lit / 2 ^ 32) in
    let b1 = put b r low in
    let lo = put_other b1 (r - 1) r high (omega arith) ∙ put_self b r low in
    let hi = put_self b1 (r - 1) high in
    let lo12 : op12 ((put b1 (r - 1) high).ins r) ≡ lit % 2 ^ 32 = ap op12 lo ∙ omega arith in
    let hi12 : op12 ((put b1 (r - 1) high).ins (r - 1)) ≡ lit / 2 ^ 32 = ap op12 hi ∙ omega arith in
    value-kword (put b1 (r - 1) high) r (ap (λ j. j.opcode) lo) (omega arith)
    ∙ rw (lo12, hi12) (kword_stored ty lit i)

next_lit_lem :
    (b b' : IrBuffer) (r : ℕ)
    → next_lit b ≡ some (r, b')
    → (r + 1 ≡ b.bufmin) × (b'.bufmin ≡ r) × (b.bufstart ≤ r) × (b'.bufstart ≡ b.bufstart)
unfolding next_lit
next_lit_lem b b' r e = ground arith

kword_new :
    (b b' : IrBuffer) (ty : IrType) (lit : ℕ) (t : Tref)
    → IsValid b
    → is_i32 lit ≡ false
    → lit < 2 ^ 64
    → new_kword b ty (lit % 2 ^ 32) (lit / 2 ^ 32) ≡ some (t, b')
    → literal_value b' t.ref_of ≡ stored ty lit
unfolding new_kword
kword_new b b' ty lit t v i h e =
    let ((lo, b1), got, e') = >>=-eq-some (next_lit b) _ e in
    let ((hi, b2), got', e'') = >>=-eq-some (next_lit b1) _ e' in
    let at = next_lit_lem b b1 lo got in
    let at' = next_lit_lem b1 b2 hi got' in
    let below : hi ≡ lo - 1 = omega arith in
    let p : t.ref_of ≡ lo = ground arith in
    let q : b'
        ≡ put (put b2 lo (literal_ins Opcode.kword (plain ty) (lit % 2 ^ 32))) hi
            (literal_ins Opcode.kwordhi (plain ty) (lit / 2 ^ 32)) =
      cc in
    ap₂ literal_value q p
    ∙ ap
        (λ k.
          literal_value
            (put (put b2 lo (literal_ins Opcode.kword (plain ty) (lit % 2 ^ 32))) k
              (literal_ins Opcode.kwordhi (plain ty) (lit / 2 ^ 32)))
            lo)
        below
    ∙ kword_put b2 lo ty lit (omega arith) i h

-- In a well-formed buffer, reading a literal gives the 64-bit word that it was made for, if making
-- it did not give up, but for words from 2 ^ 64 - 2 ^ 31 on of a type that is not signed, of which
-- only the lower 32 bits come back.
pub literal_value-literal :
    (b b' : IrBuffer) (ty : IrType) (lit : ℕ) (t : Tref)
    → IsValid b
    → lit < 2 ^ 64
    → literal b ty lit ≡ some (t, b')
    → literal_value b' t.ref_of
      ≡ (if not (is_signed ty) && leb (2 ^ 64 - 2 ^ 31) lit then lit % 2 ^ 32 else lit)
unfolding literal
literal_value-literal b b' ty lit t v h e = elim (Bool-cases (is_i32 lit)) [
  | inl i ↦
      elim (find_sound (literal_fuel b) b Opcode.kint (is_kint b ty (lit % 2 ^ 32)) _ v
        (v.heads Opcode.kint)) [
          | inl missing ↦ kint_new b b' ty lit t i h (ground arith)
          | inr (at, test) ↦
              let r = find (literal_fuel b) b (is_kint b ty (lit % 2 ^ 32)) (b.chain Opcode.kint) in
              let nonzero : r ≢ 0 = omega (arith, at.above, v.start, v.literals) in
              let p : t.ref_of ≡ r = ground arith in
              let q : b' ≡ b = ground arith in
              ap₂ literal_value q p ∙ kint_found b ty lit r i h at.same test
        ]
  | inr i ↦
      elim (find_sound (literal_fuel b) b Opcode.kword (is_kword b ty (lit % 2 ^ 32) (lit / 2 ^ 32))
        _ v (v.heads Opcode.kword)) [
          | inl missing ↦ kword_new b b' ty lit t v i h (ground arith)
          | inr (at, test) ↦
              let r =
                find (literal_fuel b) b (is_kword b ty (lit % 2 ^ 32) (lit / 2 ^ 32))
                  (b.chain Opcode.kword) in
              let nonzero : r ≢ 0 = omega (arith, at.above, v.start, v.literals) in
              let p : t.ref_of ≡ r = ground arith in
              let q : b' ≡ b = ground arith in
              ap₂ literal_value q p ∙ kword_found b ty lit r i h at.same test
        ]
]
