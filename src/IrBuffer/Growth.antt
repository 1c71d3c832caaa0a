-- ===== src/IrBuffer/Growth.antt =====
-- What making a literal leaves alone (IRBuffer::literal of vm/ir.cc), and that the buffer stays well
-- formed.
use lambdachine.Common.{
  ℕ, ◌+◌, ◌-◌, ◌/◌, ◌%◌, ◌^◌, ◌≤◌, ◌<◌, ◌≡◌, ◌≢◌, inl, inr, refl, sym, ◌∙◌, ap, true, arith, some,
  Bool-cases, >>=-eq-some,
}
use lambdachine.Ir.{Opcode, IrType, plain, Tref, ref_bias}
use mathlib.Core.Path.{subst}
use lambdachine.IrBuffer.{
  IrBuffer, next_lit, put, find, is_i32, is_kint, is_kword, literal_ins, literal_fuel, new_kint,
  new_kword, literal,
}
use lambdachine.IrBuffer.Chains.{IsAt, IsValid, is_value, find_sound, find_low}
use lambdachine.IrBuffer.Extends.{
  Extends, Extends-refl, next_lit_lem, put_low-IsValid, put_low-Extends,
}
use lambdachine.IrBuffer.Pair.{pair, pair_bounds, pair_lo, pair-IsValid, pair-Extends}

-- A later buffer of the same trace, and a literal in it.
pub record Grows (b b' : IrBuffer) (r : ℕ) : Type 0 where
  pub valid : IsValid b'
  pub extends : Extends b b'
  pub above : b'.bufmin ≤ r
  pub below : r < ref_bias
  pub holds_value : is_value (b'.ins r).opcode ≡ true

new_kint-Grows :
    (b b' : IrBuffer) (ty : IrType) (k : ℕ) (t : Tref)
    → IsValid b
    → new_kint b ty k ≡ some (t, b')
    → Grows b b' t.ref_of
unfolding new_kint
new_kint-Grows b b' ty k t v e =
    let ((r, b1), got, e') = >>=-eq-some (next_lit b) _ e in
    let (at, room, moved) = next_lit_lem b b1 r got in
    let i = literal_ins Opcode.kint (plain ty) k in
    let p : t.ref_of ≡ r = ground arith in
    let q : b' ≡ put (record b { bufmin = r }) r i = cc in
    subst (λ (x : ℕ). Grows b b' x) (sym p)
      (subst (λ (x : IrBuffer). Grows b x r) (sym q)
        (record {
          valid = put_low-IsValid b r i v at room refl (λ x. cc);
          extends = put_low-Extends b r i at refl;
          above = unfold put in omega arith;
          below = omega (arith, v.bias_above);
          holds_value = unfold put in ground arith;
        }))

new_kword_eq :
    (b b' : IrBuffer) (ty : IrType) (lo hi : ℕ) (t : Tref)
    → new_kword b ty lo hi ≡ some (t, b')
    → (b.bufstart + 2 ≤ b.bufmin)
      × (t.ref_of ≡ b.bufmin - 1)
      × (b'
          ≡ put
              (put
                (record b { bufmin = b.bufmin - 1 - 1 })
                (b.bufmin - 1)
                (literal_ins Opcode.kword (plain ty) lo))
              (b.bufmin - 1 - 1)
              (literal_ins Opcode.kwordhi (plain ty) hi))
unfolding new_kword
new_kword_eq b b' ty lo hi t e = (ground arith, ground arith, ground arith)

module _ (b b' : IrBuffer) (ty : IrType) (lo hi r : ℕ) (t : Tref) (v : IsValid b) where
  kword-Grows :
      r + 2 ≡ b.bufmin
      → b.bufstart ≤ r
      → t.ref_of ≡ r + 1
      → b'
        ≡ put
            (put (record b { bufmin = r }) (r + 1) (literal_ins Opcode.kword (plain ty) lo))
            r
            (literal_ins Opcode.kwordhi (plain ty) hi)
      → Grows b b' t.ref_of
  kword-Grows e s p q =
      subst (λ (x : ℕ). Grows b b' x) (sym p)
        (subst (λ (x : IrBuffer). Grows b x (r + 1)) (sym q)
          (unfold pair in
            (record {
              valid = pair-IsValid b r lo hi (plain ty) v e s;
              extends = pair-Extends b r lo hi (plain ty) v e s;
              above = omega (arith, (pair_bounds b r lo hi (plain ty) v e s).0);
              below = omega (arith, v.bias_above);
              holds_value = rw (pair_lo b r lo hi (plain ty) v e s);
            })))

new_kword-Grows :
    (b b' : IrBuffer) (ty : IrType) (lo hi : ℕ) (t : Tref)
    → IsValid b
    → new_kword b ty lo hi ≡ some (t, b')
    → Grows b b' t.ref_of
new_kword-Grows b b' ty lo hi t v e =
    let (room, p, q) = new_kword_eq b b' ty lo hi t e in
    let up : b.bufmin - 1 ≡ b.bufmin - 1 - 1 + 1 = omega arith in
    kword-Grows b b' ty lo hi (b.bufmin - 1 - 1) t v (omega arith) (omega arith) (p ∙ up) (
      q
      ∙ ap
          (λ k.
            put
              (put (record b { bufmin = b.bufmin - 1 - 1 }) k
                (literal_ins Opcode.kword (plain ty) lo))
              (b.bufmin - 1 - 1) (literal_ins Opcode.kwordhi (plain ty) hi))
          up)

shared-Grows :
    (b b' : IrBuffer) (o : Opcode) (r : ℕ) (t : Tref)
    → IsValid b
    → IsAt b o r
    → is_value o ≡ true
    → r < ref_bias
    → t.ref_of ≡ r
    → b' ≡ b
    → Grows b b' t.ref_of
shared-Grows b b' o r t v at k l p q =
    subst (λ (x : ℕ). Grows b b' x) (sym p)
      (subst (λ (x : IrBuffer). Grows b x r) (sym q)
        (record {
          valid = v;
          extends = Extends-refl b;
          above = at.above;
          below = l;
          holds_value = rw (at.same) k;
        }))

-- Making a literal in a well-formed buffer, if that does not give up, keeps the buffer well formed
-- and everything that is in it, and gives a reference to a literal.
pub literal-Grows :
    (b b' : IrBuffer) (ty : IrType) (lit : ℕ) (t : Tref)
    → IsValid b
    → literal b ty lit ≡ some (t, b')
    → Grows b b' t.ref_of
unfolding literal
literal-Grows b b' ty lit t v e =
    let k = lit % 2 ^ 32 in
    let hi = lit / 2 ^ 32 in
    let n = literal_fuel b in
    elim (Bool-cases (is_i32 lit)) [
      | inl i ↦
          let head = v.heads Opcode.kint in
          let low = v.low_heads Opcode.kint refl in
          elim (find_sound n b Opcode.kint (is_kint b ty k) (b.chain Opcode.kint) v head) [
            | inl missing ↦ new_kint-Grows b b' ty k t v (ground arith)
            | inr (at, test) ↦
                let r = find n b (is_kint b ty k) (b.chain Opcode.kint) in
                let nonzero : r ≢ 0 = omega (arith, at.above, v.start, v.literals) in
                shared-Grows b b' Opcode.kint r t v at refl
                  (find_low n b Opcode.kint (is_kint b ty k) (b.chain Opcode.kint) v head low)
                  (ground arith) (ground arith)
          ]
      | inr i ↦
          let head = v.heads Opcode.kword in
          let low = v.low_heads Opcode.kword refl in
          elim (find_sound n b Opcode.kword (is_kword b ty k hi) (b.chain Opcode.kword) v head) [
            | inl missing ↦ new_kword-Grows b b' ty k hi t v (ground arith)
            | inr (at, test) ↦
                let r = find n b (is_kword b ty k hi) (b.chain Opcode.kword) in
                let nonzero : r ≢ 0 = omega (arith, at.above, v.start, v.literals) in
                shared-Grows b b' Opcode.kword r t v at refl
                  (find_low n b Opcode.kword (is_kword b ty k hi) (b.chain Opcode.kword) v head low)
                  (ground arith) (ground arith)
          ]
    ]
