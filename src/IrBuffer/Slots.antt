-- ===== src/IrBuffer/Slots.antt =====
-- Reading and writing the slots of a recorded trace (IRBuffer::slot and IRBuffer::setSlot of vm/ir.hh).
use lambdachine.Common.{
  ℕ, ◌+◌, ◌≡◌, refl, sym, ap, ◌∙◌, true, false, ◌==◌, Option, some, ◌>>=◌, >>=-eq-some, some_pair,
  inl, inr, leb, arith, Bool-cases,
}
use lambdachine.Common.Int.{ℤ, to_u16}
use mathlib.Core.Path.{subst}
use lambdachine.Ir.{Tref, tref, is_none}
use lambdachine.AbstractStack.{AbstractStack, in_range, get, set, absolute}
use lambdachine.AbstractStack.Frames.{get-set}
use lambdachine.IrBuffer.{IrBuffer, next_ins, put, emit, sload_ins, slot}
use lambdachine.IrBuffer.Chains.{IsValid}

emit-sload :
    (b b' : IrBuffer) (n : ℕ) (t : Tref)
    → emit b (sload_ins n) ≡ some (t, b')
    → (t ≡ tref b.bufmax (sload_ins n).tag) × (b'.slots ≡ b.slots)
unfolding emit next_ins put
emit-sload b b' n t e = elim (Bool-cases (leb b.bufend b.bufmax)) [
  | inl full ↦ absurd (let f = rw (next_ins, full) at e in cc)
  | inr room ↦
      let f = rw (next_ins, room) at e in
      let b1 : IrBuffer = put (record b { bufmax = b.bufmax + 1 }) b.bufmax (sload_ins n) in
      let (same, eq) = some_pair (tref b.bufmax (sload_ins n).tag) t b1 b' f in
      (sym same, ap (λ (c : IrBuffer). c.slots) (sym eq))
]

slot-known :
    (b : IrBuffer) (n : ℤ) → is_none (get b.slots n) ≡ false → slot b n ≡ some (get b.slots n, b)
unfolding slot
slot-known b n e = rw (slot, e) refl

-- What slot does when the slot holds none.
abbrev loaded : IrBuffer → ℤ → Tref × IrBuffer → Option (Tref × IrBuffer)
loaded b n (t, b') = some (t, record b' { slots = set b'.slots n t })

slot-unknown :
    (b : IrBuffer) (n : ℤ)
    → is_none (get b.slots n) ≡ true
    → slot b n ≡ (emit b (sload_ins (to_u16 (absolute b.slots n))) >>= loaded b n)
unfolding slot
slot-unknown b n e = rw (slot, e) refl

get-set_same : (s : AbstractStack) (n : ℤ) (t : Tref) → in_range s n ≡ true → get (set s n t) n ≡ t
get-set_same s n t h = get-set s n n t h h ∙ ground arith

-- In a well-formed buffer, once a slot in range has been read without giving up, reading it again
-- gives the same reference and the same buffer: a slot is loaded at most once.
pub slot-slot :
    (b b' : IrBuffer) (n : ℤ) (t : Tref)
    → IsValid b
    → in_range b.slots n ≡ true
    → slot b n ≡ some (t, b')
    → slot b' n ≡ some (t, b')
slot-slot b b' n t v h e = elim (Bool-cases (is_none (get b.slots n))) [
  | inr known ↦
      let (same, eq) = some_pair (get b.slots n) t b b' (sym (slot-known b n known) ∙ e) in
      subst (λ (c : IrBuffer). slot c n ≡ some (t, c)) eq
        (slot-known b n known ∙ ap (λ (u : Tref). let p : Tref × IrBuffer = (u, b) in some p) same)
  | inl unknown ↦
      let i = sload_ins (to_u16 (absolute b.slots n)) in
      let ((u, b1), f, g) =
        >>=-eq-some (emit b i) (loaded b n) (sym (slot-unknown b n unknown) ∙ e) in
      let b2 : IrBuffer = record b1 { slots = set b1.slots n u } in
      let (same, eq) = some_pair u t b2 b' g in
      let (is, slots) = emit-sload b b1 (to_u16 (absolute b.slots n)) u f in
      let inside : in_range b1.slots n ≡ true =
        ap (λ (s : AbstractStack). in_range s n) slots ∙ h in
      let now : get b2.slots n ≡ u = get-set_same b1.slots n u inside in
      let high = v.bias_below in
      let nonzero : (b.bufmax == 0) ≡ false = ground arith in
      let fresh : is_none (tref b.bufmax i.tag) ≡ false = rw nonzero refl in
      let known : is_none (get b2.slots n) ≡ false = ap is_none (now ∙ is) ∙ fresh in
      let again =
        slot-known b2 n known
        ∙ ap (λ (w : Tref). let p : Tref × IrBuffer = (w, b2) in some p) (now ∙ same) in
      subst (λ (c : IrBuffer). slot c n ≡ some (t, c)) eq again
]
