-- ===== src/Fold/Meaning.antt =====
-- What the arithmetic instructions of a trace compute, and what a fold rule may do to one
-- (vm/ir_fold.cc). An environment gives the 64-bit word of every reference.
use lambdachine.Common.{
  ℕ, ◌+◌, ◌-◌, ◌%◌, ◌^◌, ◌≤◌, ◌<◌, ◌≡◌, ◌⊎◌, inl, inr, refl, ap, sym, ◌∙◌, Bool, true, false, arith,
  if◌then◌else◌, Option, none, some, ltb→lt,
}
use lambdachine.Ir.{Opcode, is_integer, is_signed, Ins, is_lit, ref_bias}
use lambdachine.IrBuffer.{IrBuffer, literal_value}
use lambdachine.IrBuffer.Chains.{IsValid, is_value}
use lambdachine.IrBuffer.Extends.{Extends, Extends-refl}
use lambdachine.FoldRules.{FoldState, Outcome, Folded, give, set_ins}

abbrev pub is_arith : Opcode → Bool
is_arith Opcode.add = true
is_arith Opcode.sub = true
is_arith Opcode.neg = true
is_arith _ = false

-- The word that an addition, subtraction or negation computes.
abbrev pub compute : (ℕ → ℕ) → Opcode → ℕ → ℕ → ℕ
compute V Opcode.add x y = (V x + V y) % 2 ^ 64
compute V Opcode.sub x y = (V x + 2 ^ 64 - V y) % 2 ^ 64
compute V Opcode.neg x y = (2 ^ 64 - V x) % 2 ^ 64
compute V _ x y = 0

abbrev pub meaning : (ℕ → ℕ) → Ins → ℕ
meaning V i = compute V i.opcode i.op1 i.op2

-- A literal, or an instruction that has been emitted.
abbrev pub IsRef : IrBuffer → ℕ → Type 0
IsRef b r =
    ((b.bufmin ≤ r) × (r < ref_bias) × (is_value (b.ins r).opcode ≡ true))
    ⊎ ((ref_bias ≤ r) × (r < b.bufmax))

-- A negation has no second operand, and its field for it holds 0.
abbrev pub takes_two : Opcode → Bool
takes_two Opcode.neg = false
takes_two _ = true

abbrev pub IsSecond : IrBuffer → Opcode → ℕ → Type 0
IsSecond b Opcode.neg r = Unit {0}
IsSecond b _ r = IsRef b r

pub second : (b : IrBuffer) (o : Opcode) (r : ℕ) → takes_two o ≡ true → IsSecond b o r → IsRef b r
second b Opcode.neg r t h = cc
second b _ r t h = h

pub IsRef-IsSecond : (b : IrBuffer) (o : Opcode) (r : ℕ) → IsRef b r → IsSecond b o r
IsRef-IsSecond b Opcode.neg r h = tt
IsRef-IsSecond b _ r h = h

-- The operands of the arithmetic in the buffer are references.
abbrev pub Closed : IrBuffer → Type 0
Closed b =
    (r : ℕ)
    → ref_bias ≤ r
    → r < b.bufmax
    → is_arith (b.ins r).opcode ≡ true
    → IsRef b (b.ins r).op1 × IsSecond b (b.ins r).opcode (b.ins r).op2

-- An environment in which literals have their values and arithmetic its results.
pub record Models (b : IrBuffer) (V : ℕ → ℕ) : Type 0 where
  pub word : (r : ℕ) → V r < 2 ^ 64
  pub literals :
      (r : ℕ)
      → b.bufmin ≤ r
      → r < ref_bias
      → is_value (b.ins r).opcode ≡ true
      → V r ≡ literal_value b r
  pub computed :
      (r : ℕ)
      → ref_bias ≤ r
      → r < b.bufmax
      → is_arith (b.ins r).opcode ≡ true
      → V r ≡ meaning V (b.ins r)

-- An arithmetic instruction to fold, and no unsigned integer type.
pub record Ready (fs : FoldState) (b : IrBuffer) : Type 0 where
  pub valid : IsValid b
  pub closed : Closed b
  pub ref1 : IsRef b fs.ins.op1
  pub ref2 : IsSecond b fs.ins.opcode fs.ins.op2
  pub arithmetic : is_arith fs.ins.opcode ≡ true
  pub signed : is_integer fs.ins.tag.type ≡ true → is_signed fs.ins.tag.type ≡ true

-- The operands' instructions have been looked up.
abbrev pub Loaded : FoldState → IrBuffer → Type 0
Loaded fs b = (fs.left ≡ b.ins fs.ins.op1) × (fs.right ≡ b.ins fs.ins.op2)

-- The result of a rule has the meaning of the instruction: of the transformed instruction, of the
-- literal or of the reference.
abbrev pub Means : (ℕ → ℕ) → Ins → Outcome → Ins → Type 0
Means V i Outcome.next i' = meaning V i' ≡ meaning V i
Means V i Outcome.retry i' = meaning V i' ≡ meaning V i
Means V i Outcome.fail i' = ⊥
Means V i Outcome.drop i' = ⊥
Means V i (Outcome.klit k) i' = k ≡ meaning V i
Means V i (Outcome.use_ref x) i' = V x ≡ meaning V i

-- A rule that does not apply has changed nothing.
pub record Good (fs : FoldState) (b : IrBuffer) (r : Folded) : Type 0 where
  pub ready : Ready r.state r.buf
  pub unchanged : r.outcome ≡ Outcome.next → (r.state ≡ fs) × (r.buf ≡ b)
  pub extends : Extends b r.buf
  pub means : (V : ℕ → ℕ) → Models r.buf V → Means V fs.ins r.outcome r.state.ins

-- So is whatever a rule gives, where the program does not exit.
abbrev pub AllGood : FoldState → IrBuffer → Option Folded → Type 0
AllGood fs b none = Unit {0}
AllGood fs b (some r) = Good fs b r

pub if_good :
    (fs : FoldState) (b : IrBuffer) (t : Bool) (x y : Option Folded)
    → (t ≡ true → AllGood fs b x)
    → (t ≡ false → AllGood fs b y)
    → AllGood fs b (if t then x else y)
if_good fs b true x y f g = f refl
if_good fs b false x y f g = g refl

module _ (fs : FoldState) (b : IrBuffer) (ready : Ready fs b) where
  -- An outcome that leaves instruction and buffer as they are.
  pub give_good :
      (o : Outcome)
      → ((V : ℕ → ℕ) → Models b V → Means V fs.ins o fs.ins)
      → AllGood fs b (give o fs b)
  give_good o means = record {
    ready = ready;
    unchanged = λ e. (refl, refl);
    extends = Extends-refl b;
    means = means;
  }

  -- A new instruction over references of the buffer.
  pub rewrite_good :
      (op : Opcode) (x y : ℕ)
      → is_arith op ≡ true
      → IsRef b x
      → IsRef b y
      → ((V : ℕ → ℕ) → Models b V → compute V op x y ≡ meaning V fs.ins)
      → AllGood fs b
          (give Outcome.retry (set_ins fs (record (fs.ins) { opcode = op; op1 = x; op2 = y })) b)
  rewrite_good op x y a p q means = record {
    ready = record {
      valid = ready.valid;
      closed = ready.closed;
      ref1 = p;
      ref2 = IsRef-IsSecond b op y q;
      arithmetic = a;
      signed = ready.signed;
    };
    unchanged = λ e. cc;
    extends = Extends-refl b;
    means = means;
  }

no_value_arith : (o : Opcode) → is_value o ≡ true → is_arith o ≡ true → ⊥
no_value_arith Opcode.add p q = cc
no_value_arith Opcode.sub p q = cc
no_value_arith Opcode.neg p q = cc
no_value_arith _ p q = cc

module _ (b : IrBuffer) (V : ℕ → ℕ) (m : Models b V) where
  pub value_literal : (r : ℕ) → IsRef b r → is_lit r ≡ true → V r ≡ literal_value b r
  value_literal r (inl (p, q, e)) l = m.literals r p q e
  value_literal r (inr (p, q)) l = absurd (omega (arith, ltb→lt r ref_bias l))

  pub value_computed :
      (r : ℕ) (op : Opcode)
      → IsRef b r
      → (b.ins r).opcode ≡ op
      → is_arith op ≡ true
      → V r ≡ compute V op (b.ins r).op1 (b.ins r).op2
  value_computed r op (inl (p, q, e)) h a = absurd (no_value_arith op (rw h at e) a)
  value_computed r op (inr (p, q)) h a =
      m.computed r p q (rw h a) ∙ ap (λ o. compute V o (b.ins r).op1 (b.ins r).op2) h

-- The operands of an instruction that is an operand.
pub computed_refs :
    (b : IrBuffer) (r : ℕ) (op : Opcode)
    → Closed b
    → IsRef b r
    → (b.ins r).opcode ≡ op
    → is_arith op ≡ true
    → takes_two op ≡ true
    → IsRef b (b.ins r).op1 × IsRef b (b.ins r).op2
computed_refs b r op c (inl (p, q, e)) h a t = absurd (no_value_arith op (rw h at e) a)
computed_refs b r op c (inr (p, q)) h a t =
    let (x, y) = c r p q (rw h a) in (x, second b (b.ins r).opcode (b.ins r).op2 (rw h t) y)

-- The left and the right operand's instruction, where it is arithmetic.
module _ (fs : FoldState) (b : IrBuffer) (ready : Ready fs b) (loaded : Loaded fs b) (op : Opcode)
    (a : is_arith op ≡ true) where
  pub left_value :
      (V : ℕ → ℕ)
      → Models b V
      → fs.left.opcode ≡ op
      → V fs.ins.op1 ≡ compute V op fs.left.op1 fs.left.op2
  left_value V m h =
      rw (loaded.0)
        (value_computed b V m fs.ins.op1 op ready.ref1 (ap (λ i. i.opcode) (sym (loaded.0)) ∙ h) a)

  pub left_refs :
      takes_two op ≡ true → fs.left.opcode ≡ op → IsRef b fs.left.op1 × IsRef b fs.left.op2
  left_refs t h = rw (loaded.0) (
      computed_refs b fs.ins.op1 op ready.closed ready.ref1
        (ap (λ i. i.opcode) (sym (loaded.0)) ∙ h) a t)

  pub right_value :
      takes_two fs.ins.opcode ≡ true
      → (V : ℕ → ℕ) → Models b V
      → fs.right.opcode ≡ op
      → V fs.ins.op2 ≡ compute V op fs.right.op1 fs.right.op2
  right_value two V m h = rw (loaded.1) (
      value_computed b V m fs.ins.op2 op (second b fs.ins.opcode fs.ins.op2 two ready.ref2)
        (ap (λ i. i.opcode) (sym (loaded.1)) ∙ h) a)

  pub right_refs :
      takes_two fs.ins.opcode ≡ true
      → takes_two op ≡ true
      → fs.right.opcode ≡ op
      → IsRef b fs.right.op1 × IsRef b fs.right.op2
  right_refs two t h = rw (loaded.1) (
      computed_refs b fs.ins.op2 op ready.closed (second b fs.ins.opcode fs.ins.op2 two ready.ref2)
        (ap (λ i. i.opcode) (sym (loaded.1)) ∙ h) a t)
