-- ===== src/Fold/Forwarding.antt =====
-- Loads from objects that the trace has allocated (the FLOAD case of IRBuffer::doFold and the rule
-- load_fwd of vm/ir_fold.cc): they are forwarded.
use lambdachine.Common.{
  ℕ, suc, true, ◌+◌, ◌-◌, ◌^◌, ◌<◌, ◌≡◌, ◌≢◌, refl, sym, ap, ◌∙◌, arith, ◌==◌, if◌then◌else◌,
  Option, none, some,
}
use lambdachine.Ir.{Opcode, opcode_eq, left_operand}
use lambdachine.AbstractHeap.{
  AbstractHeap, set_field, get_field, update, is_indirection, num_fields,
}
use lambdachine.AbstractHeap.Entries.{IsValid, get_field-set_field, update_lem}
use lambdachine.IrBuffer.{IrBuffer}
use mathlib.Core.List.{[], ◌∷◌}
use lambdachine.FoldRules.{
  Rule, FoldState, Outcome, give, as_outcome, load_fwd, heap_entry, kfold_update_new,
}
use lambdachine.Fold.{run, rules, left_is, load_operands, fold_round, fold_loop, do_fold}

-- The load of field i, through a reference to the field, of the object that an allocation made.
pub record Loads (fs : FoldState) (b : IrBuffer) (n i : ℕ) : Type 0 where
  pub is_load : fs.ins.opcode ≡ Opcode.fload
  pub nonzero : fs.ins.op1 ≢ 0
  pub field : (b.ins fs.ins.op1).op2 ≡ i + 1
  pub object : (b.ins (b.ins fs.ins.op1).op1).opcode ≡ Opcode.new
  pub entry : (b.ins (b.ins fs.ins.op1).op1).op2 ≡ n

-- What a load gives: the object that the object was updated with, or else the field.
unfoldable pub loaded : AbstractHeap → ℕ → ℕ → ℕ
loaded h n i = if is_indirection h n == 0 then get_field h n i else is_indirection h n

load_operands_left :
    (fs : FoldState) (b : IrBuffer) (n i : ℕ)
    → Loads fs b n i
    → (load_operands fs b).left ≡ b.ins fs.ins.op1
unfolding load_operands left_operand
load_operands_left fs b n i l = let z = l.nonzero in rw (l.is_load) (ground arith)

entry_of :
    (fs : FoldState) (b : IrBuffer) (n i : ℕ)
    → Loads fs b n i
    → heap_entry b (load_operands fs b).left.op1 ≡ some n
unfolding heap_entry opcode_eq
entry_of fs b n i l = rw (load_operands_left fs b n i l, l.object, l.entry) refl

loaded_cases :
    (fs : FoldState) (b : IrBuffer) (n i : ℕ) (o : Option ℕ) (field : ℕ)
    → o ≡ some n
    → field ≡ i
    → loaded b.heap n i ≢ 0
    → (elim o [
      | none ↦ give Outcome.next fs b
      | some m ↦
          if is_indirection b.heap m == 0
          then give (as_outcome (get_field b.heap m field)) fs b
          else give (Outcome.use_ref (is_indirection b.heap m)) fs b
    ])
      ≡ give (Outcome.use_ref (loaded b.heap n i)) fs b
unfolding loaded
loaded_cases fs b n i o field p q h = rw (p, q) (ground arith)

load_fwd_lem :
    (fs : FoldState) (b : IrBuffer) (n i : ℕ)
    → Loads fs b n i
    → loaded b.heap n i ≢ 0
    → load_fwd (load_operands fs b) b
      ≡ give (Outcome.use_ref (loaded b.heap n i)) (load_operands fs b) b
unfolding load_fwd
load_fwd_lem fs b n i l h =
    let left = load_operands_left fs b n i l in
    let f : (load_operands fs b).left.op2 - 1 ≡ i = omega (arith, ap (λ x. x.op2) left, l.field) in
    loaded_cases (load_operands fs b) b n i _ _ (entry_of fs b n i l) f h

run_one :
    (rule : Rule) (fs : FoldState) (b : IrBuffer) (x : ℕ)
    → rule fs b ≡ give (Outcome.use_ref x) fs b
    → run ((true, rule) ∷ []) fs b ≡ give (Outcome.use_ref x) fs b
unfolding run
run_one rule fs b x e = rw e refl

fold_round_eq :
    (info_of : ℕ → ℕ) (fs : FoldState) (b : IrBuffer)
    → fold_round info_of fs b
      ≡ run (rules info_of fs.ins.opcode (load_operands fs b)) (load_operands fs b) b
unfolding fold_round
fold_round_eq info_of fs b = refl

load_rules :
    (info_of : ℕ → ℕ) (fs : FoldState) → rules info_of Opcode.fload fs ≡ (true, load_fwd) ∷ []
unfolding rules
load_rules info_of fs = refl

fold_load :
    (info_of : ℕ → ℕ) (fs : FoldState) (b : IrBuffer) (n i : ℕ)
    → Loads fs b n i
    → loaded b.heap n i ≢ 0
    → fold_round info_of fs b ≡ give (Outcome.use_ref (loaded b.heap n i)) (load_operands fs b) b
fold_load info_of fs b n i l h =
    fold_round_eq info_of fs b
    ∙ ap (λ o. run (rules info_of o (load_operands fs b)) (load_operands fs b) b) l.is_load
    ∙ ap (λ r. run r (load_operands fs b) b) (load_rules info_of (load_operands fs b))
    ∙ run_one load_fwd (load_operands fs b) b (loaded b.heap n i) (load_fwd_lem fs b n i l h)

settles :
    (info_of : ℕ → ℕ) (rounds : ℕ) (fs fs' : FoldState) (b b' : IrBuffer) (x : ℕ)
    → fold_round info_of fs b ≡ give (Outcome.use_ref x) fs' b'
    → fold_loop info_of (suc rounds) fs b ≡ give (Outcome.use_ref x) fs' b'
unfolding fold_loop
settles info_of rounds fs fs' b b' x e = rw e refl

-- A load of a field of an object that the trace has allocated is replaced by the reference that the
-- object was updated with, or else by the one that was stored in the field, unless that is 0.
do_fold-load :
    (info_of : ℕ → ℕ) (fs : FoldState) (b : IrBuffer) (n i : ℕ)
    → Loads fs b n i
    → loaded b.heap n i ≢ 0
    → do_fold info_of fs b ≡ give (Outcome.use_ref (loaded b.heap n i)) (load_operands fs b) b
unfolding do_fold
do_fold-load info_of fs b n i l h =
    settles info_of 129 fs (load_operands fs b) b b (loaded b.heap n i)
      (fold_load info_of fs b n i l h)

loaded-set_field :
    (h : AbstractHeap) (n i x : ℕ)
    → IsValid h
    → n < h.nextentry
    → i < num_fields h n
    → is_indirection h n ≡ 0
    → loaded (set_field h n i x) n i ≡ x
unfolding loaded
loaded-set_field h n i x v p q ind =
    let same : is_indirection (set_field h n i x) n ≡ 0 = unfold set_field is_indirection in ind in
    let e = get_field-set_field h n n i i x v p p q q in ground (arith, e, same)

loaded-update : (h : AbstractHeap) (n i x : ℕ) → 0 < x → x < 2 ^ 16 → loaded (update h n x) n i ≡ x
unfolding loaded
loaded-update h n i x z p = let e = (update_lem h n n i x).0 in ground (arith, e)

-- The heap of the buffer does not matter to what is loaded for a load.
with_heap :
    (fs : FoldState) (b : IrBuffer) (n i : ℕ) (h : AbstractHeap)
    → Loads fs b n i
    → Loads fs (record b { heap = h }) n i
with_heap fs b n i h l = record {
  is_load = l.is_load;
  nonzero = l.nonzero;
  field = l.field;
  object = l.object;
  entry = l.entry;
}

forwards :
    (info_of : ℕ → ℕ) (fs : FoldState) (b : IrBuffer) (n i x : ℕ) (h : AbstractHeap)
    → Loads fs b n i
    → loaded h n i ≡ x
    → x ≢ 0
    → do_fold info_of fs (record b { heap = h })
      ≡ give (Outcome.use_ref x) (load_operands fs b) (record b { heap = h })
unfolding load_operands
forwards info_of fs b n i x h l e z =
    do_fold-load info_of fs (record b { heap = h }) n i (with_heap fs b n i h l)
      (λ y. z (sym e ∙ y))
    ∙ ap (λ (k : ℕ). give (Outcome.use_ref k) (load_operands fs b) (record b { heap = h })) e

-- After a store of a reference other than 0 into a field of an object that the trace has allocated
-- and not updated, in a well-formed heap, a fold replaces the load of that field by the stored
-- reference.
pub do_fold-set_field :
    (info_of : ℕ → ℕ) (fs : FoldState) (b : IrBuffer) (n i x : ℕ)
    → Loads fs b n i
    → IsValid b.heap
    → n < b.heap.nextentry
    → i < num_fields b.heap n
    → is_indirection b.heap n ≡ 0
    → x ≢ 0
    → do_fold info_of fs (record b { heap = set_field b.heap n i x })
      ≡ give (Outcome.use_ref x) (load_operands fs b) (record b { heap = set_field b.heap n i x })
do_fold-set_field info_of fs b n i x l v p q ind z =
    forwards info_of fs b n i x (set_field b.heap n i x) l (loaded-set_field b.heap n i x v p q ind)
      z

-- The update of the object that an allocation made, with the reference x.
pub record Updates (us : FoldState) (b : IrBuffer) (n x : ℕ) : Type 0 where
  pub is_update : us.ins.opcode ≡ Opcode.update
  pub nonzero : us.ins.op1 ≢ 0
  pub object : (b.ins us.ins.op1).opcode ≡ Opcode.new
  pub entry : (b.ins us.ins.op1).op2 ≡ n
  pub by : us.ins.op2 ≡ x

module _ (info_of : ℕ → ℕ) (us : FoldState) (b : IrBuffer) (n x : ℕ) (u : Updates us b n x) where
  abbrev updated : IrBuffer
  updated = record b { heap = update b.heap n x }

  update_left : left_is (load_operands us b) Opcode.new ≡ true
  unfolding load_operands left_operand opcode_eq
  update_left = let z = u.nonzero in rw (u.is_update) (rw (u.object) (ground arith))

  updated_entry : heap_entry b us.ins.op1 ≡ some n
  unfolding heap_entry opcode_eq
  updated_entry = rw (u.object, u.entry) refl

  kfold_update_new_lem :
      kfold_update_new (load_operands us b) b ≡ give Outcome.next (load_operands us b) updated
  unfolding kfold_update_new load_operands
  kfold_update_new_lem = rw (updated_entry, kfold_update_new, u.by) refl

  fold_update : fold_round info_of us b ≡ give Outcome.next (load_operands us b) updated
  unfolding rules run
  fold_update =
      fold_round_eq info_of us b
      ∙ ap (λ o. run (rules info_of o (load_operands us b)) (load_operands us b) b) u.is_update
      ∙ rw (update_left, kfold_update_new_lem) refl

  do_fold_updates : do_fold info_of us b ≡ give Outcome.next (load_operands us b) updated
  unfolding do_fold fold_loop
  do_fold_updates = rw fold_update refl

-- A fold of an update, with a reference that is not 0, of an object that the trace has allocated,
-- leaves the instruction to be emitted and marks the object in the heap; in the buffer that it
-- returns, a fold replaces the load of the object's first field by the reference.
pub do_fold-update :
    (info_of : ℕ → ℕ) (us fs : FoldState) (b : IrBuffer) (n x : ℕ)
    → Updates us b n x
    → Loads fs b n 0
    → 0 < x
    → x < 2 ^ 16
    → (do_fold info_of us b
        ≡ give Outcome.next (load_operands us b) (record b { heap = update b.heap n x }))
      × (do_fold info_of fs (record b { heap = update b.heap n x })
          ≡ give (Outcome.use_ref x) (load_operands fs b) (record b { heap = update b.heap n x }))
do_fold-update info_of us fs b n x u l p q = (
  do_fold_updates info_of us b n x u,
  forwards info_of fs b n 0 x (update b.heap n x) l (loaded-update b.heap n 0 x p q)
      (λ e. absurd (omega arith)),
)
