-- ===== src/Fold/Sound.antt =====
-- Folding keeps the value of additions, subtractions and negations (IRBuffer::doFold of
-- vm/ir_fold.cc): over all rules that an instruction is tried on, and over all rounds.
use lambdachine.Common.{ℕ, zero, suc, ◌≡◌, refl, sym, ◌∙◌, Option, some, >>=-eq-some}
use lambdachine.Ir.{Ins}
use lambdachine.IrBuffer.{IrBuffer}
use lambdachine.IrBuffer.Extends.{Extends, Extends-refl, Extends-trans}
use lambdachine.FoldRules.{FoldState, Outcome, Folded}
use lambdachine.Fold.{load_operands, fold_round, fold_loop, do_fold}
use lambdachine.Fold.Meaning.{meaning, Models, Ready, Means, Good, AllGood}
use lambdachine.Fold.Extension.{Models-kept}
use mathlib.Core.Path.{subst}
use lambdachine.Fold.Rounds.{round_good}

-- What a whole fold may give for an instruction: an instruction, a literal or a reference of the
-- same value.
abbrev pub SameValue : (ℕ → ℕ) → Ins → Outcome → Ins → Type 0
SameValue V i Outcome.next i' = meaning V i' ≡ meaning V i
SameValue V i (Outcome.klit k) i' = k ≡ meaning V i
SameValue V i (Outcome.use_ref x) i' = V x ≡ meaning V i
SameValue V i _ i' = ⊥

SameValue_trans :
    (V : ℕ → ℕ) (i j k : Ins) (o : Outcome)
    → meaning V j ≡ meaning V i
    → SameValue V j o k
    → SameValue V i o k
SameValue_trans V i j k Outcome.next e h = h ∙ e
SameValue_trans V i j k (Outcome.klit n) e h = h ∙ e
SameValue_trans V i j k (Outcome.use_ref x) e h = h ∙ e
SameValue_trans V i j k Outcome.retry e h = h
SameValue_trans V i j k Outcome.fail e h = h
SameValue_trans V i j k Outcome.drop e h = h

pub record Kept (V : ℕ → ℕ) (fs : FoldState) (b : IrBuffer) (r : Folded) : Type 0 where
  pub extends : Extends b r.buf
  pub value : SameValue V fs.ins r.outcome r.state.ins

keep :
    (V : ℕ → ℕ) (fs : FoldState) (b : IrBuffer) (q r : Folded) (o : Outcome)
    → q.outcome ≡ o
    → Good (load_operands fs b) b q
    → Models r.buf V
    → q ≡ r
    → (Means V fs.ins o q.state.ins → SameValue V fs.ins o q.state.ins)
    → Kept V fs b r
unfolding load_operands
keep V fs b q r o e good m p same = subst (Kept V fs b) p (record {
  extends = good.extends;
  value =
      subst (λ (x : Outcome). SameValue V fs.ins x q.state.ins) (sym e)
        (same (
          subst (λ (x : Outcome). Means V fs.ins x q.state.ins) e
            (good.means V (subst (λ (x : Folded). Models x.buf V) (sym p) m))));
})

some_inj : (q r : Folded) → some q ≡ some r → q ≡ r
some_inj q r h = cc

settled :
    (V : ℕ → ℕ) (fs : FoldState) (b : IrBuffer) (q r : Folded) (o : Outcome) (again : Option Folded)
    → q.outcome ≡ o
    → Good (load_operands fs b) b q
    → (o ≡ Outcome.retry → again ≡ some r → Kept V fs b r)
    → (elim o [ Outcome.retry ↦ again | _ ↦ some q ]) ≡ some r
    → Models r.buf V
    → Kept V fs b r
settled V fs b q r Outcome.retry again e good h k m = h refl k
settled V fs b q r Outcome.next again e good h k m =
    keep V fs b q r Outcome.next e good m (some_inj q r k) (λ x. x)
settled V fs b q r Outcome.fail again e good h k m =
    keep V fs b q r Outcome.fail e good m (some_inj q r k) (λ x. x)
settled V fs b q r Outcome.drop again e good h k m =
    keep V fs b q r Outcome.drop e good m (some_inj q r k) (λ x. x)
settled V fs b q r (Outcome.klit n) again e good h k m =
    keep V fs b q r (Outcome.klit n) e good m (some_inj q r k) (λ x. x)
settled V fs b q r (Outcome.use_ref n) again e good h k m =
    keep V fs b q r (Outcome.use_ref n) e good m (some_inj q r k) (λ x. x)

-- A further fold of the instruction that a round has made.
again-Kept :
    (V : ℕ → ℕ) (fs : FoldState) (b : IrBuffer) (q r : Folded)
    → q.outcome ≡ Outcome.retry
    → Good (load_operands fs b) b q
    → Models r.buf V
    → Kept V q.state q.buf r
    → Kept V fs b r
unfolding load_operands
again-Kept V fs b q r e good m k =
    let m' = Models-kept q.buf r.buf good.ready.valid k.extends V m in
    record {
      extends = Extends-trans b q.buf r.buf good.extends k.extends;
      value =
          SameValue_trans V fs.ins q.state.ins r.state.ins r.outcome
            (subst (λ (x : Outcome). Means V fs.ins x q.state.ins) e (good.means V m')) k.value;
    }

fold_loop-Kept :
    (info_of : ℕ → ℕ) (rounds : ℕ) (fs : FoldState) (b : IrBuffer) (V : ℕ → ℕ) (r : Folded)
    → Ready fs b
    → fold_loop info_of rounds fs b ≡ some r
    → Models r.buf V
    → Kept V fs b r
unfolding fold_loop
fold_loop-Kept info_of zero fs b V r ready e m =
    let p : r ≡ record { outcome = Outcome.next; state = fs; buf = b } = cc in
    subst (Kept V fs b) (sym p) (record { extends = Extends-refl b; value = refl })
fold_loop-Kept info_of (suc rounds) fs b V r ready e m =
    let (q, round, rest) = >>=-eq-some (fold_round info_of fs b) _ e in
    let good : Good (load_operands fs b) b q =
      subst (AllGood (load_operands fs b) b) round (round_good info_of fs b ready) in
    settled V fs b q r q.outcome _ refl good
      (λ retry again.
        let ih = fold_loop-Kept info_of rounds q.state q.buf V r good.ready again m in
        again-Kept V fs b q r retry good m ih)
      rest m

-- A fold that does not give up, of an addition, subtraction or negation over references of a well-
-- formed buffer, of a type that is no unsigned integer, gives an instruction, a literal or a
-- reference of the same 64-bit value, in every environment that the resulting buffer admits, and
-- only adds literals to the buffer.
pub do_fold_lem :
    (info_of : ℕ → ℕ) (fs : FoldState) (b : IrBuffer) (V : ℕ → ℕ) (r : Folded)
    → Ready fs b
    → do_fold info_of fs b ≡ some r
    → Models r.buf V
    → Kept V fs b r
unfolding do_fold
do_fold_lem info_of fs b V r ready e m = fold_loop-Kept info_of 130 fs b V r ready e m
