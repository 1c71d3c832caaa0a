-- ===== src/LargeObjects/Collected.antt =====
-- The lists of large objects during a collection: evacuateLarge and scavengeLarge.
use lambdachine.Common.{
  ℕ, suc, ◌≤◌, ◌≡◌, ◌≢◌, refl, sym, ◌∙◌, Bool, true, false, write, length, Option, none, some, List,
  [], ◌∷◌, ◌++◌,
}
use mathlib.Core.Path.{subst}
use lambdachine.MemoryManager.Grab.{write-here, write-other}
use lambdachine.LargeObjects.{
  Objects, set_prev, set_next, unlink_large, unlink_next, evacuate_large, scavenge_large,
}
use lambdachine.LargeObjects.Unlink.{unlink_large-IsLarge}
use lambdachine.LargeObjects.Linked.{NotIn, IsChain, IsLarge, IsChain-kept, NotIn-middle}

NotIn-itself :
    (s : Objects) (q : ℕ) (b o : Option ℕ) (ps rs : List ℕ)
    → IsChain s b o (ps ++ q ∷ rs)
    → NotIn q (ps ++ rs)
NotIn-itself s q b o [] rs (e, p, n, c) = n
NotIn-itself s q b o (p ∷ ps) rs (e, f, n, c) =
    (λ g. NotIn-middle p q ps rs n (sym g), NotIn-itself s q (some p) (s.next p) ps rs c)

-- The object marked, unlinked, and put at the front of the evacuated ones.
abbrev pub moved : Objects → ℕ → Objects
moved s q =
    let s1 = unlink_large (record s { mark = write s.mark q true }) q in
    record s1 {
      next = write s1.next q s1.evacuated;
      prev = write s1.prev q none;
      evacuated = some q;
    }

pub evacuate_large-unmarked :
    (s : Objects) (q : ℕ) → s.mark q ≡ false → evacuate_large s q ≡ moved s q
unfolding evacuate_large
evacuate_large-unmarked s q e = rw (evacuate_large, e) refl

-- Unlinking leaves the marks and the other lists.
record SameRest (s t : Objects) : Type 0 where
  evacuated : t.evacuated ≡ s.evacuated
  mark : (x : ℕ) → t.mark x ≡ s.mark x

set_prev-SameRest : (s : Objects) (o q : Option ℕ) → SameRest s (set_prev s o q)
set_prev-SameRest s none q = record { evacuated = refl; mark = λ x. refl }
set_prev-SameRest s (some p) q = record { evacuated = refl; mark = λ x. refl }

unlink_next-SameRest : (s : Objects) (q : ℕ) → SameRest s (unlink_next s q)
unfolding unlink_next
unlink_next-SameRest s q = rest (s.prev q)
  where
    rest :
        (o : Option ℕ)
        → SameRest s
            (elim o [ none ↦ record s { large = s.next q } | some p ↦ set_next s p (s.next q) ])
    rest none = record { evacuated = refl; mark = λ x. refl }
    rest (some p) = record { evacuated = refl; mark = λ x. refl }

unlink_large-SameRest : (s : Objects) (q : ℕ) → SameRest s (unlink_large s q)
unfolding unlink_large
unlink_large-SameRest s q =
    let first = unlink_next-SameRest s q in
    let s1 = unlink_next s q in
    let second = set_prev-SameRest s1 (s1.next q) (s1.prev q) in
    record {
      evacuated = second.evacuated ∙ first.evacuated;
      mark = λ x. second.mark x ∙ first.mark x;
    }

IsChain-marked :
    (s : Objects) (marks : ℕ → Bool) (b o : Option ℕ) (xs : List ℕ)
    → IsChain s b o xs
    → IsChain (record s { mark = marks }) b o xs
IsChain-marked s marks b o xs c =
    IsChain-kept s (record s { mark = marks }) b o xs (λ x h. (refl, refl)) c

-- An object that is evacuated leaves the list of large objects and heads the evacuated ones.
pub record IsEvacuated (s : Objects) (q : ℕ) (xs : List ℕ) (t : Objects) : Type 0 where
  pub large : IsLarge t xs
  pub evacuated : t.evacuated ≡ some q
  pub next : t.next q ≡ s.evacuated
  pub mark : t.mark q ≡ true

-- Evacuating an unmarked object of a doubly linked list of large objects, as linkLargeObject makes it
-- and allocLarge makes it for one object only, marks the object, takes it out of the list, leaving the
-- others, and puts it in front of the evacuated ones.
pub evacuate_large_lem :
    (s : Objects) (q : ℕ) (ps rs : List ℕ)
    → IsLarge s (ps ++ q ∷ rs)
    → s.mark q ≡ false
    → IsEvacuated s q (ps ++ rs) (evacuate_large s q)
evacuate_large_lem s q ps rs c e =
    let marks = write s.mark q true in
    let s0 : Objects = record s { mark = marks } in
    let s1 = unlink_large s0 q in
    let c0 = IsChain-marked s marks none s.large (ps ++ q ∷ rs) c in
    let c1 = unlink_large-IsLarge s0 q ps rs c0 in
    let out = NotIn-itself s q none s.large ps rs c in
    let same = unlink_large-SameRest s0 q in
    let kept =
      IsChain-kept s1 (moved s q) none s1.large (ps ++ rs)
        (λ x h.
          let d : x ≢ q = λ f. h (subst (λ (y : ℕ). NotIn y (ps ++ rs)) (sym f) out) in
          (write-other s1.prev q x none d, write-other s1.next q x s1.evacuated d))
        c1 in
    let result : IsEvacuated s q (ps ++ rs) (moved s q) = record {
      large = kept;
      evacuated = refl;
      next = write-here s1.next q s1.evacuated ∙ same.evacuated;
      mark = same.mark q ∙ write-here s.mark q true;
    } in
    subst (IsEvacuated s q (ps ++ rs)) (sym (evacuate_large-unmarked s q e)) result

-- A list by its next_ pointers alone, without an object twice.
abbrev pub IsList : Objects → Option ℕ → List ℕ → Type 0
IsList s o [] = o ≡ none
IsList s o (x ∷ xs) = (o ≡ some x) × NotIn x xs × IsList s (s.next x) xs

abbrev pub onto : List ℕ → List ℕ → List ℕ
onto [] ys = ys
onto (x ∷ xs) ys = onto xs (x ∷ ys)

abbrev pub Disjoint : List ℕ → List ℕ → Type 0
Disjoint [] ys = 0 ≤ 0
Disjoint (x ∷ xs) ys = NotIn x ys × Disjoint xs ys

pub Disjoint-add : (xs ys : List ℕ) (x : ℕ) → NotIn x xs → Disjoint xs ys → Disjoint xs (x ∷ ys)
Disjoint-add [] ys x n d = d
Disjoint-add (y ∷ xs) ys x n d = ((λ e. n.0 (sym e), d.0), Disjoint-add xs ys x n.1 d.1)

IsList-kept :
    (s t : Objects) (o : Option ℕ) (xs : List ℕ) (x : ℕ)
    → ((y : ℕ) → y ≢ x → t.next y ≡ s.next y)
    → NotIn x xs
    → IsList s o xs
    → IsList t o xs
IsList-kept s t o [] x same n l = l
IsList-kept s t o (y ∷ xs) x same n (e, m, l) = (
  e,
  m,
  subst (λ (p : Option ℕ). IsList t p xs) (sym (same y (λ f. n.0 (sym f))))
      (IsList-kept s t (s.next y) xs x same n.1 l),
)

-- The first evacuated object moved to the scavenged ones.
abbrev blackened : Objects → ℕ → Objects
blackened s x = record s {
  evacuated = s.next x;
  next = write s.next x s.scavenged;
  scavenged = some x;
}

scavenge_large-none :
    (fuel : ℕ) (s : Objects) → s.evacuated ≡ none → scavenge_large (suc fuel) s ≡ some s
unfolding scavenge_large
scavenge_large-none fuel s e = simp (scavenge_large, e)

scavenge_large-some :
    (fuel : ℕ) (s : Objects) (x : ℕ)
    → s.evacuated ≡ some x
    → scavenge_large (suc fuel) s ≡ scavenge_large fuel (blackened s x)
unfolding scavenge_large
scavenge_large-some fuel s x e = simp (scavenge_large, e)

-- For lists of evacuated and scavenged objects without repetition and with nothing in common, the
-- loop over the evacuated objects ends, with one round more than there are objects: none is left,
-- and the scavenged ones have them in front, the last one first.
pub scavenge_large_lem :
    (s : Objects) (xs ys : List ℕ)
    → IsList s s.evacuated xs
    → IsList s s.scavenged ys
    → Disjoint xs ys
    → (t : Objects) × (scavenge_large (suc (length xs)) s ≡ some t)
      × (t.evacuated ≡ none)
      × IsList t t.scavenged (onto xs ys)
scavenge_large_lem s [] ys e l d = (s, scavenge_large-none 0 s e, e, l)
scavenge_large_lem s (x ∷ xs) ys (e, n, k) l d =
    let s' = blackened s x in
    let other : (y : ℕ) → y ≢ x → s'.next y ≡ s.next y =
      λ y f. write-other s.next x y s.scavenged f in
    let rest = IsList-kept s s' (s.next x) xs x other n k in
    let front : IsList s' (some x) (x ∷ ys) = (
      refl,
      d.0,
      subst (λ (o : Option ℕ). IsList s' o ys) (sym (write-here s.next x s.scavenged))
          (IsList-kept s s' s.scavenged ys x other d.0 l),
    ) in
    let (t, f, g, k') = scavenge_large_lem s' xs (x ∷ ys) rest front (Disjoint-add xs ys x n d.1) in
    (t, scavenge_large-some (suc (length xs)) s x e ∙ f, g, k')
