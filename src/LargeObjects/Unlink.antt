-- ===== src/LargeObjects/Unlink.antt =====
-- Linking and unlinking large objects (linkLargeObject and unlinkLargeObject of vm/objects.hh).
use lambdachine.Common.{
  ℕ, ◌≡◌, ◌≢◌, ◌⊎◌, inl, inr, refl, sym, ap, ◌∙◌, write, Option, none, some, List, [], ◌∷◌, ◌++◌,
  arith,
}
use mathlib.Core.Path.{subst}
use lambdachine.MemoryManager.Grab.{write-here, write-other}
use lambdachine.LargeObjects.{Objects, set_prev, set_next, link_large, unlink_next, unlink_large}
use lambdachine.LargeObjects.Linked.{
  NotIn, IsChain, IsLarge, IsChain-kept, some_same, prev_self, IsUnlinked, front, IsChain-unlinked,
}

-- Where an object is none, or known.
option_cases : (o : Option ℕ) → (o ≡ none) ⊎ ((p : ℕ) × (o ≡ some p))
option_cases none = inl refl
option_cases (some p) = inr (p, refl)

module _ (s : Objects) (q : ℕ) where
  pub unlink_next-none : s.prev q ≡ none → unlink_next s q ≡ record s { large = s.next q }
  unfolding unlink_next
  unlink_next-none e = simp (unlink_next, e)

  unlink_next-some : (p : ℕ) → s.prev q ≡ some p → unlink_next s q ≡ set_next s p (s.next q)
  unfolding unlink_next
  unlink_next-some p e = simp (unlink_next, e)

  unlink_next-prev : (unlink_next s q).prev ≡ s.prev
  unlink_next-prev = elim (option_cases (s.prev q)) [
    | inl e ↦ ap (λ (t : Objects). t.prev) (unlink_next-none e)
    | inr (p, e) ↦ ap (λ (t : Objects). t.prev) (unlink_next-some p e)
  ]

  unlink_next-other : (x : ℕ) → s.prev q ≢ some x → (unlink_next s q).next x ≡ s.next x
  unlink_next-other x n = elim (option_cases (s.prev q)) [
    | inl e ↦ ap (λ (t : Objects). t.next x) (unlink_next-none e)
    | inr (p, e) ↦
        let m : x ≢ p = λ f. n (e ∙ ap some (sym f)) in
        ap (λ (t : Objects). t.next x) (unlink_next-some p e) ∙ ground arith
  ]

  unlink_next-at : (x : ℕ) → s.prev q ≡ some x → (unlink_next s q).next x ≡ s.next q
  unlink_next-at x e = ap (λ (t : Objects). t.next x) (unlink_next-some x e) ∙ ground arith

  -- Unlinking changes the fields of the objects before and after.
  unlink_large-IsUnlinked : s.prev q ≢ some q → IsUnlinked s q (unlink_large s q)
  unfolding unlink_large
  unlink_large-IsUnlinked n =
      let s1 = unlink_next s q in
      let next_q : s1.next q ≡ s.next q = unlink_next-other q n in
      let same = unlink_next-prev in
      elim (option_cases (s1.next q)) [
        | inl e ↦
            let t_is : unlink_large s q ≡ s1 = simp (unlink_large, e) in
            record {
              next_other = λ x m. ap (λ (t : Objects). t.next x) t_is ∙ unlink_next-other x m;
              next_at = λ x f. ap (λ (t : Objects). t.next x) t_is ∙ unlink_next-at x f;
              prev_other =
                  λ x m. ap (λ (t : Objects). t.prev x) t_is ∙ ap (λ (f : ℕ → Option ℕ). f x) same;
              prev_at = λ x f. absurd (let g = sym e ∙ next_q ∙ f in cc);
            }
        | inr (r, e) ↦
            let t_is : unlink_large s q ≡ set_prev s1 (some r) (s1.prev q) =
              simp (unlink_large, e) in
            let f : s.next q ≡ some r = sym next_q ∙ e in
            record {
              next_other = λ x m. ap (λ (t : Objects). t.next x) t_is ∙ unlink_next-other x m;
              next_at = λ x g. ap (λ (t : Objects). t.next x) t_is ∙ unlink_next-at x g;
              prev_other = λ x m.
                  let d : x ≢ r = λ h. m (f ∙ ap some (sym h)) in
                  ap (λ (t : Objects). t.prev x) t_is
                  ∙ write-other s1.prev r x (s1.prev q) d
                  ∙ ap (λ (h : ℕ → Option ℕ). h x) same;
              prev_at = λ x g.
                  let d : x ≡ r = some_same x r (sym g ∙ f) in
                  ap (λ (t : Objects). t.prev x) t_is
                  ∙ ap (λ (y : ℕ). write s1.prev r (s1.prev q) y) d
                  ∙ write-here s1.prev r (s1.prev q)
                  ∙ ap (λ (h : ℕ → Option ℕ). h q) same;
            }
      ]

  prev_front :
      (b o : Option ℕ) (p : ℕ) (ps rs : List ℕ)
      → IsChain s b o (p ∷ (ps ++ q ∷ rs))
      → (y : ℕ) × (s.prev q ≡ some y)
  prev_front b o p [] rs (e, f, n, c) = (p, c.1)
  prev_front b o p (r ∷ ps) rs (e, f, n, c) = prev_front (some p) (s.next p) r ps rs c

  unlink_large-head : (unlink_large s q).large ≡ (unlink_next s q).large
  unfolding unlink_large
  unlink_large-head = elim (option_cases ((unlink_next s q).next q)) [
    | inl e ↦
        ap (λ (t : Objects). t.large)
          (let t : unlink_large s q ≡ unlink_next s q = simp (unlink_large, e) in t)
    | inr (r, e) ↦
        ap (λ (t : Objects). t.large)
          (let t : unlink_large s q
                ≡ set_prev (unlink_next s q) (some r) ((unlink_next s q).prev q) =
              simp (unlink_large, e) in
            t)
  ]

  head_front :
      (ps rs : List ℕ) → IsLarge s (ps ++ q ∷ rs) → (unlink_large s q).large ≡ front s q ps s.large
  head_front [] rs (e, p, n, c) =
      unlink_large-head ∙ ap (λ (t : Objects). t.large) (unlink_next-none p)
  head_front (p ∷ ps) rs c =
      let (y, f) = prev_front none s.large p ps rs c in
      unlink_large-head ∙ ap (λ (t : Objects). t.large) (unlink_next-some y f)

  -- Unlinking an object from a doubly linked list of large objects leaves the list of the others
  -- in their order, wherever the object stood.
  pub unlink_large-IsLarge :
      (ps rs : List ℕ) → IsLarge s (ps ++ q ∷ rs) → IsLarge (unlink_large s q) (ps ++ rs)
  unlink_large-IsLarge ps rs c =
      let none_some : none ≢ some q = λ e. cc in
      let u = unlink_large-IsUnlinked (prev_self s q none s.large ps rs c none_some) in
      subst (λ (o : Option ℕ). IsChain (unlink_large s q) none o (ps ++ rs))
        (sym (head_front ps rs c))
        (IsChain-unlinked s q (unlink_large s q) none s.large ps rs u (omega arith) c)

-- The object's fields when it is linked, and those of the object after it.
abbrev linked : Objects → ℕ → Objects
linked s q = record (set_next s q s.large) { prev = write s.prev q none }

abbrev relinked : Objects → ℕ → Option ℕ → Objects
relinked s q o = record (set_prev (linked s q) o (some q)) { large = some q }

link_large_eq : (s : Objects) (q : ℕ) (o : Option ℕ) → s.large ≡ o → link_large s q ≡ relinked s q o
unfolding link_large
link_large_eq s q o e = ap (relinked s q) e

-- Linking puts the object at the front of the list.
pub link_large-IsLarge :
    (s : Objects) (q : ℕ) (xs : List ℕ)
    → NotIn q xs
    → IsLarge s xs
    → IsLarge (link_large s q) (q ∷ xs)
link_large-IsLarge s q [] n c =
    subst (λ (t : Objects). IsLarge t (q ∷ [])) (sym (link_large_eq s q none c))
      (refl, write-here s.prev q none, omega arith, write-here s.next q s.large ∙ c)
link_large-IsLarge s q (x ∷ xs) n (e, p, m, c) =
    let t = relinked s q (some x) in
    let before = write s.prev q none in
    let rest =
      IsChain-kept s t (some x) (s.next x) xs
        (λ y h. (
          write-other before x y (some q) (λ f. h (subst (λ (z : ℕ). NotIn z xs) (sym f) m))
              ∙ write-other s.prev q y none (λ f. h (subst (λ (z : ℕ). NotIn z xs) (sym f) n.1)),
          write-other s.next q y s.large (λ f. h (subst (λ (z : ℕ). NotIn z xs) (sym f) n.1)),
        ))
        c in
    let next_x : t.next x ≡ s.next x = write-other s.next q x s.large (λ f. n.0 (sym f)) in
    subst (λ (t : Objects). IsLarge t (q ∷ x ∷ xs)) (sym (link_large_eq s q (some x) e))
      (
        refl,
        write-other before x q (some q) n.0 ∙ write-here s.prev q none,
        n,
        (
          write-here s.next q s.large ∙ e,
          write-here before x (some q),
          m,
          subst (λ (o : Option ℕ). IsChain t (some x) o xs) (sym next_x) rest,
        ),
      )
