-- ===== src/LargeObjects/Linked.antt =====
-- Doubly linked lists of large objects against lists of addresses, and one object taken out.
use lambdachine.Common.{
  ℕ, ◌≤◌, ◌≡◌, ◌≢◌, refl, sym, ◌∙◌, Option, none, some, List, [], ◌∷◌, ◌++◌, arith,
}
use mathlib.Core.Path.{subst}
use lambdachine.LargeObjects.{Objects}

-- x is none of the addresses.
abbrev pub NotIn : ℕ → List ℕ → Type 0
NotIn x [] = 0 ≤ 0
NotIn x (y ∷ ys) = (x ≢ y) × NotIn x ys

-- The objects of the list stand one after the other from o on, the first one after b, each one's
-- prev_ pointing back, and none stands there twice.
abbrev pub IsChain : Objects → Option ℕ → Option ℕ → List ℕ → Type 0
IsChain s b o [] = o ≡ none
IsChain s b o (x ∷ xs) =
    (o ≡ some x) × (s.prev x ≡ b) × NotIn x xs × IsChain s (some x) (s.next x) xs

-- The list of large objects.
abbrev pub IsLarge : Objects → List ℕ → Type 0
IsLarge s xs = IsChain s none s.large xs

-- A chain is kept when its objects keep their fields.
pub IsChain-kept :
    (s t : Objects) (b o : Option ℕ) (xs : List ℕ)
    → ((x : ℕ) → (NotIn x xs → ⊥) → (t.prev x ≡ s.prev x) × (t.next x ≡ s.next x))
    → IsChain s b o xs
    → IsChain t b o xs
IsChain-kept s t b o [] same c = c
IsChain-kept s t b o (x ∷ xs) same (e, p, n, c) =
    let here = same x (λ h. h.0 refl) in
    (
      e,
      here.0 ∙ p,
      n,
      subst (λ (q : Option ℕ). IsChain t (some x) q xs) (sym here.1)
          (IsChain-kept s t (some x) (s.next x) xs (λ y h. same y (λ g. h g.1)) c),
    )

pub some_same : (a b : ℕ) → some a ≡ some b → a ≡ b
some_same a b e = cc

some_apart : (a b : ℕ) → a ≢ b → some a ≢ some b
some_apart a b n e = n (cc)

pub NotIn-middle : (x q : ℕ) (ps rs : List ℕ) → NotIn x (ps ++ q ∷ rs) → x ≢ q
NotIn-middle x q [] rs h = h.0
NotIn-middle x q (p ∷ ps) rs h = NotIn-middle x q ps rs h.1

NotIn-left : (x : ℕ) (ps rs : List ℕ) → NotIn x (ps ++ rs) → NotIn x ps
NotIn-left x [] rs h = omega arith
NotIn-left x (p ∷ ps) rs h = (h.0, NotIn-left x ps rs h.1)

NotIn-without : (x q : ℕ) (ps rs : List ℕ) → NotIn x (ps ++ q ∷ rs) → NotIn x (ps ++ rs)
NotIn-without x q [] rs h = h.1
NotIn-without x q (p ∷ ps) rs h = (h.0, NotIn-without x q ps rs h.1)

NotIn-right : (x q : ℕ) (ps rs : List ℕ) → NotIn x (ps ++ q ∷ rs) → NotIn x rs
NotIn-right x q [] rs h = h.1
NotIn-right x q (p ∷ ps) rs h = NotIn-right x q ps rs h.1

module _ (s : Objects) (q : ℕ) where
  -- The object before q in a chain is what b is, or one of those before q.
  prev_apart :
      (b o : Option ℕ) (ps rs : List ℕ) (x : ℕ)
      → IsChain s b o (ps ++ q ∷ rs)
      → b ≢ some x
      → NotIn x ps
      → s.prev q ≢ some x
  prev_apart b o [] rs x (e, p, n, c) h m f = h (sym p ∙ f)
  prev_apart b o (p ∷ ps) rs x (e, _, n, c) h m f =
      prev_apart (some p) (s.next p) ps rs x c (some_apart p x (λ g. m.0 (sym g))) m.1 f

  pub prev_self :
      (b o : Option ℕ) (ps rs : List ℕ)
      → IsChain s b o (ps ++ q ∷ rs)
      → b ≢ some q
      → s.prev q ≢ some q
  prev_self b o [] rs (e, p, n, c) h f = h (sym p ∙ f)
  prev_self b o (p ∷ ps) rs (e, _, n, c) h f =
      prev_self (some p) (s.next p) ps rs c (some_apart p q (NotIn-middle p q ps rs n)) f

  next_apart :
      (b o : Option ℕ) (ps rs : List ℕ) (x : ℕ)
      → IsChain s b o (ps ++ q ∷ rs)
      → NotIn x rs
      → s.next q ≢ some x
  next_apart b o [] [] x (e, p, n, c) m f = absurd (let g = sym c ∙ f in cc)
  next_apart b o [] (r ∷ rs) x (e, p, n, c) m f = m.0 (let g = sym c.0 ∙ f in cc)
  next_apart b o (p ∷ ps) rs x (e, _, n, c) m f = next_apart (some p) (s.next p) ps rs x c m f

  -- The fields that unlinking changes.
  pub record IsUnlinked (t : Objects) : Type 0 where
    pub next_other : (x : ℕ) → s.prev q ≢ some x → t.next x ≡ s.next x
    pub next_at : (x : ℕ) → s.prev q ≡ some x → t.next x ≡ s.next q
    pub prev_other : (x : ℕ) → s.next q ≢ some x → t.prev x ≡ s.prev x
    pub prev_at : (x : ℕ) → s.next q ≡ some x → t.prev x ≡ s.prev q

  abbrev pub front : List ℕ → Option ℕ → Option ℕ
  front [] o = s.next q
  front (p ∷ ps) o = o

  abbrev pub NotBefore : Option ℕ → List ℕ → Type 0
  NotBefore none xs = 0 ≤ 0
  NotBefore (some x) xs = NotIn x xs

  NotBefore-tail : (b : Option ℕ) (r : ℕ) (rs : List ℕ) → NotBefore b (r ∷ rs) → NotBefore b rs
  NotBefore-tail none r rs m = m
  NotBefore-tail (some x) r rs m = m.1

  before_r :
      (b : Option ℕ) (r : ℕ) (rs : List ℕ) → s.prev q ≡ b → NotBefore b (r ∷ rs) → s.prev q ≢ some r
  before_r none r rs p m f = absurd (let g = sym p ∙ f in cc)
  before_r (some x) r rs p m f = m.0 (some_same x r (sym p ∙ f))

  IsChain-after :
      (t : Objects) (b : Option ℕ) (rs : List ℕ)
      → IsUnlinked t
      → s.prev q ≡ b
      → NotBefore b rs
      → IsChain s (some q) (s.next q) rs
      → IsChain t b (s.next q) rs
  IsChain-after t b [] u p m c = c
  IsChain-after t b (r ∷ rs) u p m (e, f, n, c) = (
    e,
    u.prev_at r e ∙ p,
    n,
    subst (λ (o : Option ℕ). IsChain t (some r) o rs) (sym (u.next_other r (before_r b r rs p m)))
        (IsChain-kept s t (some r) (s.next r) rs
          (λ x h. (
            u.prev_other x (λ g. h (subst (λ (y : ℕ). NotIn y rs) (some_same r x (sym e ∙ g)) n)),
            u.next_other x (λ g.
                h (subst (λ (o : Option ℕ). NotBefore o rs) (sym p ∙ g) (NotBefore-tail b r rs m))),
          ))
          c),
  )

  -- The object p before the chain goes on where the chain without q starts.
  next_front :
      (t : Objects) (p : ℕ) (ps rs : List ℕ)
      → IsUnlinked t
      → NotIn p (ps ++ q ∷ rs)
      → IsChain s (some p) (s.next p) (ps ++ q ∷ rs)
      → t.next p ≡ front ps (s.next p)
  next_front t p [] rs u n (e, f, _, c) = u.next_at p f
  next_front t p (r ∷ ps) rs u n (e, f, m, c) = u.next_other p (
      prev_apart (some r) (s.next r) ps rs p c (some_apart r p (λ g. n.0 (sym g)))
        (NotIn-left p ps (q ∷ rs) n.1))

  pub IsChain-unlinked :
      (t : Objects) (b o : Option ℕ) (ps rs : List ℕ)
      → IsUnlinked t
      → NotBefore b (ps ++ q ∷ rs)
      → IsChain s b o (ps ++ q ∷ rs)
      → IsChain t b (front ps o) (ps ++ rs)
  IsChain-unlinked t b o [] rs u m (e, p, n, c) =
      IsChain-after t b rs u p (NotBefore-tail b q rs m) c
  IsChain-unlinked t b o (p ∷ ps) rs u m (e, f, n, c) = (
    e,
    u.prev_other p (next_apart (some p) (s.next p) ps rs p c (NotIn-right p q ps rs n)) ∙ f,
    NotIn-without p q ps rs n,
    subst (λ (o : Option ℕ). IsChain t (some p) o (ps ++ rs)) (sym (next_front t p ps rs u n c))
        (IsChain-unlinked t (some p) (s.next p) ps rs u n c),
  )
