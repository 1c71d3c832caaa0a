-- ===== src/LargeObjects/Enlisted.antt =====
-- The list of large objects as allocLarge makes it, whose objects have no prev_, and what evacuateLarge
-- does to it.
use lambdachine.Common.{
  ℕ, ◌≡◌, ◌≢◌, refl, sym, ap, ◌∙◌, true, false, write, Option, none, some, List, [], ◌∷◌, ◌++◌,
  arith,
}
use mathlib.Core.Path.{subst}
use lambdachine.MemoryManager.Grab.{write-here, write-other}
use lambdachine.LargeObjects.{Objects, set_prev, unlink_large, enlist_large, evacuate_large}
use lambdachine.LargeObjects.Linked.{NotIn}
use lambdachine.LargeObjects.Unlink.{unlink_next-none}
use lambdachine.LargeObjects.Collected.{moved, evacuate_large-unmarked}

-- The objects stand one after the other from o on, none with a prev_ and none twice.
abbrev pub IsListed : Objects → Option ℕ → List ℕ → Type 0
IsListed s o [] = o ≡ none
IsListed s o (x ∷ xs) = (o ≡ some x) × (s.prev x ≡ none) × NotIn x xs × IsListed s (s.next x) xs

-- The newest object first.
abbrev pub IsEnlisted : Objects → List ℕ → Type 0
IsEnlisted s xs = IsListed s s.large xs

-- The list is kept when its objects keep their fields, or their prev_ becomes none.
IsListed-kept :
    (s t : Objects) (o : Option ℕ) (xs : List ℕ) (q : ℕ)
    → ((x : ℕ) → x ≢ q → s.prev x ≡ none → t.prev x ≡ none)
    → ((x : ℕ) → x ≢ q → t.next x ≡ s.next x)
    → NotIn q xs
    → IsListed s o xs
    → IsListed t o xs
IsListed-kept s t o [] q p n m l = l
IsListed-kept s t o (x ∷ xs) q p n m (e, f, d, l) =
    let other : x ≢ q = λ g. m.0 (sym g) in
    (
      e,
      p x other f,
      d,
      subst (λ (r : Option ℕ). IsListed t r xs) (sym (n x other))
          (IsListed-kept s t (s.next x) xs q p n m.1 l),
    )

-- What stands behind q, and q itself.
behind :
    (s : Objects) (q : ℕ) (o : Option ℕ) (ps rs : List ℕ)
    → IsListed s o (ps ++ q ∷ rs)
    → (s.prev q ≡ none) × NotIn q rs × IsListed s (s.next q) rs
behind s q o [] rs (e, p, n, l) = (p, n, l)
behind s q o (p ∷ ps) rs (e, f, n, l) = behind s q (s.next p) ps rs l

-- allocLarge puts a new object in front of the list.
pub enlist_large-IsEnlisted :
    (s : Objects) (q bytes : ℕ) (xs : List ℕ)
    → NotIn q xs
    → IsEnlisted s xs
    → IsEnlisted (enlist_large s q bytes) (q ∷ xs)
unfolding enlist_large
enlist_large-IsEnlisted s q bytes xs n l =
    let t = enlist_large s q bytes in
    let rest =
      IsListed-kept s t s.large xs q (λ x d e. write-other s.prev q x none d ∙ e)
        (λ x d. write-other s.next q x s.large d) n l in
    (
      refl,
      write-here s.prev q none,
      n,
      subst (λ (o : Option ℕ). IsListed t o xs) (sym (write-here s.next q s.large)) rest,
    )

-- Unlinking an object without prev_ moves the head of the list behind it, and gives no prev_.
record IsCut (s : Objects) (q : ℕ) (t : Objects) : Type 0 where
  large : t.large ≡ s.next q
  prev : (x : ℕ) → s.prev x ≡ none → t.prev x ≡ none
  next : (x : ℕ) → t.next x ≡ s.next x
  mark : (x : ℕ) → t.mark x ≡ s.mark x
  evacuated : t.evacuated ≡ s.evacuated

set_prev-none :
    (s : Objects) (o : Option ℕ) (x : ℕ) → s.prev x ≡ none → (set_prev s o none).prev x ≡ none
set_prev-none s none x e = e
set_prev-none s (some p) x e = ground arith

abbrev headed : Objects → ℕ → Objects
headed s q = record s { large = s.next q }

set_prev-IsCut : (s : Objects) (q : ℕ) (o : Option ℕ) → IsCut s q (set_prev (headed s q) o none)
set_prev-IsCut s q none = record {
  large = refl;
  prev = λ x e. e;
  next = λ x. refl;
  mark = λ x. refl;
  evacuated = refl;
}
set_prev-IsCut s q (some p) = record {
  large = refl;
  prev = λ x e. set_prev-none s (some p) x e;
  next = λ x. refl;
  mark = λ x. refl;
  evacuated = refl;
}

unlink_large-IsCut : (s : Objects) (q : ℕ) → s.prev q ≡ none → IsCut s q (unlink_large s q)
unfolding unlink_large
unlink_large-IsCut s q e =
    let same : unlink_large s q ≡ set_prev (headed s q) (s.next q) none =
      ap (λ (t : Objects). set_prev t (t.next q) (t.prev q)) (unlink_next-none s q e)
      ∙ ap (set_prev (headed s q) (s.next q)) e in
    subst (IsCut s q) (sym same) (set_prev-IsCut s q (s.next q))

-- What an evacuation leaves of the list, and the object in front of the evacuated ones.
pub record IsCutBehind (s : Objects) (q : ℕ) (rs : List ℕ) (t : Objects) : Type 0 where
  pub large : IsEnlisted t rs
  pub evacuated : t.evacuated ≡ some q
  pub next : t.next q ≡ s.evacuated
  pub mark : t.mark q ≡ true

-- Evacuating an unmarked object of a list of large objects as allocLarge makes it, none of whose
-- objects has a prev_, marks the object and puts it in front of the evacuated ones. Of the list it
-- leaves the objects behind it, those that were allocated before, and no other: the objects in
-- front of it, which were allocated later, are lost.
pub evacuate_large-IsEnlisted :
    (s : Objects) (q : ℕ) (ps rs : List ℕ)
    → IsEnlisted s (ps ++ q ∷ rs)
    → s.mark q ≡ false
    → IsCutBehind s q rs (evacuate_large s q)
evacuate_large-IsEnlisted s q ps rs l e =
    let marked : Objects = record s { mark = write s.mark q true } in
    let s1 = unlink_large marked q in
    let (free, out, rest) = behind s q s.large ps rs l in
    let cut = unlink_large-IsCut marked q free in
    let kept =
      IsListed-kept s (moved s q) (s.next q) rs q
        (λ x d f. write-other s1.prev q x none d ∙ cut.prev x f)
        (λ x d. write-other s1.next q x s1.evacuated d ∙ cut.next x) out rest in
    let result : IsCutBehind s q rs (moved s q) = record {
      large = subst (λ (o : Option ℕ). IsListed (moved s q) o rs) (sym cut.large) kept;
      evacuated = refl;
      next = write-here s1.next q s1.evacuated ∙ cut.evacuated;
      mark = cut.mark q ∙ write-here s.mark q true;
    } in
    subst (IsCutBehind s q rs) (sym (evacuate_large-unmarked s q e)) result
