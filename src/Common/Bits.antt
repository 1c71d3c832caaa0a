-- ===== src/Common/Bits.antt =====
-- The bitwise operations of C at variables: joining fields that do not overlap by `|` is `+`.
use Prim.Native.Nat.{
  ℕ, zero, suc, ◌+◌, ◌*◌, ◌/◌, ◌%◌, ◌^◌, ◌≤◌, ◌<◌, max, bit_or, digits, bit_or-bitwise,
}
use mathlib.Core.Path.{◌≡◌, refl}
use native.Mathlib.Omega.{arith}
use native.Mathlib.Nat.{pow-suc, mul_assoc, zero-add, mul-one}

-- `|` by its digit recursion, with the number of digits that it looks at.
abbrev or_digits : ℕ → ℕ → ℕ → ℕ
or_digits n a b = digits (λ b. b) max n a b

or_digits_enough : (n m a b : ℕ) → a ≤ n → a ≤ m → or_digits n a b ≡ or_digits m a b
or_digits_enough zero zero a b p q = refl
or_digits_enough zero (suc m) zero b p q = refl
or_digits_enough zero (suc m) (suc a) b p q = absurd (omega arith)
or_digits_enough (suc n) zero zero b p q = refl
or_digits_enough (suc n) zero (suc a) b p q = absurd (omega arith)
or_digits_enough (suc n) (suc m) zero b p q = refl
or_digits_enough (suc n) (suc m) (suc a) b p q =
    omega (arith, or_digits_enough n m (suc a / 2) (b / 2) (omega arith) (omega arith))

zero-bit_or : (b : ℕ) → bit_or 0 b ≡ b
zero-bit_or b = bit_or-bitwise 0 b

pub bit_or_step : (a b : ℕ) → bit_or a b ≡ bit_or (a / 2) (b / 2) * 2 + max (a % 2) (b % 2)
bit_or_step zero b = omega (arith, zero-bit_or b, zero-bit_or (b / 2))
bit_or_step (suc a) b = omega (
  arith,
  bit_or-bitwise (suc a) b,
  bit_or-bitwise (suc a / 2) (b / 2),
  or_digits_enough a (suc a / 2) (suc a / 2) (b / 2) (omega arith) (omega arith),
)

-- Low bits that the second number does not have are passed on.
bit_or_low :
    (k lo u v : ℕ) → lo < 2 ^ k → bit_or (lo + u * 2 ^ k) (v * 2 ^ k) ≡ lo + bit_or u v * 2 ^ k
bit_or_low zero zero u v h = simp (zero-add, mul-one)
bit_or_low zero (suc lo) u v h = absurd (omega arith)
bit_or_low (suc k) lo u v h =
    let e : (t : ℕ) → t * 2 ^ suc k ≡ t * 2 ^ k * 2 = λ t. simp (pow-suc, mul_assoc) in
    let x = lo + u * 2 ^ k * 2 in
    let p : x / 2 ≡ lo / 2 + u * 2 ^ k = omega arith in
    let q : v * 2 ^ k * 2 / 2 ≡ v * 2 ^ k = omega arith in
    let low : lo / 2 < 2 ^ k = omega (arith, pow-suc 2 k) in
    rw (e u, e v, e (bit_or u v), bit_or_step x (v * 2 ^ k * 2), p, q)
      (omega (arith, bit_or_low k (lo / 2) u v low))

-- A field of k bits, joined with one that starts at bit k.
pub bit_or-add : (k a b : ℕ) → a < 2 ^ k → bit_or a (b * 2 ^ k) ≡ a + b * 2 ^ k
bit_or-add k a b h =
    let e : a + 0 * 2 ^ k ≡ a = omega arith in
    rw (zero-bit_or b) at (rw e at (bit_or_low k a 0 b h))

bit_or_comm_upto : (n a b : ℕ) → a ≤ n → b ≤ n → bit_or a b ≡ bit_or b a
bit_or_comm_upto zero zero zero p q = refl
bit_or_comm_upto zero zero (suc b) p q = absurd (omega arith)
bit_or_comm_upto zero (suc a) b p q = absurd (omega arith)
bit_or_comm_upto (suc n) a b p q = omega (
  arith,
  bit_or_step a b,
  bit_or_step b a,
  bit_or_comm_upto n (a / 2) (b / 2) (omega arith) (omega arith),
)

pub bit_or_comm : (a b : ℕ) → bit_or a b ≡ bit_or b a
bit_or_comm a b = bit_or_comm_upto (a + b) a b (omega arith) (omega arith)

-- A field of m bits put under one that starts m bits above it.
pub bit_or_between :
    (k m lo c b : ℕ)
    → lo < 2 ^ k
    → c < 2 ^ m
    → bit_or (lo + b * 2 ^ m * 2 ^ k) (c * 2 ^ k) ≡ lo + (c + b * 2 ^ m) * 2 ^ k
bit_or_between k m lo c b h hc =
    rw (bit_or_low k lo (b * 2 ^ m) c h, bit_or_comm (b * 2 ^ m) c, bit_or-add m c b hc)
