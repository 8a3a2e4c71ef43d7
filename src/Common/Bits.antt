-- ===== src/Common/Bits.antt =====
-- `|` of fields that do not overlap and `&` with a mask of low bits, as arithmetic.
use Prim.Native.Nat.{
  ℕ, zero, suc, ◌+◌, ◌-◌, ◌*◌, ◌/◌, ◌%◌, ◌^◌, ◌≤◌, ◌<◌, min, max, bit_and, bit_or, digits, bitwise,
  bit_and-bitwise, bit_or-bitwise, bit_xor, bit_xor-bitwise, differ,
}
use mathlib.Core.Path.{◌≡◌, refl, ap}
use native.Mathlib.Omega.{arith}
use native.Mathlib.Nat.{pow-suc, one-le-pow, div-div-eq-div-mul}

-- The fuel of the digit recursion does not matter once it reaches the number.
fuel_irrelevant :
    (z : ℕ → ℕ) (f : ℕ → ℕ → ℕ) (n m a b : ℕ) → a ≤ n → a ≤ m → digits z f n a b ≡ digits z f m a b
fuel_irrelevant z f zero zero a b p q = refl
fuel_irrelevant z f zero (suc m) zero b p q = refl
fuel_irrelevant z f zero (suc m) (suc a) b p q = absurd (omega arith)
fuel_irrelevant z f (suc n) zero zero b p q = refl
fuel_irrelevant z f (suc n) zero (suc a) b p q = absurd (omega arith)
fuel_irrelevant z f (suc n) (suc m) zero b p q = refl
fuel_irrelevant z f (suc n) (suc m) (suc a) b p q =
    rw (fuel_irrelevant z f n m (suc a / 2) (b / 2) (omega arith) (omega arith))

lowest_digit :
    (z : ℕ → ℕ) (f : ℕ → ℕ → ℕ) (a b : ℕ)
    → bitwise z f (suc a) b ≡ bitwise z f (suc a / 2) (b / 2) * 2 + f (suc a % 2) (b % 2)
lowest_digit z f a b =
    omega (arith, fuel_irrelevant z f a (suc a / 2) (suc a / 2) (b / 2) (omega arith) (omega arith))

or_halves : (a b : ℕ) → bit_or a b ≡ bit_or (a / 2) (b / 2) * 2 + max (a % 2) (b % 2)
or_halves zero b = simp bit_or-bitwise (omega arith)
or_halves (suc a) b = simp bit_or-bitwise (lowest_digit (λ y. y) max a b)

and_halves : (a b : ℕ) → bit_and a b ≡ bit_and (a / 2) (b / 2) * 2 + min (a % 2) (b % 2)
and_halves zero b = simp bit_and-bitwise (omega arith)
and_halves (suc a) b = simp bit_and-bitwise (lowest_digit (λ y. 0) min a b)

or_zero_below : (n a : ℕ) → a ≤ n → bit_or a 0 ≡ a
or_zero_below n zero h = refl
or_zero_below zero (suc a) h = absurd (omega arith)
or_zero_below (suc n) (suc a) h =
    omega (arith, or_halves (suc a) 0, or_zero_below n (suc a / 2) (omega arith))

pub bit_or-zero : (a : ℕ) → bit_or a 0 ≡ a
bit_or-zero a = or_zero_below a a (omega arith)

and_zero_below : (n a : ℕ) → a ≤ n → bit_and a 0 ≡ 0
and_zero_below n zero h = refl
and_zero_below zero (suc a) h = absurd (omega arith)
and_zero_below (suc n) (suc a) h =
    omega (arith, and_halves (suc a) 0, and_zero_below n (suc a / 2) (omega arith))

double_pow : (q k : ℕ) → q * 2 ^ suc k ≡ 2 * (q * 2 ^ k)
double_pow q k = omega (arith, ap (λ (t : ℕ). q * t) (pow-suc 2 k))

-- A field of `k` low bits joined by `|` to a value shifted over it is a sum.
pub bit_or-eq-add : (k q r : ℕ) → r < 2 ^ k → bit_or (q * 2 ^ k) r ≡ q * 2 ^ k + r
bit_or-eq-add zero q r h = ground (arith, bit_or-zero q)
bit_or-eq-add (suc k) q r h =
    ground
      (arith, or_halves (q * 2 ^ suc k) r, double_pow q k, bit_or-eq-add k q (r / 2) (omega arith))

bit_and_split : (k q r : ℕ) → r < 2 ^ k → bit_and (q * 2 ^ k + r) (2 ^ k - 1) ≡ r
bit_and_split zero q r h = omega (arith, and_zero_below (q * 1 + r) (q * 1 + r) (omega arith))
bit_and_split (suc k) q r h = ground (
  arith,
  and_halves (q * 2 ^ suc k + r) (2 ^ suc k - 1),
  double_pow q k,
  pow-suc 2 k,
  bit_and_split k q (r / 2) (omega arith),
)

-- A mask of the `k` low bits is the remainder by `2 ^ k`.
pub bit_and-mask : (k a : ℕ) → bit_and a (2 ^ k - 1) ≡ a % 2 ^ k
bit_and-mask k a = ground (arith, one-le-pow k 2, bit_and_split k (a / 2 ^ k) (a % 2 ^ k))

or_comm_below : (n a b : ℕ) → a + b ≤ n → bit_or a b ≡ bit_or b a
or_comm_below n zero zero h = refl
or_comm_below zero (suc a) b h = absurd (omega arith)
or_comm_below zero zero (suc b) h = absurd (omega arith)
or_comm_below (suc n) (suc a) b h = ground (
  arith,
  or_halves (suc a) b,
  or_halves b (suc a),
  or_comm_below n (suc a / 2) (b / 2) (omega arith),
)
or_comm_below (suc n) zero (suc b) h = ground (
  arith,
  or_halves zero (suc b),
  or_halves (suc b) zero,
  or_comm_below n (zero / 2) (suc b / 2) (omega arith),
)

pub bit_or_comm : (a b : ℕ) → bit_or a b ≡ bit_or b a
bit_or_comm a b = or_comm_below (a + b) a b (omega arith)

-- A mask of higher bits masks the digits above them.
pub bit_and-shift : (k a m : ℕ) → bit_and a (m * 2 ^ k) ≡ bit_and (a / 2 ^ k) m * 2 ^ k
bit_and-shift zero a m = ground arith
bit_and-shift (suc k) a m = ground (
  arith,
  pow-suc 2 k,
  one-le-pow k 2,
  double_pow m k,
  double_pow (bit_and (a / 2 ^ suc k) m) k,
  and_halves a (m * 2 ^ suc k),
  bit_and-shift k (a / 2) m,
  div-div-eq-div-mul a 2 (2 ^ k),
)

-- The low bits of a number are joined on their own.
pub bit_or-low :
    (k q r s : ℕ) → r < 2 ^ k → s < 2 ^ k → bit_or (q * 2 ^ k + r) s ≡ q * 2 ^ k + bit_or r s
bit_or-low zero q r s hr hs = ground (arith, bit_or-zero q, bit_or-zero (q * 1 + 0))
bit_or-low (suc k) q r s hr hs = ground (
  arith,
  pow-suc 2 k,
  double_pow q k,
  or_halves (q * 2 ^ suc k + r) s,
  or_halves r s,
  bit_or-low k q (r / 2) (s / 2) (omega arith) (omega arith),
)

pub zero-bit_and : (b : ℕ) → bit_and 0 b ≡ 0
zero-bit_and b = simp bit_and-bitwise

differ_zero : (y : ℕ) → differ 0 y ≡ y
differ_zero y = refl

differ_digit : (x y : ℕ) → x < 2 → y < 2 → differ x y < 2
differ_digit zero y hx hy = hy
differ_digit (suc zero) zero hx hy = hx
differ_digit (suc zero) (suc y) hx hy = omega arith
differ_digit (suc (suc x)) y hx hy = absurd (omega arith)

xor_halves : (a b : ℕ) → bit_xor a b ≡ bit_xor (a / 2) (b / 2) * 2 + differ (a % 2) (b % 2)
xor_halves zero b = simp bit_xor-bitwise (omega (arith, differ_zero (b % 2)))
xor_halves (suc a) b = simp bit_xor-bitwise (lowest_digit (λ y. y) differ a b)

-- Exclusive or stays within a width.
pub bit_xor-lt-pow : (k a b : ℕ) → a < 2 ^ k → b < 2 ^ k → bit_xor a b < 2 ^ k
bit_xor-lt-pow zero a b ha hb =
    let za : a ≡ 0 = omega arith in let zb : b ≡ 0 = omega arith in rw (za, zb) (omega arith)
bit_xor-lt-pow (suc k) a b ha hb = omega (
  arith,
  pow-suc 2 k,
  xor_halves a b,
  differ_digit (a % 2) (b % 2) (omega arith) (omega arith),
  bit_xor-lt-pow k (a / 2) (b / 2) (omega (arith, pow-suc 2 k)) (omega (arith, pow-suc 2 k)),
)
