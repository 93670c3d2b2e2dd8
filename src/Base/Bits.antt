-- ===== src/Base/Bits.antt =====
-- Bit operations at a run of low ones, as arithmetic: the masks of prefixes and packed words.
use Prim.Native.Nat.{
  ℕ, zero, suc, ◌+◌, ◌-◌, ◌*◌, ◌/◌, ◌%◌, ◌^◌, ◌≤◌, ◌<◌, min, max, bit_and, bit_or, digits,
  bit_and-bitwise, bit_or-bitwise,
}
use mathlib.Core.Path.{◌≡◌, refl, sym, ◌∙◌, ap}
use native.Mathlib.Omega.{arith}
use native.Mathlib.Nat.{pow-suc, div-div-eq-div-mul, mul_comm, div-add-mod}
use Prim.Native.Nat.add

module _ (rest : ℕ → ℕ) (bit : ℕ → ℕ → ℕ) where
  -- The recursion that a native bit operation stands for needs no more rounds than its argument.
  rounds : (x y k l : ℕ) → x ≤ k → x ≤ l → digits rest bit k x y ≡ digits rest bit l x y
  rounds zero y zero zero h i = refl
  rounds zero y (suc k) (suc l) h i = refl
  rounds zero y (suc k) zero h i = refl
  rounds zero y zero (suc l) h i = refl
  rounds (suc x) y (suc k) (suc l) h i =
      ap (λ t. t * 2 + bit (suc x % 2) (y % 2))
        (rounds (suc x / 2) (y / 2) k l (omega arith) (omega arith))
  rounds (suc x) y zero l h i = absurd (omega arith)
  rounds (suc x) y (suc k) zero h i = absurd (omega arith)

pub zero-bit_or : (b : ℕ) → bit_or 0 b ≡ b
zero-bit_or b = bit_or-bitwise 0 b

-- One binary digit at a time, the lowest first.
bit_or_step : (x y : ℕ) → bit_or x y ≡ max (x % 2) (y % 2) + 2 * bit_or (x / 2) (y / 2)
bit_or_step zero y = omega (arith, zero-bit_or y, zero-bit_or (y / 2))
bit_or_step (suc x) y =
    let shorter =
      rounds (λ t. t) max (suc x / 2) (y / 2) x (suc x / 2) (omega arith) (omega arith) in
    omega (arith, shorter, bit_or-bitwise (suc x / 2) (y / 2), bit_or-bitwise (suc x) y)

bit_and_step : (x y : ℕ) → bit_and x y ≡ min (x % 2) (y % 2) + 2 * bit_and (x / 2) (y / 2)
bit_and_step zero y = omega (arith, bit_and-bitwise 0 y, bit_and-bitwise 0 (y / 2))
bit_and_step (suc x) y =
    let shorter =
      rounds (λ t. 0) min (suc x / 2) (y / 2) x (suc x / 2) (omega arith) (omega arith) in
    omega (arith, shorter, bit_and-bitwise (suc x / 2) (y / 2), bit_and-bitwise (suc x) y)

pub pow_pos : (n : ℕ) → 0 < 2 ^ n
pow_pos zero = omega arith
pow_pos (suc n) = omega (arith, pow-suc 2 n, pow_pos n)

pub pow-add : (m n : ℕ) → 2 ^ (m + n) ≡ 2 ^ m * 2 ^ n
pow-add zero n = rw (add.zero n) (omega arith)
pow-add (suc m) n = rw (add.suc m n) (
    omega (
      arith,
      pow-suc 2 (m + n),
      ap (λ (t : ℕ). t * 2 ^ n) (pow-suc 2 m),
      ap (λ t. t * 2) (pow-add m n),
    ))

-- A zero on the right, by the number of rounds left.
zero_right : (k x : ℕ) → x ≤ k → (bit_or x 0 ≡ x) × (bit_and x 0 ≡ 0)
zero_right k zero h = (bit_or-bitwise 0 0, bit_and-bitwise 0 0)
zero_right zero (suc x) h = absurd (omega arith)
zero_right (suc k) (suc x) h =
    let (either, both) = zero_right k (suc x / 2) (omega arith) in
    (omega (arith, either, bit_or_step (suc x) 0), omega (arith, both, bit_and_step (suc x) 0))

pub bit_or-zero : (a : ℕ) → bit_or a 0 ≡ a
bit_or-zero a = (zero_right a a (omega arith)).0

bit_and-zero : (a : ℕ) → bit_and a 0 ≡ 0
bit_and-zero a = (zero_right a a (omega arith)).1

-- A mask of `p` values doubled.
module _ (p a : ℕ) (pos : 0 < p) where
  halved : a / (p * 2) ≡ a / 2 / p
  halved = rw (mul_comm p 2) (sym (div-div-eq-div-mul a 2 p))

  or_double :
      bit_or (a / 2) (p - 1) ≡ a / 2 / p * p + (p - 1)
      → bit_or a (p * 2 - 1) ≡ a / (p * 2) * (p * 2) + (p * 2 - 1)
  or_double ih = rw halved (omega (arith, ih, bit_or_step a (p * 2 - 1), half_mask, odd_mask))
    where
      half_mask : bit_or (a / 2) ((p * 2 - 1) / 2) ≡ bit_or (a / 2) (p - 1)
      half_mask = ap (bit_or (a / 2)) (omega arith)

      odd_mask : max (a % 2) ((p * 2 - 1) % 2) ≡ 1
      odd_mask = omega arith

  and_double : bit_and (a / 2) (p - 1) ≡ a / 2 % p → bit_and a (p * 2 - 1) ≡ a % (p * 2)
  and_double ih = omega (
    arith,
    ih,
    bit_and_step a (p * 2 - 1),
    ap (bit_and (a / 2)) (let e : (p * 2 - 1) / 2 ≡ p - 1 = omega arith in e),
    div-add-mod a (p * 2),
    div-add-mod (a / 2) p,
    ap (λ (t : ℕ). p * 2 * t) halved,
  )

-- `a | (1 << h) - 1` sets the low bits.
pub bit_or-mask : (h a : ℕ) → bit_or a (2 ^ h - 1) ≡ a / 2 ^ h * 2 ^ h + (2 ^ h - 1)
bit_or-mask zero a = omega (arith, bit_or-zero a)
bit_or-mask (suc h) a = rw (pow-suc 2 h) (or_double (2 ^ h) a (pow_pos h) (bit_or-mask h (a / 2)))

-- `a & (1 << h) - 1` keeps them.
pub bit_and-mask : (h a : ℕ) → bit_and a (2 ^ h - 1) ≡ a % 2 ^ h
bit_and-mask zero a = omega (arith, bit_and-zero a)
bit_and-mask (suc h) a =
    rw (pow-suc 2 h) (and_double (2 ^ h) a (pow_pos h) (bit_and-mask h (a / 2)))

or_shift_double :
    (p a b : ℕ) → bit_or (a * p) (b / 2) ≡ a * p + b / 2 → bit_or (a * (p * 2)) b ≡ a * (p * 2) + b
or_shift_double p a b ih = omega (
  arith,
  ih,
  bit_or_step (a * (p * 2)) b,
  ap (λ t. bit_or t (b / 2)) (let e : a * (p * 2) / 2 ≡ a * p = omega arith in e),
)

-- `a << h | b` at a `b` that fits.
pub bit_or-shift : (h a b : ℕ) → b < 2 ^ h → bit_or (a * 2 ^ h) b ≡ a * 2 ^ h + b
bit_or-shift zero a b k = let e : b ≡ 0 = omega arith in rw e (omega (arith, bit_or-zero (a * 1)))
bit_or-shift (suc h) a b k =
    rw (pow-suc 2 h)
      (or_shift_double (2 ^ h) a b (bit_or-shift h a (b / 2) (omega (arith, pow-suc 2 h))))

bit_or_comm_fuel : (n a b : ℕ) → a ≤ n → b ≤ n → bit_or a b ≡ bit_or b a
bit_or_comm_fuel n zero b p q = zero-bit_or b ∙ sym (bit_or-zero b)
bit_or_comm_fuel n (suc a) zero p q = bit_or-zero (suc a) ∙ sym (zero-bit_or (suc a))
bit_or_comm_fuel zero (suc a) (suc b) p q = absurd (omega arith)
bit_or_comm_fuel (suc n) (suc a) (suc b) p q = omega (
  arith,
  bit_or_step (suc a) (suc b),
  bit_or_step (suc b) (suc a),
  bit_or_comm_fuel n (suc a / 2) (suc b / 2) (omega arith) (omega arith),
)

pub bit_or_comm : (a b : ℕ) → bit_or a b ≡ bit_or b a
bit_or_comm a b = bit_or_comm_fuel (a + b) a b (omega arith) (omega arith)
