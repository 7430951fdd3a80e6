-- ===== src/Base/Bits.antt =====
-- `|` and `&` of C at variables: numbers with no common bit are added by `|`, and a mask of ones
-- is a remainder. The laws come from the digit recursion that the native operations stand for.
use Prim.Native.Nat.{
  ℕ, zero, suc, ◌+◌, ◌*◌, ◌/◌, ◌%◌, ◌^◌, ◌≤◌, ◌<◌, min, max, bit_and, bit_or, digits,
  bit_and-bitwise, bit_or-bitwise,
}
use mathlib.Core.Path.{◌≡◌, refl}
use native.Mathlib.Nat.{pow-suc}
use native.Mathlib.Omega.{arith}

module _ (rest : ℕ → ℕ) (digit : ℕ → ℕ → ℕ) where
  -- Rounds beyond the first operand change nothing: `g` bounds the rounds of either side.
  canonical :
      (g rounds x y : ℕ)
      → rounds ≤ g
      → x ≤ rounds
      → digits rest digit rounds x y ≡ digits rest digit x x y
  canonical g rounds zero y hg hx = elim rounds as (λ r. digits rest digit r 0 y ≡ rest y) [
    | zero ↦ refl
    | suc r ↦ refl
  ]
  canonical g zero (suc x) y hg hx = absurd (omega arith)
  canonical zero (suc rounds) (suc x) y hg hx = absurd (omega arith)
  canonical (suc g) (suc rounds) (suc x) y hg hx =
      let half = suc x / 2 in
      omega (
        arith,
        canonical g rounds half (y / 2) (omega arith) (omega arith),
        canonical g x half (y / 2) (omega arith) (omega arith),
      )

  lowest_digit :
      (x y : ℕ)
      → digits rest digit (suc x) (suc x) y
        ≡ digits rest digit (suc x / 2) (suc x / 2) (y / 2) * 2 + digit (suc x % 2) (y % 2)
  lowest_digit x y = omega (arith, canonical x x (suc x / 2) (y / 2) (omega arith) (omega arith))

bit_and_step : (x y : ℕ) → bit_and x y ≡ bit_and (x / 2) (y / 2) * 2 + min (x % 2) (y % 2)
bit_and_step zero y = omega (arith, bit_and-bitwise 0 y, bit_and-bitwise 0 (y / 2))
bit_and_step (suc x) y = omega (
  arith,
  lowest_digit (λ _. 0) min x y,
  bit_and-bitwise (suc x) y,
  bit_and-bitwise (suc x / 2) (y / 2),
)

zero-bit_or : (y : ℕ) → bit_or 0 y ≡ y
zero-bit_or y = bit_or-bitwise 0 y

bit_or_step : (x y : ℕ) → bit_or x y ≡ bit_or (x / 2) (y / 2) * 2 + max (x % 2) (y % 2)
bit_or_step zero y = omega (arith, zero-bit_or y, zero-bit_or (y / 2))
bit_or_step (suc x) y = omega (
  arith,
  lowest_digit (λ b. b) max x y,
  bit_or-bitwise (suc x) y,
  bit_or-bitwise (suc x / 2) (y / 2),
)

bit_or-zero_fuel : (n a : ℕ) → a ≤ n → bit_or a 0 ≡ a
bit_or-zero_fuel n zero h = refl
bit_or-zero_fuel zero (suc a) h = absurd (omega arith)
bit_or-zero_fuel (suc n) (suc a) h =
    omega (arith, bit_or_step (suc a) 0, bit_or-zero_fuel n (suc a / 2) (omega arith))

pub bit_or-zero : (a : ℕ) → bit_or a 0 ≡ a
bit_or-zero a = bit_or-zero_fuel a a (omega arith)

-- The digits below and above place `k` are joined apart.
pub bit_or_split :
    (k p q a b : ℕ)
    → a < 2 ^ k
    → b < 2 ^ k
    → bit_or (p * 2 ^ k + a) (q * 2 ^ k + b) ≡ bit_or p q * 2 ^ k + bit_or a b
bit_or_split zero p q a b ha hb =
    let ea : a ≡ 0 = omega arith in
    let eb : b ≡ 0 = omega arith in
    let ep : p * 1 + 0 ≡ p = omega arith in
    let eq : q * 1 + 0 ≡ q = omega arith in rw (ea, eb) (rw (ep, eq) (omega (arith, zero-bit_or 0)))
bit_or_split (suc k) p q a b ha hb = omega (
  arith,
  rw (half p a, half q b) at (bit_or_step (p * 2 ^ suc k + a) (q * 2 ^ suc k + b)),
  bit_or_step a b,
  bit_or_split k p q (a / 2) (b / 2) (omega (arith, pow-suc 2 k)) (omega (arith, pow-suc 2 k)),
  twice p,
  twice q,
  twice (bit_or p q),
)
  where
    twice : (n : ℕ) → n * 2 ^ suc k ≡ n * 2 ^ k * 2
    twice n = rw pow-suc (omega arith)

    half : (n c : ℕ) → (n * 2 ^ suc k + c) / 2 ≡ n * 2 ^ k + c / 2
    half n c = omega (arith, twice n)

-- Numbers with no bit in common are added.
pub bit_or_high_low : (k a b : ℕ) → b < 2 ^ k → bit_or (a * 2 ^ k) b ≡ a * 2 ^ k + b
bit_or_high_low k a b h =
    let z : 0 < 2 ^ k = omega arith in
    let ea : a * 2 ^ k + 0 ≡ a * 2 ^ k = omega arith in
    let eb : 0 * 2 ^ k + b ≡ b = omega arith in
    omega (arith, rw (ea, eb, bit_or-zero a, zero-bit_or b) at (bit_or_split k a 0 0 b z h))

pub bit_or_low_high : (k a b : ℕ) → b < 2 ^ k → bit_or b (a * 2 ^ k) ≡ a * 2 ^ k + b
bit_or_low_high k a b h =
    let z : 0 < 2 ^ k = omega arith in
    let ea : a * 2 ^ k + 0 ≡ a * 2 ^ k = omega arith in
    let eb : 0 * 2 ^ k + b ≡ b = omega arith in
    omega (arith, rw (ea, eb, bit_or-zero b, zero-bit_or a) at (bit_or_split k 0 a b 0 h z))

-- A bound on the operand carries the induction.
bit_and-zero_below : (g x : ℕ) → x ≤ g → bit_and x 0 ≡ 0
bit_and-zero_below g zero h = refl
bit_and-zero_below zero (suc x) h = absurd (omega arith)
bit_and-zero_below (suc g) (suc x) h =
    let smaller = bit_and-zero_below g (suc x / 2) (omega arith) in
    omega (arith, smaller, bit_and_step (suc x) 0)

bit_and-zero : (x : ℕ) → bit_and x 0 ≡ 0
bit_and-zero x = bit_and-zero_below x x (omega arith)

bit_and_odd : (a m : ℕ) → bit_and a (m * 2 + 1) ≡ bit_and (a / 2) m * 2 + a % 2
bit_and_odd a m =
    let e : (m * 2 + 1) / 2 ≡ m = omega arith in omega (arith, rw e at (bit_and_step a (m * 2 + 1)))

bit_and_even : (a m n : ℕ) → n ≡ m * 2 → bit_and a n ≡ bit_and (a / 2) m * 2
bit_and_even a m n h = let e : n / 2 ≡ m = omega arith in omega (arith, rw e at (bit_and_step a n))

-- A mask of eight ones.
pub bit_and-byte : (a : ℕ) → bit_and a 255 ≡ a % 256
bit_and-byte a = omega (
  arith,
  bit_and_odd a 127,
  bit_and_odd (a / 2) 63,
  bit_and_odd (a / 2 / 2) 31,
  bit_and_odd (a / 2 / 2 / 2) 15,
  bit_and_odd (a / 2 / 2 / 2 / 2) 7,
  bit_and_odd (a / 2 / 2 / 2 / 2 / 2) 3,
  bit_and_odd (a / 2 / 2 / 2 / 2 / 2 / 2) 1,
  bit_and_odd (a / 2 / 2 / 2 / 2 / 2 / 2 / 2) 0,
  bit_and-zero (a / 2 / 2 / 2 / 2 / 2 / 2 / 2 / 2),
)

-- A mask shifted by eight.
pub bit_and_shift8 : (a m : ℕ) → bit_and a (m * 256) ≡ bit_and (a / 256) m * 256
bit_and_shift8 a m = rw (← split a) (
    omega (
      arith,
      bit_and_even a (m * 128) (m * 256) (omega arith),
      bit_and_even (a / 2) (m * 64) (m * 128) (omega arith),
      bit_and_even (a / 2 / 2) (m * 32) (m * 64) (omega arith),
      bit_and_even (a / 2 / 2 / 2) (m * 16) (m * 32) (omega arith),
      bit_and_even (a / 2 / 2 / 2 / 2) (m * 8) (m * 16) (omega arith),
      bit_and_even (a / 2 / 2 / 2 / 2 / 2) (m * 4) (m * 8) (omega arith),
      bit_and_even (a / 2 / 2 / 2 / 2 / 2 / 2) (m * 2) (m * 4) (omega arith),
      bit_and_even (a / 2 / 2 / 2 / 2 / 2 / 2 / 2) m (m * 2) (omega arith),
    ))
  where
    split : (n : ℕ) → n / 2 / 2 / 2 / 2 / 2 / 2 / 2 / 2 ≡ n / 256
    split n = omega arith
