-- ===== src/Prelude/Bits.antt =====
-- A single bit of a word: `w & (1 << k) != 0` and `w | (1 << k)`, for every position.
use Prim.Native.Nat.{
  ℕ, zero, suc, ◌+◌, ◌-◌, ◌<◌, ◌*◌, ◌/◌, ◌%◌, ◌^◌, ◌≤◌, min, max, bit_and, bit_or, digits,
  bit_and-bitwise, bit_or-bitwise,
}
use mathlib.Core.Path.{◌≡◌, refl, ◌∙◌, subst}
use mathlib.Core.Bool.{Bool, false, ◌||◌}
use native.Mathlib.Omega.{arith}
use native.Mathlib.Nat.{pow-suc}
use quay_titan_integration.Prelude.Tests.{◌==◌, ◌!=◌}

-- A number is reached from 0 by steps that undo a halving.
halving_at :
    (P : ℕ → Type 0) (zero_case : P 0) (step : (x : ℕ) → 0 < x → P (x / 2) → P x) (bound x : ℕ)
    → x ≤ bound
    → P x
halving_at P zero_case step bound zero le = zero_case
halving_at P zero_case step zero (suc x) le = absurd (omega arith)
halving_at P zero_case step (suc bound) (suc x) le =
    step (suc x) (omega arith) (halving_at P zero_case step bound (suc x / 2) (omega arith))

by_halving : (P : ℕ → Type 0) → P 0 → ((x : ℕ) → 0 < x → P (x / 2) → P x) → (x : ℕ) → P x
by_halving P zero_case step x = halving_at P zero_case step x x (omega arith)

abbrev more : ℕ → ℕ → ℕ
more zero spare = spare
more (suc fuel) spare = suc (more fuel spare)

more-add : (fuel spare : ℕ) → more fuel spare ≡ fuel + spare
more-add zero spare = omega arith
more-add (suc fuel) spare = omega (arith, more-add fuel spare)

-- More fuel than the first number needs makes no difference.
module _ (edge : ℕ → ℕ) (join : ℕ → ℕ → ℕ) where
  no_digits : (fuel y : ℕ) → digits edge join fuel 0 y ≡ edge y
  no_digits zero y = refl
  no_digits (suc fuel) y = refl

  spare_fuel :
      (fuel spare x y : ℕ)
      → x ≤ fuel
      → digits edge join (more fuel spare) x y ≡ digits edge join fuel x y
  spare_fuel zero spare zero y le = no_digits spare y
  spare_fuel zero spare (suc x) y le = absurd (omega arith)
  spare_fuel (suc fuel) spare zero y le = refl
  spare_fuel (suc fuel) spare (suc x) y le =
      rw (spare_fuel fuel spare (suc x / 2) (y / 2) (omega arith)) refl

  exact_fuel : (fuel x y : ℕ) → x ≤ fuel → digits edge join fuel x y ≡ digits edge join x x y
  exact_fuel fuel x y le =
      let enough : more x (fuel - x) ≡ fuel = omega (arith, more-add x (fuel - x)) in
      subst (λ n. digits edge join n x y ≡ digits edge join x x y) enough
        (spare_fuel x (fuel - x) x y (omega arith))

zero-bit_and : (y : ℕ) → bit_and 0 y ≡ 0
zero-bit_and y = bit_and-bitwise 0 y

bit_and-halves : (x y : ℕ) → bit_and x y ≡ bit_and (x / 2) (y / 2) * 2 + min (x % 2) (y % 2)
bit_and-halves zero y = omega (arith, zero-bit_and y, zero-bit_and (y / 2))
bit_and-halves (suc x) y =
    let rest = exact_fuel (λ n. 0) min x (suc x / 2) (y / 2) (omega arith) in
    omega (arith, rest, bit_and-bitwise (suc x) y, bit_and-bitwise (suc x / 2) (y / 2))

zero-bit_or : (y : ℕ) → bit_or 0 y ≡ y
zero-bit_or y = bit_or-bitwise 0 y

bit_or-halves : (x y : ℕ) → bit_or x y ≡ bit_or (x / 2) (y / 2) * 2 + max (x % 2) (y % 2)
bit_or-halves zero y = omega (arith, zero-bit_or y, zero-bit_or (y / 2))
bit_or-halves (suc x) y =
    let rest = exact_fuel (λ n. n) max x (suc x / 2) (y / 2) (omega arith) in
    omega (arith, rest, bit_or-bitwise (suc x) y, bit_or-bitwise (suc x / 2) (y / 2))

bit_and-none : (x : ℕ) → bit_and x 0 ≡ 0
bit_and-none =
    by_halving (λ x. bit_and x 0 ≡ 0) (zero-bit_and 0)
      (λ x pos half. omega (arith, bit_and-halves x 0, half))

bit_or-none : (x : ℕ) → bit_or x 0 ≡ x
bit_or-none =
    by_halving (λ x. bit_or x 0 ≡ x) (zero-bit_or 0)
      (λ x pos half. omega (arith, bit_or-halves x 0, half))

-- `w & (1 << k) != 0`
abbrev pub test_bit : ℕ → ℕ → Bool
test_bit w k = bit_and w (2 ^ k) != 0

-- `w | (1 << k)`
abbrev pub set_bit : ℕ → ℕ → ℕ
set_bit w k = bit_or w (2 ^ k)

bit_and_low : (w : ℕ) → bit_and w (2 ^ 0) ≡ w % 2
bit_and_low w = omega (arith, bit_and-halves w 1, bit_and-none (w / 2))

bit_and_high : (w k : ℕ) → bit_and w (2 ^ suc k) ≡ bit_and (w / 2) (2 ^ k) * 2
bit_and_high w k =
    let half : 2 ^ suc k / 2 ≡ 2 ^ k = omega (arith, pow-suc 2 k) in
    let even : 2 ^ suc k % 2 ≡ 0 = omega (arith, pow-suc 2 k) in
    bit_and-halves w (2 ^ suc k) ∙ rw half (omega arith)

set_bit_low : (w : ℕ) → set_bit w 0 ≡ w / 2 * 2 + 1
set_bit_low w = omega (arith, bit_or-halves w 1, bit_or-none (w / 2))

set_bit_high : (w k : ℕ) → set_bit w (suc k) ≡ set_bit (w / 2) k * 2 + w % 2
set_bit_high w k =
    let half : 2 ^ suc k / 2 ≡ 2 ^ k = omega (arith, pow-suc 2 k) in
    let even : 2 ^ suc k % 2 ≡ 0 = omega (arith, pow-suc 2 k) in
    bit_or-halves w (2 ^ suc k) ∙ rw half (omega arith)

test_bit_high : (w k : ℕ) → test_bit w (suc k) ≡ test_bit (w / 2) k
test_bit_high w k = ground (arith, bit_and_high w k)

test_bit_zero : (k : ℕ) → test_bit 0 k ≡ false
test_bit_zero k = ground (arith, zero-bit_and (2 ^ k))

-- Setting a bit sets it and leaves every other bit alone.
pub test_bit-set_bit : (w k j : ℕ) → test_bit (set_bit w k) j ≡ ((k == j) || test_bit w j)
test_bit-set_bit w zero zero =
    ground (arith, set_bit_low w, bit_and_low w, bit_and_low (w / 2 * 2 + 1))
test_bit-set_bit w zero (suc j) =
    let half : set_bit w 0 / 2 ≡ w / 2 = omega (arith, set_bit_low w) in
    test_bit_high (set_bit w 0) j ∙ rw half (ground (arith, test_bit_high w j))
test_bit-set_bit w (suc k) zero =
    ground (arith, set_bit_high w k, bit_and_low w, bit_and_low (set_bit w (suc k)))
test_bit-set_bit w (suc k) (suc j) =
    let half : set_bit w (suc k) / 2 ≡ set_bit (w / 2) k = omega (arith, set_bit_high w k) in
    test_bit_high (set_bit w (suc k)) j
    ∙ rw half (ground (arith, test_bit-set_bit (w / 2) k j, test_bit_high w j))

pub test_bit-none : (k : ℕ) → test_bit 0 k ≡ false
test_bit-none = test_bit_zero
