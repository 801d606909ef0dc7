-- ===== src/Prelude/Bytes.antt =====
-- Little-endian numbers in byte lists.
use Prim.Native.Nat.{ℕ, zero, suc, ◌+◌, ◌*◌, ◌/◌, ◌%◌, ◌^◌, ◌<◌}
use mathlib.Core.Path.{◌≡◌, refl, ap}
use mathlib.Core.List.{List, [], ◌∷◌, ◌++◌}
use native.Mathlib.Omega.{arith}
use native.Mathlib.Nat.{pow-suc}
use quay_titan_integration.Prelude.Lists.{length, All}

-- `x.to_le_bytes()` of an `n`-byte number
unfoldable pub le_bytes : ℕ → ℕ → List ℕ
le_bytes zero x = []
le_bytes (suc n) x = x % 256 ∷ le_bytes n (x / 256)

-- `from_le_bytes`
unfoldable pub from_le_bytes : List ℕ → ℕ
from_le_bytes [] = 0
from_le_bytes (b ∷ bs) = b + 256 * from_le_bytes bs

abbrev pub IsByte : ℕ → Type 0
IsByte b = b < 256

pub length-le_bytes : (n x : ℕ) → length (le_bytes n x) ≡ n
unfolding le_bytes
length-le_bytes zero x = refl
length-le_bytes (suc n) x = ap suc (length-le_bytes n (x / 256))

pub from_le_bytes-le_bytes : (n x : ℕ) → x < 256 ^ n → from_le_bytes (le_bytes n x) ≡ x
unfolding le_bytes from_le_bytes
from_le_bytes-le_bytes zero x h = omega arith
from_le_bytes-le_bytes (suc n) x h =
    omega (arith, from_le_bytes-le_bytes n (x / 256) (omega (arith, pow-suc 256 n)))

pub from_le_bytes-lt : (bs : List ℕ) → All IsByte bs → from_le_bytes bs < 256 ^ length bs
unfolding from_le_bytes
from_le_bytes-lt [] h = omega arith
from_le_bytes-lt (b ∷ bs) h = omega (arith, pow-suc 256 (length bs), from_le_bytes-lt bs h.1)

pub cons_head : {x y : ℕ} {xs ys : List ℕ} → x ∷ xs ≡ y ∷ ys → x ≡ y
cons_head e = cc

pub cons_tail : {x y : ℕ} {xs ys : List ℕ} → x ∷ xs ≡ y ∷ ys → xs ≡ ys
cons_tail e = cc

-- Two numbers of the same width, each before some further bytes.
pub le_bytes-prefix :
    (n x y : ℕ) (r s : List ℕ)
    → x < 256 ^ n
    → y < 256 ^ n
    → le_bytes n x ++ r ≡ le_bytes n y ++ s
    → (x ≡ y) × (r ≡ s)
unfolding le_bytes
le_bytes-prefix zero x y r s hx hy e = (omega arith, e)
le_bytes-prefix (suc n) x y r s hx hy e =
    let head : x % 256 ≡ y % 256 = cc in
    let tail : le_bytes n (x / 256) ++ r ≡ le_bytes n (y / 256) ++ s = cc in
    let (high, rest) =
      le_bytes-prefix n (x / 256) (y / 256) r s (omega (arith, pow-suc 256 n))
        (omega (arith, pow-suc 256 n)) tail in
    (omega arith, rest)
