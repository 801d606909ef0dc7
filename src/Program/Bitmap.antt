-- ===== src/Program/Bitmap.antt =====
-- instructions/swap_route_v3.rs: `TitanPdaBitmap`, four 64-bit words.
use quay_titan_integration.Prelude.{
  ℕ, zero, suc, ◌+◌, ◌/◌, ◌%◌, ◌^◌, ◌<◌, ◌≡◌, refl, Bool, true, false, ◌&&◌, ◌||◌, List, [], ◌∷◌,
  ◌==◌, ltb, if◌then◌else◌, length, get_or, arith, Bool-cases, inl, inr, ==_iff, ◌∙◌, ap,
}
use quay_titan_integration.Prelude
use quay_titan_integration.Prelude.Bits.{test_bit, set_bit, test_bit-set_bit, test_bit-none}

pub record TitanPdaBitmap : Type 0 where
  pub bits : List ℕ

unfoldable pub new : TitanPdaBitmap
new = record { bits = 0 ∷ 0 ∷ 0 ∷ 0 ∷ [] }

unfoldable pub set : TitanPdaBitmap → ℕ → TitanPdaBitmap
set map index =
    if ltb index 256
    then record {
      bits =
          Prelude.set map.bits (index / 64) (set_bit (get_or map.bits (index / 64) 0) (index % 64));
    }
    else map

unfoldable pub is_set : TitanPdaBitmap → ℕ → Bool
is_set map index = ltb index 256 && test_bit (get_or map.bits (index / 64) 0) (index % 64)

abbrev pub HasFourWords : TitanPdaBitmap → Type 0
HasFourWords map = length map.bits ≡ 4

-- The words of a list after one of them is written.
get_or-set :
    (xs : List ℕ) (i j v : ℕ)
    → i < length xs
    → get_or (Prelude.set xs i v) j 0 ≡ (if i == j then v else get_or xs j 0)
get_or-set [] i j v h = absurd (omega arith)
get_or-set (x ∷ xs) zero zero v h = refl
get_or-set (x ∷ xs) zero (suc j) v h = ground arith
get_or-set (x ∷ xs) (suc i) zero v h = ground arith
get_or-set (x ∷ xs) (suc i) (suc j) v h = get_or-set xs i j v (omega arith) ∙ ground arith

pub length-set_word : (xs : List ℕ) (i v : ℕ) → length (Prelude.set xs i v) ≡ length xs
length-set_word [] i v = refl
length-set_word (x ∷ xs) zero v = refl
length-set_word (x ∷ xs) (suc i) v = ap suc (length-set_word xs i v)

pub set-HasFourWords : (map : TitanPdaBitmap) (i : ℕ) → HasFourWords map → HasFourWords (set map i)
unfolding set
set-HasFourWords map i four =
    ground
      (arith, length-set_word map.bits (i / 64) (set_bit (get_or map.bits (i / 64) 0) (i % 64)))

-- Setting an index below 256 sets that index and no other, in whichever word it falls; setting one from
-- 256 on changes nothing.
pub is_set-set :
    (map : TitanPdaBitmap) (i j : ℕ)
    → HasFourWords map
    → is_set (set map i) j ≡ ((i == j && ltb i 256) || is_set map j)
unfolding set is_set
is_set-set map i j four = elim (Bool-cases (ltb i 256)) [
  | inr out ↦ rw out (ground arith)
  | inl within ↦
      let stored =
        get_or-set map.bits (i / 64) (j / 64) (set_bit (get_or map.bits (i / 64) 0) (i % 64))
          (ground arith) in
      rw (within, stored)
        (elim (Bool-cases (i / 64 == j / 64)) [
          | inr elsewhere ↦ rw elsewhere (ground arith)
          | inl here ↦
              let word : i / 64 ≡ j / 64 = (==_iff (i / 64) (j / 64)).0 here in
              rw here (
                rw word
                  (ground (arith, test_bit-set_bit (get_or map.bits (j / 64) 0) (i % 64) (j % 64))))
        ])
]

pub new-HasFourWords : HasFourWords new
unfolding new
new-HasFourWords = refl

zero_word : (n : ℕ) → get_or {A = ℕ} (0 ∷ 0 ∷ 0 ∷ 0 ∷ []) n 0 ≡ 0
zero_word zero = refl
zero_word (suc zero) = refl
zero_word (suc (suc zero)) = refl
zero_word (suc (suc (suc zero))) = refl
zero_word (suc (suc (suc (suc n)))) = refl

pub is_set-new : (j : ℕ) → is_set new j ≡ false
unfolding new is_set
is_set-new j = rw (zero_word (j / 64), test_bit-none (j % 64)) (ground arith)
