-- ===== src/Prelude/Lists.antt =====
-- Lists measured and indexed by native numbers, under the library's names.
use Prim.Native.Nat.{ℕ, zero, suc, ◌+◌, ◌-◌, ◌<◌, ◌≤◌}
use mathlib.Core.Path.{◌≡◌, refl, ap}
use mathlib.Core.List.{List, [], ◌∷◌, ◌++◌, map}
use mathlib.Core.Option.{Option, none, some}
use native.Mathlib.Omega.{arith}
use mathlib.Core.Bool.{true}
use mathlib.Core.Logic.{◌≢◌, ◌⊎◌, inl, inr, ◌↔◌}
use quay_titan_integration.Prelude.Tests.{leb, if◌then◌else◌}

module _ {ℓ} {A : Type ℓ} where
  abbrev pub length : List A → ℕ
  length [] = 0
  length (x ∷ xs) = suc (length xs)

  abbrev pub get_elem? : List A → ℕ → Option A
  get_elem? [] i = none
  get_elem? (x ∷ xs) zero = some x
  get_elem? (x ∷ xs) (suc i) = get_elem? xs i

  abbrev pub get_or : List A → ℕ → A → A
  get_or [] i d = d
  get_or (x ∷ xs) zero d = x
  get_or (x ∷ xs) (suc i) d = get_or xs i d

  -- A write out of bounds changes nothing.
  abbrev pub set : List A → ℕ → A → List A
  set [] i v = []
  set (x ∷ xs) zero v = v ∷ xs
  set (x ∷ xs) (suc i) v = x ∷ set xs i v

  abbrev pub take : ℕ → List A → List A
  take zero xs = []
  take (suc n) [] = []
  take (suc n) (x ∷ xs) = x ∷ take n xs

  abbrev pub drop : ℕ → List A → List A
  drop zero xs = xs
  drop (suc n) [] = []
  drop (suc n) (x ∷ xs) = drop n xs

  abbrev pub replicate : ℕ → A → List A
  replicate zero a = []
  replicate (suc n) a = a ∷ replicate n a

  -- A predicate that holds of every element.
  abbrev pub All {κ} : (A → Type κ) → List A → Type κ
  All P [] = Unit
  All P (x ∷ xs) = P x × All P xs

  pub length-append : (xs ys : List A) → length (xs ++ ys) ≡ length xs + length ys
  length-append [] ys = omega arith
  length-append (x ∷ xs) ys = omega (arith, length-append xs ys)

module _ {ℓ} {A : Type ℓ} where
  -- `xs.get(lo..hi)`: nothing out of range.
  unfoldable pub slice? : List A → ℕ → ℕ → Option (List A)
  slice? xs lo hi =
      if leb lo hi
      then (if leb hi (length xs) then some (take (hi - lo) (drop lo xs)) else none)
      else none

  pub get_elem?-lt : (xs : List A) (i : ℕ) → i < length xs → (a : A) × (get_elem? xs i ≡ some a)
  get_elem?-lt [] i h = absurd (omega arith)
  get_elem?-lt (x ∷ xs) zero h = (x, refl)
  get_elem?-lt (x ∷ xs) (suc i) h = get_elem?-lt xs i (omega arith)

  pub get_elem?-some-lt : (xs : List A) (i : ℕ) {a : A} → get_elem? xs i ≡ some a → i < length xs
  get_elem?-some-lt [] i h = cc
  get_elem?-some-lt (x ∷ xs) zero h = omega arith
  get_elem?-some-lt (x ∷ xs) (suc i) h = omega (arith, get_elem?-some-lt xs i h)

  pub get_elem?-length :
      (xs : List A) (y : A) (ys : List A) → get_elem? (xs ++ y ∷ ys) (length xs) ≡ some y
  get_elem?-length [] y ys = refl
  get_elem?-length (x ∷ xs) y ys = get_elem?-length xs y ys

  pub get_elem?-append_left :
      (xs ys : List A) (i : ℕ) → i < length xs → get_elem? (xs ++ ys) i ≡ get_elem? xs i
  get_elem?-append_left [] ys i h = absurd (omega arith)
  get_elem?-append_left (x ∷ xs) ys zero h = refl
  get_elem?-append_left (x ∷ xs) ys (suc i) h = get_elem?-append_left xs ys i (omega arith)

  pub take-append : (xs ys : List A) → take (length xs) (xs ++ ys) ≡ xs
  take-append [] ys = refl
  take-append (x ∷ xs) ys = rw (take-append xs ys)

  pub drop-append : (xs ys : List A) → drop (length xs) (xs ++ ys) ≡ ys
  drop-append [] ys = refl
  drop-append (x ∷ xs) ys = drop-append xs ys

  pub length-take_le : (n : ℕ) (xs : List A) → n ≤ length xs → length (take n xs) ≡ n
  length-take_le zero xs h = refl
  length-take_le (suc n) [] h = absurd (omega arith)
  length-take_le (suc n) (x ∷ xs) h = omega (arith, length-take_le n xs)

  pub length-drop : (n : ℕ) (xs : List A) → length (drop n xs) ≡ length xs - n
  length-drop zero xs = omega arith
  length-drop (suc n) [] = omega arith
  length-drop (suc n) (x ∷ xs) = omega (arith, length-drop n xs)

  pub length-map {κ} : {B : Type κ} (f : A → B) (xs : List A) → length (map f xs) ≡ length xs
  length-map f [] = refl
  length-map f (x ∷ xs) = ap suc (length-map f xs)

  pub take_prefix : (n : ℕ) (xs ys : List A) → length xs ≡ n → take n (xs ++ ys) ≡ xs
  take_prefix n xs ys e = rw (← e) (take-append xs ys)

  pub drop_prefix : (n : ℕ) (xs ys : List A) → length xs ≡ n → drop n (xs ++ ys) ≡ ys
  drop_prefix n xs ys e = rw (← e) (drop-append xs ys)

  -- A slice of a buffer that holds `ys` between two other parts.
  pub slice?-middle :
      (lo hi : ℕ) (xs ys zs : List A)
      → length xs ≡ lo
      → length xs + length ys ≡ hi
      → slice? (xs ++ (ys ++ zs)) lo hi ≡ some ys
  unfolding slice?
  slice?-middle lo hi xs ys zs p q =
      let len : length (xs ++ (ys ++ zs)) ≡ lo + (length ys + length zs) =
        omega (arith, length-append xs (ys ++ zs), length-append ys zs) in
      let ordered : leb lo hi ≡ true = ground arith in
      let fits : leb hi (length (xs ++ (ys ++ zs))) ≡ true = ground arith in
      rw (ordered, fits, drop_prefix lo xs (ys ++ zs) p, take_prefix (hi - lo) ys zs (omega arith))
        refl

  pub slice?-enough :
      (xs : List A) (lo hi : ℕ)
      → lo ≤ hi
      → hi ≤ length xs
      → (ys : List A) × (slice? xs lo hi ≡ some ys)
  unfolding slice?
  slice?-enough xs lo hi ordered fits =
      let low : leb lo hi ≡ true = ground arith in
      let high : leb hi (length xs) ≡ true = ground arith in
      (take (hi - lo) (drop lo xs), rw (low, high) refl)

module _ {A : Type 0} where
  -- An occurrence in a list, with its place kept.
  abbrev pub In : A → List A → Type 0
  In x [] = ⊥
  In x (y ∷ ys) = (y ≡ x) ⊎ In x ys

  pub In-append : (x : A) (xs ys : List A) → In x (xs ++ ys) ↔ (In x xs ⊎ In x ys)
  In-append x [] ys = (λ h. inr h, λ h. elim h [ inl e ↦ absurd e | inr r ↦ r ])
  In-append x (z ∷ xs) ys = (
    λ h. elim h [
      | inl e ↦ inl (inl e)
      | inr r ↦ elim ((In-append x xs ys).0 r) [ inl l ↦ inl (inr l) | inr q ↦ inr q ]
    ],
    λ h. elim h [
      | inl l ↦ elim l [ inl e ↦ inl e | inr q ↦ inr ((In-append x xs ys).1 (inl q)) ]
      | inr r ↦ inr ((In-append x xs ys).1 (inr r))
    ],
  )

module _ {A : Type 0} where
  pub In-take : (x : A) (n : ℕ) (xs : List A) → In x (take n xs) → In x xs
  In-take x zero xs h = absurd h
  In-take x (suc n) [] h = absurd h
  In-take x (suc n) (y ∷ ys) (inl e) = inl e
  In-take x (suc n) (y ∷ ys) (inr h) = inr (In-take x n ys h)

  pub In-drop : (x : A) (n : ℕ) (xs : List A) → In x (drop n xs) → In x xs
  In-drop x zero xs h = h
  In-drop x (suc n) [] h = absurd h
  In-drop x (suc n) (y ∷ ys) h = inr (In-drop x n ys h)

module _ {ℓ} {A : Type ℓ} where
  pub get_elem?-set :
      (xs : List A) (i : ℕ) (v : A) → i < length xs → get_elem? (set xs i v) i ≡ some v
  get_elem?-set [] i v h = absurd (omega arith)
  get_elem?-set (x ∷ xs) zero v h = refl
  get_elem?-set (x ∷ xs) (suc i) v h = get_elem?-set xs i v (omega arith)

  pub get_elem?-set_other :
      (xs : List A) (i j : ℕ) (v : A) → j ≢ i → get_elem? (set xs i v) j ≡ get_elem? xs j
  get_elem?-set_other [] i j v h = refl
  get_elem?-set_other (x ∷ xs) zero zero v h = absurd (h refl)
  get_elem?-set_other (x ∷ xs) zero (suc j) v h = refl
  get_elem?-set_other (x ∷ xs) (suc i) zero v h = refl
  get_elem?-set_other (x ∷ xs) (suc i) (suc j) v h =
      get_elem?-set_other xs i j v (λ e. h (ap suc e))

  pub length-set : (xs : List A) (i : ℕ) (v : A) → length (set xs i v) ≡ length xs
  length-set [] i v = refl
  length-set (x ∷ xs) zero v = refl
  length-set (x ∷ xs) (suc i) v = ap suc (length-set xs i v)

module _ {A : Type 0} where
  pub get_elem?-In : (xs : List A) (i : ℕ) (a : A) → get_elem? xs i ≡ some a → In a xs
  get_elem?-In [] i a h = cc
  get_elem?-In (x ∷ xs) zero a h = inl (cc)
  get_elem?-In (x ∷ xs) (suc i) a h = inr (get_elem?-In xs i a h)
