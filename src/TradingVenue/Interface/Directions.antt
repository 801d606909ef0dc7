-- ===== src/TradingVenue/Interface/Directions.antt =====
-- `directions_num` of src/trading_venue/mod.rs: the pairs of a venue's tokens that it lists.
use quay_titan_integration.Prelude.{
  ◌++◌, ℕ, zero, suc, ◌+◌, ◌≤◌, ◌<◌, ◌≡◌, ◌≢◌, refl, ◌↔◌, inl, inr, List, [], ◌∷◌, In, In-append,
  ltb, ◌==◌, length, arith, ap, ap₂, sym, ◌∙◌, subst, Bool-cases,
}
use quay_titan_integration.TradingVenue.Interface.{
  TradingVenue, u8_indices, pairs_from, all_pairs, directions_num,
}

abbrev Between : ℕ → ℕ → ℕ → Type 0
Between from count j = (from ≤ j) × (j < from + count) × (j < 256)

within : (from count j : ℕ) → Between (suc from) count j → Between from (suc count) j
within from count j h = (omega (arith, h.0), omega (arith, h.1), h.2)

u8_indices-In : (from count j : ℕ) → In j (u8_indices from count) ↔ Between from count j
unfolding u8_indices
u8_indices-In from zero j = (λ h. absurd h, λ h. absurd (omega (arith, h.0, h.1)))
u8_indices-In from (suc count) j =
    let rest = u8_indices-In (suc from) count j in
    elim (Bool-cases (ltb from 256)) [
      | inr e ↦
          let step : u8_indices (suc from) count ≡ u8_indices from (suc count) =
            rw (e, u8_indices) refl in
          subst (λ xs. In j xs ↔ Between from (suc count) j) step
            (
              λ h. within from count j (rest.0 h),
              λ h. let (low, high, small) = h in rest.1 (ground arith),
            )
      | inl e ↦
          let step : from ∷ u8_indices (suc from) count ≡ u8_indices from (suc count) =
            rw (e, u8_indices) refl in
          subst (λ xs. In j xs ↔ Between from (suc count) j) step
            (
              λ h. elim h [
                | inl same ↦ (omega (arith, same), omega (arith, same), ground (arith, same))
                | inr later ↦ within from count j (rest.0 later)
              ],
              λ h.
                  let (low, high, small) = h in
                  elim (Bool-cases (from == j)) [
                    | inl same ↦ inl (ground arith)
                    | inr other ↦ inr (rest.1 (ground arith, omega arith, small))
                  ],
            )
    ]

abbrev Paired : ℕ → List ℕ → ℕ × ℕ → Type 0
Paired i js p = (i ≡ p.0) × In p.1 js × (p.0 ≢ p.1)

pairs_from-In : (i : ℕ) (js : List ℕ) (p : ℕ × ℕ) → In p (pairs_from i js) ↔ Paired i js p
unfolding pairs_from
pairs_from-In i [] p = (λ h. absurd h, λ h. absurd h.1)
pairs_from-In i (j ∷ js) p =
    let rest = pairs_from-In i js p in
    elim (Bool-cases (i == j)) [
      | inl e ↦
          let step : pairs_from i js ≡ pairs_from i (j ∷ js) = rw (e, pairs_from) refl in
          subst (λ xs. In p xs ↔ Paired i (j ∷ js) p) step
            (
              λ h. let (same, held, apart) = rest.0 h in (same, inr held, apart),
              λ h.
                  let (same, held, apart) = h in
                  elim held [
                    | inl here ↦ absurd (apart (sym same ∙ ground arith ∙ here))
                    | inr later ↦ rest.1 (same, later, apart)
                  ],
            )
      | inr e ↦
          let step : (i, j) ∷ pairs_from i js ≡ pairs_from i (j ∷ js) = rw (e, pairs_from) refl in
          subst (λ xs. In p xs ↔ Paired i (j ∷ js) p) step
            (
              λ h. elim h [
                | inl here ↦ (
                  ap (λ q. q.0) here,
                  inl (ap (λ q. q.1) here),
                  λ same.
                      let both : i ≡ j = ap (λ q. q.0) here ∙ same ∙ sym (ap (λ q. q.1) here) in
                      ground arith,
                )
                | inr later ↦ let (same, held, apart) = rest.0 later in (same, inr held, apart)
              ],
              λ h.
                  let (same, held, apart) = h in
                  elim held [
                    | inl here ↦ inl (ap₂ (λ a b. (a, b)) same here)
                    | inr later ↦ inr (rest.1 (same, later, apart))
                  ],
            )
    ]

all_pairs-In :
    (is js : List ℕ) (p : ℕ × ℕ) → In p (all_pairs is js) ↔ (In p.0 is × In p.1 js × (p.0 ≢ p.1))
unfolding all_pairs
all_pairs-In [] js p = (λ h. absurd h, λ h. absurd h.0)
all_pairs-In (i ∷ is) js p =
    let split = In-append p (pairs_from i js) (all_pairs is js) in
    let first = pairs_from-In i js p in
    let rest = all_pairs-In is js p in
    (
      λ h. elim (split.0 h) [
        | inl here ↦ let (same, held, apart) = first.0 here in (inl same, held, apart)
        | inr later ↦ let (among, held, apart) = rest.0 later in (inr among, held, apart)
      ],
      λ h.
          let (among, held, apart) = h in
          elim among [
            | inl same ↦ split.1 (inl (first.1 (same, held, apart)))
            | inr later ↦ split.1 (inr (rest.1 (later, held, apart)))
          ],
    )

-- No element occurs twice.
abbrev pub Unique : {A : Type 0} → List A → Type 0
Unique [] = Unit {0}
Unique (x ∷ xs) = (¬ In x xs) × Unique xs

Unique-append :
    {A : Type 0} (xs ys : List A)
    → Unique xs
    → Unique ys
    → ((x : A) → In x xs → ¬ In x ys)
    → Unique (xs ++ ys)
Unique-append [] ys u v apart = v
Unique-append (x ∷ xs) ys u v apart = (
  λ h. elim ((In-append x xs ys).0 h) [
    | inl left ↦ u.0 left
    | inr right ↦ apart x (inl refl) right
  ],
  Unique-append xs ys u.1 v (λ z held. apart z (inr held)),
)

u8_indices-Unique : (from count : ℕ) → Unique (u8_indices from count)
unfolding u8_indices
u8_indices-Unique from zero = tt
u8_indices-Unique from (suc count) =
    let rest = u8_indices-Unique (suc from) count in
    elim (Bool-cases (ltb from 256)) [
      | inr e ↦
          let step : u8_indices (suc from) count ≡ u8_indices from (suc count) =
            rw (e, u8_indices) refl in
          subst Unique step rest
      | inl e ↦
          let step : from ∷ u8_indices (suc from) count ≡ u8_indices from (suc count) =
            rw (e, u8_indices) refl in
          subst Unique step
            (λ h. omega (arith, ((u8_indices-In (suc from) count from).0 h).0), rest)
    ]

pairs_from-Unique : (i : ℕ) (js : List ℕ) → Unique js → Unique (pairs_from i js)
unfolding pairs_from
pairs_from-Unique i [] u = tt
pairs_from-Unique i (j ∷ js) u =
    let rest = pairs_from-Unique i js u.1 in
    elim (Bool-cases (i == j)) [
      | inl e ↦
          let step : pairs_from i js ≡ pairs_from i (j ∷ js) = rw (e, pairs_from) refl in
          subst Unique step rest
      | inr e ↦
          let step : (i, j) ∷ pairs_from i js ≡ pairs_from i (j ∷ js) = rw (e, pairs_from) refl in
          subst Unique step (λ h. u.0 ((pairs_from-In i js (i, j)).0 h).1, rest)
    ]

all_pairs-Unique : (is js : List ℕ) → Unique is → Unique js → Unique (all_pairs is js)
unfolding all_pairs
all_pairs-Unique [] js u v = tt
all_pairs-Unique (i ∷ is) js u v =
    Unique-append (pairs_from i js) (all_pairs is js) (pairs_from-Unique i js v)
      (all_pairs-Unique is js u.1 v)
      (λ p here later.
        let same = ((pairs_from-In i js p).0 here).0 in
        u.0 (subst (λ n. In n is) (sym same) ((all_pairs-In is js p).0 later).0))

directions_num-In :
    {F : Type 0} (venue : TradingVenue F) (i j : ℕ)
    → In (i, j) (directions_num venue) ↔ (
        (i < length venue.get_token_info)
        × (j < length venue.get_token_info)
        × (i < 256)
        × (j < 256)
        × (i ≢ j))
unfolding directions_num
directions_num-In venue i j =
    let n = length venue.get_token_info in
    let pairs = all_pairs-In (u8_indices 0 n) (u8_indices 0 n) (i, j) in
    let left = u8_indices-In 0 n i in
    let right = u8_indices-In 0 n j in
    (
      λ h.
          let (a, b, apart) = pairs.0 h in
          let (_, ai, asmall) = left.0 a in
          let (_, bi, bsmall) = right.0 b in (omega arith, omega arith, asmall, bsmall, apart),
      λ h.
          let (ai, bi, asmall, bsmall, apart) = h in
          pairs.1 (
            left.1 (omega arith, omega arith, asmall),
            right.1 (omega arith, omega arith, bsmall),
            apart,
          ),
    )

-- The directions of a venue are the ordered pairs of different tokens among its first 256, each once.
pub directions_num-exact :
    {F : Type 0} (venue : TradingVenue F)
    → Unique (directions_num venue)
      × ((i j : ℕ)
          → In (i, j) (directions_num venue) ↔ (
              (i < length venue.get_token_info)
              × (j < length venue.get_token_info)
              × (i < 256)
              × (j < 256)
              × (i ≢ j)))
unfolding directions_num
directions_num-exact venue =
    let indices = u8_indices-Unique 0 (length venue.get_token_info) in
    (all_pairs-Unique _ _ indices indices, directions_num-In venue)
