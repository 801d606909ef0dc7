-- ===== src/SwapRoute/Wire.antt =====
-- The data of the route instruction (src/swap_route/mod.rs) as an encoding.
use quay_titan_integration.Prelude.{
  ℕ, ◌%◌, ◌^◌, ◌<◌, ◌≡◌, refl, List, [], ◌∷◌, ◌++◌, length, ap, ap₂, arith, All, true, false,
  append_assoc, sym, ◌∙◌,
}
use quay_titan_integration.Prelude.Bytes.{le_bytes, cons_head, cons_tail, le_bytes-prefix}
use quay_titan_integration.SwapRoute.{
  Venue, quay, SwapSpecInputV2, serialize_all, encode_swap_route_v3_data,
}

-- The fields of a leg are machine integers: u8, u8, u32 and u8.
pub record IsMachine (leg : SwapSpecInputV2) : Type 0 where
  pub from : leg.from < 2 ^ 8
  pub to : leg.to < 2 ^ 8
  pub weight_nanos : leg.weight_nanos < 2 ^ 32
  pub n_accounts : leg.n_accounts < 2 ^ 8

-- Borsh writes an enum as the index of its variant and then its fields, a bool as one byte, and an integer
-- in little endian.
abbrev pub venue_bytes : Venue → List ℕ
venue_bytes (quay true) = 0 ∷ 1 ∷ []
venue_bytes (quay false) = 0 ∷ 0 ∷ []

-- It writes the fields of a struct in their order.
abbrev pub leg_bytes : SwapSpecInputV2 → List ℕ
leg_bytes leg =
    venue_bytes leg.venue
    ++ (leg.from ∷ leg.to ∷ (le_bytes 4 leg.weight_nanos ++ leg.n_accounts ∷ []))

pub record IsBorsh (serialize : SwapSpecInputV2 → List ℕ) : Type 0 where
  pub layout : (leg : SwapSpecInputV2) → IsMachine leg → serialize leg ≡ leg_bytes leg

leg_ext :
    (a b : SwapSpecInputV2)
    → a.venue ≡ b.venue
    → a.from ≡ b.from
    → a.to ≡ b.to
    → a.weight_nanos ≡ b.weight_nanos
    → a.n_accounts ≡ b.n_accounts
    → a ≡ b
leg_ext a b v f t w n =
    λ i. record { venue = v i; from = f i; to = t i; weight_nanos = w i; n_accounts = n i }

venue_bytes-prefix :
    (v w : Venue) (r s : List ℕ) → venue_bytes v ++ r ≡ venue_bytes w ++ s → (v ≡ w) × (r ≡ s)
venue_bytes-prefix (quay true) (quay true) r s e = (refl, cons_tail (cons_tail e))
venue_bytes-prefix (quay false) (quay false) r s e = (refl, cons_tail (cons_tail e))
venue_bytes-prefix (quay true) (quay false) r s e =
    let differ : ◌≡◌ {A = ℕ} 1 0 = cons_head (cons_tail e) in absurd (omega (arith, differ))
venue_bytes-prefix (quay false) (quay true) r s e =
    let differ : ◌≡◌ {A = ℕ} 0 1 = cons_head (cons_tail e) in absurd (omega (arith, differ))

-- The bytes of a leg are never a proper prefix of another's, and determine it.
leg_bytes-prefix :
    (a b : SwapSpecInputV2) (r s : List ℕ)
    → IsMachine a
    → IsMachine b
    → leg_bytes a ++ r ≡ leg_bytes b ++ s
    → (a ≡ b) × (r ≡ s)
leg_bytes-prefix a b r s ma mb e =
    let tail = λ (leg : SwapSpecInputV2).
      leg.from ∷ leg.to ∷ (le_bytes 4 leg.weight_nanos ++ leg.n_accounts ∷ []) in
    let (venues, e0) = venue_bytes-prefix a.venue b.venue (tail a ++ r) (tail b ++ s) (
      sym (append_assoc (venue_bytes a.venue) (tail a) r)
      ∙ e
      ∙ append_assoc (venue_bytes b.venue) (tail b) s) in
    let weights = λ (leg : SwapSpecInputV2). le_bytes 4 leg.weight_nanos in
    let (weight, e3) =
      le_bytes-prefix 4 a.weight_nanos b.weight_nanos (a.n_accounts ∷ r) (b.n_accounts ∷ s)
        (omega (arith, ma.weight_nanos)) (omega (arith, mb.weight_nanos))
        (sym (append_assoc (weights a) (a.n_accounts ∷ []) r)
          ∙ cons_tail (cons_tail e0)
          ∙ append_assoc (weights b) (b.n_accounts ∷ []) s) in
    (
      leg_ext a b venues (cons_head e0) (cons_head (cons_tail e0)) weight (cons_head e3),
      cons_tail e3,
    )

module _ (serialize : SwapSpecInputV2 → List ℕ) (borsh : IsBorsh serialize) where
  serialize_all-injective :
      (xs ys : List SwapSpecInputV2)
      → All IsMachine xs
      → All IsMachine ys
      → length xs ≡ length ys
      → serialize_all serialize xs ≡ serialize_all serialize ys
      → xs ≡ ys
  unfolding serialize_all
  serialize_all-injective [] [] mx my n e = refl
  serialize_all-injective [] (y ∷ ys) mx my n e = absurd (omega arith)
  serialize_all-injective (x ∷ xs) [] mx my n e = absurd (omega arith)
  serialize_all-injective (x ∷ xs) (y ∷ ys) (m, mx) (m', my) n e =
      let rest = serialize_all serialize in
      let written : leg_bytes x ++ rest xs ≡ leg_bytes y ++ rest ys =
        ap (λ bytes. bytes ++ rest xs) (sym (borsh.layout x m))
        ∙ e
        ∙ ap (λ bytes. bytes ++ rest ys) (borsh.layout y m') in
      let (head, tail) = leg_bytes-prefix x y (rest xs) (rest ys) m m' written in
      ap₂ (λ a rest. a ∷ rest) head (serialize_all-injective xs ys mx my (omega arith) tail)

  -- When the derived Borsh code writes a leg as Borsh lays it out, two route instructions with the same
  -- data have the same amount, number of mints and legs, for amounts below 2^64, fewer than 2^32 legs, and
  -- legs whose fields are in the ranges of their types.
  pub encode_swap_route_v3_data-injective :
      (amount amount' mints mints' : ℕ) (swaps swaps' : List SwapSpecInputV2)
      → amount < 2 ^ 64
      → amount' < 2 ^ 64
      → All IsMachine swaps
      → All IsMachine swaps'
      → length swaps < 2 ^ 32
      → length swaps' < 2 ^ 32
      → encode_swap_route_v3_data serialize amount mints swaps
        ≡ encode_swap_route_v3_data serialize amount' mints' swaps'
      → (amount ≡ amount') × (mints ≡ mints') × (swaps ≡ swaps')
  unfolding encode_swap_route_v3_data
  encode_swap_route_v3_data-injective amount amount' mints mints' swaps swaps' ha ha' mx my hs hs'
        e =
      let (same_amount, e1) = le_bytes-prefix 8 amount amount' _ _ ha ha' (cons_tail e) in
      let (counted, e2) =
        le_bytes-prefix 4 (length swaps % 2 ^ 32) (length swaps' % 2 ^ 32) _ _ (omega arith)
          (omega arith) (cons_tail e1) in
      (same_amount, cons_head e1, serialize_all-injective swaps swaps' mx my (omega arith) e2)
