-- ===== src/Quay/Creation/Exact.antt =====
-- `parse_pool_creations` of src/quay/creation.rs against the `init_strategy` instructions of its input.
use quay_titan_integration.Prelude.{
  ℕ, ◌≡◌, refl, true, false, inl, inr, ◌↔◌, Option, none, some, List, [], ◌∷◌, ◌++◌, get_elem?,
  arith, ap, ◌∙◌, sym, Option-cases, Bool-cases, In,
}
use quay_titan_integration.TradingVenue.Protocol.{PoolProtocol, quay}
use quay_titan_integration.TradingVenue.Creation.{ParsedInstruction, PoolCreation}
use quay_titan_integration.Quay.Sdk.{Sdk}
use quay_titan_integration.Quay.Venue.{quay_program_id}
use quay_titan_integration.Quay.Creation.{
  starts_with, is_init_strategy, pool_of, pool_from, created_by, parse_pool_creations,
}

only_protocol : (p : PoolProtocol) → quay ≡ p
only_protocol quay = refl

module _ (sdk : Sdk) where
  -- A well-formed `init_strategy` of the Quay program that creates `c`: its first byte is the
  -- discriminator, account 0 is the pool, and accounts 5 and 6 are the mints.
  abbrev pub Creates : ParsedInstruction → PoolCreation → Type 0
  Creates ix c =
      (ix.program_id ≡ quay_program_id)
      × (get_elem? ix.bytes 0 ≡ some sdk.disc_init_strategy)
      × (get_elem? ix.accounts 0 ≡ some c.pool)
      × ((base : ℕ) × (quote_mint : ℕ) × (get_elem? ix.accounts 5 ≡ some base)
          × (get_elem? ix.accounts 6 ≡ some quote_mint)
          × (c.mints ≡ base ∷ quote_mint ∷ []))

  first_byte :
      (byte : ℕ) (bytes : List ℕ)
      → (starts_with byte bytes ≡ true) ↔ (get_elem? bytes 0 ≡ some byte)
  unfolding starts_with
  first_byte byte [] = (λ h. cc, λ h. cc)
  first_byte byte (b ∷ bs) = (λ h. ground arith, λ h. ground arith)

  pool_from-some :
      (pool base quote_mint : Option ℕ) (c : PoolCreation)
      → pool_from pool base quote_mint ≡ some c
      → (pool ≡ some c.pool)
        × ((b : ℕ) × (q : ℕ) × (base ≡ some b) × (quote_mint ≡ some q) × (c.mints ≡ b ∷ q ∷ []))
  pool_from-some (some pool) (some base) (some quote_mint) c h =
      (cc, (base, quote_mint, refl, refl, cc))
  pool_from-some (some pool) (some base) none c h = cc
  pool_from-some (some pool) none quote_mint c h = cc
  pool_from-some none base quote_mint c h = cc

  same_creation :
      (pool base quote_mint : ℕ) (c : PoolCreation)
      → c.pool ≡ pool
      → c.mints ≡ base ∷ quote_mint ∷ []
      → pool_from (some pool) (some base) (some quote_mint) ≡ some c
  same_creation pool base quote_mint c p m =
      let one : quay ≡ c.protocol = only_protocol c.protocol in
      λ i. some (record { protocol = one i; pool = sym p i; mints = sym m i })

  -- Where the filter passes, the pool is read from the accounts; where not, there is none.
  matched :
      (ix : ParsedInstruction) → is_init_strategy sdk ix ≡ true → created_by sdk ix ≡ pool_of sdk ix
  unfolding created_by
  matched ix e = rw (e, created_by) refl

  unmatched : (ix : ParsedInstruction) → is_init_strategy sdk ix ≡ false → created_by sdk ix ≡ none
  unfolding created_by
  unmatched ix e = rw (e, created_by) refl

  created_by→Creates :
      (ix : ParsedInstruction) (c : PoolCreation) → created_by sdk ix ≡ some c → Creates ix c
  unfolding is_init_strategy pool_of
  created_by→Creates ix c h = elim (Bool-cases (is_init_strategy sdk ix)) [
    | inr other ↦ let none_made = unmatched ix other in cc
    | inl same ↦
        let (pool, mints) =
          pool_from-some (get_elem? ix.accounts 0) (get_elem? ix.accounts 5)
            (get_elem? ix.accounts 6) c (sym (matched ix same) ∙ h) in
        (ground arith, (first_byte sdk.disc_init_strategy ix.bytes).0 (ground arith), pool, mints)
  ]

  Creates→created_by :
      (ix : ParsedInstruction) (c : PoolCreation) → Creates ix c → created_by sdk ix ≡ some c
  unfolding is_init_strategy pool_of
  Creates→created_by ix c (program, byte, first, (base, quote_mint, fifth, sixth, mints)) =
      let starts = (first_byte sdk.disc_init_strategy ix.bytes).1 byte in
      matched ix (ground arith)
      ∙ rw (first, fifth, sixth) (same_creation c.pool base quote_mint c refl mints)

  parse_keep :
      (ix : ParsedInstruction) (ixs : List ParsedInstruction) (c : PoolCreation)
      → created_by sdk ix ≡ some c
      → parse_pool_creations sdk (ix ∷ ixs) ≡ c ∷ parse_pool_creations sdk ixs
  unfolding parse_pool_creations
  parse_keep ix ixs c e = rw (e, parse_pool_creations) refl

  parse_skip :
      (ix : ParsedInstruction) (ixs : List ParsedInstruction)
      → created_by sdk ix ≡ none
      → parse_pool_creations sdk (ix ∷ ixs) ≡ parse_pool_creations sdk ixs
  unfolding parse_pool_creations
  parse_skip ix ixs e = rw (e, parse_pool_creations) refl

  -- A pool is reported exactly when it is created by one of the instructions that are well formed.
  pub parse_pool_creations-In :
      (ixs : List ParsedInstruction) (c : PoolCreation)
      → In c (parse_pool_creations sdk ixs) ↔ ((ix : ParsedInstruction) × In ix ixs × Creates ix c)
  parse_pool_creations-In [] c = unfold parse_pool_creations in (λ h. absurd h, λ h. absurd h.1)
  parse_pool_creations-In (ix ∷ ixs) c = elim (Option-cases (created_by sdk ix)) [
    | inl skipped ↦ rw (parse_skip ix ixs skipped) (
      λ h. let (jx, at, creates) = (parse_pool_creations-In ixs c).0 h in (jx, inr at, creates),
      λ h.
          let (jx, at, creates) = h in
          elim at [
            | inl e ↦ let made = Creates→created_by jx c creates in cc
            | inr later ↦ (parse_pool_creations-In ixs c).1 (jx, later, creates)
          ],
    )
    | inr (d, kept) ↦ rw (parse_keep ix ixs d kept) (
      λ h. elim h [
        | inl e ↦ (ix, inl refl, created_by→Creates ix c (kept ∙ ap some e))
        | inr later ↦
            let (jx, at, creates) = (parse_pool_creations-In ixs c).0 later in (jx, inr at, creates)
      ],
      λ h.
          let (jx, at, creates) = h in
          elim at [
            | inl e ↦ let made = Creates→created_by jx c creates in inl (ground arith)
            | inr later ↦ inr ((parse_pool_creations-In ixs c).1 (jx, later, creates))
          ],
    )
  ]

  -- Instructions are parsed in order and one by one.
  pub parse_pool_creations-append :
      (xs ys : List ParsedInstruction)
      → parse_pool_creations sdk (xs ++ ys)
        ≡ parse_pool_creations sdk xs ++ parse_pool_creations sdk ys
  unfolding parse_pool_creations
  parse_pool_creations-append [] ys = refl
  parse_pool_creations-append (ix ∷ xs) ys = ground (arith, parse_pool_creations-append xs ys)
