-- ===== src/Program/Route/Success/Recording.antt =====
-- instructions/swap_route_v3.rs: the loop that records the balances succeeds.
use quay_titan_integration.Prelude.{
  ℕ, zero, suc, ◌+◌, ◌<◌, ◌≡◌, refl, inl, inr, true, some, ok, List, [], ◌∷◌, ltb, length,
  get_elem?, slice?-enough, arith, Bool-cases,
}
use quay_titan_integration.Prelude.Bytes.{from_le_bytes}
use quay_titan_integration.Solana.{Pubkey}
use quay_titan_integration.Program.Accounts.{
  TokenIds, extract_token_amount, extract_token_owner, is_titan_pda_token_account,
}
use quay_titan_integration.Program.Runtime.{World, Handle, view}
use quay_titan_integration.Program.Route.Success.{at}
use quay_titan_integration.Program.Reserves.{
  Ledger, record_mint, record_other, take_balance, take_balances,
}

module _ (ids : TokenIds) where
  pub held_by_at :
      (w : World) (h : Handle) (owner : Pubkey)
      → is_titan_pda_token_account ids (view w (at h.key)) owner ≡ true
      → is_titan_pda_token_account ids (view w h) owner ≡ true
  unfolding is_titan_pda_token_account extract_token_owner
  held_by_at w h owner own = own

  -- The amount of a token account can be read.
  pub read_amount :
      (w : World) (h : Handle) (owner : Pubkey)
      → is_titan_pda_token_account ids (view w h) owner ≡ true
      → (b : ℕ) × (extract_token_amount (view w h) ≡ ok b)
  unfolding is_titan_pda_token_account extract_token_amount
  read_amount w h owner own = elim (Bool-cases (ltb (length (w h.key).bytes) 165)) [
    | inl short ↦ absurd (ground arith)
    | inr long ↦
        let (bytes, e) = slice?-enough (w h.key).bytes 64 72 (omega arith) (ground arith) in
        (from_le_bytes bytes, rw e refl)
  ]

  module _ (mints : ℕ) (pda : Pubkey) where
    take_balance-Ends :
        (i : ℕ) (h : Handle) (ledger : Ledger) (w : World)
        → (i < mints → is_titan_pda_token_account ids (view w h) pda ≡ true)
        → (next : Ledger) × (take_balance ids mints pda i h ledger w ≡ ok (next, w))
    unfolding take_balance
    take_balance-Ends i h ledger w own =
        elim (Bool-cases (is_titan_pda_token_account ids (view w h) pda)) [
          | inl owned ↦
              let (b, read) = read_amount w h pda owned in
              elim (Bool-cases (ltb i mints)) [
                | inl inside ↦ (record_mint i b ledger, rw (inside, owned, read) refl)
                | inr outside ↦ (record_other i b ledger, rw (outside, owned, read) refl)
              ]
          | inr other ↦ elim (Bool-cases (ltb i mints)) [
            | inl inside ↦ let owned = own (ground arith) in cc
            | inr outside ↦ (ledger, rw (outside, other) refl)
          ]
        ]

    -- When the accounts of the route are TitanPDA's, every balance is recorded.
    pub take_balances-Ends :
        (i : ℕ) (hs : List Handle) (ledger : Ledger) (w : World)
        → ((k : ℕ) (h : Handle)
            → get_elem? hs k ≡ some h
            → i + k < mints
            → is_titan_pda_token_account ids (view w h) pda ≡ true)
        → (out : Ledger) × (take_balances ids mints pda i hs ledger w ≡ ok (out, w))
    unfolding take_balances
    take_balances-Ends i [] ledger w own = (ledger, refl)
    take_balances-Ends i (h ∷ hs) ledger w own =
        let (next, first) = take_balance-Ends i h ledger w (λ lt. own zero h refl (omega arith)) in
        let (out, rest) =
          take_balances-Ends (suc i) hs next w (λ k g at lt. own (suc k) g at (omega arith)) in
        (out, rw first rest)
