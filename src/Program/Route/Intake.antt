-- ===== src/Program/Route/Intake.antt =====
-- instructions/swap_route_v3.rs: what the input transfer of `execute` takes.
pub mod Setup
pub mod Wrapped
use quay_titan_integration.Prelude.{
  ℕ, ◌-◌, ◌<◌, ◌≡◌, ◌⊎◌, inl, inr, false, Option, none, some, ok, List, get_elem?, ◌==◌, ltb, leb,
  arith, ap, ◌∙◌, sym, subst, ok-injective, Result-cases, Bool-cases,
}
use quay_titan_integration.Solana.{Pubkey}
use quay_titan_integration.Program.Accounts.{TokenIds, extract_token_amount, is_native_mint}
use quay_titan_integration.Program.Runtime.{World, Handle, Runtime, view, done, ◌>>◌, chain-eq-ok}
use quay_titan_integration.Program.Tokens.{transfer_tokens}
use quay_titan_integration.Program.Reserves.{unwrap_or_zero}
use quay_titan_integration.Program.Route.{
  SwapRouteV3, token_program_of, effective_amount, take_input,
}
use quay_titan_integration.Program.Route.Quiet.{token_program_of-IsQuiet}
use quay_titan_integration.Program.Route.Closing.{held, held_at}
use quay_titan_integration.Program.Route.Payout.{MovesExactly, Moved, transfer_tokens-Moved}

-- The amount of a route: all that has arrived in the input account since the ledger was written, or
-- the argument when there is no ledger.
abbrev pub route_amount : SwapRouteV3 → Option ℕ → ℕ → World → ℕ
route_amount accounts none amount w = amount
route_amount accounts (some stored) amount w = held w accounts.input_token_account.key - stored

-- With a ledger, something has arrived.
abbrev pub HasArrived : SwapRouteV3 → Option ℕ → World → Type 0
HasArrived accounts none w = Unit {0}
HasArrived accounts (some stored) w = stored < held w accounts.input_token_account.key

module _ (rt : Runtime) (moves : MovesExactly rt) (ids : TokenIds) (accounts : SwapRouteV3)
    (remaining : List Handle) (mints : ℕ) where
  effective_amount-arrived :
      (o : Option ℕ) (amount effective : ℕ) (w w' : World)
      → effective_amount rt ids accounts remaining mints o amount w ≡ ok (effective, w')
      → (w' ≡ w) × (effective ≡ route_amount accounts o amount w) × HasArrived accounts o w
  unfolding effective_amount
  effective_amount-arrived none amount effective w w' h =
      let p = ok-injective h in (sym (ap (λ x. x.1) p), sym (ap (λ x. x.0) p), tt)
  effective_amount-arrived (some stored) amount effective w w' h =
      let key = accounts.input_token_account in
      elim (Result-cases (extract_token_amount (view w key))) [
        | inr (f, e) ↦ let failed = rw e at h in cc
        | inl (current, e) ↦
            let now : held w key.key ≡ current = sym (held_at w key) ∙ ap unwrap_or_zero e in
            let h0 = rw e at h in
            elim (Bool-cases (leb stored current)) [
              | inr short ↦ let failed = rw short at h0 in cc
              | inl enough ↦ elim (Bool-cases (ltb 0 (current - stored))) [
                | inr nothing ↦ let failed = rw (enough, nothing) at h0 in cc
                | inl arrived ↦
                    let p = ok-injective (rw (enough, arrived) at h0) in
                    (
                      sym (ap (λ x. x.1) p),
                      omega (arith, ap (λ x. x.0) p, now),
                      ground (arith, now),
                    )
              ]
            ]
      ]

  -- The transfer itself, for an input that needs no wrapped account.
  transferred :
      (decimals effective : ℕ) (ata mint : Handle) (program : Pubkey) (w w' : World)
      → (accounts.input_token_account.key == ata.key) ≡ false
      → (transfer_tokens rt ids program accounts.input_token_account.key ata.key accounts.user.key
              (some mint.key)
              effective
              decimals
              false
            >> done tt)
          w
        ≡ ok (tt, w')
      → Moved w w' accounts.input_token_account.key ata.key effective
  transferred decimals effective ata mint program w w' apart h =
      let (_, w1, e1, h1) =
        chain-eq-ok
          (transfer_tokens rt ids program accounts.input_token_account.key ata.key accounts.user.key
            (some mint.key) effective decimals false)
          _ w w' tt h in
      subst (λ u. Moved w u accounts.input_token_account.key ata.key effective)
        (ap (λ p. p.1) (ok-injective h1))
        (transfer_tokens-Moved rt moves ids program accounts.input_token_account.key ata.key
          accounts.user.key mint.key effective decimals false w w1 apart e1)

  -- When a transfer that succeeds moves its amount, the input stage, of a route with a ledger or whose
  -- input mint is not the native one, takes the amount of the route from the input account and puts it
  -- into the first account of the route: with a ledger, that is all that has arrived in the input
  -- account since the ledger was written, and something has; without one, it is the argument.
  pub take_input-Moved :
      (o : Option ℕ) (amount decimals : ℕ) (w w' : World) (ata mint : Handle)
      → get_elem? remaining 0 ≡ some ata
      → get_elem? remaining mints ≡ some mint
      → ((stored : ℕ) × (o ≡ some stored)) ⊎ (is_native_mint ids (view w mint) ≡ false)
      → (accounts.input_token_account.key == ata.key) ≡ false
      → take_input rt ids accounts remaining mints o amount decimals w ≡ ok (tt, w')
      → Moved w w' accounts.input_token_account.key ata.key (route_amount accounts o amount w)
        × HasArrived accounts o w
  unfolding take_input
  take_input-Moved none amount decimals w w' ata mint at mat (inl (stored, e)) apart h = cc
  take_input-Moved none amount decimals w w' ata mint at mat (inr plain) apart h =
      let h0 = rw (mat, at) at h in
      let (effective, w1, e1, h1) =
        chain-eq-ok (effective_amount rt ids accounts remaining mints none amount) _ w w' tt h0 in
      let (still, is_amount, arrived) = effective_amount-arrived none amount effective w w1 e1 in
      let (program, w2, e2, h2) =
        chain-eq-ok (token_program_of rt ids accounts remaining mints mint) _ w1 w' tt h1 in
      let same : w2 ≡ w =
        token_program_of-IsQuiet rt ids accounts remaining mints mint w1 program w2 e2 ∙ still in
      let plain' : is_native_mint ids (view w2 mint) ≡ false =
        subst (λ u. is_native_mint ids (view u mint) ≡ false) (sym same) plain in
      let paid = transferred decimals effective ata mint program w2 w' apart (rw plain' at h2) in
      (
        subst (λ n. Moved w w' accounts.input_token_account.key ata.key n) is_amount
            (subst (λ u. Moved u w' accounts.input_token_account.key ata.key effective) same paid),
        arrived,
      )
  take_input-Moved (some stored) amount decimals w w' ata mint at mat kind apart h =
      let h0 = rw (mat, at) at h in
      let (effective, w1, e1, h1) =
        chain-eq-ok (effective_amount rt ids accounts remaining mints (some stored) amount) _ w w'
          tt h0 in
      let (still, is_amount, arrived) =
        effective_amount-arrived (some stored) amount effective w w1 e1 in
      let (program, w2, e2, h2) =
        chain-eq-ok (token_program_of rt ids accounts remaining mints mint) _ w1 w' tt h1 in
      let same : w2 ≡ w =
        token_program_of-IsQuiet rt ids accounts remaining mints mint w1 program w2 e2 ∙ still in
      let paid = transferred decimals effective ata mint program w2 w' apart h2 in
      (
        subst (λ n. Moved w w' accounts.input_token_account.key ata.key n) is_amount
            (subst (λ u. Moved u w' accounts.input_token_account.key ata.key effective) same paid),
        arrived,
      )
