-- ===== src/Program/Route/Authority/Spent.antt =====
-- The user's input account over a whole route of instructions/swap_route_v3.rs.
use quay_titan_integration.Prelude.{
  ℕ, ◌+◌, ◌*◌, ◌≤◌, ◌<◌, ◌≡◌, ◌≢◌, ◌⊎◌, inl, inr, false, Option, none, some, ok, List, get_elem?,
  get_elem?-In, ◌==◌, arith, sym, subst, Bool-cases,
}
use quay_titan_integration.Solana.{Pubkey}
use quay_titan_integration.Program.State.{SwapSpecInputV2}
use quay_titan_integration.Program.Accounts.{TokenIds, is_native_mint}
use quay_titan_integration.Program.Runtime.{World, Handle, Cpi, Runtime, Act, view}
use quay_titan_integration.Program.Calls.{Makes, Calls-elim}
use quay_titan_integration.Program.Route.{
  SwapRouteV3, Request, read_request, create_missing, pay_output, close_created, execute,
}
use quay_titan_integration.Program.Trade.{run_legs}
use quay_titan_integration.Program.Route.Stages.{settled, staged}
use quay_titan_integration.Program.Route.Total.{requested}
use quay_titan_integration.Program.Route.Closing.{held}
use quay_titan_integration.Program.Route.Payout.{MovesExactly}
use quay_titan_integration.Program.Route.Intake.{take_input-Moved, route_amount, HasArrived}
use quay_titan_integration.Program.Route.Success.Kept.{placed}
use quay_titan_integration.Program.Route.Authority.{IsListed, IsMint}
use quay_titan_integration.Program.Route.Authority.Tokens.{
  Covers, create_missing-Makes, pay_output-Makes,
}
use quay_titan_integration.Program.Route.Authority.Closes.{close_created-Makes}
use quay_titan_integration.Program.Route.Authority.Trades.{run_legs-Makes}
use quay_titan_integration.Program.Route.Authority.Bystander.{MayTake, TakesOnly, All-In}

module _ (rt : Runtime) (frame : TakesOnly rt) (ids : TokenIds) (accounts : SwapRouteV3)
    (remaining : List Handle) (mints : ℕ) where
  -- A call that takes nothing from the account at a key.
  abbrev Spares : Pubkey → Cpi → Type 0
  Spares key cpi = ¬ MayTake cpi key

  still_held :
      {A : Type 0} (key : Pubkey) (m : Act A) (a : A) (w w' : World)
      → Makes rt (Spares key) m
      → m w ≡ ok (a, w')
      → held w key ≤ held w' key
  still_held key m a w w' made run =
      Calls-elim rt (Spares key) (λ u v. held u key ≤ held v key) (λ u. omega arith)
        (λ u mid v first rest. omega (arith, first, rest))
        (λ cpi u v spares. frame cpi key u v spares) w w' (made.calls w a w' run)

  module _ (key : Pubkey) (unlisted : ¬ IsListed accounts remaining mints key) where
    not_listed : (i : ℕ) (ata : Handle) → get_elem? remaining i ≡ some ata → ata.key ≢ key
    not_listed i ata at named = unlisted (ata, get_elem?-In remaining i ata at, named)

    unlisted-Covers : Covers ids accounts remaining mints (Spares key)
    unlisted-Covers = record {
      creates_titan = λ i ata mint program a m p t. t;
      creates_user = λ i mint program m p t. t;
      transfers = λ i ata amount a t. not_listed i ata a.0 t;
      transfers_checked = λ i ata mint program amount decimals a m p t. not_listed i ata a.0 t;
    }

    create_missing-held :
        (created : ℕ) (w w' : World)
        → create_missing rt ids accounts remaining mints mints 0 0 w ≡ ok (created, w')
        → held w key ≤ held w' key
    create_missing-held created w w' run =
        still_held key _ created w w'
          (create_missing-Makes accounts remaining mints rt ids (Spares key) unlisted-Covers mints 0
            0 (omega arith))
          run

    -- From the trades to the end.
    trades-held :
        (at created output_index decimals : ℕ) (swaps : List SwapSpecInputV2) (reserved : List ℕ)
        (funded traded paid w' : World)
        → output_index < mints
        → run_legs rt accounts.titan_pda.key remaining reserved at swaps funded ≡ ok (tt, traded)
        → pay_output rt ids accounts remaining mints output_index decimals reserved traded
          ≡ ok (tt, paid)
        → close_created rt ids accounts remaining mints mints 0 created paid ≡ ok (tt, w')
        → held funded key ≤ held w' key
    trades-held at created output_index decimals swaps reserved funded traded paid w' inside legs
          pays closes =
        let first =
          still_held key _ tt funded traded
            (run_legs-Makes accounts remaining mints rt (Spares key)
              (λ instruction keys e signed listed t.
                unlisted (All-In rt ids accounts remaining mints keys key listed t))
              reserved at swaps)
            legs in
        let next =
          still_held key _ tt traded paid
            (pay_output-Makes accounts remaining mints rt ids (Spares key) unlisted-Covers
              output_index decimals reserved inside)
            pays in
        let last =
          still_held key _ tt paid w'
            (close_created-Makes accounts remaining mints rt ids (Spares key)
              (λ i ata program a p t. not_listed i ata a.0 t) mints 0 created (omega arith))
            closes in
        omega (arith, first, next, last)

  -- What a route may spend: the argument, or what has arrived since the ledger was written.
  abbrev pub SpendsAtMost : Option ℕ → ℕ → World → World → Type 0
  SpendsAtMost none amount w w' =
      held w accounts.input_token_account.key ≤ held w' accounts.input_token_account.key + amount
  SpendsAtMost (some stored) amount w w' = stored ≤ held w' accounts.input_token_account.key

  spent :
      (o : Option ℕ) (amount : ℕ) (w start funded w' : World)
      → held w accounts.input_token_account.key ≤ held start accounts.input_token_account.key
      → held funded accounts.input_token_account.key + route_amount accounts o amount start
        ≡ held start accounts.input_token_account.key
      → HasArrived accounts o start
      → held funded accounts.input_token_account.key ≤ held w' accounts.input_token_account.key
      → SpendsAtMost o amount w w'
  spent none amount w start funded w' before out arrived after = omega (arith, before, out, after)
  spent (some stored) amount w start funded w' before out arrived after =
      omega (arith, before, out, arrived, after)

  -- When a transfer that succeeds moves its amount, transfers take only from their source, closes from
  -- the closed account, trades from the accounts passed to them, and no other call takes tokens, a route
  -- that succeeds, whose input account is not listed, and which has a ledger or whose input mint is not
  -- the native one, reads its request and spends no more than it may: without a ledger, the input account
  -- has lost at most the amount of the route, whatever happens in the trades; with one, it still holds
  -- what it held when the ledger was written.
  pub execute-spends :
      MovesExactly rt
      → ¬ IsListed accounts remaining mints accounts.input_token_account.key
      → (amount : ℕ) (swaps : List SwapSpecInputV2) (w w' : World) (request : Request)
      → read_request rt ids accounts remaining mints swaps w ≡ ok (request, w)
      → ((mint : Handle)
          → IsMint accounts remaining mints 0 mint
          → ((stored : ℕ) × (request.stored ≡ some stored))
            ⊎ (is_native_mint ids (view w mint) ≡ false))
      → execute rt ids accounts remaining mints amount swaps w ≡ ok (tt, w')
      → SpendsAtMost request.stored amount w w'
  unfolding is_native_mint
  execute-spends moves unlisted amount swaps w w' request asks plain run =
      let input = accounts.input_token_account.key in
      let (request', created, start, ledger, asked, made, taken, rest) =
        staged rt ids accounts remaining mints amount swaps w w' run in
      let (valid, inside, _) = requested rt ids accounts remaining mints swaps w w request' asked in
      let (funded, traded, paid, takes, legs, pays, closes, _) =
        settled rt ids accounts remaining mints amount swaps request' created ledger start w'
          rest in
      let ((ata, a), (mint, m)) =
        placed ids accounts remaining mints 0 (omega (arith, valid.0)) valid.2 in
      let same : request' ≡ request = cc in
      let apart : (input == ata.key) ≡ false = elim (Bool-cases (input == ata.key)) [
        | inr e ↦ e
        | inl e ↦ absurd (not_listed input unlisted 0 ata a.0 (ground arith))
      ] in
      let kind =
        subst
          (λ r.
            ((stored : ℕ) × (r.stored ≡ some stored)) ⊎ (is_native_mint ids (view w mint) ≡ false))
          (sym same) (plain mint m) in
      let (moved, arrived) =
        take_input-Moved rt moves ids accounts remaining mints request'.stored amount
          request'.input_decimals start funded ata mint a.0
          (subst (λ n. get_elem? remaining n ≡ some mint) (omega arith) m.0) kind apart takes in
      subst (λ r. SpendsAtMost r.stored amount w w') same
        (spent request'.stored amount w start funded w'
          (create_missing-held input unlisted created w start made) moved.0 arrived
          (trades-held input unlisted (2 * mints) created request'.output_index
            request'.output_decimals swaps ledger.reserved funded traded paid w' inside legs pays
            closes))
