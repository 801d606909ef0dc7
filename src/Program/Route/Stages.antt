-- ===== src/Program/Route/Stages.antt =====
-- instructions/swap_route_v3.rs: the stages that a route which succeeds has gone through.
use quay_titan_integration.Prelude.{ℕ, ◌*◌, ◌≡◌, ok, List, sym, subst}
use quay_titan_integration.Program.State.{SwapSpecInputV2}
use quay_titan_integration.Program.Accounts.{TokenIds}
use quay_titan_integration.Program.Bitmap.{new-HasFourWords}
use quay_titan_integration.Program.Runtime.{World, Handle, Runtime, chain-eq-ok}
use quay_titan_integration.Program.Reserves.{Ledger, empty_ledger, take_balances, check_balances}
use quay_titan_integration.Program.Reserves.Recorded.{take_balances-Taken}
use quay_titan_integration.Program.Trade.{run_legs}
use quay_titan_integration.Program.Route.{
  SwapRouteV3, Request, read_request, create_missing, trade_and_settle, execute, take_input,
  pay_output, close_created,
}
use quay_titan_integration.Program.Route.Quiet.{
  IsQuiet, read_request-IsQuiet, check_balances-IsQuiet,
}

module _ (rt : Runtime) (ids : TokenIds) (accounts : SwapRouteV3) (remaining : List Handle)
    (mints : ℕ) where
  -- From the recorded balances to the end.
  abbrev pub Settlement : ℕ → List SwapSpecInputV2 → Request → ℕ → Ledger → World → World → Type 0
  Settlement amount swaps request created ledger w w' =
      (funded : World) × (traded : World) × (paid : World) × (take_input rt ids accounts remaining
          mints request.stored amount request.input_decimals w
        ≡ ok (tt, funded))
      × (run_legs rt accounts.titan_pda.key remaining ledger.reserved (2 * mints) swaps funded
          ≡ ok (tt, traded))
      × (pay_output rt ids accounts remaining mints request.output_index request.output_decimals
            ledger.reserved traded
          ≡ ok (tt, paid))
      × (close_created rt ids accounts remaining mints mints 0 created paid ≡ ok (tt, w'))
      × (check_balances ledger.marks ledger.balances 0 0 remaining w' ≡ ok (tt, w'))

  -- From the recorded balances to the last comparison.
  abbrev pub Reaches : ℕ → List SwapSpecInputV2 → Request → ℕ → Ledger → World → World → Type 0
  Reaches amount swaps request created ledger w after =
      (funded : World) × (traded : World) × (paid : World) × (take_input rt ids accounts remaining
          mints request.stored amount request.input_decimals w
        ≡ ok (tt, funded))
      × (run_legs rt accounts.titan_pda.key remaining ledger.reserved (2 * mints) swaps funded
          ≡ ok (tt, traded))
      × (pay_output rt ids accounts remaining mints request.output_index request.output_decimals
            ledger.reserved traded
          ≡ ok (tt, paid))
      × (close_created rt ids accounts remaining mints mints 0 created paid ≡ ok (tt, after))

  pub settled :
      (amount : ℕ) (swaps : List SwapSpecInputV2) (request : Request) (created : ℕ)
      (ledger : Ledger) (w w' : World)
      → trade_and_settle rt ids accounts remaining mints amount swaps request created ledger w
        ≡ ok (tt, w')
      → Settlement amount swaps request created ledger w w'
  unfolding trade_and_settle
  settled amount swaps request created ledger w w' h =
      let (_, w1, e1, h1) =
        chain-eq-ok
          (take_input rt ids accounts remaining mints request.stored amount request.input_decimals)
          _ w w' tt h in
      let (_, w2, e2, h2) =
        chain-eq-ok (run_legs rt accounts.titan_pda.key remaining ledger.reserved (2 * mints) swaps)
          _ w1 w' tt h1 in
      let (_, w3, e3, h3) =
        chain-eq-ok
          (pay_output rt ids accounts remaining mints request.output_index request.output_decimals
            ledger.reserved)
          _ w2 w' tt h2 in
      let (_, w4, e4, h4) =
        chain-eq-ok (close_created rt ids accounts remaining mints mints 0 created) _ w3 w' tt h3 in
      let same : w4 ≡ w' =
        sym (check_balances-IsQuiet ledger.marks ledger.balances 0 0 remaining w4 tt w' h4) in
      (
        w1,
        w2,
        w3,
        e1,
        e2,
        e3,
        subst (λ u. close_created rt ids accounts remaining mints mints 0 created w3 ≡ ok (tt, u))
            same e4,
        subst (λ u. check_balances ledger.marks ledger.balances 0 0 remaining u ≡ ok (tt, w')) same
            h4,
      )

  pub recording : IsQuiet (take_balances ids mints accounts.titan_pda.key 0 remaining empty_ledger)
  recording w ledger w' h =
      (take_balances-Taken ids mints accounts.titan_pda.key 0 remaining empty_ledger w ledger w'
        new-HasFourWords h).0

  -- A whole route: `start` is the state once the missing accounts are created.
  abbrev pub Stages : ℕ → List SwapSpecInputV2 → World → World → Type 0
  Stages amount swaps w w' =
      (request : Request) × (created : ℕ) × (start : World) × (ledger : Ledger) × (read_request rt
          ids accounts remaining mints swaps w
        ≡ ok (request, w))
      × (create_missing rt ids accounts remaining mints mints 0 0 w ≡ ok (created, start))
      × (take_balances ids mints accounts.titan_pda.key 0 remaining empty_ledger start
          ≡ ok (ledger, start))
      × (trade_and_settle rt ids accounts remaining mints amount swaps request created ledger start
          ≡ ok (tt, w'))

  pub staged :
      (amount : ℕ) (swaps : List SwapSpecInputV2) (w w' : World)
      → execute rt ids accounts remaining mints amount swaps w ≡ ok (tt, w')
      → Stages amount swaps w w'
  unfolding execute
  staged amount swaps w w' h =
      let (request, w1, e1, h1) =
        chain-eq-ok (read_request rt ids accounts remaining mints swaps) _ w w' tt h in
      let (created, start, e2, h2) =
        chain-eq-ok (create_missing rt ids accounts remaining mints mints 0 0) _ w1 w' tt h1 in
      let (ledger, w3, e3, h3) =
        chain-eq-ok (take_balances ids mints accounts.titan_pda.key 0 remaining empty_ledger) _
          start w' tt h2 in
      let unmoved = read_request-IsQuiet rt ids accounts remaining mints swaps w request w1 e1 in
      let still = recording start ledger w3 e3 in
      (
        request,
        created,
        start,
        ledger,
        subst (λ u. read_request rt ids accounts remaining mints swaps w ≡ ok (request, u)) unmoved
            e1,
        subst
            (λ u. create_missing rt ids accounts remaining mints mints 0 0 u ≡ ok (created, start))
            unmoved e2,
        subst
            (λ u.
              take_balances ids mints accounts.titan_pda.key 0 remaining empty_ledger start
              ≡ ok (ledger, u))
            still e3,
        subst
            (λ u.
              trade_and_settle rt ids accounts remaining mints amount swaps request created ledger u
              ≡ ok (tt, w'))
            still h3,
      )
