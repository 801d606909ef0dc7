-- ===== src/Program/Route/Authority/Whole.antt =====
-- The calls of other programs over a whole route of instructions/swap_route_v3.rs.
use quay_titan_integration.Prelude.{ℕ, ◌*◌, ◌<◌, ◌≡◌, ok, List, arith}
use quay_titan_integration.Program.State.{SwapSpecInputV2}
use quay_titan_integration.Program.Accounts.{TokenIds}
use quay_titan_integration.Program.Runtime.{World, Handle, Cpi, Runtime}
use quay_titan_integration.Program.Calls.{
  Calls, Makes, makes_rules, quiet-Makes, chain-Makes, chain-Makes_after,
}
use quay_titan_integration.Program.Reserves.{Ledger, empty_ledger, take_balances}
use quay_titan_integration.Program.Route.{
  SwapRouteV3, Request, read_request, create_missing, trade_and_settle, execute,
}
use quay_titan_integration.Program.Route.Quiet.{read_request-IsQuiet, check_balances-IsQuiet}
use quay_titan_integration.Program.Route.Stages.{recording}
use quay_titan_integration.Program.Route.Total.{requested}
use quay_titan_integration.Program.Route.Authority.{
  Permitted, closes_ata, creates_titan_ata, creates_output, pays, pays_checked, trades,
}
use quay_titan_integration.Program.Route.Authority.Tokens.{
  Covers, create_missing-Makes, pay_output-Makes,
}
use quay_titan_integration.Program.Route.Authority.Closes.{close_created-Makes}
use quay_titan_integration.Program.Route.Authority.Input.{take_input-Makes}
use quay_titan_integration.Program.Route.Authority.Trades.{run_legs-Makes}

module _ (rt : Runtime) (ids : TokenIds) (accounts : SwapRouteV3) (remaining : List Handle)
    (mints : ℕ) where
  abbrev P : Cpi → Type 0
  P = Permitted accounts remaining mints ids

  Permitted-Covers : Covers ids accounts remaining mints P
  Permitted-Covers = record {
    creates_titan = creates_titan_ata;
    creates_user = creates_output;
    transfers = pays;
    transfers_checked = pays_checked;
  }

  settle-Makes :
      (amount : ℕ) (swaps : List SwapSpecInputV2) (request : Request) (created : ℕ)
      (ledger : Ledger)
      → request.output_index < mints
      → Makes rt P
          (trade_and_settle rt ids accounts remaining mints amount swaps request created ledger)
  unfolding trade_and_settle
  settle-Makes amount swaps request created ledger inside =
      let take =
        take_input-Makes accounts remaining mints rt ids request.stored amount
          request.input_decimals (omega arith) in
      let legs =
        run_legs-Makes accounts remaining mints rt P trades ledger.reserved (2 * mints) swaps in
      let pay =
        pay_output-Makes accounts remaining mints rt ids P Permitted-Covers request.output_index
          request.output_decimals ledger.reserved inside in
      let close =
        close_created-Makes accounts remaining mints rt ids P closes_ata mints 0 created
          (omega arith) in
      let check =
        quiet-Makes rt P _ (check_balances-IsQuiet ledger.marks ledger.balances 0 0 remaining) in
      search (makes_rules, take, legs, pay, close, check) depth 60

  -- The state that a route leaves when it succeeds comes from the one before by a sequence of calls of
  -- other programs that all succeed and are all permitted. A permitted call creates a token account of
  -- the route for TitanPDA or one of the user's two, at the payer's cost; wraps the user's lamports in
  -- the input account; moves the input to the first account of the route, on the user's authority;
  -- trades with an instruction of the Quay program, on accounts that are listed for the route, that only
  -- TitanPDA and signers of the route sign; moves tokens of an account of the route to the output
  -- account, or closes one in favour of the payer, on the authority of TitanPDA; or closes the input
  -- account in favour of the payer, on the user's authority. The program that moves tokens without a
  -- check of the decimals is the SPL token program; in every other such call the token program is one of
  -- the two of the instruction.
  pub execute-Calls :
      (amount : ℕ) (swaps : List SwapSpecInputV2) (w w' : World)
      → execute rt ids accounts remaining mints amount swaps w ≡ ok (tt, w')
      → Calls rt (Permitted accounts remaining mints ids) w w'
  unfolding execute
  execute-Calls amount swaps w w' h =
      let whole =
        chain-Makes_after rt P (read_request rt ids accounts remaining mints swaps) _
          (quiet-Makes rt P _ (read_request-IsQuiet rt ids accounts remaining mints swaps))
          (λ request u mid asked.
            let (valid, inside, _) =
              requested rt ids accounts remaining mints swaps u mid request asked in
            chain-Makes rt P (create_missing rt ids accounts remaining mints mints 0 0) _
              (create_missing-Makes accounts remaining mints rt ids P Permitted-Covers mints 0 0
                (omega arith))
              (λ created.
                chain-Makes rt P
                  (take_balances ids mints accounts.titan_pda.key 0 remaining empty_ledger) _
                  (quiet-Makes rt P _ (recording rt ids accounts remaining mints))
                  (λ ledger. settle-Makes amount swaps request created ledger inside))) in
      whole.calls w tt w' h
