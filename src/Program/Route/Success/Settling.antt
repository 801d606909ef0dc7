-- ===== src/Program/Route/Success/Settling.antt =====
-- instructions/swap_route_v3.rs: from the recorded balances on, a route comes to the last comparison.
use quay_titan_integration.Prelude.{ℕ, ◌*◌, ◌<◌, ◌≡◌, refl, some, List, length, get_elem?, arith}
use quay_titan_integration.Program.State.{SwapSpecInputV2}
use quay_titan_integration.Program.Accounts.{TokenIds}
use quay_titan_integration.Program.Runtime.{World, Handle, Runtime}
use quay_titan_integration.Program.Reserves.{Ledger, check_balances}
use quay_titan_integration.Program.Route.{SwapRouteV3, Request, trade_and_settle}
use quay_titan_integration.Program.Route.Stages.{Reaches}
use quay_titan_integration.Program.Route.Guards.{Valid}
use quay_titan_integration.Program.Route.Authority.{IsAta}
use quay_titan_integration.Program.Route.Closing.{held}
use quay_titan_integration.Program.Route.Success.{Obliging, IsForeign, AreApart}
use quay_titan_integration.Program.Route.Success.Kept.{placed}
use quay_titan_integration.Program.Route.Success.Ready.{
  HasDecimals, IsReady, IsKept, Funded, InputReady,
}
use quay_titan_integration.Program.Route.Success.Trading.{AreAccepted, Fits, AreFair, run_legs-Ends}
use quay_titan_integration.Program.Route.Success.Moving.{take_input-Ends}
use quay_titan_integration.Program.Route.Success.Paying.{pay_output-Ends}
use quay_titan_integration.Program.Route.Success.Closing.{close_created-Ends}
use quay_titan_integration.Solana.{Pubkey}

module _ (rt : Runtime) (Good : World → Type 0) (ids : TokenIds) (accounts : SwapRouteV3)
    (remaining : List Handle) (mints : ℕ)
    (calls : Obliging ids accounts remaining mints rt Good) where
  -- From the recorded balances on, a route comes to the last comparison.
  pub settle-Ends :
      (S : Pubkey → Type 0) (amount : ℕ) (swaps : List SwapSpecInputV2) (request : Request)
      (created : ℕ) (ledger : Ledger) (start : World)
      → Valid mints swaps (length remaining)
      → request.output_index < mints
      → Fits remaining (2 * mints) swaps
      → AreAccepted rt Good ids accounts remaining mints (2 * mints) swaps
      → AreFair rt accounts remaining S (2 * mints) swaps
      → AreApart ids accounts remaining mints
      → IsForeign ids accounts remaining mints accounts.output_token_account.key
      → ¬ S accounts.input_token_account.key
      → ¬ S accounts.output_token_account.key
      → HasDecimals ids accounts remaining mints start 0 request.input_decimals
      → InputReady ids accounts remaining mints start
      → Funded ids accounts remaining mints start request.stored amount
      → IsReady ids accounts remaining mints Good S start request.output_index
          request.output_decimals start
      → ((i : ℕ) (ata : Handle)
          → IsAta accounts remaining mints i ata
          → get_elem? ledger.reserved i ≡ some (held start ata.key))
      → (after : World) × Reaches rt ids accounts remaining mints amount swaps request created
          ledger start after
        × (trade_and_settle rt ids accounts remaining mints amount swaps request created ledger
              start
            ≡ check_balances ledger.marks ledger.balances 0 0 remaining after)
        × IsKept ids accounts remaining mints S start after
  unfolding trade_and_settle
  settle-Ends S amount swaps request created ledger start valid inside fits accepted fair apart
        foreign input_other output_other known input funded ready kept =
      let room = valid.2 in
      let out = request.output_index in
      let out_decimals = request.output_decimals in
      let ((ata, a), (mint, m)) =
        placed ids accounts remaining mints 0 (omega (arith, valid.0)) room in
      let ((out_ata, oa), (out_mint, om)) = placed ids accounts remaining mints out inside room in
      let (_, funded_world, taken, ready1) =
        take_input-Ends rt Good ids accounts remaining mints calls room S start out out_decimals
          request.stored amount request.input_decimals start ata mint a m known input input_other
          funded ready in
      let (_, traded, trades, ready2) =
        run_legs-Ends rt Good ids accounts remaining mints calls room S start out out_decimals
          ledger.reserved kept (2 * mints) swaps funded_world valid.5 fits accepted fair ready1 in
      let (_, paid, pays, (good, open_all, kept_all)) =
        pay_output-Ends rt Good ids accounts remaining mints calls room S start out out_decimals
          ledger.reserved traded out_ata out_mint oa om (kept out out_ata oa) foreign output_other
          ready2 in
      let (_, after, closes, (_, kept_after)) =
        close_created-Ends rt Good ids accounts remaining mints calls apart room S start mints 0
          created paid (omega arith) good kept_all (λ j le lt. open_all j lt) in
      (
        after,
        (funded_world, traded, paid, taken, trades, pays, closes),
        rw (taken, trades, pays, closes) refl,
        kept_after,
      )
