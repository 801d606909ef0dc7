-- ===== src/Program/Route/Payout/Delivered.antt =====
-- The user's output account over a whole route of instructions/swap_route_v3.rs.
use quay_titan_integration.Prelude.{
  ℕ, ◌+◌, ◌-◌, ◌*◌, ◌≡◌, refl, true, false, some, ok, List, length, get_elem?, ◌==◌, arith, ap, ◌∙◌,
  sym, subst, ok-injective,
}
use quay_titan_integration.Solana.{Pubkey}
use quay_titan_integration.Program.State.{SwapSpecInputV2}
use quay_titan_integration.Program.Accounts.{TokenIds, extract_token_amount}
use quay_titan_integration.Program.Runtime.{World, Handle, Runtime, Cpi, close_account}
use quay_titan_integration.Program.Calls.{Calls-elim}
use quay_titan_integration.Program.Reserves.{Ledger, empty_ledger, unwrap_or_zero, take_balances}
use quay_titan_integration.Program.Reserves.Reserved.{take_balances-Reserve}
use quay_titan_integration.Program.Trade.{run_legs}
use quay_titan_integration.Program.Route.{
  SwapRouteV3, Request, read_request, create_missing, take_input, close_created, trade_and_settle,
  execute,
}
use quay_titan_integration.Program.Route.Authority.{IsAta}
use quay_titan_integration.Program.Route.Authority.Closes.{close_created-Makes}
use quay_titan_integration.Program.Route.Stages.{settled, staged}
use quay_titan_integration.Program.Route.Total.{requested}
use quay_titan_integration.Program.Route.Closing.{
  held, held_at, ClosesOnly, Cleared-held, close_created-Settled,
}
use quay_titan_integration.Program.Route.Closing.Created.{CreatesOnly}
use quay_titan_integration.Program.Route.Payout.{
  MovesExactly, OpensEmpty, user_before, pay_output-Moved,
}
use quay_titan_integration.Program.Route.Payout.Whole.{execute-pays_all}

same_bytes-held :
    (w w' : World) (key : Pubkey) → (w' key).bytes ≡ (w key).bytes → held w' key ≡ held w key
unfolding extract_token_amount
same_bytes-held w w' key same = rw same refl

module _ (rt : Runtime) (moves : MovesExactly rt) (creates : CreatesOnly rt) (opens : OpensEmpty rt)
    (closes : ClosesOnly rt) (ids : TokenIds) (accounts : SwapRouteV3) (remaining : List Handle)
    (mints : ℕ) where
  -- No token account of the route has this key.
  abbrev pub IsForeign : Pubkey → Type 0
  IsForeign key =
      (j : ℕ) (ata : Handle) → IsAta accounts remaining mints j ata → (key == ata.key) ≡ false

  -- A close of a token account of the route.
  abbrev IsRouteClose : Cpi → Type 0
  IsRouteClose cpi =
      (j : ℕ) × (ata : Handle) × (program : Pubkey) × IsAta accounts remaining mints j ata
      × (cpi ≡ close_account program ata.key accounts.payer.key accounts.titan_pda.key true)

  route_close-others :
      (key : Pubkey)
      → IsForeign key
      → (cpi : Cpi) (w w' : World) → IsRouteClose cpi
      → rt.invoke cpi w ≡ ok w'
      → (w' key).bytes ≡ (w key).bytes
  route_close-others key apart cpi w w' (j, ata, program, at, named) run =
      closes.others program ata.key accounts.payer.key accounts.titan_pda.key true w w' key
        (subst (λ c. rt.invoke c w ≡ ok w') named run) (apart j ata at)

  close_created-others :
      (key : Pubkey)
      → IsForeign key
      → (created : ℕ) (w w' : World)
      → close_created rt ids accounts remaining mints mints 0 created w ≡ ok (tt, w')
      → held w' key ≡ held w key
  close_created-others key apart created w w' h =
      let made =
        close_created-Makes accounts remaining mints rt ids IsRouteClose
          (λ j ata program at isp. (j, ata, program, at, refl)) mints 0 created (omega arith) in
      same_bytes-held w w' key (
        Calls-elim rt IsRouteClose (λ u v. (v key).bytes ≡ (u key).bytes) (λ u. refl)
          (λ u mid v first rest. rest ∙ first) (route_close-others key apart) w w'
          (made.calls w tt w' h))

  -- What the trades have left in `h` beyond its balance in `start` has gone to the output account.
  abbrev pub Delivered : World → World → World → Handle → Type 0
  Delivered start traded w' h =
      held w' accounts.output_token_account.key + held start h.key
      ≡ user_before accounts traded + held traded h.key

  settled-Delivered :
      (amount : ℕ) (swaps : List SwapSpecInputV2) (request : Request) (created : ℕ)
      (ledger : Ledger) (start w' : World) (h : Handle) (reserve : ℕ)
      → get_elem? remaining request.output_index ≡ some h
      → get_elem? ledger.reserved request.output_index ≡ some reserve
      → held start h.key ≡ reserve
      → (h.key == accounts.output_token_account.key) ≡ false
      → IsForeign accounts.output_token_account.key
      → held w' h.key ≡ held start h.key
      → trade_and_settle rt ids accounts remaining mints amount swaps request created ledger start
        ≡ ok (tt, w')
      → (funded : World) × (traded : World) × (take_input rt ids accounts remaining mints
            request.stored amount request.input_decimals start
          ≡ ok (tt, funded))
        × (run_legs rt accounts.titan_pda.key remaining ledger.reserved (2 * mints) swaps funded
            ≡ ok (tt, traded))
        × Delivered start traded w' h
  settled-Delivered amount swaps request created ledger start w' h reserve at kept was apart far all
        run =
      let (funded, traded, paid, takes, legs, pays, closing, _) =
        settled rt ids accounts remaining mints amount swaps request created ledger start w' run in
      let (left, got) =
        pay_output-Moved rt moves ids creates opens accounts remaining mints request.output_index
          request.output_decimals ledger.reserved traded paid h reserve at kept apart pays in
      let cleared =
        (close_created-Settled rt closes ids accounts remaining mints mints 0 created paid w'
            closing).0
          h.key in
      let less = Cleared-held paid w' h.key cleared in
      let stays =
        close_created-others accounts.output_token_account.key far created paid w' closing in
      (funded, traded, takes, legs, omega (arith, left, got, less, stays))

  -- When a transfer that succeeds moves its amount, a token account that is created where nothing was is
  -- empty, creations and closes touch no other account, TitanPDA's account for the output mint is not
  -- the user's output account, and that is none of the route's token accounts, a route that succeeds
  -- delivers what it has traded: it reads its request, creates the missing accounts, records the
  -- balances, takes the input and runs the legs, and in the end the output account holds what the user
  -- had in it after the legs, plus all that TitanPDA's account for the output mint held then beyond its
  -- balance at the time of the record.
  pub execute-delivers :
      (amount : ℕ) (swaps : List SwapSpecInputV2) (w w' : World) (last : SwapSpecInputV2)
      (h : Handle)
      → execute rt ids accounts remaining mints amount swaps w ≡ ok (tt, w')
      → get_elem? swaps (length swaps - 1) ≡ some last
      → get_elem? remaining last.to ≡ some h
      → (h.key == accounts.output_token_account.key) ≡ false
      → IsForeign accounts.output_token_account.key
      → (request : Request) × (created : ℕ) × (start : World) × (ledger : Ledger) × (funded : World)
        × (traded : World) × (read_request rt ids accounts remaining mints swaps w
            ≡ ok (request, w))
        × (create_missing rt ids accounts remaining mints mints 0 0 w ≡ ok (created, start))
        × (take_balances ids mints accounts.titan_pda.key 0 remaining empty_ledger start
            ≡ ok (ledger, start))
        × (take_input rt ids accounts remaining mints request.stored amount request.input_decimals
              start
            ≡ ok (tt, funded))
        × (run_legs rt accounts.titan_pda.key remaining ledger.reserved (2 * mints) swaps funded
            ≡ ok (tt, traded))
        × Delivered start traded w' h
  execute-delivers amount swaps w w' last h run final at apart far =
      let (created', start', made', all) =
        execute-pays_all rt moves creates opens closes ids accounts remaining mints amount swaps w
          w' last h run final at apart in
      let (request, created, start, ledger, asked, made, taken, rest) =
        staged rt ids accounts remaining mints amount swaps w w' run in
      let (valid, inside, (last', final', named)) =
        requested rt ids accounts remaining mints swaps w w request asked in
      let one : last' ≡ last = cc in
      let index : last.to ≡ request.output_index = ap (λ s. s.to) (sym one) ∙ named in
      let at' = subst (λ i. get_elem? remaining i ≡ some h) index at in
      let (b, read, own, kept) =
        (take_balances-Reserve ids mints accounts.titan_pda.key 0 remaining empty_ledger start
            ledger start valid.1 taken).1
          request.output_index h at' (omega (arith, inside)) in
      let same : start' ≡ start = ap (λ p. p.1) (ok-injective (sym made' ∙ made)) in
      let was : held start h.key ≡ b = sym (held_at start h) ∙ ap unwrap_or_zero read in
      let (funded, traded, takes, legs, delivered) =
        settled-Delivered amount swaps request created ledger start w' h b at'
          (subst (λ i. get_elem? ledger.reserved i ≡ some b) (omega arith) kept) was apart far
          (all ∙ ap (λ u. held u h.key) same) rest in
      (request, created, start, ledger, funded, traded, asked, made, taken, takes, legs, delivered)
