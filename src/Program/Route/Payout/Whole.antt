-- ===== src/Program/Route/Payout/Whole.antt =====
-- The output account of TitanPDA over a whole route of instructions/swap_route_v3.rs.
use quay_titan_integration.Prelude.{
  ℕ, ◌-◌, ◌≤◌, ◌≡◌, true, false, some, ok, List, length, get_elem?, ◌==◌, arith, ap, ◌∙◌, sym,
  subst, ok-injective,
}
use quay_titan_integration.Program.State.{SwapSpecInputV2}
use quay_titan_integration.Program.Accounts.{
  TokenIds, extract_token_amount, is_titan_pda_token_account,
}
use quay_titan_integration.Program.Runtime.{World, Handle, Runtime, view}
use quay_titan_integration.Program.Reserves.{Ledger, empty_ledger, unwrap_or_zero}
use quay_titan_integration.Program.Reserves.Reserved.{take_balances-Reserve}
use quay_titan_integration.Program.Route.{
  SwapRouteV3, Request, create_missing, trade_and_settle, execute,
}
use quay_titan_integration.Program.Route.Stages.{settled, staged}
use quay_titan_integration.Program.Route.Safe.{execute-AllSafe}
use quay_titan_integration.Program.Route.Total.{requested}
use quay_titan_integration.Program.Route.Closing.{
  held, held_at, ClosesOnly, Cleared-held, close_created-Settled,
}
use quay_titan_integration.Program.Route.Closing.Created.{CreatesOnly}
use quay_titan_integration.Program.Route.Payout.{MovesExactly, OpensEmpty, pay_output-Moved}

module _ (rt : Runtime) (moves : MovesExactly rt) (creates : CreatesOnly rt) (opens : OpensEmpty rt)
    (closes : ClosesOnly rt) (ids : TokenIds) (accounts : SwapRouteV3) (remaining : List Handle)
    (mints : ℕ) where
  -- From the trades to the end, the output account keeps at most its reserve.
  settled_at_most :
      (amount : ℕ) (swaps : List SwapSpecInputV2) (request : Request) (created : ℕ)
      (ledger : Ledger) (w w' : World) (h : Handle) (reserve : ℕ)
      → get_elem? remaining request.output_index ≡ some h
      → get_elem? ledger.reserved request.output_index ≡ some reserve
      → (h.key == accounts.output_token_account.key) ≡ false
      → trade_and_settle rt ids accounts remaining mints amount swaps request created ledger w
        ≡ ok (tt, w')
      → held w' h.key ≤ reserve
  settled_at_most amount swaps request created ledger w w' h reserve at kept apart run =
      let (_, traded, paid, _, _, pays, closing, _) =
        settled rt ids accounts remaining mints amount swaps request created ledger w w' run in
      let left =
        (pay_output-Moved rt moves ids creates opens accounts remaining mints request.output_index
          request.output_decimals ledger.reserved traded paid h reserve at kept apart pays).0 in
      let cleared =
        (close_created-Settled rt closes ids accounts remaining mints mints 0 created paid w'
            closing).0
          h.key in
      omega (arith, left, Cleared-held paid w' h.key cleared)

  -- At most what was reserved, and at least what was there.
  pinned :
      (w start w' : World) (h : Handle) (b b' : ℕ)
      → w ≡ start
      → extract_token_amount (view w h) ≡ ok b
      → extract_token_amount (view start h) ≡ ok b'
      → held w' h.key ≤ b
      → b' ≤ unwrap_or_zero (extract_token_amount (view w' h))
      → held w' h.key ≡ held start h.key
  pinned w start w' h b b' same read read' most least =
      let was : held w h.key ≡ b = sym (held_at w h) ∙ ap unwrap_or_zero read in
      let was' : held start h.key ≡ b' = sym (held_at start h) ∙ ap unwrap_or_zero read' in
      omega (arith, most, least, was, was', held_at w' h, ap (λ u. held u h.key) same)

  -- When a transfer that succeeds moves its amount, a token account that is created where nothing was is
  -- empty, and creations and closes touch no other account, a route that succeeds leaves the account of
  -- TitanPDA for the output mint, unless it is the user's output account, with exactly the balance that
  -- it had once the missing accounts were created: all that the trades have added to it went to the
  -- user.
  pub execute-pays_all :
      (amount : ℕ) (swaps : List SwapSpecInputV2) (w w' : World) (last : SwapSpecInputV2)
      (h : Handle)
      → execute rt ids accounts remaining mints amount swaps w ≡ ok (tt, w')
      → get_elem? swaps (length swaps - 1) ≡ some last
      → get_elem? remaining last.to ≡ some h
      → (h.key == accounts.output_token_account.key) ≡ false
      → (created : ℕ) × (start : World) × (create_missing rt ids accounts remaining mints mints 0 0
            w
          ≡ ok (created, start))
        × (held w' h.key ≡ held start h.key)
  execute-pays_all amount swaps w w' last h run final at apart =
      let (created', start', made', safe) =
        execute-AllSafe rt ids accounts remaining mints amount swaps w w' run in
      let (request, created, start, ledger, asked, made, taken, rest) =
        staged rt ids accounts remaining mints amount swaps w w' run in
      let (valid, inside, (last', final', named)) =
        requested rt ids accounts remaining mints swaps w w request asked in
      let one : last' ≡ last = cc in
      let index : last.to ≡ request.output_index = ap (λ s. s.to) (sym one) ∙ named in
      let at' = subst (λ i. get_elem? remaining i ≡ some h) index at in
      let (b, read, own, kept) =
        (take_balances-Reserve ids mints accounts.titan_pda.key 0 remaining empty_ledger start
            ledger start valid.1 taken).1
          request.output_index h at' (omega (arith, inside)) in
      let most =
        settled_at_most amount swaps request created ledger start w' h b at'
          (subst (λ i. get_elem? ledger.reserved i ≡ some b) (omega arith) kept) apart rest in
      let same : start ≡ start' = ap (λ p. p.1) (ok-injective (sym made ∙ made')) in
      let (b', read', least) = safe request.output_index h (omega (arith, inside, valid.1)) at' (
        subst (λ u. is_titan_pda_token_account ids (view u h) accounts.titan_pda.key ≡ true) same
          own) in
      (created', start', made', pinned start start' w' h b b' same read read' most least)
