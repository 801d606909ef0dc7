-- ===== src/Program/Route/Success/Whole.antt =====
-- instructions/swap_route_v3.rs: when a whole route succeeds.
use quay_titan_integration.Prelude.{
  ℕ, ok-injective, suc, ◌+◌, [], ◌∷◌, leb, sym, ap, ◌*◌, ◌<◌, ◌≡◌, refl, true, Option, none, some,
  ok, List, arith, ◌∙◌, subst,
}
use quay_titan_integration.Solana.{Pubkey}
use quay_titan_integration.Program.State.{SwapSpecInputV2}
use quay_titan_integration.Program.Accounts.{
  TokenIds, extract_token_amount, extract_token_owner, is_titan_pda_token_account,
}
use quay_titan_integration.Program.Runtime.{World, Handle, Runtime, view}
use quay_titan_integration.Program.Reserves.{unwrap_or_zero, empty_ledger, Ledger, take_balances}
use quay_titan_integration.Program.Reserves.Recorded.{Recorded}
use quay_titan_integration.Program.Reserves.Exact.{all_kept, verdict, check_balances-exact}
use quay_titan_integration.Program.Route.{
  Request, read_request, SwapRouteV3, create_missing, execute,
}
use quay_titan_integration.Program.Route.Closing.{held, held_at}
use quay_titan_integration.Program.Route.Stages.{Reaches}
use quay_titan_integration.Program.Route.Success.{Obliging, IsOpen, at}
use quay_titan_integration.Program.Route.Success.Ready.{IsKept}
use quay_titan_integration.Program.Route.Success.Creating.{Opens, create_missing-Ends}
use quay_titan_integration.Program.Route.Success.Recording.{take_balances-Ends}
use quay_titan_integration.Program.Route.Success.Trading.{AreAccepted, AreFair}
use quay_titan_integration.Program.Route.Success.Settling.{settle-Ends}
use quay_titan_integration.Program.Route.Success.Starting.{
  IsPayable, asked, prepared, reserves, own_at,
}

module _ (rt : Runtime) (Good : World → Type 0) (ids : TokenIds) (accounts : SwapRouteV3)
    (remaining : List Handle) (mints : ℕ)
    (calls : Obliging ids accounts remaining mints rt Good) where
  -- The state once the missing accounts are created.
  abbrev IsStarted : World → World → Type 0
  IsStarted w start =
      Good start
      × Opens rt Good ids accounts remaining mints w start
      × ((j : ℕ) → j < mints → IsOpen ids accounts remaining mints start j)

  started :
      (amount : ℕ) (swaps : List SwapSpecInputV2) (w : World)
      → Good w
      → IsPayable rt ids accounts remaining mints amount swaps w
      → (created : ℕ) × (start : World) × (create_missing rt ids accounts remaining mints mints 0 0
            w
          ≡ ok (created, start))
        × IsStarted w start
  started amount swaps w good p =
      create_missing-Ends rt Good ids accounts remaining mints calls p.apart p.valid.2 mints 0 0 w
        (omega arith) good (λ j lt. absurd (omega arith)) (λ j le lt. p.ours j lt)

  -- From there to the last comparison, with nothing taken from a set of accounts that fair trades spare.
  reached :
      (S : Pubkey → Type 0) (amount : ℕ) (swaps : List SwapSpecInputV2) (w : World)
      → IsPayable rt ids accounts remaining mints amount swaps w
      → (created : ℕ) (start : World)
      → create_missing rt ids accounts remaining mints mints 0 0 w ≡ ok (created, start)
      → IsStarted w start
      → ¬ S accounts.input_token_account.key
      → ¬ S accounts.output_token_account.key
      → AreAccepted rt Good ids accounts remaining mints (2 * mints) swaps
      → AreFair rt accounts remaining S (2 * mints) swaps
      → (request : Request) × (ledger : Ledger) × (es : List (Option ℕ)) × (after : World)
        × (read_request rt ids accounts remaining mints swaps w ≡ ok (request, w))
        × (take_balances ids mints accounts.titan_pda.key 0 remaining empty_ledger start
            ≡ ok (ledger, start))
        × Reaches rt ids accounts remaining mints amount swaps request created ledger start after
        × Recorded ids mints accounts.titan_pda.key start remaining es
        × (execute rt ids accounts remaining mints amount swaps w
            ≡ verdict (all_kept after 0 remaining es) after)
        × IsKept ids accounts remaining mints S start after
  unfolding execute
  reached S amount swaps w p created start made (good, opens, open_all) input_other output_other
        accepted fair =
      let room = p.valid.2 in
      let (ready, input, funded, known) =
        prepared rt Good ids accounts remaining mints calls S amount swaps w start p good opens
          open_all in
      let (ledger, taken) =
        take_balances-Ends ids mints accounts.titan_pda.key 0 remaining empty_ledger start
          (λ k h at lt.
            own_at rt Good ids accounts remaining mints calls start k h room open_all at
              (omega (arith, lt))) in
      let (after, reaches, settles, kept) =
        settle-Ends rt Good ids accounts remaining mints calls S amount swaps _ created ledger start
          p.valid p.inside p.fits accepted fair p.apart p.output_foreign input_other output_other
          known input funded ready
          (reserves rt Good ids accounts remaining mints calls start ledger p.valid.1 taken) in
      let (es, recorded, checks) =
        check_balances-exact ids mints accounts.titan_pda.key remaining start ledger start taken in
      let asks = asked rt Good ids accounts remaining mints calls amount swaps w p in
      (
        _,
        ledger,
        es,
        after,
        asks,
        taken,
        reaches,
        recorded,
        rw (asks, made, taken, settles) (checks after),
        kept,
      )

  never_taken :
      (start : ℕ) (swaps : List SwapSpecInputV2)
      → AreFair rt accounts remaining (λ key. ⊥) start swaps
  never_taken start [] = tt
  never_taken start (spec ∷ swaps) = (
    λ amount w w' input key at run none_of. absurd none_of,
    never_taken (start + spec.n_accounts) swaps,
  )

  -- When the instruction names the two token programs, their calls and those of the associated-token
  -- program that the route may make do their work, given what they rely on, and the venue accepts the
  -- trades of the legs, a route whose accounts are those of TitanPDA and the user, or can be created, and
  -- whose input is in the user's input account creates the missing accounts, records the balances, takes
  -- the input, runs the legs, pays the output and closes the empty accounts, and then comes to the last
  -- comparison of the balances: it succeeds exactly when each account of TitanPDA among the first 256 then
  -- has at least the balance that was recorded, and otherwise fails with ReservedBalanceViolation, and with
  -- no other error.
  pub execute-verdict :
      (amount : ℕ) (swaps : List SwapSpecInputV2) (w : World)
      → Good w
      → IsPayable rt ids accounts remaining mints amount swaps w
      → AreAccepted rt Good ids accounts remaining mints (2 * mints) swaps
      → (created : ℕ) × (start : World) × (request : Request) × (ledger : Ledger) × (es : List
          (Option ℕ))
        × (after : World) × (create_missing rt ids accounts remaining mints mints 0 0 w
            ≡ ok (created, start))
        × (read_request rt ids accounts remaining mints swaps w ≡ ok (request, w))
        × (take_balances ids mints accounts.titan_pda.key 0 remaining empty_ledger start
            ≡ ok (ledger, start))
        × Reaches rt ids accounts remaining mints amount swaps request created ledger start after
        × Recorded ids mints accounts.titan_pda.key start remaining es
        × (execute rt ids accounts remaining mints amount swaps w
            ≡ verdict (all_kept after 0 remaining es) after)
  execute-verdict amount swaps w good p accepted =
      let (created, start, made, facts) = started amount swaps w good p in
      let (request, ledger, es, after, asks, taken, reaches, recorded, run, _) =
        reached (λ key. ⊥) amount swaps w p created start made facts (λ s. s) (λ s. s) accepted
          (never_taken (2 * mints) swaps) in
      (created, start, request, ledger, es, after, made, asks, taken, reaches, recorded, run)

  -- An account that is TitanPDA's.
  abbrev pub IsOwn : World → Pubkey → Type 0
  IsOwn w key = is_titan_pda_token_account ids (view w (at key)) accounts.titan_pda.key ≡ true

  kept_all :
      (start after : World) (i : ℕ) (hs : List Handle) (es : List (Option ℕ))
      → Recorded ids mints accounts.titan_pda.key start hs es
      → IsKept ids accounts remaining mints (IsOwn start) start after
      → all_kept after i hs es ≡ true
  unfolding is_titan_pda_token_account extract_token_owner
  kept_all start after i [] es recorded kept = refl
  kept_all start after i (h ∷ hs) [] recorded kept = refl
  kept_all start after i (h ∷ hs) (none ∷ es) recorded kept =
      kept_all start after (suc i) hs es recorded.1 kept
  kept_all start after i (h ∷ hs) (some b ∷ es) ((own, read), recorded) kept =
      let had : held start h.key ≡ b = sym (held_at start h) ∙ ap unwrap_or_zero read in
      let now = held_at after h in
      let most = kept h.key own in
      let enough : leb b (unwrap_or_zero (extract_token_amount (view after h))) ≡ true =
        ground (arith, had, now, most) in
      let rest = kept_all start after (suc i) hs es recorded kept in
      rw (enough, rest) (ground arith)

  -- What is asked of the trades: they spare TitanPDA's accounts but for the amounts of their legs, and
  -- the user's two accounts are not TitanPDA's.
  abbrev pub IsSpared : List SwapSpecInputV2 → World → Type 0
  IsSpared swaps start =
      ¬ IsOwn start accounts.input_token_account.key
      × ¬ IsOwn start accounts.output_token_account.key
      × AreFair rt accounts remaining (IsOwn start) (2 * mints) swaps

  -- When the instruction names the two token programs, their calls and those of the associated-token
  -- program that the route may make do their work, given what they rely on, the venue accepts the trades of
  -- the legs, the user's two accounts are not TitanPDA's, and the trade of each leg takes from the token
  -- accounts that TitanPDA has once the missing ones are created no more than the amount of the leg, and
  -- that from the input account of the leg, a route succeeds whose accounts are those of TitanPDA and the
  -- user, or can be created, and whose input is in the user's input account.
  pub execute-succeeds :
      (amount : ℕ) (swaps : List SwapSpecInputV2) (w : World) (created : ℕ) (start : World)
      → Good w
      → IsPayable rt ids accounts remaining mints amount swaps w
      → AreAccepted rt Good ids accounts remaining mints (2 * mints) swaps
      → create_missing rt ids accounts remaining mints mints 0 0 w ≡ ok (created, start)
      → IsSpared swaps start
      → (after : World) × (execute rt ids accounts remaining mints amount swaps w ≡ ok (tt, after))
  execute-succeeds amount swaps w created start good p accepted made spared =
      let (created', start', made', facts) = started amount swaps w good p in
      let same : start ≡ start' = ap (λ x. x.1) (ok-injective (sym made ∙ made')) in
      let (input_other, output_other, fair) = subst (IsSpared swaps) same spared in
      let (_, _, es, after, _, _, _, recorded, run, kept) =
        reached (IsOwn start') amount swaps w p created' start' made' facts input_other output_other
          accepted fair in
      let passes = kept_all start' after 0 remaining es recorded kept in
      (after, run ∙ ap (λ c. verdict c after) passes)
