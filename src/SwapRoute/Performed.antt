-- ===== src/SwapRoute/Performed.antt =====
-- From src/swap_route/mod.rs to instructions/swap_route_v3.rs: the legs that are built for a route, and
-- the calls that the program makes for them.
use quay_titan_integration.Prelude.{
  ℕ, ◌<◌, ◌≡◌, refl, ok, List, [], ◌∷◌, ◌++◌, All, map, length, length-map, arith, ap, ap₂, ◌∙◌,
  ltb, get_elem?, if◌then◌else◌, fun_ext,
}
use quay_titan_integration.Solana.{Pubkey, AccountMeta, Instruction}
use quay_titan_integration.TradingVenue.Quote.{QuoteRequest}
use quay_titan_integration.TradingVenue.Interface.{TradingVenue}
use quay_titan_integration.SwapRoute
use quay_titan_integration.SwapRoute.{build_swap_leg}
use quay_titan_integration.SwapRoute.Dispatch.{
  Signs, AllPresent, AllPresent-length, build_swap_leg-leg_account_metas,
}
use quay_titan_integration.SwapRoute.Legs.{build_swap_leg-Built}
use quay_titan_integration.Program.State
use quay_titan_integration.Program.State.{missing_remaining_account}
use quay_titan_integration.Program.Accounts.{extract_token_amount}
use quay_titan_integration.Program.Legs.{leg_input_amount}
use quay_titan_integration.Program.Runtime.{
  World, Handle, Runtime, Act, view, ◌>>=◌, ◌>>◌, done, try, found, index, see,
}
use quay_titan_integration.Program.Trade.{perform_cpi_swap, perform_leg, run_legs}
use quay_titan_integration.Program.Trade.Regions.{
  OwnLeg, IsCounted, all_accounts, specs, run_own, run_each, run_legs-run_each,
}

-- The selector and the leg as the program reads them: the same variants and fields.
abbrev pub selector_read : SwapRoute.Venue → State.Venue
selector_read (SwapRoute.quay sell_base) = State.quay sell_base

abbrev pub spec_read : SwapRoute.SwapSpecInputV2 → State.SwapSpecInputV2
spec_read spec = record {
  venue = selector_read spec.venue;
  from = spec.from;
  to = spec.to;
  weight_nanos = spec.weight_nanos;
  n_accounts = spec.n_accounts;
}

-- A leg that was built for a venue: the request, the leg, its accounts as the transaction lists them, and
-- the venue's own swap instruction.
pub record BuiltLeg (F : Type 0) : Type 0 where
  pub venue : TradingVenue F
  pub request : QuoteRequest
  pub spec : SwapRoute.SwapSpecInputV2
  pub metas : List AccountMeta
  pub handles : List Handle
  pub instruction : Instruction

module _ {F : Type 0} (pda : Pubkey) where
  -- `build_swap_leg` has built it, from an instruction that TitanPDA signs wherever it occurs, and the
  -- runtime passes its accounts on.
  pub record IsBuilt (leg : BuiltLeg F) : Type 0 where
    pub built :
        build_swap_leg leg.venue leg.request pda leg.spec.from leg.spec.to leg.spec.weight_nanos
        ≡ ok (leg.spec, leg.metas)
    pub generated : leg.venue.generate_swap_instruction leg.request pda ≡ ok leg.instruction
    pub signed : All (Signs pda) leg.instruction.accounts
    pub small : length leg.metas < 256
    pub presented : (w : World) → AllPresent (map (view w) leg.handles) leg.metas

  abbrev pub own_leg : BuiltLeg F → OwnLeg
  own_leg leg = (spec_read leg.spec, leg.handles)

  module _ (rt : Runtime) (remaining : List Handle) (reserved : List ℕ) where
    -- A leg with the accounts of the venue's own instruction.
    abbrev pub run_quoted : BuiltLeg F → Act (Unit {0})
    run_quoted leg = do
      input ← found (get_elem? remaining leg.spec.from) missing_remaining_account
      account ← see input
      balance ← try (extract_token_amount account)
      reserve ← index (get_elem? reserved leg.spec.from)
      let amount = leg_input_amount balance reserve leg.spec.weight_nanos in
          if ltb 0 amount
          then perform_cpi_swap rt pda amount (selector_read leg.spec.venue)
              leg.instruction.accounts (map (λ h. h.key) leg.handles)
          else done tt

    abbrev pub run_all_quoted : List (BuiltLeg F) → Act (Unit {0})
    run_all_quoted [] = done tt
    run_all_quoted (leg ∷ legs) = do run_quoted leg; run_all_quoted legs

    perform_leg-quoted :
        (leg : BuiltLeg F) (amount : ℕ)
        → IsBuilt leg
        → perform_leg rt pda amount (selector_read leg.spec.venue) leg.handles
          ≡ perform_cpi_swap rt pda amount
              (selector_read leg.spec.venue)
              leg.instruction.accounts
              (map (λ h. h.key) leg.handles)
    unfolding perform_leg
    perform_leg-quoted leg amount b = fun_ext (λ w.
        ap
          (λ metas.
            perform_cpi_swap rt pda amount (selector_read leg.spec.venue) metas
              (map (λ h. h.key) leg.handles) w)
          (build_swap_leg-leg_account_metas leg.venue leg.request pda leg.spec.from leg.spec.to
            leg.spec.weight_nanos leg.spec leg.metas (map (view w) leg.handles) leg.instruction
            b.built b.generated b.signed b.small (b.presented w)).0)

    run_own-quoted :
        (leg : BuiltLeg F)
        → IsBuilt leg
        → run_own rt pda remaining reserved (own_leg leg) ≡ run_quoted leg
    run_own-quoted leg b =
        let same = λ (amount : ℕ). perform_leg-quoted leg amount b in
        ap
          (λ perform. do
            input ← found (get_elem? remaining leg.spec.from) missing_remaining_account
            account ← see input
            balance ← try (extract_token_amount account)
            reserve ← index (get_elem? reserved leg.spec.from)
            let amount = leg_input_amount balance reserve leg.spec.weight_nanos in
                if ltb 0 amount then perform amount else done tt)
          (fun_ext same)

    built-IsCounted : (leg : BuiltLeg F) → IsBuilt leg → IsCounted (own_leg leg)
    built-IsCounted leg b =
        let w : World = λ key. record { owner = 0; lamports = 0; bytes = [] } in
        let (_, more) =
          build_swap_leg-leg_account_metas leg.venue leg.request pda leg.spec.from leg.spec.to
            leg.spec.weight_nanos leg.spec leg.metas (map (view w) leg.handles) leg.instruction
            b.built b.generated b.signed b.small (b.presented w) in
        let (_, _, _, _, counted) =
          build_swap_leg-Built leg.venue leg.request pda leg.spec.from leg.spec.to
            leg.spec.weight_nanos leg.spec leg.metas b.built in
        let listed = AllPresent-length (map (view w) leg.handles) leg.metas (b.presented w) in
        let size = length-map (view w) leg.handles in
        (
          omega (arith, counted, listed, size, b.small),
          omega (arith, more, counted, listed, size, b.small),
        )

    All-IsCounted : (legs : List (BuiltLeg F)) → All IsBuilt legs → All IsCounted (map own_leg legs)
    All-IsCounted [] all = tt
    All-IsCounted (leg ∷ legs) (b, all) = (built-IsCounted leg b, All-IsCounted legs all)

    run_each-quoted :
        (legs : List (BuiltLeg F))
        → All IsBuilt legs
        → run_each rt pda remaining reserved (map own_leg legs) ≡ run_all_quoted legs
    run_each-quoted [] all = refl
    run_each-quoted (leg ∷ legs) (b, all) =
        ap₂ (λ m k. m >> k) (run_own-quoted leg b) (run_each-quoted legs all)

    -- When the legs of a route were built by `build_swap_leg`, from instructions that TitanPDA signs
    -- wherever it occurs, with fewer than 256 accounts each, and their accounts follow, leg by leg,
    -- after those of the mints, the program performs each leg, on the amount that it computes for it,
    -- with exactly the account metas of the venue's own swap instruction.
    pub run_legs-quoted :
        (pre : List Handle) (legs : List (BuiltLeg F))
        → All IsBuilt legs
        → remaining ≡ pre ++ all_accounts (map own_leg legs)
        → run_legs rt pda remaining reserved (length pre) (specs (map own_leg legs))
          ≡ run_all_quoted legs
    run_legs-quoted pre legs all e =
        run_legs-run_each rt pda remaining reserved pre (map own_leg legs) e
          (All-IsCounted legs all)
        ∙ run_each-quoted legs all
