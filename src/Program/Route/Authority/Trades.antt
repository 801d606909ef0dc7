-- ===== src/Program/Route/Authority/Trades.antt =====
-- instructions/swap_route_v3.rs: the calls of the loop over the legs, for any predicate that holds
-- of a trade.
use quay_titan_integration.Prelude.{
  ℕ, ltb, leb, ◌&&◌, ◌≡◌, subst, sym, some, zero, suc, ◌+◌, ◌-◌, refl, inl, inr, List, [], ◌∷◌, map,
  All, length, take, drop, ◌==◌, arith, Bool-cases, In, In-take, In-drop,
}
use quay_titan_integration.Solana.{Pubkey, AccountMeta, Instruction}
use quay_titan_integration.Program.State.{Venue, quay, SwapSpecInputV2}
use quay_titan_integration.Program.Runtime.{World, Handle, Cpi, Runtime, view, venue_call, call}
use quay_titan_integration.Program.Calls.{
  index-Makes_found, Makes, makes_rules, done-Makes, chain-Makes, call-Makes,
}
use quay_titan_integration.Program.Route.{SwapRouteV3}
use quay_titan_integration.Program.Route.Authority.{IsListed, Signs}
use quay_titan_integration.Program.QuayCpi.{swap, program_id}
use quay_titan_integration.Program.Legs.{leg_account_metas, leg_meta}
use quay_titan_integration.Program.Trade.{
  leg_slice, venue_instructions, invoke_all, perform_cpi_swap, perform_leg, run_leg, run_legs,
}

module _ (accounts : SwapRouteV3) (remaining : List Handle) (mints : ℕ) (rt : Runtime) where
  leg_meta-Signs :
      (w : World) (h : Handle)
      → In h remaining
      → Signs accounts remaining mints (leg_meta accounts.titan_pda.key (view w h))
  leg_meta-Signs w h held signs = elim (Bool-cases (h.key == accounts.titan_pda.key)) [
    | inl e ↦ inl (ground arith)
    | inr e ↦ inr (h, held, ground arith, refl)
  ]

  pub taken-Signs :
      (w : World) (n : ℕ) (hs : List Handle)
      → ((h : Handle) → In h hs → In h remaining)
      → All
          (Signs accounts remaining mints)
          (map (leg_meta accounts.titan_pda.key) (take n (map (view w) hs)))
  taken-Signs w zero hs held = tt
  taken-Signs w (suc n) [] held = tt
  taken-Signs w (suc n) (h ∷ hs) held =
      (leg_meta-Signs w h (held h (inl refl)), taken-Signs w n hs (λ g at. held g (inr at)))

  pub keys-IsListed :
      (hs : List Handle)
      → ((h : Handle) → In h hs → In h remaining)
      → All (IsListed accounts remaining mints) (map (λ h. h.key) hs)
  keys-IsListed [] held = tt
  keys-IsListed (h ∷ hs) held =
      ((h, held h (inl refl), refl), keys-IsListed hs (λ g at. held g (inr at)))

module _ (accounts : SwapRouteV3) (remaining : List Handle) (mints : ℕ) (rt : Runtime)
    (P : Cpi → Type 0)
    (trade : (instruction : Instruction) (keys : List Pubkey)
      → instruction.program_id ≡ program_id
      → All (Signs accounts remaining mints) instruction.accounts
      → All (IsListed accounts remaining mints) keys
      → P (venue_call instruction keys)) where
  perform_cpi_swap-Makes :
      (amount : ℕ) (venue : Venue) (metas : List AccountMeta) (keys : List Pubkey)
      → All (Signs accounts remaining mints) metas
      → All (IsListed accounts remaining mints) keys
      → Makes rt P (perform_cpi_swap rt accounts.titan_pda.key amount venue metas keys)
  unfolding perform_cpi_swap venue_instructions swap invoke_all
  perform_cpi_swap-Makes amount (quay sell_base) metas keys signed listed =
      chain-Makes rt P (call rt (venue_call _ keys)) _
        (call-Makes rt P _ (trade _ keys refl signed listed)) (λ u. done-Makes rt P tt)

  perform_leg-Makes :
      (amount : ℕ) (venue : Venue) (hs : List Handle)
      → ((h : Handle) → In h hs → In h remaining)
      → Makes rt P (perform_leg rt accounts.titan_pda.key amount venue hs)
  unfolding perform_leg leg_account_metas
  perform_leg-Makes amount venue hs held = record {
    calls = λ w.
        (perform_cpi_swap-Makes amount venue _ (map (λ h. h.key) hs)
            (taken-Signs accounts remaining mints rt w (length (map (view w) hs) - 1) hs held)
            (keys-IsListed accounts remaining mints rt hs held)).calls
          w;
  }

  module _ (reserved : List ℕ) where
    leg_slice-In :
        (at n : ℕ) (hs : List Handle)
        → leg_slice rt accounts.titan_pda.key remaining reserved at n ≡ some hs
        → (h : Handle) → In h hs
        → In h remaining
    leg_slice-In at n hs e h held = elim (Bool-cases (ltb 0 n && leb (at + n) (length remaining))) [
      | inl fits ↦
          let same : take n (drop at remaining) ≡ hs = let found = rw fits at e in cc in
          In-drop h at remaining (In-take h n _ (subst (λ xs. In h xs) (sym same) held))
      | inr out ↦ let nothing = rw out at e in cc
    ]

    run_leg-Makes :
        (at : ℕ) (spec : SwapSpecInputV2)
        → Makes rt P (run_leg rt accounts.titan_pda.key remaining reserved at spec)
    unfolding run_leg
    run_leg-Makes at spec =
        let leg = λ (amount : ℕ).
          index-Makes_found rt P
            (leg_slice rt accounts.titan_pda.key remaining reserved at spec.n_accounts)
            (perform_leg rt accounts.titan_pda.key amount spec.venue)
            (λ hs found.
              perform_leg-Makes amount spec.venue hs (leg_slice-In at spec.n_accounts hs found)) in
        search (makes_rules, leg) depth 60

    pub run_legs-Makes :
        (at : ℕ) (swaps : List SwapSpecInputV2)
        → Makes rt P (run_legs rt accounts.titan_pda.key remaining reserved at swaps)
    unfolding run_legs
    run_legs-Makes at [] = done-Makes rt P tt
    run_legs-Makes at (spec ∷ swaps) =
        chain-Makes rt P (run_leg rt accounts.titan_pda.key remaining reserved at spec) _
          (run_leg-Makes at spec) (λ u. run_legs-Makes (at + spec.n_accounts) swaps)
