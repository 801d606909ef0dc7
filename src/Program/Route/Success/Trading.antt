-- ===== src/Program/Route/Success/Trading.antt =====
-- instructions/swap_route_v3.rs: the loop over the legs succeeds.
use quay_titan_integration.Prelude.{
  ℕ, ◌+◌, ◌*◌, ◌≤◌, ◌<◌, ◌≡◌, refl, sym, ap, ◌∙◌, ◌==◌, ok, false, inl, inr, true, some, List, [],
  ◌∷◌, All, ltb, leb, length, take, drop, get_elem?, arith, Bool-cases,
}
use quay_titan_integration.Solana.{Pubkey}
use quay_titan_integration.Program.State.{SwapSpecInputV2}
use quay_titan_integration.Program.Accounts.{TokenIds}
use quay_titan_integration.Program.Legs.{leg_input_amount, leg_input_amount-le}
use quay_titan_integration.Program.Runtime.{World, Handle, Runtime}
use quay_titan_integration.Program.Ends.{Ends, chain-Ends}
use quay_titan_integration.Program.Route.Closing.{held, held_at}
use quay_titan_integration.Program.Reserves.{unwrap_or_zero}
use quay_titan_integration.Program.Trade.{perform_leg, run_leg, run_legs}
use quay_titan_integration.Program.Route.{SwapRouteV3}
use quay_titan_integration.Program.Route.Guards.{InRange}
use quay_titan_integration.Program.Route.Authority.{IsAta}
use quay_titan_integration.Program.Route.Success.{Obliging, Leaves}
use quay_titan_integration.Program.Route.Success.Kept.{placed}
use quay_titan_integration.Program.Route.Success.Ready.{IsKept, IsReady, Leaves-IsReady}
use quay_titan_integration.Program.Route.Success.Recording.{read_amount, held_by_at}

-- Every leg counts some accounts, and there are as many.
abbrev pub Fits : List Handle → ℕ → List SwapSpecInputV2 → Type 0
Fits remaining start [] = Unit {0}
Fits remaining start (spec ∷ swaps) =
    (0 < spec.n_accounts)
    × (start + spec.n_accounts ≤ length remaining)
    × Fits remaining (start + spec.n_accounts) swaps

module _ (rt : Runtime) (accounts : SwapRouteV3) (remaining : List Handle)
    (S : Pubkey → Type 0) where
  -- The trade of a leg takes at most the amount of the leg from the accounts of a set, and that from
  -- the leg's input account.
  abbrev pub IsFair : ℕ → SwapSpecInputV2 → Type 0
  IsFair start spec =
      (amount : ℕ) (w w' : World) (input : Handle) (key : Pubkey)
      → get_elem? remaining spec.from ≡ some input
      → perform_leg rt accounts.titan_pda.key amount spec.venue
          (take spec.n_accounts (drop start remaining)) w
        ≡ ok (tt, w')
      → S key
      → (held w key ≤ held w' key + amount)
        × ((key == input.key) ≡ false → held w key ≤ held w' key)

  abbrev pub AreFair : ℕ → List SwapSpecInputV2 → Type 0
  AreFair start [] = Unit {0}
  AreFair start (spec ∷ swaps) = IsFair start spec × AreFair (start + spec.n_accounts) swaps

module _ (rt : Runtime) (Good : World → Type 0) (ids : TokenIds) (accounts : SwapRouteV3)
    (remaining : List Handle) (mints : ℕ) where
  -- The venue accepts the trade of a leg, of any amount that its input account holds, in a state that the
  -- other programs accept, and the trade leaves the token accounts and the mints of the route what they
  -- are.
  abbrev pub IsAccepted : ℕ → SwapSpecInputV2 → Type 0
  IsAccepted start spec =
      (amount : ℕ) (w : World) (input : Handle)
      → Good w
      → get_elem? remaining spec.from ≡ some input
      → 0 < amount
      → amount ≤ held w input.key
      → (w' : World) × (perform_leg rt accounts.titan_pda.key amount spec.venue
            (take spec.n_accounts (drop start remaining)) w
          ≡ ok (tt, w'))
        × Good w'
        × Leaves ids accounts remaining mints w w'

  abbrev pub AreAccepted : ℕ → List SwapSpecInputV2 → Type 0
  AreAccepted start [] = Unit {0}
  AreAccepted start (spec ∷ swaps) =
      IsAccepted start spec × AreAccepted (start + spec.n_accounts) swaps

module _ (rt : Runtime) (Good : World → Type 0) (ids : TokenIds) (accounts : SwapRouteV3)
    (remaining : List Handle) (mints : ℕ) (calls : Obliging ids accounts remaining mints rt Good)
    (room : 2 * mints ≤ length remaining) (S : Pubkey → Type 0) (base : World)
    (output_index output_decimals : ℕ) where
  abbrev Ready : World → Type 0
  Ready = IsReady ids accounts remaining mints Good S base output_index output_decimals

  module _ (reserved : List ℕ)
      (kept : (i : ℕ) (ata : Handle)
        → IsAta accounts remaining mints i ata
        → get_elem? reserved i ≡ some (held base ata.key)) where
    run_leg-Ends :
        (start : ℕ) (spec : SwapSpecInputV2) (w : World)
        → spec.from < mints
        → 0 < spec.n_accounts
        → start + spec.n_accounts ≤ length remaining
        → IsAccepted rt Good ids accounts remaining mints start spec
        → IsFair rt accounts remaining S start spec
        → Ready w
        → Ends
            (run_leg rt accounts.titan_pda.key remaining reserved start spec)
            w
            (λ u w'. Ready w')
    unfolding run_leg
    run_leg-Ends start spec w from counted fits accepted fair ready =
        let ((input, a), (mint, m)) = placed ids accounts remaining mints spec.from from room in
        let own = (ready.1 spec.from from input mint a m).held_by in
        let (balance, read) =
          read_amount ids w input accounts.titan_pda.key
            (held_by_at ids w input accounts.titan_pda.key own) in
        let reserve = held base input.key in
        let at = kept spec.from input a in
        let now : held w input.key ≡ balance = sym (held_at w input) ∙ ap unwrap_or_zero read in
        let some_accounts : ltb 0 spec.n_accounts ≡ true = ground arith in
        let enough : leb (start + spec.n_accounts) (length remaining) ≡ true = ground arith in
        elim (Bool-cases (ltb 0 (leg_input_amount balance reserve spec.weight_nanos))) [
          | inl spends ↦
              let amount = leg_input_amount balance reserve spec.weight_nanos in
              let spent = leg_input_amount-le balance reserve spec.weight_nanos in
              let (w', run, good, leaves) =
                accepted amount w input ready.0 a.0 (ground arith) (omega (arith, spent, now)) in
              let still : IsKept ids accounts remaining mints S base w' = λ key s.
                let (most, others) = fair amount w w' input key a.0 run s in
                elim (Bool-cases (key == input.key)) [
                  | inl e ↦
                      let same : key ≡ input.key = ground arith in
                      let then_held = ap (held base) same in
                      let now_held = ap (held w) same in
                      omega (arith, most, spent, now, then_held, now_held, ready.4 key s)
                  | inr e ↦ omega (arith, others e, ready.4 key s)
                ] in
              (
                tt,
                w',
                rw (some_accounts, enough, a.0, read, at, spends, run) refl,
                Leaves-IsReady ids accounts remaining mints Good S base output_index output_decimals
                    w w' leaves good still ready,
              )
          | inr nothing ↦ (tt, w, rw (some_accounts, enough, a.0, read, at, nothing) refl, ready)
        ]

    -- Every leg is performed.
    pub run_legs-Ends :
        (start : ℕ) (swaps : List SwapSpecInputV2) (w : World)
        → All (InRange mints) swaps
        → Fits remaining start swaps
        → AreAccepted rt Good ids accounts remaining mints start swaps
        → AreFair rt accounts remaining S start swaps
        → Ready w
        → Ends
            (run_legs rt accounts.titan_pda.key remaining reserved start swaps)
            w
            (λ u w'. Ready w')
    unfolding run_legs
    run_legs-Ends start [] w inside fits accepted fair ready = (tt, w, refl, ready)
    run_legs-Ends start (spec ∷ swaps) w ((from, to), inside) (counted, enough, fits)
          (accepted, later) (fair, fairs) ready =
        chain-Ends (run_leg rt accounts.titan_pda.key remaining reserved start spec) _ w
          (λ u w'. Ready w') _ (run_leg-Ends start spec w from counted enough accepted fair ready)
          (λ u mid ready'.
            run_legs-Ends (start + spec.n_accounts) swaps mid inside fits later fairs ready')
