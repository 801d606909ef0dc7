-- ===== src/Program/Route/Success/Closing.antt =====
-- instructions/swap_route_v3.rs: the loop that closes the created accounts succeeds.
use quay_titan_integration.Prelude.{
  ℕ, ◌==◌, ap, zero, suc, ◌+◌, ◌*◌, ◌≤◌, ◌<◌, ◌≡◌, refl, inl, inr, true, List, length, ltb, arith,
  ◌∙◌, sym, subst, Bool-cases,
}
use quay_titan_integration.Prelude.Bits.{test_bit}
use quay_titan_integration.Solana.{Pubkey}
use quay_titan_integration.Program.Accounts.{TokenIds, extract_token_amount}
use quay_titan_integration.Program.Runtime.{World, Handle, Runtime, close_account, view}
use quay_titan_integration.Program.Tokens.{close_token_account}
use quay_titan_integration.Program.Reserves.{unwrap_or_zero}
use quay_titan_integration.Program.Ends.{Ends}
use quay_titan_integration.Program.Route.{SwapRouteV3, close_created}
use quay_titan_integration.Program.Route.Authority.{closes_ata}
use quay_titan_integration.Program.Route.Closing.{held, held_at}
use quay_titan_integration.Program.Route.Success.{
  TokenAccount, program_for, IsOpen, AreApart, Obliging,
}
use quay_titan_integration.Program.Route.Success.Kept.{
  program_for_kept, placed, token_program_of-eq,
}
use quay_titan_integration.Program.Route.Success.Ready.{IsKept}
use quay_titan_integration.Program.Route.Success.Creating.{program_for-IsTokenProgram}

module _ (rt : Runtime) (Good : World → Type 0) (ids : TokenIds) (accounts : SwapRouteV3)
    (remaining : List Handle) (mints : ℕ) (calls : Obliging ids accounts remaining mints rt Good)
    (apart : AreApart ids accounts remaining mints) (room : 2 * mints ≤ length remaining)
    (S : Pubkey → Type 0) (base : World) where
  -- A round closes its account, or passes it by.
  abbrev Round : ℕ → ℕ → ℕ → World → Type 0
  Round count i created w =
      (mid : World) × (close_created rt ids accounts remaining mints (suc count) i created w
        ≡ close_created rt ids accounts remaining mints count (suc i) created mid)
      × Good mid
      × (IsKept ids accounts remaining mints S base w
          → IsKept ids accounts remaining mints S base mid)
      × ((j : ℕ)
          → suc i ≤ j
          → IsOpen ids accounts remaining mints w j
          → IsOpen ids accounts remaining mints mid j)

  passed :
      (count i created : ℕ) (w : World)
      → Good w
      → close_created rt ids accounts remaining mints (suc count) i created w
        ≡ close_created rt ids accounts remaining mints count (suc i) created w
      → Round count i created w
  passed count i created w good step = (w, step, good, λ kept. kept, λ j le open_j. open_j)

  round :
      (count i created : ℕ) (w : World)
      → i < mints
      → Good w
      → IsOpen ids accounts remaining mints w i
      → Round count i created w
  unfolding close_created close_token_account
  round count i created w lt good open_i = elim (Bool-cases (test_bit created i)) [
    | inr off ↦ passed count i created w good (rw off refl)
    | inl on ↦
        let ((ata, a), (mint, m)) = placed ids accounts remaining mints i lt room in
        elim (Bool-cases (ltb 0 (unwrap_or_zero (extract_token_amount (view w ata))))) [
          | inl full ↦ passed count i created w good (rw (on, a.0, full) refl)
          | inr nothing ↦
              let program = program_for ids accounts remaining mints w mint in
              let empty : held w ata.key ≡ 0 = sym (held_at w ata) ∙ ground arith in
              let (w', run, good', (tokens, owners, others)) =
                calls.obliged
                  (close_account program ata.key accounts.payer.key accounts.titan_pda.key true) w
                  (closes_ata i ata program a
                    (program_for-IsTokenProgram rt Good ids accounts remaining mints w mint))
                  good ((mint.key, open_i ata mint a m), empty) in
              (
                w',
                rw
                    (
                      on,
                      a.0,
                      nothing,
                      m.0,
                      token_program_of-eq ids accounts remaining mints rt w mint,
                      run,
                    )
                    refl,
                good',
                λ kept key s. elim (Bool-cases (key == ata.key)) [
                  | inl e ↦
                      let same : key ≡ ata.key = ground arith in
                      let nothing : held base key ≤ 0 =
                        omega (arith, kept key s, ap (held w) same, empty) in
                      omega (arith, nothing)
                  | inr e ↦ omega (arith, kept key s, others key e)
                ],
                λ j le open_j ata' mint' a' m'.
                    subst (λ p. TokenAccount ids w' ata'.key accounts.titan_pda.key p mint'.key)
                      (sym (
                        program_for_kept ids accounts remaining mints w w' mint'
                          (owners j mint' m')))
                      (tokens ata'.key accounts.titan_pda.key
                        (program_for ids accounts remaining mints w mint') mint'.key
                        (apart j i ata' ata a' a (ground arith)) (open_j ata' mint' a' m')),
              )
        ]
  ]

  -- Every created account that is empty is closed.
  pub close_created-Ends :
      (count i created : ℕ) (w : World)
      → i + count ≡ mints
      → Good w
      → IsKept ids accounts remaining mints S base w
      → ((j : ℕ) → i ≤ j → j < mints → IsOpen ids accounts remaining mints w j)
      → Ends
          (close_created rt ids accounts remaining mints count i created)
          w
          (λ u w'. Good w' × IsKept ids accounts remaining mints S base w')
  unfolding close_created
  close_created-Ends zero i created w whole good kept open_all = (tt, w, refl, (good, kept))
  close_created-Ends (suc count) i created w whole good kept open_all =
      let lt : i < mints = omega (arith, whole) in
      let (mid, step, good', keeps, stays) =
        round count i created w lt good (open_all i (omega arith) lt) in
      let (u, w', run, done_all) =
        close_created-Ends count (suc i) created mid (omega (arith, whole)) good' (keeps kept)
          (λ j le lt'. stays j le (open_all j (omega arith) lt')) in
      (tt, w', step ∙ run, done_all)
