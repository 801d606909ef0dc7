-- ===== src/Program/Route/Success/Creating.antt =====
-- instructions/swap_route_v3.rs: the loop that creates the missing accounts succeeds.
use quay_titan_integration.Prelude.{
  ℕ, zero, suc, ◌+◌, ◌*◌, ◌≤◌, ◌<◌, ◌≡◌, refl, inl, inr, false, List, length, ◌==◌, arith, ap, ◌∙◌,
  sym, subst, Bool-cases,
}
use quay_titan_integration.Prelude.Bits.{set_bit}
use quay_titan_integration.Solana.{Pubkey}
use quay_titan_integration.Program.Accounts.{TokenIds, account_exists}
use quay_titan_integration.Program.Runtime.{World, Handle, Runtime, create_ata, view}
use quay_titan_integration.Program.Tokens.{create_ata_for}
use quay_titan_integration.Program.Ends.{Ends, done-Ends, call-Ends}
use quay_titan_integration.Program.Route.{SwapRouteV3, create_missing}
use quay_titan_integration.Program.Route.Authority.{
  IsAta, IsMint, IsTokenProgram, creates_titan_ata,
}
use quay_titan_integration.Program.Route.Closing.{held}
use quay_titan_integration.Program.Route.Success.{
  IsFree, CanCreate, at, TokenAccount, program_for, Keeps, IsOpen, CanOpen, IsForeign, AreApart,
  Obliging,
}
use quay_titan_integration.Program.Route.Success.Kept.{
  Keeps-trans, Keeps-refl, token_program_of-eq, program_for_kept, IsOpen-kept, tokens_kept,
  exists_at, placed, CanCreate-kept,
}

module _ (rt : Runtime) (Good : World → Type 0) (ids : TokenIds) (accounts : SwapRouteV3)
    (remaining : List Handle) (mints : ℕ) where
  -- The route's own accounts apart, nothing has changed that a route looks at.
  abbrev pub Opens : World → World → Type 0
  Opens w w' =
      Keeps ids accounts remaining mints w w'
      × ((key : Pubkey)
          → IsForeign ids accounts remaining mints key
          → (IsFree w key → IsFree w' key) × (held w' key ≡ held w key))

  Opens-refl : (w : World) → Opens w w
  Opens-refl w = (Keeps-refl ids accounts remaining mints w, λ key foreign. (λ free. free, refl))

  Opens-trans : (w mid w' : World) → Opens w mid → Opens mid w' → Opens w w'
  Opens-trans w mid w' (keeps, frame) (keeps', frame') = (
    Keeps-trans ids accounts remaining mints w mid w' keeps keeps',
    λ key foreign.
        let (free, same) = frame key foreign in
        let (free', same') = frame' key foreign in (λ nothing. free' (free nothing), same' ∙ same),
  )

  pub program_for-IsTokenProgram :
      (w : World) (mint : Handle)
      → IsTokenProgram accounts remaining mints (program_for ids accounts remaining mints w mint)
  program_for-IsTokenProgram w mint = elim (Bool-cases ((w mint.key).owner == ids.token_2022_id)) [
    | inl e ↦ inr (rw e refl)
    | inr e ↦ inl (rw e refl)
  ]

  module _ (calls : Obliging ids accounts remaining mints rt Good)
      (apart : AreApart ids accounts remaining mints) (room : 2 * mints ≤ length remaining) where
    -- One account is created.
    create-Ends :
        (i : ℕ) (ata mint : Handle) (w : World)
        → IsAta accounts remaining mints i ata
        → IsMint accounts remaining mints i mint
        → Good w
        → CanCreate ids accounts remaining mints w accounts.titan_pda.key ata.key mint
        → Ends
            (create_ata_for rt ids accounts.payer.key accounts.titan_pda.key mint.key ata.key
              (program_for ids accounts remaining mints w mint)
              accounts.system_program.key)
            w
            (λ u w'.
              Good w'
              × Opens w w'
              × TokenAccount ids w' ata.key accounts.titan_pda.key
                  (program_for ids accounts remaining mints w mint)
                  mint.key
              × ((key : Pubkey) → (key == ata.key) ≡ false → IsFree w key → IsFree w' key))
    unfolding create_ata_for
    create-Ends i ata mint w a m good free =
        let program = program_for ids accounts remaining mints w mint in
        let cpi =
          create_ata accounts.payer.key accounts.titan_pda.key mint.key ata.key program
            accounts.system_program.key in
        let (w', run, good', (keeps, made, frame)) =
          calls.obliged cpi w
            (creates_titan_ata i ata mint program a m (program_for-IsTokenProgram w mint)) good
            free in
        call-Ends rt cpi w w' _ run (
          good',
          (keeps, λ key foreign. frame key (foreign i ata a)),
          made,
          λ key other. (frame key other).0,
        )

    made-IsOpen :
        (i : ℕ) (ata mint : Handle) (w w' : World)
        → IsAta accounts remaining mints i ata
        → IsMint accounts remaining mints i mint
        → Keeps ids accounts remaining mints w w'
        → TokenAccount ids w' ata.key accounts.titan_pda.key
            (program_for ids accounts remaining mints w mint)
            mint.key
        → IsOpen ids accounts remaining mints w' i
    made-IsOpen i ata mint w w' a m keeps made ata' mint' a' m' =
        let same : ata ≡ ata' = cc in
        let same' : mint ≡ mint' = cc in
        let program =
          sym (program_for_kept ids accounts remaining mints w w' mint (keeps.owners i mint m)) in
        subst
          (λ h.
            TokenAccount ids w' h.key accounts.titan_pda.key
              (program_for ids accounts remaining mints w' mint') mint'.key)
          same
          (subst
            (λ h.
              TokenAccount ids w' ata.key accounts.titan_pda.key
                (program_for ids accounts remaining mints w' h) h.key)
            same'
            (subst (λ p. TokenAccount ids w' ata.key accounts.titan_pda.key p mint.key) program
              made))

    later :
        (i j : ℕ) (w mid : World)
        → Keeps ids accounts remaining mints w mid
        → suc i ≤ j
        → ((key : Pubkey)
            → ((ata : Handle) → IsAta accounts remaining mints i ata → (key == ata.key) ≡ false)
            → IsFree w key
            → IsFree mid key)
        → CanOpen ids accounts remaining mints w j
        → CanOpen ids accounts remaining mints mid j
    later i j w mid keeps le frame can ata mint a m = elim (can ata mint a m) [
      | inl t ↦ inl (
          tokens_kept ids accounts remaining mints w mid j mint ata.key accounts.titan_pda.key keeps
            m t)
      | inr free ↦ inr (
          CanCreate-kept ids accounts remaining mints w mid j mint accounts.titan_pda.key ata.key
            keeps m (frame ata.key (λ b p. apart j i ata b a p (ground arith))) free)
    ]

    -- A round finds its account, or creates it.
    abbrev Round : ℕ → ℕ → ℕ → World → Type 0
    Round count i created w =
        (next : ℕ) × (mid : World) × (create_missing rt ids accounts remaining mints (suc count) i
            created w
          ≡ create_missing rt ids accounts remaining mints count (suc i) next mid)
        × Good mid
        × Opens w mid
        × IsOpen ids accounts remaining mints mid i
        × ((key : Pubkey)
            → ((ata : Handle) → IsAta accounts remaining mints i ata → (key == ata.key) ≡ false)
            → IsFree w key
            → IsFree mid key)

    round :
        (count i created : ℕ) (w : World)
        → i < mints
        → Good w
        → CanOpen ids accounts remaining mints w i
        → Round count i created w
    unfolding create_missing
    round count i created w lt good can =
        let ((ata, a), (mint, m)) = placed ids accounts remaining mints i lt room in
        elim (Bool-cases (account_exists (view w ata))) [
          | inl there ↦
              let is_open : IsOpen ids accounts remaining mints w i = λ ata' mint' a' m'.
                let same : ata ≡ ata' = cc in
                elim (can ata' mint' a' m') [
                  | inl t ↦ t
                  | inr (free, _, _) ↦
                      let gone = exists_at ids accounts remaining mints w ata in
                      let gone' = ap (λ h. account_exists (view w (at h.key))) same in cc
                ] in
              (created, w, rw (a.0, there) refl, good, Opens-refl w, is_open, λ key other f. f)
          | inr missing ↦
              let gone = sym (exists_at ids accounts remaining mints w ata) ∙ missing in
              let free : CanCreate ids accounts remaining mints w accounts.titan_pda.key ata.key
                  mint =
                elim (can ata mint a m) [
                  | inl account ↦ let there = account.there in cc
                  | inr nothing ↦ nothing
                ] in
              let (_, mid, run, (good', opens, made, frame)) =
                create-Ends i ata mint w a m good free in
              let program = token_program_of-eq ids accounts remaining mints rt w mint in
              (
                set_bit created i,
                mid,
                rw (a.0, missing, m.0, program, run) refl,
                good',
                opens,
                made-IsOpen i ata mint w mid a m opens.0 made,
                λ key other. frame key (other ata a),
              )
        ]

    -- The loop creates every missing account of the route.
    pub create_missing-Ends :
        (count i created : ℕ) (w : World)
        → i + count ≡ mints
        → Good w
        → ((j : ℕ) → j < i → IsOpen ids accounts remaining mints w j)
        → ((j : ℕ) → i ≤ j → j < mints → CanOpen ids accounts remaining mints w j)
        → Ends (create_missing rt ids accounts remaining mints count i created) w (λ out w'.
          Good w' × Opens w w' × ((j : ℕ) → j < mints → IsOpen ids accounts remaining mints w' j))
    unfolding create_missing
    create_missing-Ends zero i created w whole good opened can =
        done-Ends created w _ (good, Opens-refl w, λ j lt. opened j (omega (arith, whole)))
    create_missing-Ends (suc count) i created w whole good opened can =
        let (next, mid, step, good', opens, open_i, frame) =
          round count i created w (omega (arith, whole)) good
            (can i (omega arith) (omega (arith, whole))) in
        let (out, w', run, (good'', opens', all)) =
          create_missing-Ends count (suc i) next mid (omega (arith, whole)) good'
            (λ j lt. elim (Bool-cases (j == i)) [
              | inl e ↦
                  let same : i ≡ j = ground arith in
                  subst (λ n. IsOpen ids accounts remaining mints mid n) same open_i
              | inr e ↦
                  IsOpen-kept ids accounts remaining mints w mid j opens.0 (opened j (ground arith))
            ])
            (λ j le lt. later i j w mid opens.0 le frame (can j (omega arith) lt)) in
        (out, w', step ∙ run, (good'', Opens-trans w mid w' opens opens', all))
