-- ===== src/Program/Route/Success/Paying.antt =====
-- instructions/swap_route_v3.rs: the output transfer succeeds.
use quay_titan_integration.Prelude.{
  ℕ, ◌-◌, ◌*◌, ◌≤◌, ◌<◌, ◌≡◌, refl, inl, inr, true, false, some, List, length, get_elem?, ◌==◌,
  arith, ap, ◌∙◌, sym, subst, Bool-cases, if◌then◌else◌,
}
use quay_titan_integration.Solana.{Pubkey}
use quay_titan_integration.Program.Accounts.{TokenIds, account_exists}
use quay_titan_integration.Program.Runtime.{World, Handle, Runtime, create_ata, view, done}
use quay_titan_integration.Program.Tokens.{create_ata_for}
use quay_titan_integration.Program.Reserves.{unwrap_or_zero}
use quay_titan_integration.Program.Ends.{Ends}
use quay_titan_integration.Program.Route.{SwapRouteV3, pay_output}
use quay_titan_integration.Program.Route.Authority.{
  IsAta, IsMint, creates_output, pays, pays_checked,
}
use quay_titan_integration.Program.Route.Closing.{held, held_at}
use quay_titan_integration.Program.Route.Success.{
  CanCreate, TokenAccount, program_for, Keeps, IsOpen, IsForeign, Obliging,
}
use quay_titan_integration.Program.Route.Success.Kept.{
  Keeps-refl, IsOpen-kept, program_for_kept, exists_at, token_program_of-eq,
}
use quay_titan_integration.Program.Route.Success.Ready.{IsReady, IsKept}
use quay_titan_integration.Program.Route.Success.Creating.{program_for-IsTokenProgram}
use quay_titan_integration.Program.Route.Success.Recording.{read_amount, held_by_at}
use quay_titan_integration.Program.Route.Success.Moving.{
  program_for-spl, moved, transfer_tokens-Ends,
}

module _ (rt : Runtime) (Good : World → Type 0) (ids : TokenIds) (accounts : SwapRouteV3)
    (remaining : List Handle) (mints : ℕ) (calls : Obliging ids accounts remaining mints rt Good)
    (room : 2 * mints ≤ length remaining) (S : Pubkey → Type 0) (base : World)
    (output_index output_decimals : ℕ) where
  abbrev Ready : World → Type 0
  Ready = IsReady ids accounts remaining mints Good S base output_index output_decimals

  abbrev IsSettled : World → Type 0
  IsSettled w =
      Good w
      × ((j : ℕ) → j < mints → IsOpen ids accounts remaining mints w j)
      × IsKept ids accounts remaining mints S base w

  -- The output account as it is, or newly created.
  abbrev OutputOpen : World → Handle → World → Type 0
  OutputOpen w mint w' =
      Ready w'
      × Keeps ids accounts remaining mints w w'
      × ((owner : Pubkey) × TokenAccount ids w' accounts.output_token_account.key owner
            (program_for ids accounts remaining mints w mint) mint.key)
      × ((key : Pubkey)
          → (key == accounts.output_token_account.key) ≡ false
          → held w' key ≡ held w key)

  reopened :
      (w w' : World) (mint : Handle)
      → IsMint accounts remaining mints output_index mint
      → Keeps ids accounts remaining mints w w'
      → Good w'
      → IsKept ids accounts remaining mints S base w'
      → TokenAccount ids w' accounts.output_token_account.key accounts.user.key
          (program_for ids accounts remaining mints w mint)
          mint.key
      → Ready w
      → Ready w'
  reopened w w' mint m keeps good kept account ready = (
    good,
    λ j lt. IsOpen-kept ids accounts remaining mints w w' j keeps (ready.1 j lt),
    λ mint' m'.
        let same : mint ≡ mint' = cc in
        inl (
          accounts.user.key,
          subst
              (λ h.
                TokenAccount ids w' accounts.output_token_account.key accounts.user.key
                  (program_for ids accounts remaining mints w' h) h.key)
              same
              (subst
                (λ p.
                  TokenAccount ids w' accounts.output_token_account.key accounts.user.key p
                    mint.key)
                (sym (
                  program_for_kept ids accounts remaining mints w w' mint
                    (keeps.owners output_index mint m)))
                account),
        ),
    λ mint' m'. keeps.decimals output_index mint' m' ∙ ready.3 mint' m',
    kept,
  )

  open_output-Ends :
      (w : World) (mint : Handle)
      → IsMint accounts remaining mints output_index mint
      → ¬ S accounts.output_token_account.key
      → Ready w
      → Ends
          (if account_exists (view w accounts.output_token_account)
            then done tt
            else create_ata_for rt ids accounts.payer.key accounts.user.key mint.key
                accounts.output_token_account.key
                (program_for ids accounts remaining mints w mint)
                accounts.system_program.key)
          w
          (λ u w'. OutputOpen w mint w')
  unfolding create_ata_for
  open_output-Ends w mint m spendable ready =
      let output = accounts.output_token_account in
      let program = program_for ids accounts remaining mints w mint in
      elim (Bool-cases (account_exists (view w output))) [
        | inl there ↦ elim (ready.2 mint m) [
          | inl account ↦ (
            tt,
            w,
            rw there refl,
            (ready, Keeps-refl ids accounts remaining mints w, account, λ key other. refl),
          )
          | inr (free, _, _) ↦ let at_key = exists_at ids accounts remaining mints w output in cc
        ]
        | inr missing ↦
            let gone = sym (exists_at ids accounts remaining mints w output) ∙ missing in
            let free : CanCreate ids accounts remaining mints w accounts.user.key output.key mint =
              elim (ready.2 mint m) [
                | inl (owner, account) ↦ let there = account.there in cc
                | inr nothing ↦ nothing
              ] in
            let (w', run, good, (keeps, account, frame)) =
              calls.obliged
                (create_ata accounts.payer.key accounts.user.key mint.key output.key program
                  accounts.system_program.key)
                w
                (creates_output output_index mint program m
                  (program_for-IsTokenProgram rt Good ids accounts remaining mints w mint))
                ready.0 free in
            (
              tt,
              w',
              rw (missing, run) refl,
              (
                reopened w w' mint m keeps good
                    (λ key s. elim (Bool-cases (key == output.key)) [
                      | inl e ↦
                          let same : key ≡ output.key = ground arith in
                          absurd (spendable (subst S same s))
                      | inr e ↦ omega (arith, ready.4 key s, (frame key e).1)
                    ])
                    account ready,
                keeps,
                (accounts.user.key, account),
                λ key other. (frame key other).1,
              ),
            )
      ]

  -- The output is paid.
  pub pay_output-Ends :
      (reserved : List ℕ) (w : World) (ata mint : Handle)
      → IsAta accounts remaining mints output_index ata
      → IsMint accounts remaining mints output_index mint
      → get_elem? reserved output_index ≡ some (held base ata.key)
      → IsForeign ids accounts remaining mints accounts.output_token_account.key
      → ¬ S accounts.output_token_account.key
      → Ready w
      → Ends
          (pay_output rt ids accounts remaining mints output_index output_decimals reserved)
          w
          (λ u w'. IsSettled w')
  unfolding pay_output
  pay_output-Ends reserved w ata mint a m kept foreign spendable ready =
      let reserve = held base ata.key in
      let program = program_for ids accounts remaining mints w mint in
      let is_program = program_for-IsTokenProgram rt Good ids accounts remaining mints w mint in
      let own = (ready.1 output_index a.1 ata mint a m).held_by in
      let (raw, read) =
        read_amount ids w ata accounts.titan_pda.key
          (held_by_at ids w ata accounts.titan_pda.key own) in
      let had : held w ata.key ≡ raw = sym (held_at w ata) ∙ ap unwrap_or_zero read in
      let (_, w1, opened, (ready1, keeps, target, same)) =
        open_output-Ends w mint m spendable ready in
      let left : held w1 ata.key ≡ held w ata.key =
        same ata.key (ground (arith, foreign output_index ata a)) in
      let source =
        keeps.tokens ata.key accounts.titan_pda.key program mint.key
          (ready.1 output_index a.1 ata mint a m) in
      let (u, w', run, moves) =
        transfer_tokens-Ends rt Good ids accounts remaining mints calls room program ata.key
          accounts.output_token_account.key accounts.titan_pda.key mint (raw - reserve)
          output_decimals true w1 (pays output_index ata (raw - reserve) a)
          (program_for-spl rt Good ids accounts remaining mints calls room w mint)
          (pays_checked output_index ata mint program (raw - reserve) output_decimals a m
            is_program)
          (source, target, omega (arith, left, had)) (ready1.3 mint m) ready1.0 in
      let ready' =
        moved rt Good ids accounts remaining mints calls room S base output_index output_decimals w1
          w' ata.key (raw - reserve) (λ s. omega (arith, ready.4 ata.key s, left, had)) moves
          ready1 in
      let reads = token_program_of-eq ids accounts remaining mints rt w mint in
      (tt, w', rw (a.0, read, kept, m.0, reads, opened, run) refl, (ready'.0, ready'.1, ready'.4))
