-- ===== src/Program/Route/Intake/Wrapped.antt =====
-- instructions/swap_route_v3.rs: the input stage of `execute` that wraps the user's lamports.
use quay_titan_integration.Prelude.{
  ℕ, ◌+◌, ◌-◌, ◌≡◌, refl, max, inl, inr, Bool, true, false, not, none, some, ok, List, [], slice?,
  get_elem?, ◌==◌, if◌then◌else◌, arith, ap, ◌∙◌, sym, subst, ok-injective, Bool-cases,
}
use quay_titan_integration.Solana.{Pubkey}
use quay_titan_integration.Program.Accounts.{
  TokenIds, account_exists, extract_token_amount, is_native_mint,
}
use quay_titan_integration.Program.Runtime.{
  World, Handle, Runtime, view, done, changed-eq-ok, chain-eq-ok,
}
use quay_titan_integration.Program.Tokens.{
  transfer_tokens, setup_wsol_input_account, close_token_account,
}
use quay_titan_integration.Program.Route.{
  SwapRouteV3, token_program_of, effective_amount, take_input,
}
use quay_titan_integration.Program.Route.Quiet.{token_program_of-IsQuiet}
use quay_titan_integration.Program.Route.Closing.{held, ClosesOnly}
use quay_titan_integration.Program.Route.Closing.Created.{CreatesOnly}
use quay_titan_integration.Program.Route.Payout.{
  MovesExactly, OpensEmpty, Moved, transfer_tokens-Moved,
}
use quay_titan_integration.Program.Route.Intake.Setup.{Wraps, Others, SetUp, wrapped, set_up}

module _ (rt : Runtime) (backing : World → Pubkey → ℕ) (wraps : Wraps rt backing)
    (creates : CreatesOnly rt) (moves : MovesExactly rt) (opens : OpensEmpty rt) (ids : TokenIds)
    (closes : ClosesOnly rt) (accounts : SwapRouteV3) (remaining : List Handle) (mints : ℕ) where
  -- The last step: an account that was created for the input is closed again.
  closed_again :
      (created : Bool) (program : Pubkey) (w w' : World)
      → (if created
            then close_token_account rt ids accounts.input_token_account.key accounts.payer.key
                accounts.user.key program false
            else done tt)
          w
        ≡ ok (tt, w')
      → Others w w' accounts.input_token_account.key
        × (created ≡ true → (w' accounts.input_token_account.key).bytes ≡ [])
        × (created ≡ false → w' ≡ w)
  unfolding close_token_account extract_token_amount
  closed_again false program w w' h =
      let same : w ≡ w' = ap (λ p. p.1) (ok-injective h) in
      (λ key e. ap (λ u. held u key) (sym same), λ on. cc, λ off. sym same)
  closed_again true program w w' h =
      let input = accounts.input_token_account.key in
      let run = changed-eq-ok (rt.invoke _ w) w' h in
      (
        λ key e.
            rw
              (closes.others program input accounts.payer.key accounts.user.key false w w' key run
                e)
              refl,
        λ on. closes.closed program input accounts.payer.key accounts.user.key false w w' run,
        λ off. cc,
      )

  -- What the user has left in the input account.
  abbrev pub left_over : World → ℕ → ℕ
  left_over w amount =
      if account_exists (view w accounts.input_token_account)
      then max (held w accounts.input_token_account.key) amount - amount
      else 0

  stage_end :
      (w set spent w' : World) (ata : Handle) (amount : ℕ) (created : Bool)
      → (accounts.input_token_account.key == ata.key) ≡ false
      → SetUp w set accounts.input_token_account amount created
      → Moved set spent accounts.input_token_account.key ata.key amount
      → Others spent w' accounts.input_token_account.key
        × (created ≡ true → (w' accounts.input_token_account.key).bytes ≡ [])
        × (created ≡ false → w' ≡ spent)
      → (held w' ata.key ≡ held w ata.key + amount)
        × (held w' accounts.input_token_account.key ≡ left_over w amount)
        × (account_exists (view w accounts.input_token_account) ≡ false
            → (w' accounts.input_token_account.key).bytes ≡ [])
  unfolding extract_token_amount slice?
  stage_end w set spent w' ata amount created apart (flag, holds, others) (out, into)
        (others', gone, kept) =
      let input = accounts.input_token_account in
      let far : (ata.key == input.key) ≡ false = ground arith in
      let at_ata : held w' ata.key ≡ held w ata.key + amount =
        omega (arith, others' ata.key far, into, others ata.key far) in
      elim (Bool-cases (account_exists (view w input))) [
        | inl there ↦
            let same = kept (flag ∙ ap not there) in
            let rest : left_over w amount ≡ max (held w input.key) amount - amount =
              rw there refl in
            let full : wrapped w input amount ≡ max (held w input.key) amount = rw there refl in
            (
              at_ata,
              omega (arith, ap (λ u. held u input.key) same, out, holds, full, rest),
              λ missing. cc,
            )
        | inr missing ↦
            let empty = gone (flag ∙ ap not missing) in
            let rest : left_over w amount ≡ 0 = rw missing refl in
            (at_ata, rw empty (sym rest), λ again. empty)
      ]

  -- When a transfer that succeeds moves its amount, lamports that are sent to another account and
  -- synchronised add to its amount, a token account that is created where nothing was is empty and
  -- synchronised, and creations and closes touch no other account: the input stage of a route without a
  -- ledger whose input mint is the native one, and whose input account is neither the user's own nor the
  -- first of the route, puts the amount of the route into the first account of the route. An input
  -- account that exists and is synchronised is topped up to the amount before it is taken, no more than
  -- is missing, and one that does not exist is created for it and closed again.
  pub take_input-wrapped :
      (amount decimals : ℕ) (w w' : World) (ata mint : Handle)
      → get_elem? remaining 0 ≡ some ata
      → get_elem? remaining mints ≡ some mint
      → is_native_mint ids (view w mint) ≡ true
      → (accounts.input_token_account.key == ata.key) ≡ false
      → (accounts.user.key == accounts.input_token_account.key) ≡ false
      → backing w accounts.input_token_account.key ≡ held w accounts.input_token_account.key
      → take_input rt ids accounts remaining mints none amount decimals w ≡ ok (tt, w')
      → (held w' ata.key ≡ held w ata.key + amount)
        × (held w' accounts.input_token_account.key ≡ left_over w amount)
        × (account_exists (view w accounts.input_token_account) ≡ false
            → (w' accounts.input_token_account.key).bytes ≡ [])
  unfolding take_input effective_amount is_native_mint
  take_input-wrapped amount decimals w w' ata mint at mat native apart lone even h =
      let h0 = rw (mat, at) at h in
      let (program, w2, e2, h2) =
        chain-eq-ok (token_program_of rt ids accounts remaining mints mint) _ w w' tt h0 in
      let same : w2 ≡ w =
        token_program_of-IsQuiet rt ids accounts remaining mints mint w program w2 e2 in
      let input = accounts.input_token_account in
      let (created, set, e3, h3) =
        chain-eq-ok
          (setup_wsol_input_account rt ids accounts.payer.key accounts.user.key input mint.key
            program accounts.system_program.key amount)
          _ w2 w' tt (rw native at h2) in
      let e3' =
        subst
          (λ u.
            setup_wsol_input_account rt ids accounts.payer.key accounts.user.key input mint.key
              program accounts.system_program.key amount u
            ≡ ok (created, set))
          same e3 in
      let ready =
        set_up rt backing wraps creates opens ids accounts.payer.key accounts.user.key mint.key
          program accounts.system_program.key input amount w set created lone even e3' in
      let (_, spent, e4, h4) =
        chain-eq-ok
          (transfer_tokens rt ids program input.key ata.key accounts.user.key (some mint.key) amount
            decimals false)
          _ set w' tt h3 in
      let paid =
        transfer_tokens-Moved rt moves ids program input.key ata.key accounts.user.key mint.key
          amount decimals false set spent apart e4 in
      stage_end w set spent w' ata amount created apart ready paid
        (closed_again created program spent w' h4)
