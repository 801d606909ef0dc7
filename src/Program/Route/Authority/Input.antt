-- ===== src/Program/Route/Authority/Input.antt =====
-- instructions/swap_route_v3.rs: the calls of the stage that takes the input.
use quay_titan_integration.Prelude.{
  ℕ, ◌-◌, ◌<◌, ◌≡◌, Bool, true, false, Option, none, some, List, get_elem?, if◌then◌else◌, ◌==◌,
  arith, subst, ltb,
}
use quay_titan_integration.Solana.{Pubkey}
use quay_titan_integration.Program.Accounts.{
  TokenIds, extract_token_amount, is_native_mint, account_exists,
}
use quay_titan_integration.Program.Runtime.{Handle, Cpi, Runtime, create_ata, see, call, done, try}
use quay_titan_integration.Program.Tokens.{
  transfer_tokens, close_token_account, setup_wsol_input_account, transfer_sol_and_sync,
}
use quay_titan_integration.Program.Calls.{
  Makes, makes_rules, done-Makes, if-Makes, found-Makes, chain-Makes, see-Makes, call-Makes,
  if_lt-Makes, try-Makes,
}
use quay_titan_integration.Program.State.{missing_remaining_account, AccountInfo}
use quay_titan_integration.Program.Route.{SwapRouteV3, effective_amount, take_input}
use quay_titan_integration.Program.Route.Authority.{
  Permitted, IsTokenProgram, IsAta, IsMint, creates_input, takes, takes_checked, closes_input,
  wraps, syncs,
}
use quay_titan_integration.Program.Route.Authority.Closes.{program_of-Makes}

module _ (accounts : SwapRouteV3) (remaining : List Handle) (mints : ℕ) (rt : Runtime)
    (ids : TokenIds) where
  abbrev P : Cpi → Type 0
  P = Permitted accounts remaining mints ids

  abbrev Token : Pubkey → Type 0
  Token = IsTokenProgram accounts remaining mints

  abbrev Placed : ℕ → Handle → Type 0
  Placed = IsAta accounts remaining mints

  abbrev Mint : ℕ → Handle → Type 0
  Mint = IsMint accounts remaining mints

  close_input-Makes :
      (program : Pubkey)
      → Token program
      → Makes rt P (
          close_token_account rt ids accounts.input_token_account.key accounts.payer.key
            accounts.user.key program false)
  unfolding close_token_account
  close_input-Makes program r = call-Makes rt P _ (closes_input program r)

  take-Makes :
      (ata mint : Handle) (program : Pubkey) (amount decimals : ℕ)
      → get_elem? remaining 0 ≡ some ata
      → Mint 0 mint
      → Token program
      → Makes rt P (
          transfer_tokens rt ids program accounts.input_token_account.key ata.key accounts.user.key
            (some mint.key)
            amount
            decimals
            false)
  unfolding transfer_tokens
  take-Makes ata mint program amount decimals p q r =
      let plain = call-Makes rt P _ (takes ata amount p) in
      let checked = call-Makes rt P _ (takes_checked ata mint program amount decimals p q r) in
      if-Makes rt P (amount == 0) _ _ (done-Makes rt P tt)
        (if-Makes rt P (program == ids.token_2022_id) _ _ checked plain)

  effective_amount-Makes :
      (o : Option ℕ) (amount : ℕ)
      → Makes rt P (effective_amount rt ids accounts remaining mints o amount)
  unfolding effective_amount
  effective_amount-Makes none amount = done-Makes rt P amount
  effective_amount-Makes (some stored) amount = search makes_rules depth 60

  transfer_sol-Makes :
      (program : Pubkey) (amount : ℕ)
      → Token program
      → Makes rt P (
          transfer_sol_and_sync rt ids accounts.user.key accounts.input_token_account.key program
            amount)
  unfolding transfer_sol_and_sync
  transfer_sol-Makes program amount p =
      let wrap = call-Makes rt P _ (wraps amount) in
      let sync = call-Makes rt P _ (syncs program p) in
      if-Makes rt P (amount == 0) _ _ (done-Makes rt P tt) (search (makes_rules, wrap, sync))

  setup-Makes :
      (mint : Handle) (program : Pubkey) (amount : ℕ)
      → Mint 0 mint
      → Token program
      → Makes rt P (
          setup_wsol_input_account rt ids accounts.payer.key accounts.user.key
            accounts.input_token_account mint.key program accounts.system_program.key amount)
  unfolding setup_wsol_input_account
  setup-Makes mint program amount p q =
      let create = call-Makes rt P _ (creates_input mint program p q) in
      let fund = λ (n : ℕ). transfer_sol-Makes program n q in
      let settle = λ (c : Bool). done-Makes rt P c in
      chain-Makes rt P (see accounts.input_token_account) _ (see-Makes rt P _) (λ account.
        if-Makes rt P (account_exists account) _ _
          (chain-Makes rt P (try (extract_token_amount account)) _ (try-Makes rt P _) (λ balance.
            chain-Makes rt P
              (if ltb balance amount
                then transfer_sol_and_sync rt ids accounts.user.key accounts.input_token_account.key
                    program (amount - balance)
                else done tt)
              _ (if_lt-Makes rt P balance amount _ _ (fund (amount - balance)) (done-Makes rt P tt))
              (λ u. settle false)))
          (chain-Makes rt P
            (call rt (
              create_ata accounts.payer.key accounts.user.key mint.key
                accounts.input_token_account.key program accounts.system_program.key))
            _ create
            (λ u.
              chain-Makes rt P
                (transfer_sol_and_sync rt ids accounts.user.key accounts.input_token_account.key
                  program amount)
                _ (fund amount) (λ v. settle true))))

  wrap-Makes :
      (o : Option ℕ) (mint : Handle) (account : AccountInfo) (program : Pubkey) (amount : ℕ)
      → Mint 0 mint
      → Token program
      → Makes rt P (elim o [
        | some stored ↦ done false
        | none ↦
            if is_native_mint ids account
            then setup_wsol_input_account rt ids accounts.payer.key accounts.user.key
                accounts.input_token_account mint.key program accounts.system_program.key amount
            else done false
      ])
  wrap-Makes none mint account program amount p q =
      if-Makes rt P (is_native_mint ids account) _ _ (setup-Makes mint program amount p q)
        (done-Makes rt P false)
  wrap-Makes (some stored) mint account program amount p q = done-Makes rt P false

  pub take_input-Makes :
      (o : Option ℕ) (amount decimals : ℕ)
      → 0 < mints
      → Makes rt P (take_input rt ids accounts remaining mints o amount decimals)
  unfolding take_input
  take_input-Makes o amount decimals some_mint =
      found-Makes rt P (get_elem? remaining mints) missing_remaining_account _ (λ mint at.
        let first : Mint 0 mint =
          (subst (λ n. get_elem? remaining n ≡ some mint) (omega arith) at, some_mint) in
        chain-Makes rt P (effective_amount rt ids accounts remaining mints o amount) _
          (effective_amount-Makes o amount)
          (λ effective.
            found-Makes rt P (get_elem? remaining 0) missing_remaining_account _ (λ ata held.
              program_of-Makes accounts remaining mints rt ids P mint _ (λ program p.
                chain-Makes rt P (see mint) _ (see-Makes rt P mint) (λ account.
                  chain-Makes rt P _ _ (wrap-Makes o mint account program effective first p)
                    (λ created.
                      chain-Makes rt P _ _
                        (take-Makes ata mint program effective decimals held first p)
                        (λ u.
                          if-Makes rt P created _ _ (close_input-Makes program p)
                            (done-Makes rt P tt))))))))
