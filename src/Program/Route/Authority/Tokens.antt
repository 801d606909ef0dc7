-- ===== src/Program/Route/Authority/Tokens.antt =====
-- instructions/swap_route_v3.rs: the calls of the stages that create token accounts and pay the output, for
-- any predicate that holds of them.
use quay_titan_integration.Prelude.{
  ℕ, zero, suc, ◌+◌, ◌≤◌, ◌<◌, ◌≡◌, true, some, List, get_elem?, ◌==◌, arith,
}
use quay_titan_integration.Solana.{Pubkey}
use quay_titan_integration.Program.Accounts.{TokenIds}
use quay_titan_integration.Program.Runtime.{
  Handle, Cpi, Runtime, Act, ◌>>=◌, create_ata, transfer, transfer_checked,
}
use quay_titan_integration.Program.Tokens.{transfer_tokens, create_ata_for}
use quay_titan_integration.Program.Calls.{Makes, makes_rules, done-Makes, if-Makes, call-Makes}
use quay_titan_integration.Program.Route.Authority.Closes
use quay_titan_integration.Program.Route.{SwapRouteV3, token_program_of, create_missing, pay_output}
use quay_titan_integration.Program.Route.Authority.{IsTokenProgram, IsAta, IsMint}

-- What holds of the creations of a route, and of its transfers of the output.
pub record Covers (ids : TokenIds) (accounts : SwapRouteV3) (remaining : List Handle) (mints : ℕ)
    (P : Cpi → Type 0) : Type 0 where
  pub creates_titan :
      (i : ℕ) (ata mint : Handle) (program : Pubkey)
      → IsAta accounts remaining mints i ata
      → IsMint accounts remaining mints i mint
      → IsTokenProgram accounts remaining mints program
      → P (
          create_ata accounts.payer.key accounts.titan_pda.key mint.key ata.key program
            accounts.system_program.key)
  pub creates_user :
      (i : ℕ) (mint : Handle) (program : Pubkey)
      → IsMint accounts remaining mints i mint
      → IsTokenProgram accounts remaining mints program
      → P (
          create_ata accounts.payer.key accounts.user.key mint.key accounts.output_token_account.key
            program accounts.system_program.key)
  pub transfers :
      (i : ℕ) (ata : Handle) (amount : ℕ)
      → IsAta accounts remaining mints i ata
      → P (
          transfer ids.spl_token_id ata.key accounts.output_token_account.key accounts.titan_pda.key
            amount true)
  pub transfers_checked :
      (i : ℕ) (ata mint : Handle) (program : Pubkey) (amount decimals : ℕ)
      → IsAta accounts remaining mints i ata
      → IsMint accounts remaining mints i mint
      → IsTokenProgram accounts remaining mints program
      → P (
          transfer_checked program ata.key mint.key accounts.output_token_account.key
            accounts.titan_pda.key amount decimals true)

module _ (accounts : SwapRouteV3) (remaining : List Handle) (mints : ℕ) (rt : Runtime)
    (ids : TokenIds) (P : Cpi → Type 0) (covers : Covers ids accounts remaining mints P) where
  abbrev Token : Pubkey → Type 0
  Token = IsTokenProgram accounts remaining mints

  abbrev Placed : ℕ → Handle → Type 0
  Placed = IsAta accounts remaining mints

  abbrev Mint : ℕ → Handle → Type 0
  Mint = IsMint accounts remaining mints

  program_of-Makes :
      {B : Type 0} (mint : Handle) (k : Pubkey → Act B)
      → ((p : Pubkey) → Token p → Makes rt P (k p))
      → Makes rt P (token_program_of rt ids accounts remaining mints mint >>= k)
  program_of-Makes = Closes.program_of-Makes accounts remaining mints rt ids P

  -- The calls, by the function that makes them.
  create_titan_ata-Makes :
      (i : ℕ) (ata mint : Handle) (program : Pubkey)
      → get_elem? remaining i ≡ some ata
      → get_elem? remaining (mints + i) ≡ some mint
      → i < mints
      → Token program
      → Makes rt P (
          create_ata_for rt ids accounts.payer.key accounts.titan_pda.key mint.key ata.key program
            accounts.system_program.key)
  unfolding create_ata_for
  create_titan_ata-Makes i ata mint program p q near r =
      call-Makes rt P _ (covers.creates_titan i ata mint program (p, near) (q, near) r)

  create_output-Makes :
      (i : ℕ) (mint : Handle) (program : Pubkey)
      → get_elem? remaining (mints + i) ≡ some mint
      → i < mints
      → Token program
      → Makes rt P (
          create_ata_for rt ids accounts.payer.key accounts.user.key mint.key
            accounts.output_token_account.key program accounts.system_program.key)
  unfolding create_ata_for
  create_output-Makes i mint program q near r =
      call-Makes rt P _ (covers.creates_user i mint program (q, near) r)

  pay-Makes :
      (i : ℕ) (ata mint : Handle) (program : Pubkey) (amount decimals : ℕ)
      → get_elem? remaining i ≡ some ata
      → get_elem? remaining (mints + i) ≡ some mint
      → i < mints
      → Token program
      → Makes rt P (
          transfer_tokens rt ids program ata.key accounts.output_token_account.key
            accounts.titan_pda.key
            (some mint.key)
            amount
            decimals
            true)
  unfolding transfer_tokens
  pay-Makes i ata mint program amount decimals p q near r =
      let plain = call-Makes rt P _ (covers.transfers i ata amount (p, near)) in
      let checked =
        call-Makes rt P _
          (covers.transfers_checked i ata mint program amount decimals (p, near) (q, near) r) in
      if-Makes rt P (amount == 0) _ _ (done-Makes rt P tt)
        (if-Makes rt P (program == ids.token_2022_id) _ _ checked plain)

  ruleset rules =
      (program_of-Makes, create_titan_ata-Makes, create_output-Makes, pay-Makes, makes_rules)

  pub create_missing-Makes :
      (count i created : ℕ)
      → i + count ≤ mints
      → Makes rt P (create_missing rt ids accounts remaining mints count i created)
  unfolding create_missing
  create_missing-Makes zero i created le = done-Makes rt P created
  create_missing-Makes (suc count) i created le =
      let rest = λ (c : ℕ). create_missing-Makes count (suc i) c (omega arith) in
      let near : i < mints = omega arith in search (rules, rest, near) depth 80

  pub pay_output-Makes :
      (output_index decimals : ℕ) (reserved : List ℕ)
      → output_index < mints
      → Makes rt P (pay_output rt ids accounts remaining mints output_index decimals reserved)
  unfolding pay_output
  pay_output-Makes output_index decimals reserved near = search (rules, near) depth 80
