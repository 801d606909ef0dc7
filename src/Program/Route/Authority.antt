-- ===== src/Program/Route/Authority.antt =====
-- instructions/swap_route_v3.rs: the calls of other programs that `execute` makes, and on whose authority.
pub mod Closes
pub mod Tokens
pub mod Input
pub mod Trades
pub mod Whole
pub mod Bystander
pub mod Spent
use quay_titan_integration.Prelude.{
  ℕ, zero, suc, ◌+◌, ◌-◌, ◌*◌, ◌≤◌, ◌<◌, ◌≡◌, refl, ◌⊎◌, inl, inr, Bool, true, false, Option, none,
  some, Result, ok, err, List, [], ◌∷◌, map, All, length, get_elem?, take, drop, if◌then◌else◌,
  ◌==◌, arith, ap, ◌∙◌, subst, ok-injective, Bool-cases, In, not, ltb, In-take, In-drop, leb,
}
use quay_titan_integration.Solana.{Pubkey, Instruction, AccountMeta}
use quay_titan_integration.Program.State.{
  Venue, SwapSpecInputV2, missing_remaining_account, AccountInfo,
}
use quay_titan_integration.Program.Accounts.{
  TokenIds, get_token_program_for_mint, extract_token_amount, is_native_mint, account_exists,
}
use quay_titan_integration.Program.Runtime.{
  World, Handle, Cpi, Runtime, Act, view, create_ata, transfer, transfer_checked, close_account,
  system_transfer, sync_native, venue_call, ◌>>=◌, chain-eq-ok, see, call, ◌>>◌, done, try,
}
use quay_titan_integration.Program.Tokens.{
  transfer_tokens, create_ata_for, close_token_account, setup_wsol_input_account,
  transfer_sol_and_sync,
}
use quay_titan_integration.Program.QuayCpi.{program_id}
use quay_titan_integration.Program.Calls.{
  Makes, Calls, makes_rules, chain-Makes_after, done-Makes, if-Makes, found-Makes, chain-Makes,
  see-Makes, call-Makes, if_lt-Makes, if_not-Makes, try-Makes,
}
use quay_titan_integration.Prelude.Bits.{test_bit}
use quay_titan_integration.Program.Reserves.{unwrap_or_zero}
use quay_titan_integration.Program.Route.{
  SwapRouteV3, token_program_of, create_missing, effective_amount, take_input, close_created,
  pay_output,
}

module _ (accounts : SwapRouteV3) (remaining : List Handle) (mints : ℕ) where
  -- One of the two token programs of the instruction.
  abbrev pub IsTokenProgram : Pubkey → Type 0
  IsTokenProgram key = (key ≡ accounts.token_program.key) ⊎ (key ≡ accounts.token_2022_program.key)

  -- Token account `i` of the route, and its mint.
  abbrev pub IsAta : ℕ → Handle → Type 0
  IsAta i ata = (get_elem? remaining i ≡ some ata) × (i < mints)

  abbrev pub IsMint : ℕ → Handle → Type 0
  IsMint i mint = (get_elem? remaining (mints + i) ≡ some mint) × (i < mints)

  -- The key of an account that the transaction lists for the route.
  abbrev pub IsListed : Pubkey → Type 0
  IsListed key = (h : Handle) × In h remaining × (h.key ≡ key)

  -- The signers of an instruction: TitanPDA, and those that signed for the route.
  abbrev pub Signs : AccountMeta → Type 0
  Signs meta =
      meta.is_signer ≡ true
      → (meta.pubkey ≡ accounts.titan_pda.key)
        ⊎ ((h : Handle) × In h remaining × (h.is_signer ≡ true) × (h.key ≡ meta.pubkey))

  -- The calls that a route may make.
  pub data Permitted (ids : TokenIds) : Cpi → Type 0 where
    -- TitanPDA's account for a mint of the route, at the payer's cost.
    creates_titan_ata :
        (i : ℕ) (ata mint : Handle) (program : Pubkey)
        → IsAta i ata
        → IsMint i mint
        → IsTokenProgram program
        → Permitted ids (
            create_ata accounts.payer.key accounts.titan_pda.key mint.key ata.key program
              accounts.system_program.key)
    -- The user's account for the input.
    creates_input :
        (mint : Handle) (program : Pubkey)
        → IsMint 0 mint
        → IsTokenProgram program
        → Permitted ids (
            create_ata accounts.payer.key accounts.user.key mint.key
              accounts.input_token_account.key program accounts.system_program.key)
    -- The user's account for the output.
    creates_output :
        (i : ℕ) (mint : Handle) (program : Pubkey)
        → IsMint i mint
        → IsTokenProgram program
        → Permitted ids (
            create_ata accounts.payer.key accounts.user.key mint.key
              accounts.output_token_account.key program accounts.system_program.key)
    -- The user's tokens go to the first account of the route, on the user's authority.
    takes :
        (ata : Handle) (amount : ℕ)
        → get_elem? remaining 0 ≡ some ata
        → Permitted ids (
            transfer ids.spl_token_id accounts.input_token_account.key ata.key accounts.user.key
              amount false)
    takes_checked :
        (ata mint : Handle) (program : Pubkey) (amount decimals : ℕ)
        → get_elem? remaining 0 ≡ some ata
        → IsMint 0 mint
        → IsTokenProgram program
        → Permitted ids (
            transfer_checked program accounts.input_token_account.key mint.key ata.key
              accounts.user.key amount decimals false)
    -- TitanPDA's tokens go from an account of the route to the output account alone.
    pays :
        (i : ℕ) (ata : Handle) (amount : ℕ)
        → IsAta i ata
        → Permitted ids (
            transfer ids.spl_token_id ata.key accounts.output_token_account.key
              accounts.titan_pda.key amount true)
    pays_checked :
        (i : ℕ) (ata mint : Handle) (program : Pubkey) (amount decimals : ℕ)
        → IsAta i ata
        → IsMint i mint
        → IsTokenProgram program
        → Permitted ids (
            transfer_checked program ata.key mint.key accounts.output_token_account.key
              accounts.titan_pda.key amount decimals true)
    -- The input account is closed on the user's authority, and one of the route on TitanPDA's; the
    -- payer gets the lamports.
    closes_input :
        (program : Pubkey)
        → IsTokenProgram program
        → Permitted ids (
            close_account program accounts.input_token_account.key accounts.payer.key
              accounts.user.key false)
    closes_ata :
        (i : ℕ) (ata : Handle) (program : Pubkey)
        → IsAta i ata
        → IsTokenProgram program
        → Permitted ids
            (close_account program ata.key accounts.payer.key accounts.titan_pda.key true)
    -- The user's lamports are wrapped in the input account.
    wraps :
        (amount : ℕ)
        → Permitted ids (system_transfer accounts.user.key accounts.input_token_account.key amount)
    syncs :
        (program : Pubkey)
        → IsTokenProgram program
        → Permitted ids (sync_native program accounts.input_token_account.key)
    -- A trade is an instruction of the Quay program on accounts that are listed for the route.
    trades :
        (instruction : Instruction) (keys : List Pubkey)
        → instruction.program_id ≡ program_id
        → All Signs instruction.accounts
        → All IsListed keys
        → Permitted ids (venue_call instruction keys)
