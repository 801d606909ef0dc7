-- ===== src/Program/Tokens.antt =====
-- instructions/swap_route_v3.rs: the functions that create, fund, move and close token accounts.
use quay_titan_integration.Prelude.{ℕ, ◌-◌, Bool, true, false, Option, ◌==◌, ltb, if◌then◌else◌}
use quay_titan_integration.Solana.{Pubkey}
use quay_titan_integration.Program.State.{missing_remaining_account}
use quay_titan_integration.Program.Accounts.{TokenIds, account_exists, extract_token_amount}
use quay_titan_integration.Program.Runtime.{
  Handle, Runtime, Act, create_ata, transfer, transfer_checked, close_account as close_call,
  system_transfer, sync_native, ◌>>=◌, ◌>>◌, done, try, found, see, call,
}

module _ (rt : Runtime) (ids : TokenIds) where
  -- `anchor_spl::token::transfer` calls the SPL token program, whichever program it is given.
  unfoldable pub transfer_tokens :
      (token_program source destination authority : Pubkey) (mint : Option Pubkey)
      (amount decimals : ℕ) (signed : Bool)
      → Act (Unit {0})
  transfer_tokens token_program source destination authority mint amount decimals signed =
      if amount == 0
      then done tt
      else if token_program == ids.token_2022_id
      then (do
        mint_key ← found mint missing_remaining_account
        call rt (
            transfer_checked token_program source mint_key destination authority amount decimals
              signed))
      else call rt (transfer ids.spl_token_id source destination authority amount signed)

  -- `create_titan_pda_ata` and `create_user_ata`, which differ in the owner.
  unfoldable pub create_ata_for :
      (payer owner mint ata token_program system_program : Pubkey) → Act (Unit {0})
  create_ata_for payer owner mint ata token_program system_program =
      call rt (create_ata payer owner mint ata token_program system_program)

  -- `close_titan_pda_ata` and `close_token_account`.
  unfoldable pub close_token_account :
      (account destination authority token_program : Pubkey) (signed : Bool) → Act (Unit {0})
  close_token_account account destination authority token_program signed =
      call rt (close_call token_program account destination authority signed)

  unfoldable pub transfer_sol_and_sync :
      (source wsol_ata token_program : Pubkey) (amount : ℕ) → Act (Unit {0})
  transfer_sol_and_sync source wsol_ata token_program amount = if amount == 0 then done tt else (do
    call rt (system_transfer source wsol_ata amount)
    call rt (sync_native token_program wsol_ata))

  -- Whether the account was created.
  unfoldable pub setup_wsol_input_account :
      (payer owner : Pubkey) (wsol_ata : Handle) (mint token_program system_program : Pubkey)
      (amount : ℕ)
      → Act Bool
  setup_wsol_input_account payer owner wsol_ata mint token_program system_program amount = do
    account ← see wsol_ata
    if account_exists account
        then (do
          current_balance ← try (extract_token_amount account)
          if ltb current_balance amount
              then transfer_sol_and_sync owner wsol_ata.key token_program (amount - current_balance)
              else done tt
          done false)
        else (do
          call rt (create_ata payer owner mint wsol_ata.key token_program system_program)
          transfer_sol_and_sync owner wsol_ata.key token_program amount
          done true)
