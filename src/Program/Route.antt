-- ===== src/Program/Route.antt =====
-- instructions/swap_route_v3.rs: the handler `execute`, stage by stage in the order of the source. The
-- accounts' constraints that the framework checks before the handler are not part of it.
pub mod Quiet
pub mod Stages
pub mod Safe
pub mod Guards
pub mod NoPanic
pub mod Balances
pub mod Total
pub mod Authority
pub mod Closing
pub mod Payout
pub mod Intake
pub mod Success
use quay_titan_integration.Prelude.{
  ℕ, zero, suc, ◌+◌, ◌-◌, ◌*◌, Bool, true, false, not, ◌&&◌, Option, none, some, Result, ok, err,
  List, [], ◌∷◌, ltb, leb, ◌==◌, if◌then◌else◌, length, get_elem?,
}
use quay_titan_integration.Prelude.Bits.{test_bit, set_bit}
use quay_titan_integration.Solana.{Pubkey}
use quay_titan_integration.Program.State.{
  SwapSpecInputV2, TemplateError, invalid_swap_input, missing_remaining_account,
  invalid_account_data, AccountInfo, max_swaps, max_mints,
}
use quay_titan_integration.Program.Accounts.{
  TokenIds, account_exists, extract_token_amount, extract_mint_decimals, is_native_mint,
  get_token_program_for_mint, read_token_ledger,
}
use quay_titan_integration.Program.Runtime.{
  World, Handle, Runtime, Act, view, ◌>>=◌, ◌>>◌, done, try, found, index, need, see,
}
use quay_titan_integration.Program.Tokens.{
  transfer_tokens, create_ata_for, close_token_account, setup_wsol_input_account,
}
use quay_titan_integration.Program.Reserves.{
  Ledger, empty_ledger, unwrap_or_zero, take_balances, check_balances,
}
use quay_titan_integration.Program.Trade.{run_legs}

-- `SwapRouteV3`: the named accounts of the instruction that the handler uses.
pub record SwapRouteV3 : Type 0 where
  pub payer : Handle
  pub user : Handle
  pub titan_pda : Handle
  pub input_token_account : Handle
  pub output_token_account : Handle
  pub token_program : Handle
  pub token_2022_program : Handle
  pub system_program : Handle
  pub token_ledger : Option Handle

-- What the handler reads before it changes anything.
pub record Request : Type 0 where
  pub stored : Option ℕ
  pub output_index : ℕ
  pub input_decimals : ℕ
  pub output_decimals : ℕ

unfoldable pub in_range : ℕ → List SwapSpecInputV2 → Bool
in_range mints [] = true
in_range mints (spec ∷ swaps) = (ltb spec.from mints && ltb spec.to mints) && in_range mints swaps

abbrev pub is_empty : List SwapSpecInputV2 → Bool
is_empty [] = true
is_empty (spec ∷ swaps) = false

-- The guards at the top.
unfoldable pub check_request : ℕ → List SwapSpecInputV2 → ℕ → Act (Unit {0})
check_request mints swaps remaining_count = do
  need (ltb 1 mints && not (is_empty swaps)) invalid_swap_input
  need (leb (length swaps) max_swaps) invalid_swap_input
  need (leb mints max_mints) invalid_swap_input
  need (leb (2 * mints) remaining_count) missing_remaining_account
  first ← index (get_elem? swaps 0)
  need (first.from == 0) invalid_swap_input
  need (in_range mints swaps) invalid_swap_input

module _ (rt : Runtime) (ids : TokenIds) (accounts : SwapRouteV3) (remaining : List Handle)
    (mints : ℕ) where
  abbrev pub place : ℕ → Act Handle
  place i = found (get_elem? remaining i) missing_remaining_account

  -- The token program of a mint, by the mint's owner at that moment.
  unfoldable pub token_program_of : Handle → Act Pubkey
  token_program_of mint world = ok (
    (get_token_program_for_mint ids (view world mint) (view world accounts.token_program)
        (view world accounts.token_2022_program)).key,
    world,
  )

  -- The token accounts of TitanPDA that do not exist, from `i` on; the bits of those that were created.
  unfoldable pub create_missing : (count i created : ℕ) → Act ℕ
  create_missing zero i created = done created
  create_missing (suc count) i created = do
    ata ← place i
    account ← see ata
    if account_exists account then create_missing count (suc i) created else (do
      mint ← place (mints + i)
      token_program ← token_program_of mint
      create_ata_for rt ids accounts.payer.key accounts.titan_pda.key mint.key ata.key token_program
          accounts.system_program.key
      create_missing count (suc i) (set_bit created i))

  -- The amount of the route: what has arrived since the ledger was written, or the argument.
  unfoldable pub effective_amount : Option ℕ → ℕ → Act ℕ
  effective_amount none amount = done amount
  effective_amount (some stored) amount = do
    account ← see accounts.input_token_account
    current ← try (extract_token_amount account)
    need (leb stored current) invalid_account_data
    need (ltb 0 (current - stored)) invalid_account_data
    done (current - stored)

  -- The user's tokens into the first account of TitanPDA, through a wrapped account where it is needed.
  unfoldable pub take_input : Option ℕ → (amount decimals : ℕ) → Act (Unit {0})
  take_input ledger_amount amount decimals = do
    input_mint ← place mints
    effective ← effective_amount ledger_amount amount
    first_ata ← place 0
    token_program ← token_program_of input_mint
    mint_account ← see input_mint
    created_wsol ← (elim ledger_amount [
      | some stored ↦ done false
      | none ↦
          if is_native_mint ids mint_account
          then setup_wsol_input_account rt ids accounts.payer.key accounts.user.key
              accounts.input_token_account input_mint.key token_program accounts.system_program.key
              effective
          else done false
    ])
    transfer_tokens rt ids token_program accounts.input_token_account.key first_ata.key
        accounts.user.key (some input_mint.key) effective decimals false
    if created_wsol
        then close_token_account rt ids accounts.input_token_account.key accounts.payer.key
            accounts.user.key token_program false
        else done tt

  -- What the trades have added to the last leg's token account, out to the user.
  unfoldable pub pay_output : (output_index decimals : ℕ) → List ℕ → Act (Unit {0})
  pay_output output_index decimals reserved = do
    source ← place output_index
    account ← see source
    raw ← try (extract_token_amount account)
    reserve ← index (get_elem? reserved output_index)
    output_mint ← place (mints + output_index)
    token_program ← token_program_of output_mint
    destination ← see accounts.output_token_account
    if account_exists destination
        then done tt
        else create_ata_for rt ids accounts.payer.key accounts.user.key output_mint.key
            accounts.output_token_account.key token_program accounts.system_program.key
    transfer_tokens rt ids token_program source.key accounts.output_token_account.key
        accounts.titan_pda.key (some output_mint.key) (raw - reserve) decimals true

  -- The created accounts that are empty are closed again, from `i` on.
  unfoldable pub close_created : (count i created : ℕ) → Act (Unit {0})
  close_created zero i created = done tt
  close_created (suc count) i created =
      if not (test_bit created i) then close_created count (suc i) created else (do
        ata ← place i
        account ← see ata
        if ltb 0 (unwrap_or_zero (extract_token_amount account))
            then close_created count (suc i) created
            else (do
              mint ← place (mints + i)
              token_program ← token_program_of mint
              close_token_account rt ids ata.key accounts.payer.key accounts.titan_pda.key
                  token_program true
              close_created count (suc i) created))

  abbrev pub ledger_view : World → Option AccountInfo
  ledger_view world = elim accounts.token_ledger [ some h ↦ some (view world h) | none ↦ none ]

  unfoldable pub read_ledger : Act (Option ℕ)
  read_ledger world =
      try (read_token_ledger (ledger_view world) (view world accounts.input_token_account)) world

  unfoldable pub mint_decimals : Handle → Act ℕ
  mint_decimals mint = do account ← see mint; try (extract_mint_decimals account)

  -- From the recorded balances to the end.
  unfoldable pub trade_and_settle :
      ℕ → List SwapSpecInputV2 → Request → (created : ℕ) → Ledger → Act (Unit {0})
  trade_and_settle amount swaps request created ledger = do
    take_input request.stored amount request.input_decimals
    run_legs rt accounts.titan_pda.key remaining ledger.reserved (2 * mints) swaps
    pay_output request.output_index request.output_decimals ledger.reserved
    close_created mints 0 created
    check_balances ledger.marks ledger.balances 0 0 remaining

  -- From the guards at the top to the decimals of the two mints.
  unfoldable pub read_request : List SwapSpecInputV2 → Act Request
  read_request swaps = do
    check_request mints swaps (length remaining)
    stored ← read_ledger
    input_mint ← place mints
    last ← index (get_elem? swaps (length swaps - 1))
    output_mint ← place (mints + last.to)
    input_decimals ← mint_decimals input_mint
    output_decimals ← mint_decimals output_mint
    done (record {
      stored = stored;
      output_index = last.to;
      input_decimals = input_decimals;
      output_decimals = output_decimals;
    })

  unfoldable pub execute : (amount : ℕ) → List SwapSpecInputV2 → Act (Unit {0})
  execute amount swaps = do
    request ← read_request swaps
    created ← create_missing mints 0 0
    ledger ← take_balances ids mints accounts.titan_pda.key 0 remaining empty_ledger
    trade_and_settle amount swaps request created ledger
