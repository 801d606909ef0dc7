-- ===== src/Tests/Execute.antt =====
-- A route of one leg over two mints, with token programs and a venue that move balances.
use quay_titan_integration.Prelude.{
  ℕ, ◌+◌, ◌-◌, ◌≡◌, refl, true, false, none, Result, ok, err, List, [], ◌∷◌, ◌++◌, ◌==◌,
  if◌then◌else◌, replicate, take, drop, slice?, ◌↔◌, arith,
}
use quay_titan_integration.Prelude.Bytes.{le_bytes, from_le_bytes}
use quay_titan_integration.Solana.{Pubkey}
use quay_titan_integration.Program.State.{SwapSpecInputV2, quay}
use quay_titan_integration.Program.Accounts.{
  TokenIds, account_exists, extract_token_amount, extract_token_owner, extract_mint_decimals,
  is_native_mint, get_token_program_for_mint, is_titan_pda_token_account, read_token_ledger,
}
use quay_titan_integration.Program.Bitmap.{new, set, is_set}
use quay_titan_integration.Program.Legs.{leg_input_amount, leg_account_metas}
use quay_titan_integration.Program.QuayCpi.{swap}
use quay_titan_integration.Program.Runtime.{
  AccountState, World, Handle, transfer, venue_call, ProgramError, Runtime, view,
}
use quay_titan_integration.Program.Tokens.{
  transfer_tokens, create_ata_for, close_token_account, setup_wsol_input_account,
}
use quay_titan_integration.Program.Reserves.{take_balance, take_balances, check_balances}
use quay_titan_integration.Program.Trade.{
  invoke_all, venue_instructions, perform_cpi_swap, perform_leg, run_leg, run_legs,
}
use quay_titan_integration.Program.Route.{
  SwapRouteV3, check_request, in_range, token_program_of, create_missing, effective_amount,
  take_input, pay_output, close_created, read_ledger, mint_decimals, trade_and_settle, read_request,
  execute,
}
use quay_titan_integration.Program.Trade.Regions.{OwnLeg, specs, run_each, run_legs-run_each}
use quay_titan_integration.Program.Route.Guards.{Valid, check_request-Valid}
use quay_titan_integration.Program.Route.Safe.{AllSafe, execute-AllSafe}

abbrev pub ids : TokenIds
ids = record {
  associated_address = λ owner program mint. if owner == 55 then mint - 10 else mint + 10;
  spl_token_id = 81;
  token_2022_id = 82;
  native_mint_id = 83;
}

abbrev pub handle : Pubkey → Handle
handle key = record { key = key; is_signer = false; is_writable = true }

-- TitanPDA is 55 and the user 56.
abbrev pub holding : Pubkey → ℕ → AccountState
holding owner amount = record {
  owner = 81;
  lamports = 1;
  bytes = replicate 32 1 ++ ((owner ∷ replicate 31 0) ++ (le_bytes 8 amount ++ replicate 93 0));
}

abbrev mint_account : AccountState
mint_account = record { owner = 81; lamports = 1; bytes = replicate 44 0 ++ (6 ∷ replicate 37 0) }

abbrev pub before : World
before key =
    if key == 10
    then holding 55 10
    else if key == 11
    then holding 55 20
    else if key == 20
    then mint_account
    else if key == 21
    then mint_account
    else if key == 30
    then holding 56 100
    else if key == 31
    then holding 56 0
    else record { owner = 0; lamports = 0; bytes = [] }

-- The amount of a token account, written over.
abbrev pub with_amount : ℕ → AccountState → AccountState
with_amount amount state = record state {
  bytes = take 64 state.bytes ++ (le_bytes 8 amount ++ drop 72 state.bytes);
}

abbrev pub amount_of : AccountState → ℕ
amount_of state = from_le_bytes (take 8 (drop 64 state.bytes))

abbrev pub move : Pubkey → Pubkey → ℕ → World → World
move source destination amount world = λ key.
    if key == source
    then with_amount (amount_of (world source) - amount) (world source)
    else if key == destination
    then with_amount (amount_of (world destination) + amount) (world destination)
    else world key

-- A transfer moves its amount; the venue takes 5 from account 10 and puts 3 into account 11.
abbrev rt : Runtime
rt = record {
  invoke = λ cpi world. elim cpi [
    | transfer program source destination authority amount signed ↦
        ok (move source destination amount world)
    | venue_call instruction keys ↦ ok (move 41 11 3 (move 10 40 5 world))
    | _ ↦ ok world
  ];
}

abbrev pub accounts : SwapRouteV3
accounts = record {
  payer = handle 56;
  user = handle 56;
  titan_pda = handle 55;
  input_token_account = handle 30;
  output_token_account = handle 31;
  token_program = handle 81;
  token_2022_program = handle 82;
  system_program = handle 84;
  token_ledger = none;
}

abbrev pub remaining : List Handle
remaining = handle 10 ∷ handle 11 ∷ handle 20 ∷ handle 21 ∷ handle 40 ∷ handle 90 ∷ []

abbrev pub legs : List SwapSpecInputV2
legs =
    record { venue = quay true; from = 0; to = 1; weight_nanos = 1000000000; n_accounts = 2 } ∷ []

abbrev world_of : Result ProgramError (Unit {0} × World) → World
world_of (ok (u, world)) = world
world_of (err e) = before

abbrev after : World
after = world_of (execute rt ids accounts remaining 2 5 legs before)

route_run : execute rt ids accounts remaining 2 5 legs before ≡ ok (tt, after)
unfolding execute read_request check_request in_range read_ledger read_token_ledger mint_decimals
    extract_mint_decimals create_missing account_exists take_balances take_balance
    is_titan_pda_token_account extract_token_owner extract_token_amount slice? le_bytes
    from_le_bytes new set is_set trade_and_settle take_input effective_amount token_program_of
    get_token_program_for_mint is_native_mint setup_wsol_input_account transfer_tokens
    close_token_account run_legs run_leg leg_input_amount perform_leg leg_account_metas
    perform_cpi_swap venue_instructions swap invoke_all pay_output create_ata_for close_created
    check_balances
route_run = refl

user_paid : extract_token_amount (view after (handle 31)) ≡ ok 3
unfolding execute read_request check_request in_range read_ledger read_token_ledger mint_decimals
    extract_mint_decimals create_missing account_exists take_balances take_balance
    is_titan_pda_token_account extract_token_owner extract_token_amount slice? le_bytes
    from_le_bytes new set is_set trade_and_settle take_input effective_amount token_program_of
    get_token_program_for_mint is_native_mint setup_wsol_input_account transfer_tokens
    close_token_account run_legs run_leg leg_input_amount perform_leg leg_account_metas
    perform_cpi_swap venue_instructions swap invoke_all pay_output create_ata_for close_created
    check_balances
user_paid = refl

execute-AllSafe_example :
    (created : ℕ) × (start : World) × (create_missing rt ids accounts remaining 2 2 0 0 before
      ≡ ok (created, start))
    × AllSafe rt ids accounts remaining 2 start after
execute-AllSafe_example = execute-AllSafe rt ids accounts remaining 2 5 legs before after route_run

check_request-Valid_example : (check_request 2 legs 6 before ≡ ok (tt, before)) ↔ Valid 2 legs 6
check_request-Valid_example = check_request-Valid 2 legs 6 before

abbrev own_leg : OwnLeg
own_leg = (
  record { venue = quay true; from = 0; to = 1; weight_nanos = 1000000000; n_accounts = 2 },
  handle 40 ∷ handle 90 ∷ [],
)

run_legs-run_each_example :
    run_legs rt 55 remaining (replicate 12 0) 4 (specs (own_leg ∷ []))
    ≡ run_each rt 55 remaining (replicate 12 0) (own_leg ∷ [])
run_legs-run_each_example =
    run_legs-run_each rt 55 remaining (replicate 12 0)
      (handle 10 ∷ handle 11 ∷ handle 20 ∷ handle 21 ∷ []) (own_leg ∷ []) refl
      ((refl, omega arith), tt)
