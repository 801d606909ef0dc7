-- ===== src/Tests/Settle.antt =====
-- A route whose output account is missing, with token programs that check what they have moved.
use quay_titan_integration.Prelude.{
  List, Option, ℕ, ◌+◌, ◌-◌, min, ◌≡◌, refl, Bool, true, false, ◌&&◌, Result, ok, err, [], ◌∷◌,
  ◌==◌, if◌then◌else◌, subst, ok-injective, Bool-cases, inl, inr, ap, sym, slice?, arith,
}
use quay_titan_integration.Prelude.Bytes.{le_bytes, from_le_bytes}
use quay_titan_integration.Solana.{Pubkey}
use quay_titan_integration.Program.State.{quay}
use quay_titan_integration.Program.Calls.{Calls}
use quay_titan_integration.Program.Route.Authority.{Permitted}
use quay_titan_integration.Program.Route.Authority.Whole.{execute-Calls}
use quay_titan_integration.Program.Accounts.{
  account_exists, extract_token_amount, extract_token_owner, extract_mint_decimals, is_native_mint,
  get_token_program_for_mint, is_titan_pda_token_account, read_token_ledger,
}
use quay_titan_integration.Program.Bitmap.{new, set, is_set}
use quay_titan_integration.Program.Legs.{leg_input_amount, leg_account_metas}
use quay_titan_integration.Program.QuayCpi.{swap}
use quay_titan_integration.Program.Runtime.{
  World, view, create_ata, transfer, transfer_checked, close_account, venue_call, ProgramError,
  foreign, Runtime,
}
use quay_titan_integration.Program.Tokens.{
  transfer_tokens, create_ata_for, close_token_account, setup_wsol_input_account,
}
use quay_titan_integration.Program.Reserves.{
  take_balance, take_balances, check_balances, Ledger, empty_ledger,
}
use quay_titan_integration.Program.Trade.{
  invoke_all, venue_instructions, perform_cpi_swap, perform_leg, run_leg, run_legs,
}
use quay_titan_integration.Program.Route.{
  check_request, in_range, token_program_of, create_missing, effective_amount, take_input,
  pay_output, close_created, read_ledger, mint_decimals, trade_and_settle, read_request, execute,
}
use quay_titan_integration.Program.Reserves.Recorded.{Recorded}
use quay_titan_integration.Program.Reserves.Exact.{all_kept, verdict, check_balances-exact}
use quay_titan_integration.Program.Route.Closing.{held, Settled, ClosesOnly}
use quay_titan_integration.Program.Route.Closing.Created.{CreatesOnly}
use quay_titan_integration.Program.Route.Closing.Whole.{execute-Settled}
use quay_titan_integration.Program.Route.Payout.{
  Moved, MovesExactly, OpensEmpty, user_before, pay_output-Moved,
}
use quay_titan_integration.Program.Route.Payout.Whole.{execute-pays_all}
use quay_titan_integration.Tests.Execute.{
  ids, handle, holding, before, move, accounts, remaining, legs,
}

abbrev pub checked_move : Pubkey → Pubkey → ℕ → World → Result ProgramError World
checked_move source destination amount w =
    let w' = move source destination amount w in
    if held w' source + amount == held w source
      && held w' destination == held w destination + amount
    then ok w'
    else err (foreign 1)

abbrev pub cleared : Pubkey → World → World
cleared account w =
    λ key. if key == account then record { owner = 0; lamports = 0; bytes = [] } else w key

abbrev pub opened_at : Pubkey → Pubkey → World → World
opened_at ata owner w = λ key. if key == ata then holding owner 0 else w key

abbrev pub honest : Runtime
honest = record {
  invoke = λ cpi w. elim cpi [
    | create_ata payer owner mint ata program system ↦
        if account_exists (view w (handle ata))
        then ok w
        else if held (opened_at ata owner w) ata == 0
        then ok (opened_at ata owner w)
        else err (foreign 1)
    | transfer program source destination authority amount signed ↦
        checked_move source destination amount w
    | transfer_checked program source mint destination authority amount decimals signed ↦
        checked_move source destination amount w
    | close_account program account destination authority signed ↦ ok (cleared account w)
    | venue_call instruction keys ↦ ok (move 41 11 3 (move 10 40 5 w))
    | _ ↦ ok w
  ];
}

-- The output account of TitanPDA, 11, has no data.
abbrev pub missing : World
missing = cleared 11 before

pub if-ok :
    (c : Bool) (u w' : World)
    → ◌≡◌ {A = Result ProgramError World} (if c then ok u else err (foreign 1)) (ok w')
    → (c ≡ true) × (u ≡ w')
if-ok true u w' h = (refl, ok-injective h)
if-ok false u w' h = cc

pub both_equal : (a b c d : ℕ) → (a == b && c == d) ≡ true → (a ≡ b) × (c ≡ d)
both_equal a b c d h = (ground arith, ground arith)

pub same_key : (key : Pubkey) → (key == key) ≡ true
same_key key = ground arith

pub checked_move-Moved :
    (source destination : Pubkey) (amount : ℕ) (w w' : World)
    → checked_move source destination amount w ≡ ok w'
    → Moved w w' source destination amount
checked_move-Moved source destination amount w w' h =
    let (passed, same) = if-ok _ (move source destination amount w) w' h in
    subst (λ u. Moved w u source destination amount) same (both_equal _ _ _ _ passed)

pub honest-ClosesOnly : ClosesOnly honest
honest-ClosesOnly = record {
  closed = λ program account destination authority signed w w' h.
      subst (λ u. (u account).bytes ≡ []) (ok-injective h) (rw (same_key account) refl);
  others = λ program account destination authority signed w w' key h other.
      subst (λ u. (u key).bytes ≡ (w key).bytes) (ok-injective h) (rw other refl);
}

pub honest-CreatesOnly : CreatesOnly honest
honest-CreatesOnly = record {
  others = λ payer owner mint ata program system w w' key h other.
      elim (Bool-cases (account_exists (view w (handle ata)))) [
        | inl there ↦ ap (λ u. (u key).bytes) (sym (ok-injective (rw there at h)))
        | inr missing ↦
            subst (λ u. (u key).bytes ≡ (w key).bytes)
              (if-ok _ (opened_at ata owner w) w' (rw missing at h)).1 (rw other refl)
      ];
}

pub honest-MovesExactly : MovesExactly honest
honest-MovesExactly = record {
  transferred = λ program source destination authority amount signed w w' apart h.
      checked_move-Moved source destination amount w w' h;
  transferred_checked =
      λ program source mint destination authority amount decimals signed w w' apart h.
        checked_move-Moved source destination amount w w' h;
}

pub honest-OpensEmpty : OpensEmpty honest
unfolding account_exists
honest-OpensEmpty = record {
  opened = λ payer owner mint ata program system w w' missing h.
      let (passed, same) = if-ok _ (opened_at ata owner w) w' (rw missing at h) in
      subst (λ u. held u ata ≡ 0) same (ground arith);
}

abbrev world_of : Result ProgramError (Unit {0} × World) → World
world_of (ok (u, world)) = world
world_of (err e) = missing

abbrev pub settled : World
settled = world_of (execute honest ids accounts remaining 2 5 legs missing)

pub settled_run : execute honest ids accounts remaining 2 5 legs missing ≡ ok (tt, settled)
unfolding execute read_request check_request in_range read_ledger read_token_ledger mint_decimals
    extract_mint_decimals create_missing account_exists take_balances take_balance
    is_titan_pda_token_account extract_token_owner extract_token_amount slice? le_bytes
    from_le_bytes new set is_set trade_and_settle take_input effective_amount token_program_of
    get_token_program_for_mint is_native_mint setup_wsol_input_account transfer_tokens
    close_token_account run_legs run_leg leg_input_amount perform_leg leg_account_metas
    perform_cpi_swap venue_instructions swap invoke_all pay_output create_ata_for close_created
    check_balances
settled_run = refl

execute-Settled_example : Settled settled 11
execute-Settled_example =
    execute-Settled honest ids accounts remaining 2 honest-CreatesOnly honest-ClosesOnly 5 legs
      missing settled 1 (handle 11) settled_run (omega arith) refl refl

execute-pays_all_example :
    (created : ℕ) × (start : World) × (create_missing honest ids accounts remaining 2 2 0 0 missing
      ≡ ok (created, start))
    × (held settled 11 ≡ held start 11)
execute-pays_all_example =
    execute-pays_all honest honest-MovesExactly honest-CreatesOnly honest-OpensEmpty
      honest-ClosesOnly ids accounts remaining 2 5 legs missing settled
      (record { venue = quay true; from = 0; to = 1; weight_nanos = 1000000000; n_accounts = 2 })
      (handle 11) settled_run refl refl refl

-- The output transfer alone: 8 of the 20 are reserved.
abbrev paid : World
paid = world_of (pay_output honest ids accounts remaining 2 1 6 (0 ∷ 8 ∷ []) before)

pay_run : pay_output honest ids accounts remaining 2 1 6 (0 ∷ 8 ∷ []) before ≡ ok (tt, paid)
unfolding pay_output extract_token_amount slice? le_bytes from_le_bytes account_exists
    token_program_of get_token_program_for_mint transfer_tokens create_ata_for
pay_run = refl

pay_output-Moved_example :
    (held paid 11 ≡ min (held before 11) 8)
    × (held paid 31 ≡ user_before accounts before + (held before 11 - 8))
pay_output-Moved_example =
    pay_output-Moved honest honest-MovesExactly ids honest-CreatesOnly honest-OpensEmpty accounts
      remaining 2 1 6 (0 ∷ 8 ∷ []) before paid (handle 11) 8 refl refl refl pay_run

execute-Calls_example : Calls honest (Permitted accounts remaining 2 ids) missing settled
execute-Calls_example =
    execute-Calls honest ids accounts remaining 2 5 legs missing settled settled_run

abbrev ledger_of : Result ProgramError (Ledger × World) → Ledger
ledger_of (ok (ledger, w)) = ledger
ledger_of (err e) = empty_ledger

abbrev recorded : Ledger
recorded = ledger_of (take_balances ids 2 55 0 remaining empty_ledger before)

record_run : take_balances ids 2 55 0 remaining empty_ledger before ≡ ok (recorded, before)
unfolding take_balances take_balance is_titan_pda_token_account extract_token_owner
    extract_token_amount slice? le_bytes from_le_bytes new set is_set
record_run = refl

check_balances-exact_example :
    (es : List (Option ℕ)) × Recorded ids 2 55 before remaining es
    × ((after : World)
        → check_balances recorded.marks recorded.balances 0 0 remaining after
          ≡ verdict (all_kept after 0 remaining es) after)
check_balances-exact_example =
    check_balances-exact ids 2 55 remaining before recorded before record_run
