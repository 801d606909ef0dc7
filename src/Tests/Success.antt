-- ===== src/Tests/Success.antt =====
-- A route whose output accounts are missing, with programs that do what they are asked for.
use quay_titan_integration.Prelude.{
  ℕ, Result, ok-injective, take_prefix, err, ◌/◌, take, zero, suc, ◌+◌, ◌≤◌, ◌<◌, ◌≡◌, refl, inl,
  inr, true, false, Option, none, ok, List, [], ◌∷◌, ◌++◌, slice?, replicate, ◌==◌, if◌then◌else◌,
  arith, ap, subst, Bool-cases,
}
use quay_titan_integration.Prelude.Bytes.{length-le_bytes, le_bytes, from_le_bytes}
use quay_titan_integration.Solana.{Pubkey}
use quay_titan_integration.Program.State.{quay}
use quay_titan_integration.Program.Accounts.{
  account_exists, extract_token_amount, extract_token_owner, extract_mint_decimals,
  is_titan_pda_token_account, is_native_mint, read_token_ledger, get_token_program_for_mint,
}
use quay_titan_integration.Program.Runtime.{AccountState, World, ProgramError}
use quay_titan_integration.Program.Route.{
  Request, read_request, create_missing, execute, token_program_of,
}
use quay_titan_integration.Program.Route.Closing.{held}
use quay_titan_integration.Program.Reserves.{Ledger, empty_ledger, take_balances}
use quay_titan_integration.Program.Route.Stages.{Reaches}
use quay_titan_integration.Program.Reserves.Recorded.{Recorded}
use quay_titan_integration.Program.Reserves.Exact.{all_kept, verdict}
use quay_titan_integration.Program.Route.Success.{at, CanOpen, AreApart, IsForeign}
use quay_titan_integration.Program.Route.Success.Starting.{IsPayable}
use quay_titan_integration.Program.Route.Success.Whole.{execute-verdict, execute-succeeds, IsOwn}
use quay_titan_integration.Program.Route.Success.Trading.{IsFair, IsAccepted}
use quay_titan_integration.Program.Trade.{
  perform_leg, perform_cpi_swap, venue_instructions, invoke_all,
}
use quay_titan_integration.Program.QuayCpi.{swap}
use quay_titan_integration.Program.Tokens.{create_ata_for}
use quay_titan_integration.Tests.Moves.{AllAlike-Leaves, careful, careful-TakesFrom}
use quay_titan_integration.Tests.Execute.{ids, handle, accounts, remaining, legs}
use quay_titan_integration.Tests.Creates.{alike_Funds, Funds, fresh, is_ata}
use quay_titan_integration.Tests.Obliging.{sold-AllAlike, sold, willing, willing-Obliging}

-- TitanPDA has an account for the first mint, the user one with 100 atoms, and nothing else is there.
abbrev mint_account : AccountState
mint_account = record { owner = 81; lamports = 1; bytes = replicate 44 0 ++ (6 ∷ replicate 37 0) }

abbrev ready : World
ready key =
    if key == 10
    then fresh 81 20 55 10
    else if key == 30
    then fresh 81 20 56 100
    else if key == 20
    then mint_account
    else if key == 21
    then mint_account
    else record { owner = 0; lamports = 0; bytes = [] }

ready-Funds : Funds ready
unfolding account_exists le_bytes
ready-Funds = (λ key free. ground arith, refl, refl)

apart : AreApart ids accounts remaining 2
apart i j a b p q other = ground (arith, is_ata i a p, is_ata j b q)

foreign : (key : Pubkey) → 20 ≤ key → IsForeign ids accounts remaining 2 key
foreign key far i ata a = ground (arith, is_ata i ata a, a.1)

can_open : (j : ℕ) → j < 2 → CanOpen ids accounts remaining 2 ready j
unfolding account_exists is_titan_pda_token_account extract_token_owner slice? from_le_bytes
    le_bytes
can_open zero lt ata mint a m =
    let same : handle 10 ≡ ata = cc in
    let same' : handle 20 ≡ mint = cc in
    inl (
      rw (← same, ← same') (record { held_by = refl; run_by = refl; of_mint = refl; there = refl }))
can_open (suc zero) lt ata mint a m =
    let same : handle 11 ≡ ata = cc in
    let same' : handle 21 ≡ mint = cc in inr (rw (← same, ← same') (refl, refl, refl))
can_open (suc (suc j)) lt ata mint a m = absurd (omega (arith, lt))

payable : IsPayable willing ids accounts remaining 2 5 legs ready
unfolding account_exists is_titan_pda_token_account extract_token_owner slice? from_le_bytes
    le_bytes extract_mint_decimals extract_token_amount read_token_ledger is_native_mint
payable = record {
  last = record { venue = quay true; from = 0; to = 1; weight_nanos = 1000000000; n_accounts = 2 };
  stored = none;
  input_decimals = 6;
  output_decimals = 6;
  valid =
      (omega arith, omega arith, omega arith, omega arith, refl, ((omega arith, omega arith), tt));
  final = refl;
  inside = omega arith;
  fits = (omega arith, omega arith, tt);
  apart = apart;
  input_foreign = foreign 30 (omega arith);
  output_foreign = foreign 31 (omega arith);
  ours = can_open;
  ledger = refl;
  input_known = λ mint m. let same : handle 20 ≡ mint = cc in rw (← same) refl;
  output_known = λ mint m. let same : handle 21 ≡ mint = cc in rw (← same) refl;
  input = λ mint m.
      let same : handle 20 ≡ mint = cc in
      rw (← same) (record { held_by = refl; run_by = refl; of_mint = refl; there = refl });
  funded = omega arith;
  output = λ mint m. let same : handle 21 ≡ mint = cc in inr (rw (← same) (refl, refl, refl));
}

accepted :
    IsAccepted willing Funds ids accounts remaining 2 4
      (record { venue = quay true; from = 0; to = 1; weight_nanos = 1000000000; n_accounts = 2 })
unfolding perform_leg perform_cpi_swap venue_instructions swap invoke_all
accepted amount w input good at some_amount enough =
    let n = from_le_bytes (take 8 (le_bytes 8 amount ++ (le_bytes 8 0 ++ 0 ∷ []))) in
    (
      sold n w,
      refl,
      alike_Funds w (sold n w) (sold-AllAlike n w) good,
      AllAlike-Leaves w (sold n w) (sold-AllAlike n w),
    )

execute-verdict_example :
    (created : ℕ) × (start : World) × (request : Request) × (ledger : Ledger) × (es : List
      (Option ℕ))
    × (after : World) × (create_missing willing ids accounts remaining 2 2 0 0 ready
        ≡ ok (created, start))
    × (read_request willing ids accounts remaining 2 legs ready ≡ ok (request, ready))
    × (take_balances ids 2 55 0 remaining empty_ledger start ≡ ok (ledger, start))
    × Reaches willing ids accounts remaining 2 5 legs request created ledger start after
    × Recorded ids 2 55 start remaining es
    × (execute willing ids accounts remaining 2 5 legs ready
        ≡ verdict (all_kept after 0 remaining es) after)
execute-verdict_example =
    execute-verdict willing Funds ids accounts remaining 2 willing-Obliging 5 legs ready ready-Funds
      payable (accepted, tt)

-- The state once account 11 is created.
abbrev state_of : Result ProgramError (ℕ × World) → World
state_of (ok (created, w)) = w
state_of (err e) = ready

abbrev start : World
start = state_of (create_missing willing ids accounts remaining 2 2 0 0 ready)

made : create_missing willing ids accounts remaining 2 2 0 0 ready ≡ ok (2, start)
unfolding create_missing account_exists token_program_of get_token_program_for_mint create_ata_for
    le_bytes
made = refl

from_le_bytes-le : (n x : ℕ) → from_le_bytes (le_bytes n x) ≤ x
unfolding le_bytes from_le_bytes
from_le_bytes-le zero x = omega arith
from_le_bytes-le (suc n) x = omega (arith, from_le_bytes-le n (x / 256))

sold_spares :
    (amount n : ℕ) (w : World) (key : Pubkey)
    → n ≤ amount
    → (key == 40) ≡ false
    → (held w key ≤ held (sold n w) key + amount)
      × ((key == 10) ≡ false → held w key ≤ held (sold n w) key)
sold_spares amount n w key small other =
    let (most, others) = careful-TakesFrom 10 40 n w in
    let (_, later) = careful-TakesFrom 40 11 3 (careful 10 40 n w) in
    (
      elim (Bool-cases (key == 10)) [
        | inl e ↦
            let same : 10 ≡ key = ground arith in
            let here = subst (λ k. held w k ≤ held (careful 10 40 n w) k + n) same most in
            omega (arith, here, small, later key other)
        | inr e ↦ omega (arith, others key e, later key other)
      ],
      λ e. omega (arith, others key e, later key other),
    )

spared_keys :
    (¬ IsOwn willing Funds ids accounts remaining 2 willing-Obliging start 30)
    × (¬ IsOwn willing Funds ids accounts remaining 2 willing-Obliging start 31)
    × (¬ IsOwn willing Funds ids accounts remaining 2 willing-Obliging start 40)
unfolding create_missing account_exists token_program_of get_token_program_for_mint create_ata_for
    is_titan_pda_token_account extract_token_owner slice? le_bytes from_le_bytes
spared_keys = (λ h. cc, λ h. cc, λ h. cc)

fair :
    IsFair willing accounts remaining
      (IsOwn willing Funds ids accounts remaining 2 willing-Obliging start)
      4
      (record { venue = quay true; from = 0; to = 1; weight_nanos = 1000000000; n_accounts = 2 })
unfolding perform_leg perform_cpi_swap venue_instructions swap invoke_all
fair amount w w' input key at run own =
    let bytes = le_bytes 8 amount in
    let n = from_le_bytes (take 8 (bytes ++ (le_bytes 8 0 ++ 0 ∷ []))) in
    let is_n : n ≡ from_le_bytes bytes =
      ap from_le_bytes (take_prefix 8 bytes (le_bytes 8 0 ++ 0 ∷ []) (length-le_bytes 8 amount)) in
    let ends : sold n w ≡ w' = ap (λ p. p.1) (ok-injective run) in
    let same : handle 10 ≡ input = cc in
    elim (Bool-cases (key == 40)) [
      | inl e ↦
          let at_40 : key ≡ 40 = ground arith in
          absurd (
            spared_keys.2 (
              subst (IsOwn willing Funds ids accounts remaining 2 willing-Obliging start) at_40
                own))
      | inr e ↦
          let spared =
            sold_spares amount n w key (omega (arith, is_n, from_le_bytes-le 8 amount)) e in
          rw (← ends, ← same) spared
    ]

execute-succeeds_example :
    (after : World) × (execute willing ids accounts remaining 2 5 legs ready ≡ ok (tt, after))
execute-succeeds_example =
    execute-succeeds willing Funds ids accounts remaining 2 willing-Obliging 5 legs ready 2 start
      ready-Funds payable (accepted, tt) made (spared_keys.0, spared_keys.1, (fair, tt))
