-- ===== src/Tests/Bystander.antt =====
-- A route by which an account that it does not name keeps its tokens.
use quay_titan_integration.Prelude.{
  All, none, ℕ, ◌+◌, ◌≤◌, ◌≡◌, ◌≢◌, refl, true, false, Result, ok, err, List, [], ◌∷◌, ◌==◌,
  if◌then◌else◌, ap, ◌∙◌, subst, ok-injective, slice?, arith, Bool-cases, inl, inr, In,
}
use quay_titan_integration.Prelude.Bytes.{le_bytes, from_le_bytes}
use quay_titan_integration.Solana.{Pubkey}
use quay_titan_integration.Program.Accounts.{
  account_exists, extract_token_amount, extract_token_owner, extract_mint_decimals, is_native_mint,
  get_token_program_for_mint, is_titan_pda_token_account, read_token_ledger,
}
use quay_titan_integration.Program.Bitmap.{new, set, is_set}
use quay_titan_integration.Program.Legs.{leg_input_amount, leg_account_metas}
use quay_titan_integration.Program.QuayCpi.{swap}
use quay_titan_integration.Program.Runtime.{
  World, Handle, create_ata, transfer, transfer_checked, close_account, system_transfer,
  sync_native, venue_call, ProgramError, foreign, Runtime, view,
}
use quay_titan_integration.Program.Tokens.{
  transfer_tokens, create_ata_for, close_token_account, setup_wsol_input_account,
}
use quay_titan_integration.Program.Reserves.{take_balance, take_balances, check_balances}
use quay_titan_integration.Program.Trade.{
  invoke_all, venue_instructions, perform_cpi_swap, perform_leg, run_leg, run_legs,
}
use quay_titan_integration.Program.Route.{
  Request, check_request, in_range, token_program_of, create_missing, effective_amount, take_input,
  pay_output, close_created, read_ledger, mint_decimals, trade_and_settle, read_request, execute,
}
use quay_titan_integration.Program.Route.Closing.{held}
use quay_titan_integration.Program.Route.Authority.{IsListed, IsMint}
use quay_titan_integration.Program.Route.Authority.Bystander.{TakesOnly, execute-spares}
use quay_titan_integration.Program.Route.Authority.Spent.{SpendsAtMost, execute-spends}
use quay_titan_integration.Program.Route.Payout.{MovesExactly}
use quay_titan_integration.Tests.Execute.{
  ids, handle, before, move, accounts, remaining, legs, with_amount, amount_of,
}
use quay_titan_integration.Tests.Settle.{checked_move, cleared, if-ok, checked_move-Moved}

abbrev give : World → World
give w = λ key. if key == 11 then with_amount (amount_of (w 11) + 3) (w 11) else w key

-- The venue only pays, 3 into account 11.
abbrev generous : Runtime
generous = record {
  invoke = λ cpi w. elim cpi [
    | transfer program source destination authority amount signed ↦
        checked_move source destination amount w
    | transfer_checked program source mint destination authority amount decimals signed ↦
        checked_move source destination amount w
    | close_account program account destination authority signed ↦ ok (cleared account w)
    | venue_call instruction keys ↦
        if held (give w) 11 == held w 11 + 3 then ok (give w) else err (foreign 1)
    | _ ↦ ok w
  ];
}

untouched : (w w' : World) (key : Pubkey) → w key ≡ w' key → held w key ≤ held w' key
unfolding extract_token_amount
untouched w w' key same = rw same (omega arith)

move-TakesOnly :
    (source destination : Pubkey) (amount : ℕ) (w w' : World) (key : Pubkey)
    → source ≢ key
    → checked_move source destination amount w ≡ ok w'
    → held w key ≤ held w' key
move-TakesOnly source destination amount w w' key other h = elim (Bool-cases (key == destination)) [
  | inl e ↦
      let same : destination ≡ key = ground arith in
      let moved = checked_move-Moved source destination amount w w' h in
      subst (λ k. held w k ≤ held w' k) same (omega (arith, moved.1))
  | inr e ↦
      let not_source : (key == source) ≡ false = ground arith in
      let (_, same) = if-ok _ (move source destination amount w) w' h in
      let still : w key ≡ move source destination amount w key = rw (not_source, e) refl in
      untouched w w' key (still ∙ ap (λ u. u key) same)
]

equal : (a b : ℕ) → (a == b) ≡ true → a ≡ b
equal a b h = ground arith

give-TakesOnly :
    (w w' : World) (key : Pubkey)
    → ◌≡◌ {A = Result ProgramError World}
        (if held (give w) 11 == held w 11 + 3 then ok (give w) else err (foreign 1))
        (ok w')
    → held w key ≤ held w' key
give-TakesOnly w w' key h =
    let (passed, same) = if-ok (held (give w) 11 == held w 11 + 3) (give w) w' h in
    elim (Bool-cases (key == 11)) [
      | inl e ↦
          let eleven : 11 ≡ key = ground arith in
          let more : held (give w) 11 ≡ held w 11 + 3 = equal _ _ passed in
          subst (λ k. held w k ≤ held w' k) eleven
            (subst (λ u. held w 11 ≤ held u 11) same (omega (arith, more)))
      | inr e ↦
          let still : w key ≡ give w key = rw e refl in
          untouched w w' key (still ∙ ap (λ u. u key) same)
    ]

generous-TakesOnly : TakesOnly generous
generous-TakesOnly (create_ata payer owner mint ata program system) key w w' other h =
    untouched w w' key (ap (λ u. u key) (ok-injective h))
generous-TakesOnly (transfer program source destination authority amount signed) key w w' other h =
    move-TakesOnly source destination amount w w' key other h
generous-TakesOnly
      (transfer_checked program source mint destination authority amount decimals signed) key w w'
      other h =
    move-TakesOnly source destination amount w w' key other h
generous-TakesOnly (close_account program account destination authority signed) key w w' other h =
    elim (Bool-cases (key == account)) [
      | inl e ↦ absurd (other (ground arith))
      | inr e ↦
          let still : w key ≡ cleared account w key = rw e refl in
          untouched w w' key (still ∙ ap (λ u. u key) (ok-injective h))
    ]
generous-TakesOnly (system_transfer source destination amount) key w w' other h =
    untouched w w' key (ap (λ u. u key) (ok-injective h))
generous-TakesOnly (sync_native program account) key w w' other h =
    untouched w w' key (ap (λ u. u key) (ok-injective h))
generous-TakesOnly (venue_call instruction keys) key w w' other h = give-TakesOnly w w' key h

abbrev world_of : Result ProgramError (Unit {0} × World) → World
world_of (ok (u, world)) = world
world_of (err e) = before

abbrev after : World
after = world_of (execute generous ids accounts remaining 2 5 legs before)

generous_run : execute generous ids accounts remaining 2 5 legs before ≡ ok (tt, after)
unfolding execute read_request check_request in_range read_ledger read_token_ledger mint_decimals
    extract_mint_decimals create_missing account_exists take_balances take_balance
    is_titan_pda_token_account extract_token_owner extract_token_amount slice? le_bytes
    from_le_bytes new set is_set trade_and_settle take_input effective_amount token_program_of
    get_token_program_for_mint is_native_mint setup_wsol_input_account transfer_tokens
    close_token_account run_legs run_leg leg_input_amount perform_leg leg_account_metas
    perform_cpi_swap venue_instructions swap invoke_all pay_output create_ata_for close_created
    check_balances
generous_run = refl

not_among :
    (key : Pubkey) (hs : List Handle) (h : Handle)
    → All (λ g. (g.key == key) ≡ false) hs
    → In h hs
    → h.key ≢ key
not_among key [] h all at named = at
not_among key (g ∷ hs) h all (inl same) named =
    let this : g.key ≡ key = ap (λ a. a.key) same ∙ named in let other = all.0 in ground arith
not_among key (g ∷ hs) h all (inr later) named = not_among key hs h all.1 later named

-- Account 31, the user's, is not listed.
unlisted : ¬ IsListed accounts remaining 2 31
unlisted (h, listed, named) =
    not_among 31 remaining h (refl, (refl, (refl, (refl, (refl, (refl, tt)))))) listed named

execute-spares_example : held before 31 ≤ held after 31
execute-spares_example =
    execute-spares generous ids accounts remaining 2 generous-TakesOnly 31 (λ e. omega (arith, e))
      unlisted 5 legs before after generous_run

generous-MovesExactly : MovesExactly generous
generous-MovesExactly = record {
  transferred = λ program source destination authority amount signed w w' apart h.
      checked_move-Moved source destination amount w w' h;
  transferred_checked =
      λ program source mint destination authority amount decimals signed w w' apart h.
        checked_move-Moved source destination amount w w' h;
}

-- Account 30, the user's input account, is not listed.
unlisted_input : ¬ IsListed accounts remaining 2 30
unlisted_input (h, listed, named) =
    not_among 30 remaining h (refl, (refl, (refl, (refl, (refl, (refl, tt)))))) listed named

abbrev request : Request
request = record { stored = none; output_index = 1; input_decimals = 6; output_decimals = 6 }

request_run : read_request generous ids accounts remaining 2 legs before ≡ ok (request, before)
unfolding read_request check_request in_range read_ledger read_token_ledger mint_decimals
    extract_mint_decimals
request_run = refl

plain_mint :
    (mint : Handle)
    → IsMint accounts remaining 2 0 mint
    → is_native_mint ids (view before mint) ≡ false
unfolding is_native_mint
plain_mint mint m =
    let same : handle 20 ≡ mint = cc in
    subst (λ h. is_native_mint ids (view before h) ≡ false) same refl

execute-spends_example :
    SpendsAtMost generous generous-TakesOnly ids accounts remaining 2 none 5 before after
execute-spends_example =
    execute-spends generous generous-TakesOnly ids accounts remaining 2 generous-MovesExactly
      unlisted_input 5 legs before after request request_run (λ mint m. inr (plain_mint mint m))
      generous_run
