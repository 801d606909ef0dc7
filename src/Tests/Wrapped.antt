-- ===== src/Tests/Wrapped.antt =====
-- The input stage of a route whose input is the user's lamports, with programs that wrap them.
use quay_titan_integration.Prelude.{
  Bool-cases, inl, inr, ap, sym, ℕ, ◌+◌, ◌-◌, ◌≡◌, refl, Bool, true, false, none, Result, ok, err,
  [], slice?, ◌==◌, ltb, if◌then◌else◌, arith, subst, ◌∙◌, ok-injective,
}
use quay_titan_integration.Prelude.Bytes.{le_bytes, from_le_bytes}
use quay_titan_integration.Solana.{Pubkey}
use quay_titan_integration.Program.Accounts.{
  TokenIds, account_exists, extract_token_amount, get_token_program_for_mint, is_native_mint,
}
use quay_titan_integration.Program.Runtime.{
  World, create_ata, transfer, transfer_checked, close_account, system_transfer, sync_native,
  ProgramError, foreign, Runtime, view,
}
use quay_titan_integration.Program.Tokens.{
  transfer_tokens, close_token_account, setup_wsol_input_account, transfer_sol_and_sync,
}
use quay_titan_integration.Program.Route.{effective_amount, take_input, token_program_of}
use quay_titan_integration.Program.Route.Closing.{held, ClosesOnly}
use quay_titan_integration.Program.Route.Closing.Created.{CreatesOnly}
use quay_titan_integration.Program.Route.Payout.{MovesExactly, OpensEmpty}
use quay_titan_integration.Program.Route.Intake.Setup.{Wraps}
use quay_titan_integration.Program.Route.Intake.Wrapped.{left_over, take_input-wrapped}
use quay_titan_integration.Tests.Execute.{handle, before, with_amount, accounts, remaining}
use quay_titan_integration.Tests.Settle.{
  checked_move, cleared, opened_at, same_key, checked_move-Moved,
}

-- The mint 20 is the native one, and one lamport of an account is its rent.
abbrev native_ids : TokenIds
native_ids = record {
  associated_address = λ owner program mint. if owner == 55 then mint - 10 else mint + 10;
  spl_token_id = 81;
  token_2022_id = 82;
  native_mint_id = 20;
}

abbrev backing : World → Pubkey → ℕ
backing w key = (w key).lamports - 1

abbrev topped : Pubkey → ℕ → World → World
topped destination amount w = λ key.
    if key == destination then record (w key) { lamports = (w key).lamports + amount } else w key

abbrev synced : Pubkey → World → World
synced account w = λ key. if key == account then with_amount (backing w account) (w key) else w key

abbrev wrapping : Runtime
wrapping = record {
  invoke = λ cpi w. elim cpi [
    | create_ata payer owner mint ata program system ↦
        if account_exists (view w (handle ata))
        then ok w
        else if held (opened_at ata owner w) ata == 0
        then ok (opened_at ata owner w)
        else err (foreign 1)
    | transfer program source destination authority amount signed ↦
        checked_move source destination amount w
    | transfer_checked program source mint destination authority amount decimals signed ↦
        checked_move source destination amount w
    | close_account program account destination authority signed ↦ ok (cleared account w)
    | system_transfer source destination amount ↦
        if ltb 0 (w destination).lamports then ok (topped destination amount w) else err (foreign 3)
    | sync_native program account ↦
        if held (synced account w) account == backing w account
        then ok (synced account w)
        else err (foreign 2)
    | _ ↦ ok w
  ];
}

if-eq-ok :
    (c : Bool) (u w' : World) (code : ℕ)
    → ◌≡◌ {A = Result ProgramError World} (if c then ok u else err (foreign code)) (ok w')
    → (c ≡ true) × (u ≡ w')
if-eq-ok true u w' code h = (refl, ok-injective h)
if-eq-ok false u w' code h = cc

topped-held :
    (destination : Pubkey) (amount : ℕ) (w : World) (key : Pubkey)
    → held (topped destination amount w) key ≡ held w key
unfolding extract_token_amount
topped-held destination amount w key = elim (Bool-cases (key == destination)) [
  | inl e ↦ rw e refl
  | inr e ↦ rw e refl
]

wrapping-Wraps : Wraps wrapping backing
unfolding extract_token_amount account_exists
wrapping-Wraps = record {
  sent = λ source destination amount w w' apart h.
      let (funded, same) = if-eq-ok _ (topped destination amount w) w' 3 h in
      (
        subst (λ u. backing u destination ≡ backing w destination + amount) same
            (rw (same_key destination) (ground arith)),
        λ key. subst (λ u. held u key ≡ held w key) same (topped-held destination amount w key),
      );
  synchronised = λ program account w w' h.
      let (checked, same) = if-eq-ok _ (synced account w) w' 2 h in
      (
        subst (λ u. held u account ≡ backing w account) same (ground arith),
        λ key e. subst (λ u. held u key ≡ held w key) same (rw e refl),
      );
  started = λ payer owner mint ata program system w w' missing h.
      let (empty, same) = if-eq-ok _ (opened_at ata owner w) w' 1 (rw missing at h) in
      let none_held : held (opened_at ata owner w) ata ≡ 0 = ground arith in
      let none_over : backing (opened_at ata owner w) ata ≡ 0 = rw (same_key ata) refl in
      subst (λ u. backing u ata ≡ held u ata) same (none_over ∙ sym none_held);
}

wrapping-CreatesOnly : CreatesOnly wrapping
wrapping-CreatesOnly = record {
  others = λ payer owner mint ata program system w w' key h other.
      elim (Bool-cases (account_exists (view w (handle ata)))) [
        | inl there ↦ ap (λ u. (u key).bytes) (sym (ok-injective (rw there at h)))
        | inr missing ↦
            let (_, same) = if-eq-ok _ (opened_at ata owner w) w' 1 (rw missing at h) in
            subst (λ u. (u key).bytes ≡ (w key).bytes) same (rw other refl)
      ];
}

wrapping-MovesExactly : MovesExactly wrapping
wrapping-MovesExactly = record {
  transferred = λ program source destination authority amount signed w w' e h.
      checked_move-Moved source destination amount w w' h;
  transferred_checked = λ program source mint destination authority amount decimals signed w w' e h.
      checked_move-Moved source destination amount w w' h;
}

wrapping-OpensEmpty : OpensEmpty wrapping
unfolding account_exists
wrapping-OpensEmpty = record {
  opened = λ payer owner mint ata program system w w' missing h.
      let (empty, same) = if-eq-ok _ (opened_at ata owner w) w' 1 (rw missing at h) in
      subst (λ u. held u ata ≡ 0) same (ground arith);
}

wrapping-ClosesOnly : ClosesOnly wrapping
wrapping-ClosesOnly = record {
  closed = λ program account destination authority signed w w' h.
      subst (λ u. (u account).bytes ≡ []) (ok-injective h) (rw (same_key account) refl);
  others = λ program account destination authority signed w w' key h other.
      subst (λ u. (u key).bytes ≡ (w key).bytes) (ok-injective h) (rw other refl);
}

-- The user has no account for wrapped lamports.
abbrev unwrapped : World
unwrapped = cleared 30 before

abbrev world_of : Result ProgramError (Unit {0} × World) → World
world_of (ok (u, w)) = w
world_of (err e) = unwrapped

abbrev taken : World
taken = world_of (take_input wrapping native_ids accounts remaining 2 none 5 6 unwrapped)

take_run : take_input wrapping native_ids accounts remaining 2 none 5 6 unwrapped ≡ ok (tt, taken)
unfolding take_input effective_amount token_program_of get_token_program_for_mint is_native_mint
    setup_wsol_input_account transfer_sol_and_sync account_exists extract_token_amount slice?
    le_bytes from_le_bytes transfer_tokens close_token_account
take_run = refl

native : is_native_mint native_ids (view unwrapped (handle 20)) ≡ true
unfolding is_native_mint
native = refl

even : backing unwrapped 30 ≡ held unwrapped 30
unfolding extract_token_amount slice?
even = refl

take_input-wrapped_example :
    (held taken 10 ≡ held unwrapped 10 + 5)
    × (held taken 30
        ≡ left_over wrapping backing wrapping-Wraps wrapping-CreatesOnly wrapping-MovesExactly
            wrapping-OpensEmpty native_ids wrapping-ClosesOnly accounts remaining 2 unwrapped 5)
    × (account_exists (view unwrapped (handle 30)) ≡ false → (taken 30).bytes ≡ [])
take_input-wrapped_example =
    take_input-wrapped wrapping backing wrapping-Wraps wrapping-CreatesOnly wrapping-MovesExactly
      wrapping-OpensEmpty native_ids wrapping-ClosesOnly accounts remaining 2 5 6 unwrapped taken
      (handle 10) (handle 20) refl refl native refl refl even take_run
