-- ===== src/Tests/Obliging.antt =====
-- Other programs that do what the calls of a route ask for.
use quay_titan_integration.Prelude.{ℕ, take, drop, ◌≡◌, refl, ◌⊎◌, false, ok, ◌==◌, arith}
use quay_titan_integration.Prelude.Bytes.{from_le_bytes}
use quay_titan_integration.Program.Accounts.{extract_token_amount}
use quay_titan_integration.Program.Runtime.{
  World, Cpi, create_ata, transfer, transfer_checked, close_account, system_transfer, sync_native,
  venue_call, Runtime,
}
use quay_titan_integration.Program.Route.Authority.{
  Permitted, creates_titan_ata, creates_input, creates_output, closes_input, closes_ata,
}
use quay_titan_integration.Program.Route.Success.{Effect, Due, Obliging}
use quay_titan_integration.Tests.Execute.{ids, accounts, remaining}
use quay_titan_integration.Tests.Moves.{
  AllAlike, Alike-refl, Alike-trans, AllAlike-Leaves, careful, careful-AllAlike, careful-TakesFrom,
}
use quay_titan_integration.Tests.Creates.{
  Funds, opened, emptied, is_ata, alike_Funds, fresh-TokenAccount, create-Keeps, create-Funds,
  close-Funds, close-TokenAccount, close-owner, close-held,
}

-- The amount of account 10 is sold, for 3 of account 11.
abbrev pub sold : ℕ → World → World
sold amount w = careful 40 11 3 (careful 10 40 amount w)

abbrev pub willing : Runtime
willing = record {
  invoke = λ cpi w. elim cpi [
    | create_ata payer owner mint ata program system ↦ ok (opened program mint owner ata w)
    | transfer program source destination authority amount signed ↦
        ok (careful source destination amount w)
    | transfer_checked program source mint destination authority amount decimals signed ↦
        ok (careful source destination amount w)
    | close_account program account destination authority signed ↦ ok (emptied account w)
    | venue_call instruction keys ↦ ok (sold (from_le_bytes (take 8 (drop 1 instruction.bytes))) w)
    | _ ↦ ok w
  ];
}

-- The programs of the calls that create accounts, and the accounts of those that close them.
abbrev Known : Cpi → Type 0
Known (create_ata payer owner mint ata program system) = (program ≡ 81) ⊎ (program ≡ 82)
Known (close_account program account destination authority signed) =
    ((20 == account) ≡ false) × ((21 == account) ≡ false)
Known _ = Unit {0}

known : (cpi : Cpi) → Permitted accounts remaining 2 ids cpi → Known cpi
known _ (creates_titan_ata i ata mint program a m p) = p
known _ (creates_input mint program m p) = p
known _ (creates_output i mint program m p) = p
known _ (closes_input program p) = (refl, refl)
known _ (closes_ata i ata program a p) =
    let at = is_ata i ata a in (ground (arith, at, a.1), ground (arith, at, a.1))
known _ _ = tt

pub sold-AllAlike : (amount : ℕ) (w : World) → AllAlike w (sold amount w)
sold-AllAlike amount w k =
    Alike-trans (sold amount w k) (careful 10 40 amount w k) (w k)
      (careful-AllAlike 40 11 3 (careful 10 40 amount w) k) (careful-AllAlike 10 40 amount w k)

pub willing-Obliging : Obliging ids accounts remaining 2 willing Funds
unfolding extract_token_amount
willing-Obliging = record {
  plain_program = refl;
  new_program = refl;
  obliged = λ cpi w allowed good due. does cpi w (known cpi allowed) good due;
}
  where
    does :
        (cpi : Cpi) (w : World)
        → Known cpi
        → Funds w
        → Due ids accounts remaining 2 cpi w
        → (w' : World) × (willing.invoke cpi w ≡ ok w')
          × Funds w'
          × Effect ids accounts remaining 2 cpi w w'
    does (create_ata payer owner mint ata program system) w p good (free, _, _) = (
      opened program mint owner ata w,
      refl,
      create-Funds program mint owner ata w good free,
      (
        create-Keeps program mint owner ata w good free,
        fresh-TokenAccount program mint owner ata w p,
        λ key other. (λ f. rw other f, rw other refl),
      ),
    )
    does (transfer program source destination authority amount signed) w p good due = (
      careful source destination amount w,
      refl,
      alike_Funds w _ (careful-AllAlike source destination amount w) good,
      (
        AllAlike-Leaves w _ (careful-AllAlike source destination amount w),
        careful-TakesFrom source destination amount w,
      ),
    )
    does (transfer_checked program source mint destination authority amount decimals signed) w p
          good due =
        (
          careful source destination amount w,
          refl,
          alike_Funds w _ (careful-AllAlike source destination amount w) good,
          (
            AllAlike-Leaves w _ (careful-AllAlike source destination amount w),
            careful-TakesFrom source destination amount w,
          ),
        )
    does (close_account program account destination authority signed) w apart good due = (
      emptied account w,
      refl,
      close-Funds account w apart good,
      (
        λ key owner program' mint. close-TokenAccount account w key owner program' mint,
        λ i mint m. close-owner account w mint.key,
        λ key other. close-held account w key other,
      ),
    )
    does (venue_call instruction keys) w p good due =
        let amount = from_le_bytes (take 8 (drop 1 instruction.bytes)) in
        (
          sold amount w,
          refl,
          alike_Funds w _ (sold-AllAlike amount w) good,
          AllAlike-Leaves w _ (sold-AllAlike amount w),
        )
    does (system_transfer source destination amount) w p good due =
        (w, refl, good, AllAlike-Leaves w w (λ k. Alike-refl (w k)))
    does (sync_native program account) w p good due =
        (w, refl, good, AllAlike-Leaves w w (λ k. Alike-refl (w k)))
