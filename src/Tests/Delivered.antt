-- ===== src/Tests/Delivered.antt =====
-- The route of the tests whose output account is missing: what its user is paid.
use quay_titan_integration.Prelude.{ℕ, ◌≡◌, refl, true, false, ok, subst, ◌==◌, arith, zero, suc}
use quay_titan_integration.Program.State.{quay}
use quay_titan_integration.Program.Runtime.{World}
use quay_titan_integration.Program.Reserves.{Ledger, empty_ledger, take_balances}
use quay_titan_integration.Program.Trade.{run_legs}
use quay_titan_integration.Program.Route.{Request, read_request, create_missing, take_input}
use quay_titan_integration.Program.Route.Payout.Delivered.{IsForeign, Delivered, execute-delivers}
use quay_titan_integration.Tests.Execute.{ids, handle, accounts, remaining, legs}
use quay_titan_integration.Tests.Settle.{
  honest, missing, settled, settled_run, honest-CreatesOnly, honest-OpensEmpty, honest-ClosesOnly,
  honest-MovesExactly,
}

user_account-IsForeign :
    IsForeign honest honest-MovesExactly honest-CreatesOnly honest-OpensEmpty honest-ClosesOnly ids
      accounts remaining 2 31
user_account-IsForeign zero ata (at, near) =
    let same : handle 10 ≡ ata = cc in subst (λ h. (31 == h.key) ≡ false) same refl
user_account-IsForeign (suc zero) ata (at, near) =
    let same : handle 11 ≡ ata = cc in subst (λ h. (31 == h.key) ≡ false) same refl
user_account-IsForeign (suc (suc j)) ata (at, near) = absurd (omega arith)

execute-delivers_example :
    (request : Request) × (created : ℕ) × (start : World) × (ledger : Ledger) × (funded : World)
    × (traded : World) × (read_request honest ids accounts remaining 2 legs missing
        ≡ ok (request, missing))
    × (create_missing honest ids accounts remaining 2 2 0 0 missing ≡ ok (created, start))
    × (take_balances ids 2 55 0 remaining empty_ledger start ≡ ok (ledger, start))
    × (take_input honest ids accounts remaining 2 request.stored 5 request.input_decimals start
        ≡ ok (tt, funded))
    × (run_legs honest 55 remaining ledger.reserved 4 legs funded ≡ ok (tt, traded))
    × Delivered honest honest-MovesExactly honest-CreatesOnly honest-OpensEmpty honest-ClosesOnly
        ids accounts remaining 2 start traded settled
        (handle 11)
execute-delivers_example =
    execute-delivers honest honest-MovesExactly honest-CreatesOnly honest-OpensEmpty
      honest-ClosesOnly ids accounts remaining 2 5 legs missing settled
      (record { venue = quay true; from = 0; to = 1; weight_nanos = 1000000000; n_accounts = 2 })
      (handle 11) settled_run refl refl refl user_account-IsForeign
