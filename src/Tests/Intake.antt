-- ===== src/Tests/Intake.antt =====
-- The input transfer of the route of the other tests.
use quay_titan_integration.Prelude.{false, ◌≡◌, refl, none, Result, ok, err, slice?, inr}
use quay_titan_integration.Prelude.Bytes.{le_bytes, from_le_bytes}
use quay_titan_integration.Program.Accounts.{
  extract_token_amount, get_token_program_for_mint, is_native_mint,
}
use quay_titan_integration.Program.Runtime.{World, ProgramError, view}
use quay_titan_integration.Program.Tokens.{transfer_tokens}
use quay_titan_integration.Program.Route.{token_program_of, effective_amount, take_input}
use quay_titan_integration.Program.Route.Payout.{Moved}
use quay_titan_integration.Program.Route.Intake.{HasArrived, take_input-Moved}
use quay_titan_integration.Tests.Execute.{ids, handle, before, accounts, remaining}
use quay_titan_integration.Tests.Settle.{honest, honest-MovesExactly}

abbrev world_of : Result ProgramError (Unit {0} × World) → World
world_of (ok (u, world)) = world
world_of (err e) = before

abbrev taken : World
taken = world_of (take_input honest ids accounts remaining 2 none 5 6 before)

take_run : take_input honest ids accounts remaining 2 none 5 6 before ≡ ok (tt, taken)
unfolding take_input effective_amount token_program_of get_token_program_for_mint is_native_mint
    transfer_tokens extract_token_amount slice? le_bytes from_le_bytes
take_run = refl

not_native : is_native_mint ids (view before (handle 20)) ≡ false
unfolding is_native_mint
not_native = refl

take_input-Moved_example : Moved before taken 30 10 5 × HasArrived accounts none before
take_input-Moved_example =
    take_input-Moved honest honest-MovesExactly ids accounts remaining 2 none 5 6 before taken
      (handle 10) (handle 20) refl refl (inr not_native) refl take_run
