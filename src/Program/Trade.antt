-- ===== src/Program/Trade.antt =====
-- instructions/swap_route_v3.rs: the loop over the legs.
pub mod Regions
use quay_titan_integration.Prelude.{
  ℕ, ◌+◌, Result, List, [], ◌∷◌, map, ltb, leb, ◌&&◌, Option, none, some, if◌then◌else◌, length,
  get_elem?, take, drop,
}
use quay_titan_integration.Solana.{Pubkey, AccountMeta, Instruction}
use quay_titan_integration.Program.State.{
  Venue, quay, SwapSpecInputV2, TemplateError, invalid_swap_input, missing_remaining_account,
}
use quay_titan_integration.Program.Accounts.{extract_token_amount}
use quay_titan_integration.Program.Legs.{leg_input_amount, leg_account_metas}
use quay_titan_integration.Program.QuayCpi.{swap}
use quay_titan_integration.Program.Runtime.{
  Handle, Runtime, Act, view, venue_call, ◌>>=◌, ◌>>◌, done, try, found, index, need, see, call,
}

module _ (rt : Runtime) (titan_pda : Pubkey) where
  -- `invoke_signed` for each instruction.
  unfoldable pub invoke_all : List Instruction → List Pubkey → Act (Unit {0})
  invoke_all [] accounts = done tt
  invoke_all (instruction ∷ instructions) accounts = do
    call rt (venue_call instruction accounts)
    invoke_all instructions accounts

  -- The instructions of a leg's venue.
  unfoldable pub venue_instructions :
      Venue → ℕ → List AccountMeta → Result TemplateError (List Instruction)
  venue_instructions (quay sell_base) amount metas = swap sell_base amount metas

  unfoldable pub perform_cpi_swap : ℕ → Venue → List AccountMeta → List Pubkey → Act (Unit {0})
  perform_cpi_swap amount venue metas accounts = do
    instructions ← try (venue_instructions venue amount metas)
    invoke_all instructions accounts

  -- The accounts of a leg, as they are seen when it is performed.
  unfoldable pub perform_leg : ℕ → Venue → List Handle → Act (Unit {0})
  perform_leg amount venue handles world =
      perform_cpi_swap amount venue (leg_account_metas titan_pda (map (view world) handles))
        (map (λ h. h.key) handles) world

  module _ (remaining : List Handle) (reserved : List ℕ) where
    -- The slices `[at..at + n]` of the accounts and `[..n - 1]` of that one; none when one of them panics.
    abbrev pub leg_slice : (at n : ℕ) → Option (List Handle)
    leg_slice at n =
        if ltb 0 n && leb (at + n) (length remaining)
        then some (take n (drop at remaining))
        else none

    -- One leg, whose accounts start at `at`.
    unfoldable pub run_leg : ℕ → SwapSpecInputV2 → Act (Unit {0})
    run_leg at spec = do
      need (ltb 0 spec.n_accounts) invalid_swap_input
      need (leb (at + spec.n_accounts) (length remaining)) missing_remaining_account
      input ← found (get_elem? remaining spec.from) missing_remaining_account
      account ← see input
      balance ← try (extract_token_amount account)
      reserve ← index (get_elem? reserved spec.from)
      if ltb 0 (leg_input_amount balance reserve spec.weight_nanos)
          then (do
            leg_accounts ← index (leg_slice at spec.n_accounts)
            perform_leg (leg_input_amount balance reserve spec.weight_nanos) spec.venue
                leg_accounts)
          else done tt

    unfoldable pub run_legs : ℕ → List SwapSpecInputV2 → Act (Unit {0})
    run_legs at [] = done tt
    run_legs at (spec ∷ swaps) = do run_leg at spec; run_legs (at + spec.n_accounts) swaps
