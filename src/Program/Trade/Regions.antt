-- ===== src/Program/Trade/Regions.antt =====
-- The parts of the account list that the legs of instructions/swap_route_v3.rs get.
use quay_titan_integration.Prelude.{
  ℕ, ◌+◌, ◌<◌, ◌≡◌, refl, true, List, [], ◌∷◌, ◌++◌, All, ltb, leb, if◌then◌else◌, length,
  length-append, append_assoc, get_elem?, take, drop, take_prefix, drop_prefix, arith, ap, ap₂, ◌∙◌,
  sym,
}
use quay_titan_integration.Solana.{Pubkey}
use quay_titan_integration.Program.State.{SwapSpecInputV2, missing_remaining_account}
use quay_titan_integration.Program.Accounts.{extract_token_amount}
use quay_titan_integration.Program.Legs.{leg_input_amount}
use quay_titan_integration.Program.Runtime.{
  Handle, Runtime, Act, ◌>>=◌, ◌>>◌, done, try, found, index, see,
}
use quay_titan_integration.Program.Trade.{perform_leg, run_leg, run_legs}

-- A leg and its own accounts.
abbrev pub OwnLeg : Type 0
OwnLeg = SwapSpecInputV2 × List Handle

abbrev pub all_accounts : List OwnLeg → List Handle
all_accounts [] = []
all_accounts (leg ∷ legs) = leg.1 ++ all_accounts legs

abbrev pub specs : List OwnLeg → List SwapSpecInputV2
specs [] = []
specs (leg ∷ legs) = leg.0 ∷ specs legs

-- The leg has accounts, and it counts them.
abbrev pub IsCounted : OwnLeg → Type 0
IsCounted leg = (leg.0.n_accounts ≡ length leg.1) × (0 < length leg.1)

module _ (rt : Runtime) (pda : Pubkey) (remaining : List Handle) (reserved : List ℕ) where
  -- A leg that is performed on its own accounts.
  abbrev pub run_own : OwnLeg → Act (Unit {0})
  run_own leg = do
    input ← found (get_elem? remaining leg.0.from) missing_remaining_account
    account ← see input
    balance ← try (extract_token_amount account)
    reserve ← index (get_elem? reserved leg.0.from)
    if ltb 0 (leg_input_amount balance reserve leg.0.weight_nanos)
        then perform_leg rt pda (leg_input_amount balance reserve leg.0.weight_nanos) leg.0.venue
            leg.1
        else done tt

  abbrev pub run_each : List OwnLeg → Act (Unit {0})
  run_each [] = done tt
  run_each (leg ∷ legs) = do run_own leg; run_each legs

  run_leg-run_own :
      (pre rest : List Handle) (leg : OwnLeg)
      → remaining ≡ pre ++ (leg.1 ++ rest)
      → IsCounted leg
      → run_leg rt pda remaining reserved (length pre) leg.0 ≡ run_own leg
  unfolding run_leg
  run_leg-run_own pre rest leg e counted =
      let size : length remaining ≡ length pre + (length leg.1 + length rest) =
        ap length e ∙ omega (arith, length-append pre (leg.1 ++ rest), length-append leg.1 rest) in
      let some_accounts : ltb 0 leg.0.n_accounts ≡ true = ground (arith, counted.0, counted.1) in
      let fits : leb (length pre + leg.0.n_accounts) (length remaining) ≡ true =
        ground (arith, counted.0, size) in
      let own : take leg.0.n_accounts (drop (length pre) remaining) ≡ leg.1 =
        ap (λ hs. take leg.0.n_accounts (drop (length pre) hs)) e
        ∙ ap (take leg.0.n_accounts) (drop_prefix (length pre) pre (leg.1 ++ rest) refl)
        ∙ take_prefix leg.0.n_accounts leg.1 rest (sym counted.0) in
      rw (some_accounts, fits, own) refl

  -- When the accounts of a route's legs follow, leg by leg, after those of its mints, and each leg counts
  -- its own, running the legs by their counts performs each leg on its own accounts.
  pub run_legs-run_each :
      (pre : List Handle) (legs : List OwnLeg)
      → remaining ≡ pre ++ all_accounts legs
      → All IsCounted legs
      → run_legs rt pda remaining reserved (length pre) (specs legs) ≡ run_each legs
  unfolding run_legs
  run_legs-run_each pre [] e counted = refl
  run_legs-run_each pre (leg ∷ legs) e counted =
      let first = run_leg-run_own pre (all_accounts legs) leg e counted.0 in
      let next : length pre + leg.0.n_accounts ≡ length (pre ++ leg.1) =
        omega (arith, length-append pre leg.1, counted.0.0) in
      let rest =
        run_legs-run_each (pre ++ leg.1) legs (e ∙ sym (append_assoc pre leg.1 (all_accounts legs)))
          counted.1 in
      ap₂ (λ m k. m >> k) first
        (ap (λ at. run_legs rt pda remaining reserved at (specs legs)) next ∙ rest)
