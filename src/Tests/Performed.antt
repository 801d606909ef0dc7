-- ===== src/Tests/Performed.antt =====
-- A route of one leg that was built for a venue, run by the program.
use quay_titan_integration.Prelude.{ℕ, ◌≡◌, refl, false, List, [], ◌∷◌, ◌++◌, map, replicate, arith}
use quay_titan_integration.Program.Runtime.{Handle}
use quay_titan_integration.Program.Trade.{run_legs}
use quay_titan_integration.Program.Trade.Regions.{specs}
use quay_titan_integration.SwapRoute.Performed.{
  BuiltLeg, IsBuilt, own_leg, run_all_quoted, run_legs-quoted,
}
use quay_titan_integration.Tests.Fixtures.{selling, swap_account_list}
use quay_titan_integration.Tests.Route.{canned, leg, leg_run, spec, unrelated}
use quay_titan_integration.Tests.Execute.{handle}
use quay_titan_integration.Tests.Settle.{honest}

abbrev readonly : ℕ → Handle
readonly key = record { key = key; is_signer = false; is_writable = false }

abbrev built_leg : BuiltLeg ℕ
built_leg = record {
  venue = canned;
  request = selling 10;
  spec = spec;
  metas = leg;
  handles = handle 1 ∷ readonly 55 ∷ readonly 90 ∷ [];
  instruction = swap_account_list 55;
}

built : IsBuilt 55 built_leg
built = record {
  built = leg_run;
  generated = refl;
  signed = (unrelated, ((λ e. refl), tt));
  small = omega arith;
  presented = λ w. ((refl, refl, refl), ((refl, refl, refl), ((refl, refl, refl), tt)));
}

-- The accounts of two mints.
abbrev mint_accounts : List Handle
mint_accounts = handle 10 ∷ handle 11 ∷ handle 20 ∷ handle 21 ∷ []

run_legs-quoted_example :
    run_legs honest 55
      (mint_accounts ++ built_leg.handles)
      (replicate 12 0)
      4
      (specs (map (own_leg 55) (built_leg ∷ [])))
    ≡ run_all_quoted 55 honest
        (mint_accounts ++ built_leg.handles)
        (replicate 12 0)
        (built_leg ∷ [])
run_legs-quoted_example =
    run_legs-quoted 55 honest (mint_accounts ++ built_leg.handles) (replicate 12 0) mint_accounts
      (built_leg ∷ []) (built, tt) refl
