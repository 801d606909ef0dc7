-- ===== src/Program/Route/Authority/Closes.antt =====
-- instructions/swap_route_v3.rs: the calls of the loop that closes the created accounts, for any predicate
-- that holds of a close of an account of the route.
use quay_titan_integration.Prelude.{
  ℕ, zero, suc, ◌+◌, ◌≤◌, ◌<◌, refl, inl, inr, true, List, get_elem?, ◌==◌, arith, Bool-cases,
}
use quay_titan_integration.Solana.{Pubkey}
use quay_titan_integration.Program.Accounts.{
  TokenIds, get_token_program_for_mint, extract_token_amount,
}
use quay_titan_integration.Program.Runtime.{
  Handle, Cpi, Runtime, Act, view, close_account, ◌>>=◌, see,
}
use quay_titan_integration.Program.Tokens.{close_token_account}
use quay_titan_integration.Program.Calls.{
  Makes, done-Makes, found-Makes, chain-Makes, see-Makes, call-Makes, if_lt-Makes, if_not-Makes,
}
use quay_titan_integration.Program.State.{missing_remaining_account}
use quay_titan_integration.Prelude.Bits.{test_bit}
use quay_titan_integration.Program.Reserves.{unwrap_or_zero}
use quay_titan_integration.Program.Route.{SwapRouteV3, token_program_of, close_created}
use quay_titan_integration.Program.Route.Authority.{IsTokenProgram, IsAta}

module _ (accounts : SwapRouteV3) (remaining : List Handle) (mints : ℕ) (rt : Runtime)
    (ids : TokenIds) (P : Cpi → Type 0) where
  pub program_of-Makes :
      {B : Type 0} (mint : Handle) (k : Pubkey → Act B)
      → ((p : Pubkey) → IsTokenProgram accounts remaining mints p → Makes rt P (k p))
      → Makes rt P (token_program_of rt ids accounts remaining mints mint >>= k)
  unfolding token_program_of get_token_program_for_mint
  program_of-Makes mint k q = record {
    calls = λ w b w' h. elim (Bool-cases ((view w mint).owner == ids.token_2022_id)) [
      | inl e ↦ (q accounts.token_2022_program.key (inr refl)).calls w b w' (rw e at h)
      | inr e ↦ (q accounts.token_program.key (inl refl)).calls w b w' (rw e at h)
    ];
  }

  module _
      (closes : (i : ℕ) (ata : Handle) (program : Pubkey)
        → IsAta accounts remaining mints i ata
        → IsTokenProgram accounts remaining mints program
        → P (close_account program ata.key accounts.payer.key accounts.titan_pda.key true)) where
    close_ata-Makes :
        (i : ℕ) (ata : Handle) (program : Pubkey)
        → IsAta accounts remaining mints i ata
        → IsTokenProgram accounts remaining mints program
        → Makes rt P (
            close_token_account rt ids ata.key accounts.payer.key accounts.titan_pda.key program
              true)
    unfolding close_token_account
    close_ata-Makes i ata program p r = call-Makes rt P _ (closes i ata program p r)

    pub close_created-Makes :
        (count i created : ℕ)
        → i + count ≤ mints
        → Makes rt P (close_created rt ids accounts remaining mints count i created)
    unfolding close_created
    close_created-Makes zero i created le = done-Makes rt P tt
    close_created-Makes (suc count) i created le =
        let rest = close_created-Makes count (suc i) created (omega arith) in
        let near : i < mints = omega arith in
        if_not-Makes rt P (test_bit created i) _ _ rest (
          found-Makes rt P (get_elem? remaining i) missing_remaining_account _ (λ ata at.
            chain-Makes rt P (see ata) _ (see-Makes rt P ata) (λ account.
              if_lt-Makes rt P 0 (unwrap_or_zero (extract_token_amount account)) _ _ rest (
                found-Makes rt P (get_elem? remaining (mints + i)) missing_remaining_account _
                  (λ mint mat. program_of-Makes mint _ (λ p isp.
                    chain-Makes rt P
                      (close_token_account rt ids ata.key accounts.payer.key accounts.titan_pda.key
                        p true)
                      _ (close_ata-Makes i ata p (at, near) isp) (λ u. rest)))))))
