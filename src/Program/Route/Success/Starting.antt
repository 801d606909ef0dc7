-- ===== src/Program/Route/Success/Starting.antt =====
-- instructions/swap_route_v3.rs: the state in which the balances are recorded.
use quay_titan_integration.Prelude.{
  ℕ, sym, ap, ◌-◌, ◌*◌, ◌≤◌, ◌<◌, ◌≡◌, refl, inl, inr, true, Option, none, some, ok, List, length,
  get_elem?, arith, ◌∙◌, subst,
}
use quay_titan_integration.Solana.{Pubkey}
use quay_titan_integration.Program.State.{SwapSpecInputV2}
use quay_titan_integration.Program.Accounts.{
  TokenIds, is_titan_pda_token_account, read_token_ledger,
}
use quay_titan_integration.Program.Runtime.{World, Handle, Runtime, view}
use quay_titan_integration.Program.Reserves.{unwrap_or_zero, Ledger, empty_ledger, take_balances}
use quay_titan_integration.Program.Reserves.Reserved.{take_balances-Reserve}
use quay_titan_integration.Program.Route.{
  SwapRouteV3, read_request, read_ledger, ledger_view, mint_decimals,
}
use quay_titan_integration.Program.Route.Guards.{Valid, check_request-Valid}
use quay_titan_integration.Program.Route.Authority.{IsAta}
use quay_titan_integration.Program.Route.Closing.{held, held_at}
use quay_titan_integration.Program.Route.Success.{
  Obliging, CanOpen, IsOpen, IsForeign, AreApart, at,
}
use quay_titan_integration.Program.Route.Success.Kept.{CanCreate-kept, tokens_kept, placed}
use quay_titan_integration.Program.Route.Success.Ready.{
  OutputReady, HasDecimals, IsReady, Funded, InputReady,
}
use quay_titan_integration.Program.Route.Success.Creating.{Opens}
use quay_titan_integration.Program.Route.Success.Recording.{held_by_at}
use quay_titan_integration.Program.Route.Success.Trading.{Fits}

module _ (rt : Runtime) (ids : TokenIds) (accounts : SwapRouteV3) (remaining : List Handle)
    (mints : ℕ) where
  -- A request that the guards let pass, whose accounts are different and are those of TitanPDA and the
  -- user, or can be created, and whose input is there.
  pub record IsPayable (amount : ℕ) (swaps : List SwapSpecInputV2) (w : World) : Type 0 where
    pub last : SwapSpecInputV2
    pub stored : Option ℕ
    pub input_decimals : ℕ
    pub output_decimals : ℕ
    pub valid : Valid mints swaps (length remaining)
    pub final : get_elem? swaps (length swaps - 1) ≡ some last
    pub inside : last.to < mints
    pub fits : Fits remaining (2 * mints) swaps
    pub apart : AreApart ids accounts remaining mints
    pub input_foreign : IsForeign ids accounts remaining mints accounts.input_token_account.key
    pub output_foreign : IsForeign ids accounts remaining mints accounts.output_token_account.key
    pub ours : (j : ℕ) → j < mints → CanOpen ids accounts remaining mints w j
    pub ledger :
        read_token_ledger
          (ledger_view rt ids accounts remaining mints w)
          (view w accounts.input_token_account)
        ≡ ok stored
    pub input_known : HasDecimals ids accounts remaining mints w 0 input_decimals
    pub output_known : HasDecimals ids accounts remaining mints w last.to output_decimals
    pub input : InputReady ids accounts remaining mints w
    pub funded : Funded ids accounts remaining mints w stored amount
    pub output : OutputReady ids accounts remaining mints w last.to

module _ (rt : Runtime) (Good : World → Type 0) (ids : TokenIds) (accounts : SwapRouteV3)
    (remaining : List Handle) (mints : ℕ)
    (calls : Obliging ids accounts remaining mints rt Good) where
  -- The request is read.
  pub asked :
      (amount : ℕ) (swaps : List SwapSpecInputV2) (w : World)
      → (p : IsPayable rt ids accounts remaining mints amount swaps w)
      → read_request rt ids accounts remaining mints swaps w
        ≡ ok (
          record {
            stored = p.stored;
            output_index = p.last.to;
            input_decimals = p.input_decimals;
            output_decimals = p.output_decimals;
          },
          w,
        )
  unfolding read_request read_ledger mint_decimals
  asked amount swaps w p =
      let room = p.valid.2 in
      let (_, (mint, m)) = placed ids accounts remaining mints 0 (omega (arith, p.valid.0)) room in
      let (_, (out, om)) = placed ids accounts remaining mints p.last.to p.inside room in
      let guards = (check_request-Valid mints swaps (length remaining) w).1 p.valid in
      let first : get_elem? remaining mints ≡ some mint =
        subst (λ n. get_elem? remaining n ≡ some mint) (omega arith) m.0 in
      rw (guards, p.ledger, first, p.final, om.0, p.input_known mint m, p.output_known out om) refl

  pub still-Funded :
      (o : Option ℕ) (amount : ℕ) (w w' : World)
      → held w' accounts.input_token_account.key ≡ held w accounts.input_token_account.key
      → Funded ids accounts remaining mints w o amount
      → Funded ids accounts remaining mints w' o amount
  still-Funded none amount w w' same funded = omega (arith, same, funded)
  still-Funded (some stored) amount w w' same funded = omega (arith, same, funded)

  -- Creating the missing accounts leaves what the later stages need.
  pub prepared :
      (S : Pubkey → Type 0) (amount : ℕ) (swaps : List SwapSpecInputV2) (w start : World)
      → (p : IsPayable rt ids accounts remaining mints amount swaps w) → Good start
      → Opens rt Good ids accounts remaining mints w start
      → ((j : ℕ) → j < mints → IsOpen ids accounts remaining mints start j)
      → IsReady ids accounts remaining mints Good S start p.last.to p.output_decimals start
        × InputReady ids accounts remaining mints start
        × Funded ids accounts remaining mints start p.stored amount
        × HasDecimals ids accounts remaining mints start 0 p.input_decimals
  prepared S amount swaps w start p good (keeps, frame) open_all = (
    (
      good,
      open_all,
      λ mint m. elim (p.output mint m) [
        | inl (owner, account) ↦ inl (
          owner,
          tokens_kept ids accounts remaining mints w start p.last.to mint
              accounts.output_token_account.key owner keeps m account,
        )
        | inr free ↦ inr (
            CanCreate-kept ids accounts remaining mints w start p.last.to mint accounts.user.key
              accounts.output_token_account.key keeps m
              (frame accounts.output_token_account.key p.output_foreign).0 free)
      ],
      λ mint m. keeps.decimals p.last.to mint m ∙ p.output_known mint m,
      λ key s. omega arith,
    ),
    λ mint m.
        tokens_kept ids accounts remaining mints w start 0 mint accounts.input_token_account.key
          accounts.user.key keeps m (p.input mint m),
    still-Funded p.stored amount w start (frame accounts.input_token_account.key p.input_foreign).1
        p.funded,
    λ mint m. keeps.decimals 0 mint m ∙ p.input_known mint m,
  )

  pub reserves :
      (start : World) (ledger : Ledger)
      → mints ≤ 12
      → take_balances ids mints accounts.titan_pda.key 0 remaining empty_ledger start
        ≡ ok (ledger, start)
      → (i : ℕ) (ata : Handle) → IsAta accounts remaining mints i ata
      → get_elem? ledger.reserved i ≡ some (held start ata.key)
  reserves start ledger few taken i ata a =
      let (b, read, _, at) =
        (take_balances-Reserve ids mints accounts.titan_pda.key 0 remaining empty_ledger start
            ledger start few taken).1
          i ata a.0 (omega (arith, a.1)) in
      let was : b ≡ held start ata.key = ap unwrap_or_zero (sym read) ∙ held_at start ata in
      subst (λ n. get_elem? ledger.reserved n ≡ some (held start ata.key)) (omega arith)
        (at ∙ ap some was)

  pub own_at :
      (w : World) (k : ℕ) (h : Handle)
      → 2 * mints ≤ length remaining
      → ((j : ℕ) → j < mints → IsOpen ids accounts remaining mints w j)
      → get_elem? remaining k ≡ some h
      → k < mints
      → is_titan_pda_token_account ids (view w h) accounts.titan_pda.key ≡ true
  own_at w k h room open_all at lt =
      let (_, (mint, m)) = placed ids accounts remaining mints k lt room in
      held_by_at ids w h accounts.titan_pda.key (open_all k lt h mint (at, lt) m).held_by
