-- ===== src/Program/Route/Success/Ready.antt =====
-- instructions/swap_route_v3.rs: what the stages from the input transfer on rely on.
use quay_titan_integration.Prelude.{
  ℕ, ◌+◌, ◌≤◌, ◌<◌, ◌≡◌, sym, subst, ◌∙◌, ◌⊎◌, inl, inr, arith, Bool-cases, Option, none, some, ok,
  List, ◌==◌,
}
use quay_titan_integration.Solana.{Pubkey}
use quay_titan_integration.Program.Accounts.{TokenIds, extract_mint_decimals}
use quay_titan_integration.Program.Runtime.{World, Handle, view}
use quay_titan_integration.Program.Route.{SwapRouteV3}
use quay_titan_integration.Program.Route.Authority.{IsMint}
use quay_titan_integration.Program.Route.Closing.{held}
use quay_titan_integration.Program.Route.Success.{
  CanCreate, TokenAccount, program_for, Leaves, IsOpen, TakesFrom,
}
use quay_titan_integration.Program.Route.Success.Kept.{CanCreate-kept, tokens_kept, IsOpen-kept}

module _ (ids : TokenIds) (accounts : SwapRouteV3) (remaining : List Handle) (mints : ℕ) where
  -- There is something for the route to take: the amount, or what arrived after the ledger was written.
  abbrev pub Funded : World → Option ℕ → ℕ → Type 0
  Funded w none amount = amount ≤ held w accounts.input_token_account.key
  Funded w (some stored) amount = stored < held w accounts.input_token_account.key

  -- The user's input account is a token account of the first mint.
  abbrev pub InputReady : World → Type 0
  InputReady w =
      (mint : Handle)
      → IsMint accounts remaining mints 0 mint
      → TokenAccount ids w accounts.input_token_account.key accounts.user.key
          (program_for ids accounts remaining mints w mint) mint.key

  -- The user's output account, of the mint `i` of the route, is there or can be created.
  abbrev pub OutputReady : World → ℕ → Type 0
  OutputReady w i =
      (mint : Handle)
      → IsMint accounts remaining mints i mint
      → ((owner : Pubkey) × TokenAccount ids w accounts.output_token_account.key owner
            (program_for ids accounts remaining mints w mint) mint.key)
        ⊎ CanCreate ids accounts remaining mints w accounts.user.key
            accounts.output_token_account.key mint

  -- The decimals of the mint `i` of the route.
  abbrev pub HasDecimals : World → ℕ → ℕ → Type 0
  HasDecimals w i decimals =
      (mint : Handle)
      → IsMint accounts remaining mints i mint
      → extract_mint_decimals (view w mint) ≡ ok decimals

  -- The accounts of a set have at least what they had in one state.
  abbrev pub IsKept : (Pubkey → Type 0) → World → World → Type 0
  IsKept S base w = (key : Pubkey) → S key → held base key ≤ held w key

  -- What is taken from an account is beyond that.
  pub TakesFrom-IsKept :
      (S : Pubkey → Type 0) (base w w' : World) (source : Pubkey) (amount : ℕ)
      → TakesFrom ids accounts remaining mints w w' source amount
      → (S source → held base source + amount ≤ held w source)
      → IsKept S base w
      → IsKept S base w'
  TakesFrom-IsKept S base w w' source amount (most, others) beyond kept key s =
      elim (Bool-cases (key == source)) [
        | inl e ↦
            let same : source ≡ key = ground arith in
            let enough = beyond (subst S (sym same) s) in
            subst (λ k. held base k ≤ held w' k) same (omega (arith, enough, most))
        | inr e ↦ omega (arith, kept key s, others key e)
      ]

  module _ (Good : World → Type 0) (S : Pubkey → Type 0) (base : World)
      (output_index output_decimals : ℕ) where
    -- What the stages from the input transfer on rely on.
    abbrev pub IsReady : World → Type 0
    IsReady w =
        Good w
        × ((j : ℕ) → j < mints → IsOpen ids accounts remaining mints w j)
        × OutputReady w output_index
        × HasDecimals w output_index output_decimals
        × IsKept S base w

    pub Leaves-IsReady :
        (w w' : World)
        → Leaves ids accounts remaining mints w w'
        → Good w'
        → IsKept S base w'
        → IsReady w
        → IsReady w'
    Leaves-IsReady w w' (keeps, free) good' kept (good, open_all, output, decimals, _) = (
      good',
      λ j lt. IsOpen-kept ids accounts remaining mints w w' j keeps (open_all j lt),
      λ mint m. elim (output mint m) [
        | inl (owner, account) ↦ inl (
          owner,
          tokens_kept ids accounts remaining mints w w' output_index mint
              accounts.output_token_account.key owner keeps m account,
        )
        | inr nothing ↦ inr (
            CanCreate-kept ids accounts remaining mints w w' output_index mint accounts.user.key
              accounts.output_token_account.key keeps m free nothing)
      ],
      λ mint m. keeps.decimals output_index mint m ∙ decimals mint m,
      kept,
    )
