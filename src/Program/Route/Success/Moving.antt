-- ===== src/Program/Route/Success/Moving.antt =====
-- instructions/swap_route_v3.rs: the input and the output transfer succeed.
use quay_titan_integration.Prelude.{
  ℕ, ◌+◌, ◌-◌, ◌*◌, ◌≤◌, ◌≡◌, refl, inl, inr, Bool, true, false, Option, none, some, ok, List,
  length, get_elem?, ◌==◌, ltb, leb, arith, ap, ◌∙◌, sym, subst, Bool-cases,
}
use quay_titan_integration.Solana.{Pubkey}
use quay_titan_integration.Program.Accounts.{
  TokenIds, extract_mint_decimals, is_native_mint, account_exists, extract_token_amount,
}
use quay_titan_integration.Program.Runtime.{
  World, Handle, Runtime, transfer, transfer_checked, view,
}
use quay_titan_integration.Program.Tokens.{transfer_tokens, setup_wsol_input_account}
use quay_titan_integration.Program.Reserves.{unwrap_or_zero}
use quay_titan_integration.Program.Ends.{Ends}
use quay_titan_integration.Program.Route.{
  SwapRouteV3, token_program_of, effective_amount, take_input,
}
use quay_titan_integration.Program.Route.Authority.{Permitted, IsAta, IsMint, takes, takes_checked}
use quay_titan_integration.Program.Route.Closing.{held, held_at}
use quay_titan_integration.Program.Route.Success.{
  at, TokenAccount, program_for, Leaves, CanMove, Obliging, TakesFrom,
}
use quay_titan_integration.Program.Route.Success.Kept.{exists_at, Keeps-refl, token_program_of-eq}
use quay_titan_integration.Program.Route.Success.Ready.{
  TakesFrom-IsKept, Funded, InputReady, IsReady, Leaves-IsReady, HasDecimals,
}
use quay_titan_integration.Program.Route.Success.Creating.{program_for-IsTokenProgram}
use quay_titan_integration.Program.Route.Success.Recording.{read_amount, held_by_at}

module _ (rt : Runtime) (Good : World → Type 0) (ids : TokenIds) (accounts : SwapRouteV3)
    (remaining : List Handle) (mints : ℕ) (calls : Obliging ids accounts remaining mints rt Good)
    (room : 2 * mints ≤ length remaining) where
  -- What a step leaves that has made at most one transfer.
  abbrev pub Moves : World → World → Pubkey → ℕ → Type 0
  Moves w w' source amount =
      Good w'
      × Leaves ids accounts remaining mints w w'
      × TakesFrom ids accounts remaining mints w w' source amount

  decimals_at :
      (w : World) (h : Handle)
      → extract_mint_decimals (view w h) ≡ extract_mint_decimals (view w (at h.key))
  unfolding extract_mint_decimals
  decimals_at w h = refl

  pub transfer_tokens-Ends :
      (program source destination authority : Pubkey) (mint : Handle) (amount decimals : ℕ)
      (signed : Bool) (w : World)
      → Permitted accounts remaining mints ids
          (transfer ids.spl_token_id source destination authority amount signed)
      → ((program == ids.token_2022_id) ≡ false → program ≡ ids.spl_token_id)
      → Permitted accounts remaining mints ids
          (transfer_checked program source mint.key destination authority amount decimals signed)
      → CanMove ids accounts remaining mints w program source destination authority mint.key amount
      → extract_mint_decimals (view w mint) ≡ ok decimals
      → Good w
      → Ends
          (transfer_tokens rt ids program source destination authority
            (some mint.key)
            amount
            decimals
            signed)
          w
          (λ u w'. Moves w w' source amount)
  unfolding transfer_tokens
  transfer_tokens-Ends program source destination authority mint amount decimals signed w plain spl
        checked can known good =
      elim (Bool-cases (amount == 0)) [
        | inl nothing ↦ (
          tt,
          w,
          rw nothing refl,
          (
            good,
            (Keeps-refl ids accounts remaining mints w, λ free. free),
            (omega arith, λ key e. omega arith),
          ),
        )
        | inr some_amount ↦ elim (Bool-cases (program == ids.token_2022_id)) [
          | inl new ↦
              let (w', run, good', (leaves, takes_from)) =
                calls.obliged _ w checked good (can, sym (decimals_at w mint) ∙ known) in
              (tt, w', rw (some_amount, new, run) refl, (good', leaves, takes_from))
          | inr old ↦
              let (w', run, good', (leaves, takes_from)) = calls.obliged _ w plain good (
                mint.key,
                subst
                    (λ p.
                      CanMove ids accounts remaining mints w p source destination authority mint.key
                        amount)
                    (spl old) can,
              ) in
              (tt, w', rw (some_amount, old, run) refl, (good', leaves, takes_from))
        ]
      ]

  -- The input account of the user can pay an amount as it is, without wrapping lamports.
  abbrev CanPay : World → ℕ → Type 0
  CanPay w amount =
      (account_exists (view w accounts.input_token_account) ≡ true)
      × ((current : ℕ) × (extract_token_amount (view w accounts.input_token_account) ≡ ok current)
          × (ltb current amount ≡ false))

  can_pay :
      (w : World) (program mint : Pubkey) (amount : ℕ)
      → TokenAccount ids w accounts.input_token_account.key accounts.user.key program mint
      → amount ≤ held w accounts.input_token_account.key
      → CanPay w amount
  can_pay w program mint amount account enough =
      let input = accounts.input_token_account in
      let (current, read) =
        read_amount ids w input accounts.user.key
          (held_by_at ids w input accounts.user.key account.held_by) in
      let now : held w input.key ≡ current = sym (held_at w input) ∙ ap unwrap_or_zero read in
      (
        exists_at ids accounts remaining mints w input ∙ account.there,
        (current, read, ground (arith, now, enough)),
      )

  -- A mint that is not Token-2022's has the SPL token program.
  pub program_for-spl :
      (w : World) (mint : Handle)
      → (program_for ids accounts remaining mints w mint == ids.token_2022_id) ≡ false
      → program_for ids accounts remaining mints w mint ≡ ids.spl_token_id
  program_for-spl w mint other = elim (Bool-cases ((w mint.key).owner == ids.token_2022_id)) [
    | inl e ↦
        let new : program_for ids accounts remaining mints w mint ≡ ids.token_2022_id =
          rw e calls.new_program in
        absurd (ground (arith, new, other))
    | inr e ↦ rw e calls.plain_program
  ]

  effective_amount-Ends :
      (o : Option ℕ) (amount : ℕ) (w : World) (program mint : Pubkey)
      → TokenAccount ids w accounts.input_token_account.key accounts.user.key program mint
      → Funded ids accounts remaining mints w o amount
      → (n : ℕ) × (effective_amount rt ids accounts remaining mints o amount w ≡ ok (n, w))
        × (n ≤ held w accounts.input_token_account.key)
  unfolding effective_amount
  effective_amount-Ends none amount w program mint account funded = (amount, refl, funded)
  effective_amount-Ends (some stored) amount w program mint account funded =
      let input = accounts.input_token_account in
      let (current, read) =
        read_amount ids w input accounts.user.key
          (held_by_at ids w input accounts.user.key account.held_by) in
      let now : held w input.key ≡ current = sym (held_at w input) ∙ ap unwrap_or_zero read in
      let enough : leb stored current ≡ true = ground (arith, now) in
      let arrived : ltb 0 (current - stored) ≡ true = ground (arith, now) in
      (current - stored, rw (read, enough, arrived) refl, omega (arith, now))

  module _ (S : Pubkey → Type 0) (base : World) (output_index output_decimals : ℕ) where
    abbrev pub Ready : World → Type 0
    Ready = IsReady ids accounts remaining mints Good S base output_index output_decimals

    pub moved :
        (w w' : World) (source : Pubkey) (amount : ℕ)
        → (S source → held base source + amount ≤ held w source)
        → Moves w w' source amount
        → Ready w
        → Ready w'
    moved w w' source amount beyond (good, leaves, takes_from) ready =
        Leaves-IsReady ids accounts remaining mints Good S base output_index output_decimals w w'
          leaves good
          (TakesFrom-IsKept ids accounts remaining mints S base w w' source amount takes_from beyond
            ready.4)
          ready

    taken :
        (o : Option ℕ) (amount decimals effective : ℕ) (w w' : World) (ata mint : Handle)
        (program : Pubkey)
        → get_elem? remaining mints ≡ some mint
        → get_elem? remaining 0 ≡ some ata
        → effective_amount rt ids accounts remaining mints o amount w ≡ ok (effective, w)
        → token_program_of rt ids accounts remaining mints mint w ≡ ok (program, w)
        → CanPay w effective
        → transfer_tokens rt ids program accounts.input_token_account.key ata.key accounts.user.key
            (some mint.key)
            effective
            decimals
            false
            w
          ≡ ok (tt, w')
        → take_input rt ids accounts remaining mints o amount decimals w ≡ ok (tt, w')
    unfolding take_input setup_wsol_input_account
    taken none amount decimals effective w w' ata mint program m a amounts reads
          (there, (current, read, enough)) run =
        elim (Bool-cases (is_native_mint ids (view w mint))) [
          | inl native ↦ rw (m, amounts, a, reads, native, there, read, enough, run) refl
          | inr plain ↦ rw (m, amounts, a, reads, plain, run) refl
        ]
    taken (some s) amount decimals effective w w' ata mint program m a amounts reads pays run =
        rw (m, amounts, a, reads, run) refl

    -- The input is taken.
    pub take_input-Ends :
        (o : Option ℕ) (amount decimals : ℕ) (w : World) (ata mint : Handle)
        → IsAta accounts remaining mints 0 ata
        → IsMint accounts remaining mints 0 mint
        → HasDecimals ids accounts remaining mints w 0 decimals
        → InputReady ids accounts remaining mints w
        → ¬ S accounts.input_token_account.key
        → Funded ids accounts remaining mints w o amount
        → Ready w
        → Ends (take_input rt ids accounts remaining mints o amount decimals) w (λ u w'. Ready w')
    unfolding take_input
    take_input-Ends o amount decimals w ata mint a m known input spendable funded ready =
        let program = program_for ids accounts remaining mints w mint in
        let is_program = program_for-IsTokenProgram rt Good ids accounts remaining mints w mint in
        let source = input mint m in
        let target = ready.1 0 m.1 ata mint a m in
        let (effective, amounts, holds) =
          effective_amount-Ends o amount w program mint.key source funded in
        let (u, w', run, moves) =
          transfer_tokens-Ends program accounts.input_token_account.key ata.key accounts.user.key
            mint effective decimals false w (takes ata effective a.0) (program_for-spl w mint)
            (takes_checked ata mint program effective decimals a.0 m is_program)
            (source, (accounts.titan_pda.key, target), holds) (known mint m) ready.0 in
        let first : get_elem? remaining mints ≡ some mint =
          subst (λ n. get_elem? remaining n ≡ some mint) (omega arith) m.0 in
        let reads = token_program_of-eq ids accounts remaining mints rt w mint in
        (
          tt,
          w',
          taken o amount decimals effective w w' ata mint program first a.0 amounts reads
              (can_pay w program mint.key effective source holds) run,
          moved w w' accounts.input_token_account.key effective (λ s. absurd (spendable s)) moves
              ready,
        )
