-- ===== src/Program/Route/NoPanic.antt =====
-- Panics of the parts of instructions/swap_route_v3.rs: what a step needs in order to have none.
use quay_titan_integration.Prelude.{
  ℕ, ltb, leb, zero, suc, ◌+◌, ◌<◌, ◌≡◌, refl, Bool, true, false, Option, none, some, Result, ok,
  err, List, [], ◌∷◌, map, All, length, get_elem?, get_elem?-lt, if◌then◌else◌, arith,
}
use quay_titan_integration.Solana.{Pubkey, Instruction}
use quay_titan_integration.Program.State.{
  Venue, SwapSpecInputV2, TemplateError, invalid_swap_input, missing_remaining_account,
}
use quay_titan_integration.Program.Accounts.{TokenIds}
use quay_titan_integration.Program.Runtime.{
  World, Handle, Cpi, Runtime, Act, ProgramError, panicked, foreign, template, view, continue,
  ◌>>=◌, done, try, found, index, need, see, call, changed,
}
use quay_titan_integration.Program.Tokens.{
  transfer_tokens, create_ata_for, close_token_account, setup_wsol_input_account,
  transfer_sol_and_sync,
}
use quay_titan_integration.Program.Legs.{leg_account_metas}
use quay_titan_integration.Program.Trade.{
  venue_instructions, invoke_all, perform_cpi_swap, perform_leg, run_leg, run_legs, leg_slice,
}
use quay_titan_integration.Program.Route.{
  SwapRouteV3, token_program_of, create_missing, effective_amount, take_input, close_created,
  pay_output,
}

abbrev pub is_panic : {A : Type 0} → Result ProgramError A → Bool
is_panic (ok a) = false
is_panic (err (template e)) = false
is_panic (err (foreign code)) = false
is_panic (err panicked) = true

abbrev pub IsSafe : {A : Type 0} → Act A → Type 0
IsSafe m = (w : World) → is_panic (m w) ≡ false

module _ {A : Type 0} where
  pub done-IsSafe : (a : A) → IsSafe (done a)
  done-IsSafe a w = refl

  pub try-IsSafe : (r : Result TemplateError A) → IsSafe (try r)
  try-IsSafe (ok a) w = refl
  try-IsSafe (err e) w = refl

  pub found-IsSafe : (o : Option A) (e : TemplateError) → IsSafe (found o e)
  found-IsSafe (some a) e w = refl
  found-IsSafe none e w = refl

  -- An index that is in range.
  pub index-IsSafe : (xs : List A) (i : ℕ) → i < length xs → IsSafe (index (get_elem? xs i))
  index-IsSafe xs i h w = let (a, e) = get_elem?-lt xs i h in rw e refl

pub need-IsSafe : (c : Bool) (e : TemplateError) → IsSafe (need c e)
need-IsSafe true e w = refl
need-IsSafe false e w = refl

pub see-IsSafe : (handle : Handle) → IsSafe (see handle)
see-IsSafe handle w = refl

pub if-IsSafe :
    {A : Type 0} (c : Bool) (m n : Act A) → IsSafe m → IsSafe n → IsSafe (if c then m else n)
if-IsSafe true m n p q = p
if-IsSafe false m n p q = q

pub continue-IsSafe :
    {A B : Type 0} (k : A → Act B) (r : Result ProgramError (A × World))
    → is_panic r ≡ false
    → ((a : A) (mid : World) → r ≡ ok (a, mid) → is_panic (k a mid) ≡ false)
    → is_panic (continue k r) ≡ false
continue-IsSafe k (ok (a, mid)) p rest = rest a mid refl
continue-IsSafe k (err (template e)) p rest = refl
continue-IsSafe k (err (foreign code)) p rest = refl
continue-IsSafe k (err panicked) p rest = cc

pub chain-IsSafe :
    {A B : Type 0} (m : Act A) (k : A → Act B)
    → IsSafe m
    → ((a : A) → IsSafe (k a))
    → IsSafe (m >>= k)
chain-IsSafe m k p q w = continue-IsSafe k (m w) (p w) (λ a mid e. q a mid)

-- What a step that succeeded has established may be used for the rest.
pub chain-IsSafe_after :
    {A B : Type 0} (m : Act A) (k : A → Act B)
    → IsSafe m
    → ((a : A) (w mid : World) → m w ≡ ok (a, mid) → IsSafe (k a))
    → IsSafe (m >>= k)
chain-IsSafe_after m k p q w = continue-IsSafe k (m w) (p w) (λ a mid e. q a w mid e mid)

-- What a check that passed has established may be used for the rest.
pub checked-IsSafe :
    {B : Type 0} (c : Bool) (e : TemplateError) (k : Unit {0} → Act B)
    → (c ≡ true → IsSafe (k tt))
    → IsSafe (need c e >>= k)
checked-IsSafe true e k q w = q refl w
checked-IsSafe false e k q w = refl

pub ruleset safe_rules =
    (chain-IsSafe, done-IsSafe, try-IsSafe, found-IsSafe, need-IsSafe, see-IsSafe, if-IsSafe)

changed-IsSafe : (r : Result ProgramError World) → is_panic r ≡ false → is_panic (changed r) ≡ false
changed-IsSafe (ok w) h = refl
changed-IsSafe (err (template e)) h = refl
changed-IsSafe (err (foreign code)) h = refl
changed-IsSafe (err panicked) h = cc

-- The calls of other programs do not end the handler by a panic of its own.
module _ (rt : Runtime) (calls : (cpi : Cpi) (w : World) → is_panic (rt.invoke cpi w) ≡ false) where
  call-IsSafe : (cpi : Cpi) → IsSafe (call rt cpi)
  call-IsSafe cpi w = changed-IsSafe (rt.invoke cpi w) (calls cpi w)

  module _ (pda : Pubkey) where
    invoke_all-IsSafe :
        (instructions : List Instruction) (keys : List Pubkey)
        → IsSafe (invoke_all rt pda instructions keys)
    unfolding invoke_all
    invoke_all-IsSafe [] keys = done-IsSafe tt
    invoke_all-IsSafe (instruction ∷ instructions) keys =
        let rest = invoke_all-IsSafe instructions keys in
        search (safe_rules, call-IsSafe, rest) depth 60

    perform_leg-IsSafe :
        (amount : ℕ) (venue : Venue) (hs : List Handle)
        → IsSafe (perform_leg rt pda amount venue hs)
    unfolding perform_leg perform_cpi_swap
    perform_leg-IsSafe amount venue hs w =
        chain-IsSafe
          (try (venue_instructions rt pda venue amount (leg_account_metas pda (map (view w) hs)))) _
          (try-IsSafe _) (λ instructions. invoke_all-IsSafe instructions (map (λ h. h.key) hs)) w

    module _ (remaining : List Handle) (reserved : List ℕ) (twelve : length reserved ≡ 12) where
      leg_slice-IsSafe :
          (at n : ℕ)
          → ltb 0 n ≡ true
          → leb (at + n) (length remaining) ≡ true
          → IsSafe (index (leg_slice rt pda remaining reserved at n))
      leg_slice-IsSafe at n some_accounts fits w = rw (some_accounts, fits) refl

      run_leg-IsSafe :
          (at : ℕ) (spec : SwapSpecInputV2)
          → spec.from < 12
          → IsSafe (run_leg rt pda remaining reserved at spec)
      unfolding run_leg
      run_leg-IsSafe at spec h =
          let reserve = index-IsSafe reserved spec.from (omega arith) in
          checked-IsSafe (ltb 0 spec.n_accounts) invalid_swap_input _ (λ some_accounts.
            checked-IsSafe (leb (at + spec.n_accounts) (length remaining)) missing_remaining_account
              _
              (λ fits.
                let slice = leg_slice-IsSafe at spec.n_accounts some_accounts fits in
                search (safe_rules, perform_leg-IsSafe, reserve, slice) depth 60))

      pub run_legs-IsSafe :
          (at : ℕ) (swaps : List SwapSpecInputV2)
          → All (λ s. s.from < 12) swaps
          → IsSafe (run_legs rt pda remaining reserved at swaps)
      unfolding run_legs
      run_legs-IsSafe at [] h = done-IsSafe tt
      run_legs-IsSafe at (spec ∷ swaps) h =
          chain-IsSafe (run_leg rt pda remaining reserved at spec) _ (run_leg-IsSafe at spec h.0)
            (λ u. run_legs-IsSafe (at + spec.n_accounts) swaps h.1)

  module _ (ids : TokenIds) where
    transfer_tokens-IsSafe :
        (p s d a : Pubkey) (mint : Option Pubkey) (amount decimals : ℕ) (signed : Bool)
        → IsSafe (transfer_tokens rt ids p s d a mint amount decimals signed)
    unfolding transfer_tokens
    transfer_tokens-IsSafe p s d a mint amount decimals signed =
        search (safe_rules, call-IsSafe) depth 60

    setup-IsSafe :
        (payer owner : Pubkey) (h : Handle) (mint p s : Pubkey) (amount : ℕ)
        → IsSafe (setup_wsol_input_account rt ids payer owner h mint p s amount)
    unfolding setup_wsol_input_account transfer_sol_and_sync
    setup-IsSafe payer owner h mint p s amount = search (safe_rules, call-IsSafe) depth 60

    create_ata_for-IsSafe : (p o m a t s : Pubkey) → IsSafe (create_ata_for rt ids p o m a t s)
    unfolding create_ata_for
    create_ata_for-IsSafe p o m a t s = call-IsSafe _

    close-IsSafe :
        (a d o t : Pubkey) (signed : Bool) → IsSafe (close_token_account rt ids a d o t signed)
    unfolding close_token_account
    close-IsSafe a d o t signed = call-IsSafe _

    ruleset token_rules =
        (safe_rules, transfer_tokens-IsSafe, setup-IsSafe, create_ata_for-IsSafe, close-IsSafe)

    module _ (accounts : SwapRouteV3) (remaining : List Handle) (mints : ℕ) where
      token_program_of-IsSafe :
          (h : Handle) → IsSafe (token_program_of rt ids accounts remaining mints h)
      unfolding token_program_of
      token_program_of-IsSafe h w = refl

      effective_amount-IsSafe :
          (o : Option ℕ) (amount : ℕ)
          → IsSafe (effective_amount rt ids accounts remaining mints o amount)
      unfolding effective_amount
      effective_amount-IsSafe none amount = done-IsSafe amount
      effective_amount-IsSafe (some stored) amount = search safe_rules depth 60

      pub take_input-IsSafe :
          (o : Option ℕ) (amount decimals : ℕ)
          → IsSafe (take_input rt ids accounts remaining mints o amount decimals)
      unfolding take_input
      take_input-IsSafe none amount decimals =
          search (token_rules, token_program_of-IsSafe, effective_amount-IsSafe) depth 80
      take_input-IsSafe (some stored) amount decimals =
          search (token_rules, token_program_of-IsSafe, effective_amount-IsSafe) depth 80

      pub pay_output-IsSafe :
          (output_index decimals : ℕ) (reserved : List ℕ)
          → output_index < length reserved
          → IsSafe (pay_output rt ids accounts remaining mints output_index decimals reserved)
      unfolding pay_output
      pay_output-IsSafe output_index decimals reserved h =
          let reserve = index-IsSafe reserved output_index h in
          search (token_rules, token_program_of-IsSafe, reserve) depth 80

      pub create_missing-IsSafe :
          (count i created : ℕ)
          → IsSafe (create_missing rt ids accounts remaining mints count i created)
      unfolding create_missing
      create_missing-IsSafe zero i created = done-IsSafe created
      create_missing-IsSafe (suc count) i created =
          let rest = λ (c : ℕ). create_missing-IsSafe count (suc i) c in
          search (token_rules, token_program_of-IsSafe, rest) depth 80

      pub close_created-IsSafe :
          (count i created : ℕ)
          → IsSafe (close_created rt ids accounts remaining mints count i created)
      unfolding close_created
      close_created-IsSafe zero i created = done-IsSafe tt
      close_created-IsSafe (suc count) i created =
          let rest = close_created-IsSafe count (suc i) created in
          search (token_rules, token_program_of-IsSafe, rest) depth 80
