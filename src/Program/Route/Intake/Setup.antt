-- ===== src/Program/Route/Intake/Setup.antt =====
-- instructions/swap_route_v3.rs: setup_wsol_input_account, which wraps the user's lamports for the input.
use quay_titan_integration.Prelude.{
  ℕ, ◌+◌, ◌-◌, ◌≤◌, ◌<◌, ◌≡◌, refl, max, inl, inr, Bool, true, false, not, ok, ◌==◌, ltb,
  if◌then◌else◌, arith, ap, ◌∙◌, sym, ok-injective, Bool-cases, Result-cases,
}
use quay_titan_integration.Solana.{Pubkey}
use quay_titan_integration.Program.Accounts.{TokenIds, account_exists, extract_token_amount}
use quay_titan_integration.Program.Runtime.{
  World, Handle, Runtime, create_ata, system_transfer, sync_native, view, call, done, try,
  changed-eq-ok, chain-eq-ok, ◌>>=◌, ◌>>◌,
}
use quay_titan_integration.Program.Tokens.{transfer_sol_and_sync, setup_wsol_input_account}
use quay_titan_integration.Program.Reserves.{unwrap_or_zero}
use quay_titan_integration.Program.Route.Closing.{held, held_at}
use quay_titan_integration.Program.Route.Closing.Created.{CreatesOnly}
use quay_titan_integration.Program.Route.Payout.{OpensEmpty, missing_at}

-- Wrapped lamports. `backing` is the amount that the lamports of an account cover: lamports that are sent
-- to it add to that, the next synchronisation makes it the amount of the account, and a new account
-- starts synchronised.
pub record Wraps (rt : Runtime) (backing : World → Pubkey → ℕ) : Type 0 where
  pub sent :
      (source destination : Pubkey) (amount : ℕ) (w w' : World)
      → (source == destination) ≡ false
      → rt.invoke (system_transfer source destination amount) w ≡ ok w'
      → (backing w' destination ≡ backing w destination + amount)
        × ((key : Pubkey) → held w' key ≡ held w key)
  pub synchronised :
      (program account : Pubkey) (w w' : World)
      → rt.invoke (sync_native program account) w ≡ ok w'
      → (held w' account ≡ backing w account)
        × ((key : Pubkey) → (key == account) ≡ false → held w' key ≡ held w key)
  pub started :
      (payer owner mint ata program system : Pubkey) (w w' : World)
      → account_exists (view w (record { key = ata; is_signer = false; is_writable = false }))
        ≡ false
      → rt.invoke (create_ata payer owner mint ata program system) w ≡ ok w'
      → backing w' ata ≡ held w' ata

-- No other account's amount changes.
abbrev pub Others : World → World → Pubkey → Type 0
Others w w' account = (key : Pubkey) → (key == account) ≡ false → held w' key ≡ held w key

-- What the input account holds for a transfer of `amount`: what is missing is wrapped.
abbrev pub wrapped : World → Handle → ℕ → ℕ
wrapped w account amount =
    if account_exists (view w account) then max (held w account.key) amount else amount

abbrev pub SetUp : World → World → Handle → ℕ → Bool → Type 0
SetUp w w' account amount created =
    (created ≡ not (account_exists (view w account)))
    × (held w' account.key ≡ wrapped w account amount)
    × Others w w' account.key

module _ (rt : Runtime) (backing : World → Pubkey → ℕ) (wraps : Wraps rt backing)
    (creates : CreatesOnly rt) (opens : OpensEmpty rt) (ids : TokenIds) where
  transfer_sol_and_sync-held :
      (source account program : Pubkey) (amount : ℕ) (w w' : World)
      → (source == account) ≡ false
      → backing w account ≡ held w account
      → transfer_sol_and_sync rt ids source account program amount w ≡ ok (tt, w')
      → (held w' account ≡ held w account + amount) × Others w w' account
  unfolding transfer_sol_and_sync
  transfer_sol_and_sync-held source account program amount w w' lone even h =
      elim (Bool-cases (amount == 0)) [
        | inl none_missing ↦
            let same : w ≡ w' = ap (λ p. p.1) (ok-injective (rw none_missing at h)) in
            let nothing : amount ≡ 0 = ground arith in
            (
              omega (arith, nothing, ap (λ u. held u account) same),
              λ key e. ap (λ u. held u key) (sym same),
            )
        | inr some_missing ↦
            let (_, mid, e1, h1) =
              chain-eq-ok (call rt (system_transfer source account amount)) _ w w' tt
                (rw some_missing at h) in
            let (more, untouched) =
              wraps.sent source account amount w mid lone (changed-eq-ok (rt.invoke _ w) mid e1) in
            let (now, others) =
              wraps.synchronised program account mid w' (changed-eq-ok (rt.invoke _ mid) w' h1) in
            (omega (arith, more, now, even), λ key e. others key e ∙ untouched key)
      ]

  topped_up :
      (owner program : Pubkey) (account : Handle) (amount : ℕ) (w w' : World) (created : Bool)
      → (owner == account.key) ≡ false
      → backing w account.key ≡ held w account.key
      → account_exists (view w account) ≡ true
      → (do
        balance ← try (extract_token_amount (view w account))
        if ltb balance amount
            then transfer_sol_and_sync rt ids owner account.key program (amount - balance)
            else done tt
        done false)
          w
        ≡ ok (created, w')
      → SetUp w w' account amount created
  topped_up owner program account amount w w' created lone even there h =
      elim (Result-cases (extract_token_amount (view w account))) [
        | inr (f, e) ↦ let failed = rw e at h in cc
        | inl (balance, e) ↦
            let now : held w account.key ≡ balance =
              sym (held_at w account) ∙ ap unwrap_or_zero e in
            let full : wrapped w account amount ≡ max (held w account.key) amount = rw there refl in
            let h0 = rw e at h in
            elim (Bool-cases (ltb balance amount)) [
              | inl short ↦
                  let (_, mid, e1, h1) =
                    chain-eq-ok
                      (transfer_sol_and_sync rt ids owner account.key program (amount - balance)) _
                      w w' created (rw short at h0) in
                  let p = ok-injective h1 in
                  let same : mid ≡ w' = ap (λ x. x.1) p in
                  let (more, others) =
                    transfer_sol_and_sync-held owner account.key program (amount - balance) w mid
                      lone even e1 in
                  let missing : balance < amount = ground arith in
                  (
                    sym (ap (λ x. x.0) p) ∙ sym (ap not there),
                    omega (arith, more, now, full, missing, ap (λ u. held u account.key) same),
                    λ key o. ap (λ u. held u key) (sym same) ∙ others key o,
                  )
              | inr enough ↦
                  let p = ok-injective (rw enough at h0) in
                  let same : w ≡ w' = ap (λ x. x.1) p in
                  let covered : amount ≤ balance = ground arith in
                  (
                    sym (ap (λ x. x.0) p) ∙ sym (ap not there),
                    omega (arith, now, full, covered, ap (λ u. held u account.key) same),
                    λ key o. ap (λ u. held u key) (sym same),
                  )
            ]
      ]

  pub set_up :
      (payer owner mint program system : Pubkey) (account : Handle) (amount : ℕ) (w w' : World)
      (created : Bool)
      → (owner == account.key) ≡ false
      → backing w account.key ≡ held w account.key
      → setup_wsol_input_account rt ids payer owner account mint program system amount w
        ≡ ok (created, w')
      → SetUp w w' account amount created
  unfolding setup_wsol_input_account extract_token_amount
  set_up payer owner mint program system account amount w w' created lone even h =
      elim (Bool-cases (account_exists (view w account))) [
        | inl there ↦
            topped_up owner program account amount w w' created lone even there (rw there at h)
        | inr missing ↦
            let (_, opened, e1, h1) =
              chain-eq-ok (call rt (create_ata payer owner mint account.key program system)) _ w w'
                created (rw missing at h) in
            let (_, filled, e2, h2) =
              chain-eq-ok (transfer_sol_and_sync rt ids owner account.key program amount) _ opened
                w' created h1 in
            let run = changed-eq-ok (rt.invoke _ w) opened e1 in
            let empty =
              opens.opened payer owner mint account.key program system w opened
                (missing_at w account missing) run in
            let even' =
              wraps.started payer owner mint account.key program system w opened
                (missing_at w account missing) run in
            let (more, others) =
              transfer_sol_and_sync-held owner account.key program amount opened filled lone even'
                e2 in
            let p = ok-injective h2 in
            let same : filled ≡ w' = ap (λ x. x.1) p in
            let full : wrapped w account amount ≡ amount = rw missing refl in
            (
              sym (ap (λ x. x.0) p) ∙ sym (ap not missing),
              omega (arith, more, empty, full, ap (λ u. held u account.key) same),
              λ key o.
                  ap (λ u. held u key) (sym same)
                  ∙ others key o
                  ∙ rw
                      (creates.others payer owner mint account.key program system w opened key run
                        o)
                      refl,
            )
      ]
