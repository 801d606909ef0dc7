-- ===== src/Program/Route/Payout.antt =====
-- instructions/swap_route_v3.rs: what the output transfer of `execute` pays.
pub mod Whole
pub mod Delivered
use quay_titan_integration.Prelude.{
  ℕ, ◌+◌, ◌-◌, ◌≤◌, ◌<◌, min, ◌≡◌, refl, inl, inr, Bool, true, false, Option, none, some, Result,
  ok, err, map_err, List, [], ◌∷◌, get_elem?, ◌==◌, if◌then◌else◌, arith, ap, ◌∙◌, sym, subst,
  ok-injective, Bool-cases, Result-cases,
}
use quay_titan_integration.Solana.{Pubkey}
use quay_titan_integration.Program.State.{TemplateError, missing_remaining_account}
use quay_titan_integration.Program.Accounts.{TokenIds, account_exists, extract_token_amount}
use quay_titan_integration.Program.Runtime.{
  World, Handle, Runtime, Act, create_ata, transfer, transfer_checked, view, try, done, index, see,
  found, found-eq-ok, changed-eq-ok, chain-eq-ok, ◌>>=◌, ◌>>◌,
}
use quay_titan_integration.Program.Tokens.{transfer_tokens, create_ata_for}
use quay_titan_integration.Program.Reserves.{unwrap_or_zero}
use quay_titan_integration.Program.Route.{SwapRouteV3, place, token_program_of, pay_output}
use quay_titan_integration.Program.Route.Quiet.{token_program_of-IsQuiet}
use quay_titan_integration.Program.Route.Closing.{held, held_at}
use quay_titan_integration.Program.Route.Closing.Created.{CreatesOnly}

-- `amount` has gone from one token account to another.
abbrev pub Moved : World → World → (source destination : Pubkey) (amount : ℕ) → Type 0
Moved w w' source destination amount =
    (held w' source + amount ≡ held w source) × (held w' destination ≡ held w destination + amount)

-- A transfer that succeeds moves its amount.
pub record MovesExactly (rt : Runtime) : Type 0 where
  pub transferred :
      (program source destination authority : Pubkey) (amount : ℕ) (signed : Bool) (w w' : World)
      → (source == destination) ≡ false
      → rt.invoke (transfer program source destination authority amount signed) w ≡ ok w'
      → Moved w w' source destination amount
  pub transferred_checked :
      (program source mint destination authority : Pubkey) (amount decimals : ℕ) (signed : Bool)
      (w w' : World)
      → (source == destination) ≡ false
      → rt.invoke
          (transfer_checked program source mint destination authority amount decimals signed)
          w
        ≡ ok w'
      → Moved w w' source destination amount

-- A creation that succeeds where nothing is leaves an empty token account.
pub record OpensEmpty (rt : Runtime) : Type 0 where
  pub opened :
      (payer owner mint ata program system : Pubkey) (w w' : World)
      → account_exists (view w (record { key = ata; is_signer = false; is_writable = false }))
        ≡ false
      → rt.invoke (create_ata payer owner mint ata program system) w ≡ ok w'
      → held w' ata ≡ 0

-- What the user has in the output account before the transfer.
abbrev pub user_before : SwapRouteV3 → World → ℕ
user_before accounts w =
    if account_exists (view w accounts.output_token_account)
    then held w accounts.output_token_account.key
    else 0

pub missing_at :
    (w : World) (h : Handle)
    → account_exists (view w h) ≡ false
    → account_exists (view w (record { key = h.key; is_signer = false; is_writable = false }))
      ≡ false
unfolding account_exists
missing_at w h missing = missing

module _ (rt : Runtime) (moves : MovesExactly rt) (ids : TokenIds) where
  pub transfer_tokens-Moved :
      (program source destination authority mint : Pubkey) (amount decimals : ℕ) (signed : Bool)
      (w w' : World)
      → (source == destination) ≡ false
      → transfer_tokens rt ids program source destination authority
          (some mint)
          amount
          decimals
          signed
          w
        ≡ ok (tt, w')
      → Moved w w' source destination amount
  unfolding transfer_tokens
  transfer_tokens-Moved program source destination authority mint amount decimals signed w w' apart
        h =
      elim (Bool-cases (amount == 0)) [
        | inl zero_amount ↦
            let same : w ≡ w' = ap (λ p. p.1) (ok-injective (rw zero_amount at h)) in
            let nothing : amount ≡ 0 = ground arith in
            subst (λ u. Moved w u source destination amount) same
              (omega (arith, nothing), omega (arith, nothing))
        | inr some_amount ↦ elim (Bool-cases (program == ids.token_2022_id)) [
          | inl checked ↦
              moves.transferred_checked program source mint destination authority amount decimals
                signed w w' apart
                (changed-eq-ok (rt.invoke _ w) w' (rw (some_amount, checked) at h))
          | inr plain ↦
              moves.transferred ids.spl_token_id source destination authority amount signed w w'
                apart (changed-eq-ok (rt.invoke _ w) w' (rw (some_amount, plain) at h))
        ]
      ]

  module _ (creates : CreatesOnly rt) (opens : OpensEmpty rt) (accounts : SwapRouteV3)
      (remaining : List Handle) (mints : ℕ) where
    -- The output account exists, or is created without touching another.
    open_output :
        (mint program other : Pubkey) (w w' : World)
        → (other == accounts.output_token_account.key) ≡ false
        → (if account_exists (view w accounts.output_token_account)
              then done tt
              else create_ata_for rt ids accounts.payer.key accounts.user.key mint
                  accounts.output_token_account.key program accounts.system_program.key)
            w
          ≡ ok (tt, w')
        → (held w' other ≡ held w other)
          × (held w' accounts.output_token_account.key ≡ user_before accounts w)
    unfolding create_ata_for extract_token_amount
    open_output mint program other w w' apart h =
        elim (Bool-cases (account_exists (view w accounts.output_token_account))) [
          | inl there ↦
              let same : w ≡ w' = ap (λ p. p.1) (ok-injective (rw there at h)) in
              let key = accounts.output_token_account.key in
              let had : user_before accounts w ≡ held w key = rw there refl in
              (ap (λ u. held u other) (sym same), ap (λ u. held u key) (sym same) ∙ sym had)
          | inr missing ↦
              let run = changed-eq-ok (rt.invoke _ w) w' (rw missing at h) in
              let had : user_before accounts w ≡ 0 = rw missing refl in
              (
                rw
                    (creates.others accounts.payer.key accounts.user.key mint
                      accounts.output_token_account.key program accounts.system_program.key w w'
                      other run apart)
                    refl,
                opens.opened accounts.payer.key accounts.user.key mint
                      accounts.output_token_account.key program accounts.system_program.key w w'
                      (missing_at w accounts.output_token_account missing) run
                    ∙ sym had,
              )
        ]

    paid_out :
        (w w2 w3 w' : World) (key : Pubkey) (raw reserve : ℕ)
        → w2 ≡ w
        → held w key ≡ raw
        → held w3 key ≡ held w2 key
        → held w3 accounts.output_token_account.key ≡ user_before accounts w2
        → Moved w3 w' key accounts.output_token_account.key (raw - reserve)
        → (held w' key ≡ min (held w key) reserve)
          × (held w' accounts.output_token_account.key
              ≡ user_before accounts w + (held w key - reserve))
    paid_out w w2 w3 w' key raw reserve same had_raw left had (out, into) =
        let before = ap (λ u. held u key) same in
        let had' = ap (user_before accounts) same in
        (omega (arith, out, left, before, had_raw), omega (arith, into, had, had', had_raw))

    -- When a transfer that succeeds moves its amount, a token account that is created where nothing was
    -- is empty, and its creation touches no other: the output transfer leaves in TitanPDA's account,
    -- unless it is the output account, what is reserved there, or all of it when that is less, and adds
    -- everything beyond the reserve to the user's output account, which it creates when it is missing.
    pub pay_output-Moved :
        (output_index decimals : ℕ) (reserved : List ℕ) (w w' : World) (source : Handle)
        (reserve : ℕ)
        → get_elem? remaining output_index ≡ some source
        → get_elem? reserved output_index ≡ some reserve
        → (source.key == accounts.output_token_account.key) ≡ false
        → pay_output rt ids accounts remaining mints output_index decimals reserved w ≡ ok (tt, w')
        → (held w' source.key ≡ min (held w source.key) reserve)
          × (held w' accounts.output_token_account.key
              ≡ user_before accounts w + (held w source.key - reserve))
    unfolding pay_output
    pay_output-Moved output_index decimals reserved w w' source reserve at kept apart h =
        elim (Result-cases (extract_token_amount (view w source))) [
          | inr (f, e) ↦ let failed = rw (at, e) at h in cc
          | inl (raw, e) ↦
              let h0 = rw (at, e, kept) at h in
              let (mint, w1, e1, h1) =
                chain-eq-ok (place rt ids accounts remaining mints (mints + output_index)) _ w w' tt
                  h0 in
              let (_, still) =
                found-eq-ok (get_elem? remaining (mints + output_index)) missing_remaining_account w
                  w1 mint e1 in
              let (program, w2, e2, h2) =
                chain-eq-ok (token_program_of rt ids accounts remaining mints mint) _ w1 w' tt h1 in
              let same : w2 ≡ w =
                token_program_of-IsQuiet rt ids accounts remaining mints mint w1 program w2 e2
                ∙ still in
              let (_, w3, e3, h3) =
                chain-eq-ok
                  (if account_exists (view w2 accounts.output_token_account)
                    then done tt
                    else create_ata_for rt ids accounts.payer.key accounts.user.key mint.key
                        accounts.output_token_account.key program accounts.system_program.key)
                  _ w2 w' tt h2 in
              let (left, had) = open_output mint.key program source.key w2 w3 apart e3 in
              let moved =
                transfer_tokens-Moved program source.key accounts.output_token_account.key
                  accounts.titan_pda.key mint.key (raw - reserve) decimals true w3 w' apart h3 in
              paid_out w w2 w3 w' source.key raw reserve same
                (sym (held_at w source) ∙ ap unwrap_or_zero e) left had moved
        ]
