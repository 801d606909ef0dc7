-- ===== src/Program/Route/Closing.antt =====
-- instructions/swap_route_v3.rs: the token accounts that a route creates, and the loop that closes them.
pub mod Created
pub mod Whole
use quay_titan_integration.Prelude.{
  ℕ, zero, suc, ◌+◌, ◌≤◌, ◌<◌, ◌≡◌, refl, ◌⊎◌, inl, inr, Bool, true, false, Option, none, some,
  Result, ok, err, List, [], ◌∷◌, get_elem?, ltb, ◌==◌, not, if◌then◌else◌, length, slice?, arith,
  ap, ◌∙◌, sym, subst, ok-injective, Bool-cases,
}
use quay_titan_integration.Prelude.Bits.{test_bit}
use quay_titan_integration.Prelude.Bytes.{from_le_bytes}
use quay_titan_integration.Solana.{Pubkey}
use quay_titan_integration.Program.State.{missing_remaining_account}
use quay_titan_integration.Program.Accounts.{TokenIds, extract_token_amount}
use quay_titan_integration.Program.Runtime.{
  World, Handle, Runtime, Cpi, close_account, view, found, see, call, chain-eq-ok, changed-eq-ok,
  found-eq-ok, ◌>>=◌, ◌>>◌,
}
use quay_titan_integration.Program.Tokens.{close_token_account}
use quay_titan_integration.Program.Reserves.{unwrap_or_zero}
use quay_titan_integration.Program.Route.{SwapRouteV3, place, token_program_of, close_created}
use quay_titan_integration.Program.Route.Quiet.{token_program_of-IsQuiet}

-- The amount of the token account at a key; none is there when it has no data.
abbrev pub held : World → Pubkey → ℕ
held w key =
    unwrap_or_zero
      (extract_token_amount (view w (record { key = key; is_signer = false; is_writable = false })))

-- An account without data, or one that holds something.
abbrev pub Settled : World → Pubkey → Type 0
Settled w key = ((w key).bytes ≡ []) ⊎ (0 < held w key)

-- A close that succeeds takes the data of its account, and of no other.
pub record ClosesOnly (rt : Runtime) : Type 0 where
  pub closed :
      (program account destination authority : Pubkey) (signed : Bool) (w w' : World)
      → rt.invoke (close_account program account destination authority signed) w ≡ ok w'
      → (w' account).bytes ≡ []
  pub others :
      (program account destination authority : Pubkey) (signed : Bool) (w w' : World) (key : Pubkey)
      → rt.invoke (close_account program account destination authority signed) w ≡ ok w'
      → (key == account) ≡ false
      → (w' key).bytes ≡ (w key).bytes

-- An account whose data is as it was, or gone.
abbrev pub Cleared : World → World → Pubkey → Type 0
Cleared w w' key = ((w' key).bytes ≡ (w key).bytes) ⊎ ((w' key).bytes ≡ [])

Cleared-trans :
    (w mid w' : World) (key : Pubkey) → Cleared w mid key → Cleared mid w' key → Cleared w w' key
Cleared-trans w mid w' key first (inr gone) = inr gone
Cleared-trans w mid w' key (inl same) (inl same') = inl (same' ∙ same)
Cleared-trans w mid w' key (inr gone) (inl same') = inr (same' ∙ gone)

pub Cleared-Settled :
    (w w' : World) (key : Pubkey) → Cleared w w' key → Settled w key → Settled w' key
unfolding extract_token_amount
Cleared-Settled w w' key (inr gone) s = inl gone
Cleared-Settled w w' key (inl same) (inl none_left) = inl (same ∙ none_left)
Cleared-Settled w w' key (inl same) (inr some_left) = inr (rw same some_left)

pub Cleared-held : (w w' : World) (key : Pubkey) → Cleared w w' key → held w' key ≤ held w key
unfolding extract_token_amount slice?
Cleared-held w w' key (inl same) = rw same (omega arith)
Cleared-held w w' key (inr gone) = rw gone (omega arith)

pub held_at :
    (w : World) (h : Handle) → unwrap_or_zero (extract_token_amount (view w h)) ≡ held w h.key
unfolding extract_token_amount
held_at w h = refl

module _ (rt : Runtime) (honest : ClosesOnly rt) where
  close-Settled :
      (ids : TokenIds) (account destination authority program : Pubkey) (signed : Bool)
      (w w' : World)
      → close_token_account rt ids account destination authority program signed w ≡ ok (tt, w')
      → ((w' account).bytes ≡ []) × ((key : Pubkey) → Cleared w w' key)
  unfolding close_token_account
  close-Settled ids account destination authority program signed w w' h =
      let run = changed-eq-ok (rt.invoke _ w) w' h in
      let gone = honest.closed program account destination authority signed w w' run in
      (
        gone,
        λ key. elim (Bool-cases (key == account)) [
          | inl e ↦
              let same : account ≡ key = ground arith in
              inr (subst (λ k. (w' k).bytes ≡ []) same gone)
          | inr e ↦ inl (honest.others program account destination authority signed w w' key run e)
        ],
      )

  module _ (ids : TokenIds) (accounts : SwapRouteV3) (remaining : List Handle) (mints : ℕ) where
    -- What a round of the last loop over the created accounts leaves for the rest.
    abbrev Round : ℕ → ℕ → ℕ → World → World → Type 0
    Round count i created w w' =
        (mid : World) × (close_created rt ids accounts remaining mints count (suc i) created mid
          ≡ ok (tt, w'))
        × ((key : Pubkey) → Cleared w mid key)
        × ((h : Handle)
            → get_elem? remaining i ≡ some h
            → test_bit created i ≡ true
            → Settled mid h.key)

    -- The part of a round that has found a created account.
    close_ata :
        (count i created : ℕ) (ata : Handle) (w w' : World)
        → (if ltb 0 (unwrap_or_zero (extract_token_amount (view w ata)))
              then close_created rt ids accounts remaining mints count (suc i) created
              else (do
                mint ← place rt ids accounts remaining mints (mints + i)
                token_program ← token_program_of rt ids accounts remaining mints mint
                close_token_account rt ids ata.key accounts.payer.key accounts.titan_pda.key
                    token_program true
                close_created rt ids accounts remaining mints count (suc i) created))
            w
          ≡ ok (tt, w')
        → (mid : World) × (close_created rt ids accounts remaining mints count (suc i) created mid
            ≡ ok (tt, w'))
          × ((key : Pubkey) → Cleared w mid key)
          × Settled mid ata.key
    close_ata count i created ata w w' h =
        elim (Bool-cases (ltb 0 (unwrap_or_zero (extract_token_amount (view w ata))))) [
          | inl some_left ↦
              (w, rw some_left at h, λ key. inl refl, inr (ground (arith, held_at w ata)))
          | inr none_left ↦
              let (mint, w1, e1, h1) =
                chain-eq-ok (place rt ids accounts remaining mints (mints + i)) _ w w' tt
                  (rw none_left at h) in
              let (_, still) =
                found-eq-ok (get_elem? remaining (mints + i)) missing_remaining_account w w1 mint
                  e1 in
              let (program, w2, e2, h2) =
                chain-eq-ok (token_program_of rt ids accounts remaining mints mint) _ w1 w' tt h1 in
              let (_, w3, e3, h3) =
                chain-eq-ok
                  (close_token_account rt ids ata.key accounts.payer.key accounts.titan_pda.key
                    program true)
                  _ w2 w' tt h2 in
              let (gone, keeps) =
                close-Settled ids ata.key accounts.payer.key accounts.titan_pda.key program true w2
                  w3 e3 in
              let same : w2 ≡ w =
                token_program_of-IsQuiet rt ids accounts remaining mints mint w1 program w2 e2
                ∙ still in
              (w3, h3, λ key. subst (λ u. Cleared u w3 key) same (keeps key), inl gone)
        ]

    close_next :
        (count i created : ℕ) (w w' : World)
        → close_created rt ids accounts remaining mints (suc count) i created w ≡ ok (tt, w')
        → Round count i created w w'
    unfolding close_created
    close_next count i created w w' h = elim (Bool-cases (test_bit created i)) [
      | inr off ↦ (w, rw off at h, λ key. inl refl, λ g at on. cc)
      | inl on ↦
          let (ata, w1, e1, h1) =
            chain-eq-ok (place rt ids accounts remaining mints i) _ w w' tt (rw on at h) in
          let (there, still) =
            found-eq-ok (get_elem? remaining i) missing_remaining_account w w1 ata e1 in
          let (mid, rest, keeps, settled) = close_ata count i created ata w1 w' h1 in
          (
            mid,
            rest,
            λ key. subst (λ u. Cleared u mid key) still (keeps key),
            λ g at _. let same : ata ≡ g = cc in subst (λ a. Settled mid a.key) same settled,
          )
    ]

    -- After the last loop over the created accounts, every one of them is settled.
    pub close_created-Settled :
        (count i created : ℕ) (w w' : World)
        → close_created rt ids accounts remaining mints count i created w ≡ ok (tt, w')
        → ((key : Pubkey) → Cleared w w' key)
          × ((j : ℕ) (h : Handle)
              → i ≤ j
              → j < i + count
              → get_elem? remaining j ≡ some h
              → test_bit created j ≡ true
              → Settled w' h.key)
    unfolding close_created
    close_created-Settled zero i created w w' h =
        let same : w ≡ w' = ap (λ p. p.1) (ok-injective h) in
        (λ key. inl (ap (λ u. (u key).bytes) (sym same)), λ j g le lt at on. absurd (omega arith))
    close_created-Settled (suc count) i created w w' h =
        let (mid, rest, keeps, settled) = close_next count i created w w' h in
        let (kept, later) = close_created-Settled count (suc i) created mid w' rest in
        (
          λ key. Cleared-trans w mid w' key (keeps key) (kept key),
          λ j g le lt at on. elim (Bool-cases (i == j)) [
            | inl e ↦
                let same : i ≡ j = ground arith in
                Cleared-Settled mid w' g.key (kept g.key) (
                  settled g (subst (λ n. get_elem? remaining n ≡ some g) (sym same) at)
                    (subst (λ n. test_bit created n ≡ true) (sym same) on))
            | inr e ↦ later j g (ground arith) (omega arith) at on
          ],
        )
