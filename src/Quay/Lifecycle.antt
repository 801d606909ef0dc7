-- ===== src/Quay/Lifecycle.antt =====
-- The life of a venue: loaded from an account, then refreshed any number of times with any answers of
-- the accounts cache, some of which fail.
use quay_titan_integration.Prelude.{
  ◌≡◌, refl, true, false, ◌⊎◌, inl, inr, Option, Result, ok, List, [], ◌∷◌, ==_refl, Result-cases,
  subst, sym, arith, is_ok, ◌∙◌, map_err, >>=-eq-ok, ok-injective,
}
use quay_titan_integration.Solana.{Pubkey, Account}
use quay_titan_integration.TradingVenue.Error.{AccountCacheError}
use quay_titan_integration.TradingVenue.Quote.{QuoteRequest}
use quay_titan_integration.TradingVenue.TokenInfo.{Spl, TokenInfo, token_info_new-pubkey}
use quay_titan_integration.Quay.Sdk.{Sdk}
use quay_titan_integration.Quay.Venue.{QuayVenue, initialized, halts_clear}
use quay_titan_integration.Quay.State.{
  from_account, new_venue, refresh_state, ext_keys_of, undecoded,
}
use quay_titan_integration.Quay.State.Atomic.{refresh_state-IsAtomic}
use quay_titan_integration.Quay.State.Snapshot.{Snapshot, snapshot, refresh_state-Refreshed}
use quay_titan_integration.Quay.Price.{F64, find_token, compute_quote}
use quay_titan_integration.Quay.Price.Answers.{trades, has_tokens, compute_quote-is_ok}

-- Either no refresh has succeeded, and the venue is halted, or it holds the metadata of its two mints.
abbrev pub IsReady : QuayVenue → Type 0
IsReady v =
    (halts_clear v ≡ false)
    ⊎ ((base : TokenInfo) × (quote_token : TokenInfo) × (v.tokens ≡ base ∷ quote_token ∷ [])
        × (base.pubkey ≡ v.base_mint)
        × (quote_token.pubkey ≡ v.quote_mint))

module _ (sdk : Sdk) (spl : Spl) where
  pub data Life : QuayVenue → Type 0 where
    loaded :
        (key : Pubkey) (account : Account) {v : QuayVenue}
        → from_account sdk key account ≡ ok v
        → Life v
    refreshed :
        {v : QuayVenue}
        → Life v
        → (get_accounts : List Pubkey → Result AccountCacheError (List (Option Account)))
        → Life (refresh_state sdk spl get_accounts v).1

  loaded_halted :
      (key : Pubkey) (account : Account) (v : QuayVenue)
      → from_account sdk key account ≡ ok v
      → halts_clear v ≡ false
  unfolding from_account new_venue halts_clear
  loaded_halted key account v h =
      let (strategy, _, h1) =
        >>=-eq-ok (map_err (undecoded "StrategyHeader: ") (sdk.strategy_from_account account.bytes))
          _ h in
      let (keys, _, h2) = >>=-eq-ok (ext_keys_of sdk strategy account.bytes) _ h1 in
      subst (λ w. halts_clear w ≡ false) (ok-injective h2) refl

  Snapshot-IsReady :
      (accounts : List (Option Account)) (v w : QuayVenue)
      → Snapshot sdk spl accounts v w
      → IsReady w
  Snapshot-IsReady accounts v w
        (snapshot a0 a1 a2 a3 a4 a5 a6 a7 a8 strategy mm cfg b q clock fresh e0 e1 e2 e3 e4 e5 e6 e7
          e8 e9 e10 e11 e12 e13 e14 e15) =
      inr (
        b,
        q,
        refl,
        token_info_new-pubkey spl v.base_mint a4 0 e9,
        token_info_new-pubkey spl v.quote_mint a5 0 e10,
      )

  refresh_state-IsReady :
      (get_accounts : List Pubkey → Result AccountCacheError (List (Option Account)))
      (v : QuayVenue)
      → IsReady v
      → IsReady (refresh_state sdk spl get_accounts v).1
  refresh_state-IsReady get_accounts v ready =
      elim (Result-cases (refresh_state sdk spl get_accounts v).0) [
        | inr (e, failed) ↦
            subst IsReady (sym (refresh_state-IsAtomic sdk spl get_accounts v e failed)) ready
        | inl (u, done) ↦
            let (accounts, _, _, taken) = refresh_state-Refreshed sdk spl get_accounts v done in
            Snapshot-IsReady accounts v _ taken
      ]

  pub Life-IsReady : {v : QuayVenue} → Life v → IsReady v
  Life-IsReady (loaded key account h) = inl (loaded_halted key account _ h)
  Life-IsReady (refreshed life get_accounts) =
      refresh_state-IsReady get_accounts _ (Life-IsReady life)

  ready_tokens : (v : QuayVenue) → IsReady v → initialized sdk v ≡ true → has_tokens v ≡ true
  unfolding initialized find_token
  ready_tokens v (inl halted) init = ground arith
  ready_tokens v (inr (base, quote_token, held, eb, eq)) init =
      rw held (ground (arith, ==_refl v.base_mint, ==_refl v.quote_mint))

  -- An initialized venue, however it was loaded and refreshed and whichever refreshes failed, answers
  -- every exact-in request between its two mints: its token metadata is never missing.
  pub compute_quote-Life :
      {F : Type 0} (f64 : F64 F) {v : QuayVenue} (request : QuoteRequest)
      → Life v
      → initialized sdk v ≡ true
      → trades v request ≡ true
      → is_ok (compute_quote f64 sdk v request) ≡ true
  compute_quote-Life f64 {v} request life init trading =
      compute_quote-is_ok f64 sdk v request
      ∙ rw (trading, init, ready_tokens v (Life-IsReady life) init) refl

  -- A venue whose refreshes have all failed so far.
  pub data Warmup : QuayVenue → Type 0 where
    start :
        (key : Pubkey) (account : Account) {v : QuayVenue}
        → from_account sdk key account ≡ ok v
        → Warmup v
    failed :
        {v : QuayVenue}
        (get_accounts : List Pubkey → Result AccountCacheError (List (Option Account)))
        → Warmup v
        → is_ok (refresh_state sdk spl get_accounts v).0 ≡ false
        → Warmup (refresh_state sdk spl get_accounts v).1

  Warmup-halted : {v : QuayVenue} → Warmup v → halts_clear v ≡ false
  Warmup-halted (start key account h) = loaded_halted key account _ h
  Warmup-halted (failed {v} get_accounts w refused) =
      elim (Result-cases (refresh_state sdk spl get_accounts v).0) [
        | inl (u, done) ↦
            let e : is_ok (refresh_state sdk spl get_accounts v).0 ≡ true = rw done refl in cc
        | inr (e, why) ↦
            subst (λ u. halts_clear u ≡ false)
              (sym (refresh_state-IsAtomic sdk spl get_accounts v e why)) (Warmup-halted w)
      ]

  -- A venue whose refreshes have all failed so far is not initialized and refuses every quote.
  pub Warmup-refuses :
      {F : Type 0} (f64 : F64 F) {v : QuayVenue} (request : QuoteRequest)
      → Warmup v
      → (initialized sdk v ≡ false) × (is_ok (compute_quote f64 sdk v request) ≡ false)
  unfolding initialized
  Warmup-refuses f64 {v} request w =
      let halted = Warmup-halted w in
      let dark : initialized sdk v ≡ false = ground arith in
      (dark, compute_quote-is_ok f64 sdk v request ∙ ground arith)
