-- ===== src/Quay/State/Snapshot.antt =====
-- What a successful refresh has read, and what it leaves in the venue.
use quay_titan_integration.Prelude.{
  ℕ, ◌≡◌, true, Option, none, some, Result, [], ◌∷◌, get_elem?, Option-cases, inl, inr, ap, ◌∙◌,
  ok-injective, ok, err, returned, map_err, ok_or, List, ◌++◌, ◌==◌, ==_iff, length, map_err-eq-ok,
  if◌then◌else◌,
}
use quay_titan_integration.Prelude.Int.{ℤ}
use quay_titan_integration.Solana.{Pubkey, Account}
use quay_titan_integration.TradingVenue.Error.{
  AccountCacheError, account_cache_error, deserialization_failed, static_str,
  failed_to_fetch_multiple_account_data,
}
use quay_titan_integration.TradingVenue.TokenInfo.{Spl, TokenInfo, token_info_new}
use quay_titan_integration.Quay.Sdk.{Sdk, StrategyHeader, MarketMakerHeader, GlobalConfig}
use quay_titan_integration.Quay.Clock.{decode_clock}
use quay_titan_integration.Quay.Venue.{QuayVenue}
use quay_titan_integration.Quay.Step.{
  Leads, run-Leads, try-Leads, modify-Leads, check-Leads, map-Leads, run, ◌>>◌,
}
use quay_titan_integration.Quay.State.{
  refresh_from, refresh_state, required_update_pubkeys, fixed_keys, slot, undecoded, ext_keys_of,
  ext_data_of, commit,
}

ok_or-eq-ok :
    {E A : Type 0} (o : Option A) (e : E) {a : A}
    → ◌≡◌ {A = Result E A} (ok_or o e) (ok a)
    → o ≡ some a
ok_or-eq-ok (some b) e h = ap some (ok-injective h)
ok_or-eq-ok none e h = cc

slot-eq-ok :
    (accounts : List (Option Account)) (i : ℕ) (key : Pubkey) (a : Account)
    → slot accounts i key ≡ ok a
    → get_elem? accounts i ≡ some (some a)
unfolding slot
slot-eq-ok accounts i key a h = elim (Option-cases (get_elem? accounts i)) [
  | inl missing ↦ let failed = rw missing at h in cc
  | inr (entry, here) ↦ here ∙ ap some (ok_or-eq-ok entry _ (rw here at h))
]

module _ (sdk : Sdk) (spl : Spl) where
  -- The nine fixed accounts are there, in their slots, and decode; and the venue after is, field by field,
  -- the one before with what they decode to.
  pub data Snapshot (accounts : List (Option Account)) (v : QuayVenue) : QuayVenue → Type 0 where
    snapshot :
        (a0 a1 a2 a3 a4 a5 a6 a7 a8 : Account) (strategy : StrategyHeader) (mm : MarketMakerHeader)
        (cfg : GlobalConfig) (base_info quote_info : TokenInfo) (clock : ℕ × ℤ)
        (fresh : List Pubkey)
        → get_elem? accounts 0 ≡ some (some a0)
        → sdk.strategy_from_account a0.bytes ≡ ok strategy
        → get_elem? accounts 1 ≡ some (some a1)
        → sdk.market_maker_from_account a1.bytes ≡ ok mm
        → get_elem? accounts 2 ≡ some (some a2)
        → get_elem? accounts 3 ≡ some (some a3)
        → sdk.global_config_from_account a3.bytes ≡ ok cfg
        → get_elem? accounts 4 ≡ some (some a4)
        → get_elem? accounts 5 ≡ some (some a5)
        → token_info_new spl v.base_mint a4 0 ≡ ok base_info
        → token_info_new spl v.quote_mint a5 0 ≡ ok quote_info
        → get_elem? accounts 6 ≡ some (some a6)
        → get_elem? accounts 7 ≡ some (some a7)
        → get_elem? accounts 8 ≡ some (some a8)
        → decode_clock a8.bytes ≡ some clock
        → ext_keys_of sdk strategy a0.bytes ≡ ok fresh
        → Snapshot accounts v (record {
          program_id = v.program_id;
          strategy_key = v.strategy_key;
          mm_key = v.mm_key;
          quotes_key = v.quotes_key;
          global_config_key = v.global_config_key;
          base_mint = v.base_mint;
          quote_mint = v.quote_mint;
          vault_base_key = v.vault_base_key;
          vault_quote_key = v.vault_quote_key;
          strategy_data = a0.bytes;
          mm_data = a1.bytes;
          quotes_data = a2.bytes;
          global_config_data = a3.bytes;
          ext_keys = fresh;
          ext_data = ext_data_of accounts fresh v.ext_keys;
          tokens = base_info ∷ quote_info ∷ [];
          routing_flags = strategy.routing_flags;
          cfg_swap_halted = cfg.swap_halted;
          cfg_protocol_halted = cfg.protocol_halted;
          strategy_frozen = strategy.frozen;
          strategy_frozen_admin = strategy.frozen_admin;
          mm_frozen = mm.frozen;
          mm_frozen_admin = mm.frozen_admin;
          mm_halted_admin = mm.halted_admin;
          price_probe_base = strategy.price_probe_base;
          price_probe_quote = strategy.price_probe_quote;
          current_slot = clock.0;
          current_unix_sec = clock.1;
        })

  from_slots :
      {accounts : List (Option Account)} {v : QuayVenue} (a0 a1 a2 a3 a4 a5 a6 a7 a8 : Account)
      (strategy : StrategyHeader) (mm : MarketMakerHeader) (cfg : GlobalConfig)
      (base_info quote_info : TokenInfo) (clock : ℕ × ℤ) (fresh : List Pubkey)
      → slot accounts 0 v.strategy_key ≡ ok a0
      → map_err (undecoded "StrategyHeader: ") (sdk.strategy_from_account a0.bytes) ≡ ok strategy
      → slot accounts 1 v.mm_key ≡ ok a1
      → map_err (undecoded "MarketMakerHeader: ") (sdk.market_maker_from_account a1.bytes) ≡ ok mm
      → slot accounts 2 v.quotes_key ≡ ok a2
      → slot accounts 3 v.global_config_key ≡ ok a3
      → map_err (undecoded "GlobalConfig: ") (sdk.global_config_from_account a3.bytes) ≡ ok cfg
      → slot accounts 4 v.base_mint ≡ ok a4
      → slot accounts 5 v.quote_mint ≡ ok a5
      → token_info_new spl v.base_mint a4 0 ≡ ok base_info
      → token_info_new spl v.quote_mint a5 0 ≡ ok quote_info
      → slot accounts 6 v.vault_base_key ≡ ok a6
      → slot accounts 7 v.vault_quote_key ≡ ok a7
      → slot accounts 8 sdk.sysvar_clock_id ≡ ok a8
      → ok_or (decode_clock a8.bytes) (deserialization_failed (static_str "Clock sysvar too short"))
        ≡ ok clock
      → ext_keys_of sdk strategy a0.bytes ≡ ok fresh
      → Snapshot accounts v (
          commit sdk spl strategy mm cfg a0.bytes a1.bytes a2.bytes a3.bytes fresh
            (ext_data_of accounts fresh v.ext_keys)
            base_info
            quote_info
            clock
            v)
  from_slots {accounts} {v} a0 a1 a2 a3 a4 a5 a6 a7 a8 strategy mm cfg b q clock fresh e0 e1 e2 e3
        e4 e5 e6 e7 e8 e9 e10 e11 e12 e13 e14 e15 =
      snapshot a0 a1 a2 a3 a4 a5 a6 a7 a8 strategy mm cfg b q clock fresh
        (slot-eq-ok _ 0 v.strategy_key a0 e0) (map_err-eq-ok _ _ e1) (slot-eq-ok _ 1 v.mm_key a1 e2)
        (map_err-eq-ok _ _ e3) (slot-eq-ok _ 2 v.quotes_key a2 e4)
        (slot-eq-ok _ 3 v.global_config_key a3 e5) (map_err-eq-ok _ _ e6)
        (slot-eq-ok _ 4 v.base_mint a4 e7) (slot-eq-ok _ 5 v.quote_mint a5 e8) e9 e10
        (slot-eq-ok _ 6 v.vault_base_key a6 e11) (slot-eq-ok _ 7 v.vault_quote_key a7 e12)
        (slot-eq-ok _ 8 sdk.sysvar_clock_id a8 e13) (ok_or-eq-ok _ _ e14) e15

  ruleset leads_rules = (run-Leads, try-Leads, modify-Leads, from_slots)

  refresh_from-Leads :
      (v : QuayVenue) (accounts : List (Option Account))
      → Leads (Snapshot accounts v) v (refresh_from sdk spl v accounts)
  unfolding refresh_from
  refresh_from-Leads v accounts = search leads_rules depth 60

  -- A successful refresh of `v` ended in `v'`.
  abbrev pub Refreshed :
      (List Pubkey → Result AccountCacheError (List (Option Account)))
      → QuayVenue
      → QuayVenue
      → Type 0
  Refreshed get_accounts v v' =
      (accounts : List (Option Account)) × (get_accounts (fixed_keys sdk v ++ v.ext_keys)
        ≡ ok accounts)
      × (length accounts ≡ length (fixed_keys sdk v ++ v.ext_keys))
      × Snapshot accounts v v'

  counted-Leads :
      (get_accounts : List Pubkey → Result AccountCacheError (List (Option Account)))
      (v : QuayVenue) (accounts : List (Option Account))
      → get_accounts (fixed_keys sdk v ++ v.ext_keys) ≡ ok accounts
      → (length accounts == length (fixed_keys sdk v ++ v.ext_keys)) ≡ true
      → Leads (Refreshed get_accounts v) v (refresh_from sdk spl v accounts)
  counted-Leads get_accounts v accounts fetched counted =
      map-Leads (λ w taken. (accounts, fetched, (==_iff _ _).0 counted, taken))
        (refresh_from-Leads v accounts)

  -- A refresh that succeeds has fetched an account list of the right length with the nine fixed accounts
  -- in their slots, all of which decode, and has written what they decode to into the venue, field by
  -- field: the data, the halts, freezes and probes, the two tokens, the clock and the binding of the
  -- external accounts. The keys of the venue are as they were.
  pub refresh_state-Refreshed :
      (get_accounts : List Pubkey → Result AccountCacheError (List (Option Account)))
      (v : QuayVenue)
      → (refresh_state sdk spl get_accounts v).0 ≡ ok tt
      → Refreshed get_accounts v (refresh_state sdk spl get_accounts v).1
  unfolding refresh_state required_update_pubkeys
  refresh_state-Refreshed get_accounts v h =
      let needed = fixed_keys sdk v ++ v.ext_keys in
      (try-Leads (Refreshed get_accounts v) v
          (λ accounts.
            run (
              if length accounts == length needed
              then ok tt
              else err (returned failed_to_fetch_multiple_account_data))
            >> refresh_from sdk spl v accounts)
          (map_err account_cache_error (get_accounts needed))
          (λ accounts e.
            check-Leads (Refreshed get_accounts v) v (length accounts == length needed) _ _ (
              counted-Leads get_accounts v accounts
                (map_err-eq-ok account_cache_error (get_accounts needed) e)))).result
        h
