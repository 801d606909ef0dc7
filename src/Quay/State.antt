-- ===== src/Quay/State.antt =====
-- src/quay/state.rs: `FromAccount for QuayVenue`, `required_update_pubkeys` and `refresh_state`, each in
-- the order of the source. The accounts cache is the function `get_accounts`.
pub mod Atomic
pub mod Safe
pub mod Snapshot
pub mod External
use Prim.Native.String.{String, ◌++◌ as ◌+str+◌}
use quay_titan_integration.Prelude.{
  ℕ, suc, ◌+◌, Bool, true, false, ◌&&◌, Option, none, some, Result, ok, err, Fault, returned,
  map_err, or_panic, ok_or, List, [], ◌∷◌, ◌++◌, map, ◌==◌, if◌then◌else◌, length, get_elem?,
}
use quay_titan_integration.Prelude
use quay_titan_integration.Solana.{Pubkey, Account, new_from_array}
use quay_titan_integration.TradingVenue.Error.{
  TradingVenueError, AccountCacheError, ErrorInfo, string, pubkey as pubkey_info, static_str,
  deserialization_failed, no_account_found, account_cache_error,
  failed_to_fetch_multiple_account_data,
}
use quay_titan_integration.TradingVenue.TokenInfo.{Spl, TokenInfo, token_info_new}
use quay_titan_integration.Quay.Sdk.{Sdk, StrategyHeader, MarketMakerHeader, GlobalConfig}
use quay_titan_integration.Quay.Clock.{decode_clock}
use quay_titan_integration.Quay.Venue.{QuayVenue}
use quay_titan_integration.Quay.Step.{Step, Outcome, ◌>>=◌, ◌>>◌, gets, run, try, modify}

-- `TradingVenueError::DeserializationFailed(format!("{what}: {e}").into())`
abbrev pub undecoded : String → String → TradingVenueError
undecoded what e = deserialization_failed (string (what +str+ e))

module _ (sdk : Sdk) where
  -- The binding of a strategy's external accounts, as pubkeys.
  unfoldable pub ext_keys_of : StrategyHeader → List ℕ → Result TradingVenueError (List Pubkey)
  ext_keys_of strategy bytes =
      Prelude.◌>>=◌ (map_err (undecoded "ext binding: ") (sdk.ext_account_keys strategy bytes))
        (λ keys. ok (map new_from_array keys))

  -- The venue that `from_account` returns for a decoded strategy and its external keys.
  unfoldable pub new_venue : Pubkey → Account → StrategyHeader → List Pubkey → QuayVenue
  new_venue pubkey account strategy ext_keys =
      let program_id = account.owner in
      let base_mint = new_from_array strategy.base_mint in
      let quote_mint = new_from_array strategy.quote_mint in
      let strategy_owner = new_from_array strategy.owner in
      let mm_key = sdk.market_maker_pda program_id strategy_owner in
      record {
        program_id = program_id;
        strategy_key = pubkey;
        strategy_data = account.bytes;
        mm_key = mm_key;
        mm_data = [];
        quotes_key = new_from_array strategy.quotes_account;
        quotes_data = [];
        global_config_key = sdk.global_config_pda program_id;
        global_config_data = [];
        base_mint = base_mint;
        quote_mint = quote_mint;
        vault_base_key = sdk.vault_pda program_id mm_key base_mint;
        vault_quote_key = sdk.vault_pda program_id mm_key quote_mint;
        ext_keys = ext_keys;
        ext_data = [];
        tokens = [];
        routing_flags = strategy.routing_flags;
        cfg_swap_halted = 1;
        cfg_protocol_halted = 1;
        strategy_frozen = 1;
        strategy_frozen_admin = 1;
        mm_frozen = 1;
        mm_frozen_admin = 1;
        mm_halted_admin = 1;
        price_probe_base = strategy.price_probe_base;
        price_probe_quote = strategy.price_probe_quote;
        current_slot = 0;
        current_unix_sec = Prelude.Int.pos 0;
      }

  unfoldable pub from_account : Pubkey → Account → Result TradingVenueError QuayVenue
  from_account pubkey account =
      Prelude.◌>>=◌
        (map_err (undecoded "StrategyHeader: ") (sdk.strategy_from_account account.bytes))
        (λ strategy.
          Prelude.◌>>=◌ (ext_keys_of strategy account.bytes)
            (λ ext_keys. ok (new_venue pubkey account strategy ext_keys)))

  -- The keys of slots 0 to 8.
  abbrev pub fixed_keys : QuayVenue → List Pubkey
  fixed_keys v =
      v.strategy_key ∷ v.mm_key ∷ v.quotes_key ∷ v.global_config_key ∷ v.base_mint ∷ v.quote_mint
      ∷ v.vault_base_key ∷ v.vault_quote_key ∷ sdk.sysvar_clock_id ∷ []

  unfoldable pub required_update_pubkeys : QuayVenue → Result TradingVenueError (List Pubkey)
  required_update_pubkeys v = ok (fixed_keys v ++ v.ext_keys)

-- `accounts[i].as_ref().ok_or_else(|| NoAccountFound(key.into()))?`
unfoldable pub slot : List (Option Account) → ℕ → Pubkey → Outcome Account
slot accounts i key =
    Prelude.◌>>=◌ (or_panic (get_elem? accounts i))
      (λ entry. ok_or entry (returned (no_account_found (pubkey_info key))))

-- `==` on `Vec<Pubkey>`
unfoldable pub same_keys : List Pubkey → List Pubkey → Bool
same_keys [] [] = true
same_keys [] (k ∷ ks) = false
same_keys (j ∷ js) [] = false
same_keys (j ∷ js) (k ∷ ks) = j == k && same_keys js ks

-- `accounts.get(i).and_then(|a| a.as_ref())`
abbrev pub present : List (Option Account) → ℕ → Option Account
present accounts i = elim (get_elem? accounts i) [ none ↦ none | some entry ↦ entry ]

-- The loop over the bound keys: their accounts from slot `i` on, or nothing when one is missing.
unfoldable pub collect_ext : List (Option Account) → ℕ → List Pubkey → List (List ℕ) → List (List ℕ)
collect_ext accounts i [] found = found
collect_ext accounts i (key ∷ keys) found =
    let rest =
      λ (account : Account). collect_ext accounts (suc i) keys (found ++ account.bytes ∷ []) in
    elim (present accounts i) [ some account ↦ rest account | none ↦ [] ]

-- The data of the external accounts, fetched under the previous binding `old`.
unfoldable pub ext_data_of : List (Option Account) → List Pubkey → List Pubkey → List (List ℕ)
ext_data_of accounts fresh old =
    if same_keys fresh old
    then (let data_found = collect_ext accounts 9 fresh [] in
        if length data_found == length fresh then data_found else [])
    else []

module _ (sdk : Sdk) (spl : Spl) where
  -- The writes at the end of `refresh_state`.
  abbrev pub commit :
      StrategyHeader
      → MarketMakerHeader
      → GlobalConfig
      → (strategy_data mm_data quotes_data config_data : List ℕ) → List Pubkey
      → List (List ℕ)
      → TokenInfo
      → TokenInfo
      → ℕ × Prelude.Int.ℤ
      → QuayVenue
      → QuayVenue
  commit strategy mm cfg strategy_data mm_data quotes_data config_data keys ext base_info quote_info
        clock self =
      record self {
        strategy_data = strategy_data;
        ext_keys = keys;
        ext_data = ext;
        strategy_frozen = strategy.frozen;
        strategy_frozen_admin = strategy.frozen_admin;
        routing_flags = strategy.routing_flags;
        price_probe_base = strategy.price_probe_base;
        price_probe_quote = strategy.price_probe_quote;
        mm_data = mm_data;
        mm_frozen = mm.frozen;
        mm_frozen_admin = mm.frozen_admin;
        mm_halted_admin = mm.halted_admin;
        quotes_data = quotes_data;
        global_config_data = config_data;
        cfg_swap_halted = cfg.swap_halted;
        cfg_protocol_halted = cfg.protocol_halted;
        tokens = base_info ∷ quote_info ∷ [];
        current_slot = clock.0;
        current_unix_sec = clock.1;
      }

  -- `refresh_state` from slot 0 on: `self` is the venue at the call.
  unfoldable pub refresh_from : QuayVenue → List (Option Account) → Step (Unit {0})
  refresh_from self accounts = do
    strategy_account ← run (slot accounts 0 self.strategy_key)
    strategy ←
        try (
          map_err (undecoded "StrategyHeader: ") (sdk.strategy_from_account strategy_account.bytes))
    mm_account ← run (slot accounts 1 self.mm_key)
    mm ←
        try (
          map_err (undecoded "MarketMakerHeader: ")
            (sdk.market_maker_from_account mm_account.bytes))
    quotes_account ← run (slot accounts 2 self.quotes_key)
    cfg_account ← run (slot accounts 3 self.global_config_key)
    cfg ←
        try
          (map_err (undecoded "GlobalConfig: ") (sdk.global_config_from_account cfg_account.bytes))
    base_mint_account ← run (slot accounts 4 self.base_mint)
    quote_mint_account ← run (slot accounts 5 self.quote_mint)
    base_info ← try (token_info_new spl self.base_mint base_mint_account 0)
    quote_info ← try (token_info_new spl self.quote_mint quote_mint_account 0)
    vault_base ← run (slot accounts 6 self.vault_base_key)
    vault_quote ← run (slot accounts 7 self.vault_quote_key)
    clock_account ← run (slot accounts 8 sdk.sysvar_clock_id)
    clock ← try (
        ok_or (decode_clock clock_account.bytes)
          (deserialization_failed (static_str "Clock sysvar too short")))
    fresh ← try (ext_keys_of sdk strategy strategy_account.bytes)
    modify (
        commit strategy mm cfg strategy_account.bytes mm_account.bytes quotes_account.bytes
          cfg_account.bytes fresh (ext_data_of accounts fresh self.ext_keys) base_info quote_info
          clock)

  unfoldable pub refresh_state :
      (List Pubkey → Result AccountCacheError (List (Option Account))) → Step (Unit {0})
  refresh_state get_accounts = do
    self ← gets (λ v. v)
    needed ← try (required_update_pubkeys sdk self)
    accounts ← try (map_err account_cache_error (get_accounts needed))
    run (
        if length accounts == length needed
        then ok tt
        else err (returned failed_to_fetch_multiple_account_data))
    refresh_from self accounts
