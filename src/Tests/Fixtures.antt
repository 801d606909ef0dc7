-- ===== src/Tests/Fixtures.antt =====
-- A small strategy with one bound account, its accounts, and stand-ins for the crates.
use quay_titan_integration.Prelude.{
  ℕ, ◌+◌, ◌*◌, ◌/◌, true, false, Option, none, some, Result, ok, err, List, [], ◌∷◌, replicate,
}
use quay_titan_integration.Prelude.Int.{pos}
use quay_titan_integration.Solana.{Pubkey, Account, Instruction}
use quay_titan_integration.TradingVenue.Error.{AccountCacheError, failed_to_acquire_read_lock}
use quay_titan_integration.TradingVenue.Quote.{QuoteRequest, exact_in}
use quay_titan_integration.TradingVenue.TokenInfo.{Spl}
use quay_titan_integration.Quay.Sdk.{Sdk, StrategyHeader}
use quay_titan_integration.Quay.Clock.{clock_layout}
use quay_titan_integration.Quay.Venue.{QuayVenue}
use quay_titan_integration.Quay.State.{new_venue}
use quay_titan_integration.Quay.Price.{F64}

abbrev pub strategy : StrategyHeader
strategy = record {
  base_mint = 11 ∷ [];
  quote_mint = 12 ∷ [];
  owner = 13 ∷ [];
  quotes_account = 14 ∷ [];
  routing_flags = 1;
  frozen = 0;
  frozen_admin = 0;
  price_probe_base = 4;
  price_probe_quote = 8;
}

abbrev pub ext_binding : List (List ℕ)
ext_binding = (21 ∷ []) ∷ []

abbrev pub swap_account_list : Pubkey → Instruction
swap_account_list taker = record {
  program_id = 90;
  accounts =
      record { pubkey = 1; is_signer = false; is_writable = true }
      ∷ record { pubkey = taker; is_signer = true; is_writable = false }
      ∷ [];
  bytes = [];
}

-- Half of the input, for any input.
abbrev pub sdk : Sdk
sdk = record {
  route_titan = 1;
  side_sell_base = 0;
  side_buy_base = 1;
  disc_init_strategy = 3;
  instructions_sysvar_id = 80;
  spl_token_program_id = 81;
  token_2022_program_id = 82;
  system_program_id = 83;
  sysvar_clock_id = 84;
  strategy_from_account = λ bytes. ok strategy;
  ext_account_keys = λ header bytes. ok ext_binding;
  market_maker_from_account =
      λ bytes. ok (record { frozen = 0; frozen_admin = 0; halted_admin = 0 });
  global_config_from_account = λ bytes. ok (record { swap_halted = 0; protocol_halted = 0 });
  market_maker_pda = λ program owner. 71;
  global_config_pda = λ program. 72;
  vault_pda = λ program owner mint. 70 + mint;
  simulate_swap_in = λ inputs. ok (inputs.amount_in / 2);
  swap_with_ext = λ args. swap_account_list args.taker;
}

abbrev pub spl : Spl
spl = record {
  unpack_mint = λ bytes. some (record { decimals = 6; transfer_fee_config = none });
  token_id = 81;
  token_2022_id = 82;
  associated_token_address = λ wallet mint program. 1000 + mint;
}

abbrev pub account : List ℕ → Account
account bytes = record { bytes = bytes; owner = 81 }

abbrev pub strategy_account : Account
strategy_account = record { bytes = 5 ∷ []; owner = 90 }

-- The venue as `from_account` returns it.
abbrev pub loaded : QuayVenue
loaded = new_venue sdk 1 strategy_account strategy (21 ∷ [])

abbrev pub clock_bytes : List ℕ
clock_bytes = clock_layout 7 (pos 9) (replicate 24 0) []

abbrev pub ten_accounts : List (Option Account)
ten_accounts =
    some strategy_account
    ∷ some (account (6 ∷ []))
    ∷ some (account (7 ∷ []))
    ∷ some (account (8 ∷ []))
    ∷ some (account [])
    ∷ some (account [])
    ∷ some (account [])
    ∷ some (account [])
    ∷ some (account clock_bytes)
    ∷ some (account (9 ∷ []))
    ∷ []

abbrev pub answers : List Pubkey → Result AccountCacheError (List (Option Account))
answers keys = ok ten_accounts

abbrev pub refused : List Pubkey → Result AccountCacheError (List (Option Account))
refused keys = err failed_to_acquire_read_lock

-- `f64` as a quotient of two numbers.
abbrev pub quotients : F64 (ℕ × ℕ)
quotients = record {
  of_u64 = λ x. (x, 1);
  divide = λ x y. (x.0 * y.1, x.1 * y.0);
  zero_price = (0, 1);
}

abbrev pub selling : ℕ → QuoteRequest
selling amount = record { input_mint = 11; output_mint = 12; amount = amount; swap_type = exact_in }
