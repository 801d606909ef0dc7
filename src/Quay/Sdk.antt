-- ===== src/Quay/Sdk.antt =====
-- What the adapter uses of the crates `quay_sdk` and `solana_sdk_ids`: constants, account decoders,
-- address derivation, the swap simulator and the instruction builder. Their code is not in this
-- repository, so they are a record. A decoder's error is its rendered message.
use Prim.Native.String.{String}
use quay_titan_integration.Prelude.{ℕ, Result, List}
use quay_titan_integration.Prelude.Int.{ℤ}
use quay_titan_integration.Solana.{Pubkey, Instruction}

-- The fields of the three headers that the adapter reads; addresses are 32-byte arrays.
pub record StrategyHeader : Type 0 where
  pub base_mint : List ℕ
  pub quote_mint : List ℕ
  pub owner : List ℕ
  pub quotes_account : List ℕ
  pub routing_flags : ℕ
  pub frozen : ℕ
  pub frozen_admin : ℕ
  pub price_probe_base : ℕ
  pub price_probe_quote : ℕ

pub record MarketMakerHeader : Type 0 where
  pub frozen : ℕ
  pub frozen_admin : ℕ
  pub halted_admin : ℕ

pub record GlobalConfig : Type 0 where
  pub swap_halted : ℕ
  pub protocol_halted : ℕ

pub record ExtAccount : Type 0 where
  pub key : Pubkey
  pub bytes : List ℕ

pub record TxContext : Type 0 where
  pub ix_depth : ℕ
  pub tx_flags : ℕ
  pub entrypoint_program : Pubkey
  pub signers : List Pubkey

pub record SwapSimulationInputs : Type 0 where
  pub strategy_data : List ℕ
  pub market_maker_data : List ℕ
  pub quotes_data : List ℕ
  pub global_config_data : List ℕ
  pub current_slot : ℕ
  pub current_unix_sec : ℤ
  pub side : ℕ
  pub amount_in : ℕ
  pub min_amount_out : ℕ
  pub base_decimals : ℕ
  pub quote_decimals : ℕ
  pub tx : TxContext
  pub last_restart_slot : ℕ
  pub ext_accounts : List ExtAccount

-- The arguments of `ix::swap_with_ext`, in its order.
pub record SwapArgs : Type 0 where
  pub program_id : Pubkey
  pub strategy : Pubkey
  pub market_maker : Pubkey
  pub quotes : Pubkey
  pub base_mint : Pubkey
  pub quote_mint : Pubkey
  pub taker : Pubkey
  pub taker_ata_base : Pubkey
  pub taker_ata_quote : Pubkey
  pub base_program : Pubkey
  pub quote_program : Pubkey
  pub amount_in : ℕ
  pub min_amount_out : ℕ
  pub side : ℕ
  pub ext_keys : List Pubkey

pub record Sdk : Type 0 where
  pub route_titan : ℕ
  pub side_sell_base : ℕ
  pub side_buy_base : ℕ
  pub disc_init_strategy : ℕ
  pub instructions_sysvar_id : Pubkey
  pub spl_token_program_id : Pubkey
  pub token_2022_program_id : Pubkey
  pub system_program_id : Pubkey
  pub sysvar_clock_id : Pubkey
  pub strategy_from_account : List ℕ → Result String StrategyHeader
  pub ext_account_keys : StrategyHeader → List ℕ → Result String (List (List ℕ))
  pub market_maker_from_account : List ℕ → Result String MarketMakerHeader
  pub global_config_from_account : List ℕ → Result String GlobalConfig
  pub market_maker_pda : Pubkey → Pubkey → Pubkey
  pub global_config_pda : Pubkey → Pubkey
  pub vault_pda : Pubkey → Pubkey → Pubkey → Pubkey
  -- `simulate_swap_in(inputs, scratch)`, its `out_to_taker`; the scratch buffer is working space.
  pub simulate_swap_in : SwapSimulationInputs → Result String ℕ
  pub swap_with_ext : SwapArgs → Instruction
