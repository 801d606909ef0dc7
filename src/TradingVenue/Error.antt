-- ===== src/TradingVenue/Error.antt =====
-- src/trading_venue/error.rs and the error of src/account_caching/mod.rs. Errors of other crates are
-- kept as their rendered messages.
use Prim.Native.String.{String}
use quay_titan_integration.Prelude.{ℕ}
use quay_titan_integration.Solana.{Pubkey}
use quay_titan_integration.TradingVenue.Protocol.{PoolProtocol}

pub data ErrorInfo : Type 0 where
  pubkey : Pubkey → ErrorInfo
  string : String → ErrorInfo
  static_str : String → ErrorInfo

pub data AccountCacheError : Type 0 where
  failed_to_fetch_account : String → AccountCacheError
  failed_to_acquire_write_lock : AccountCacheError
  failed_to_acquire_read_lock : AccountCacheError

pub data TradingVenueError : Type 0 where
  no_account_found : ErrorInfo → TradingVenueError
  from_account_error : ErrorInfo → TradingVenueError
  failed_to_fetch_multiple_account_data : TradingVenueError
  failed_to_fetch_account_data : ErrorInfo → TradingVenueError
  deserialization_failed : ErrorInfo → TradingVenueError
  cache_unlock_failed : TradingVenueError
  not_initialized : ErrorInfo → TradingVenueError
  missing_state : ErrorInfo → TradingVenueError
  invalid_mint : ErrorInfo → TradingVenueError
  checked_math_error : ErrorInfo → TradingVenueError
  amm_method_error : ErrorInfo → TradingVenueError
  exact_out_not_supported : TradingVenueError
  data_conversion_error : ErrorInfo → TradingVenueError
  boundary_search_failed : ErrorInfo → TradingVenueError
  no_quotable_value : ErrorInfo → TradingVenueError
  something_went_wrong : String → TradingVenueError
  unsupported_venue : ErrorInfo → TradingVenueError
  token_info_index_error : ℕ → TradingVenueError
  math_error : ErrorInfo → TradingVenueError
  deserialization_error : ErrorInfo → TradingVenueError
  inactive_pool_error : Pubkey → PoolProtocol → TradingVenueError
  account_cache_error : AccountCacheError → TradingVenueError
