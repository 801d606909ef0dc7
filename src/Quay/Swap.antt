-- ===== src/Quay/Swap.antt =====
-- src/quay/swap.rs: the swap instruction, and the keys of the lookup table.
pub mod Agrees
use quay_titan_integration.Prelude.{
  ℕ, Bool, Option, none, some, Result, ok, err, ok_or, ◌>>=◌, ◌>>◌, List, [], ◌∷◌, ◌++◌, map,
}
use quay_titan_integration.Solana.{Pubkey, Instruction}
use quay_titan_integration.TradingVenue.Error.{TradingVenueError, static_str, missing_state}
use quay_titan_integration.TradingVenue.Quote.{QuoteRequest}
use quay_titan_integration.TradingVenue.TokenInfo.{Spl, TokenInfo, get_token_program}
use quay_titan_integration.Quay.Sdk.{Sdk, SwapArgs}
use quay_titan_integration.Quay.Venue.{QuayVenue, program_dependencies}
use quay_titan_integration.Quay.Price.{find_token, side_of, supported}

module _ (sdk : Sdk) (spl : Spl) where
  pub token_program_for : QuayVenue → Pubkey → Option Pubkey
  token_program_for v mint = elim (find_token mint v.tokens) [
    | some t ↦ some (get_token_program spl t)
    | none ↦ none
  ]

  -- The arguments of the SDK's builder for a request.
  pub swap_args :
      QuayVenue → QuoteRequest → Pubkey → (base_program quote_program side : ℕ) → SwapArgs
  swap_args v request user base_program quote_program side = record {
    program_id = v.program_id;
    strategy = v.strategy_key;
    market_maker = v.mm_key;
    quotes = v.quotes_key;
    base_mint = v.base_mint;
    quote_mint = v.quote_mint;
    taker = user;
    taker_ata_base = spl.associated_token_address user v.base_mint base_program;
    taker_ata_quote = spl.associated_token_address user v.quote_mint quote_program;
    base_program = base_program;
    quote_program = quote_program;
    amount_in = request.amount;
    min_amount_out = 0;
    side = side;
    ext_keys = v.ext_keys;
  }

  pub build_swap_ix : QuayVenue → QuoteRequest → Pubkey → Result TradingVenueError Instruction
  build_swap_ix v request user = do
    supported request.swap_type
    side ← side_of sdk v request
    base_program ←
        ok_or (token_program_for v v.base_mint) (missing_state (static_str "base TokenInfo"))
    quote_program ←
        ok_or (token_program_for v v.quote_mint) (missing_state (static_str "quote TokenInfo"))
    ok (sdk.swap_with_ext (swap_args v request user base_program quote_program side))

  pub get_lookup_table_keys : QuayVenue → Result TradingVenueError (List Pubkey)
  get_lookup_table_keys v = ok (
      (v.program_id ∷ v.global_config_key ∷ v.strategy_key ∷ v.mm_key ∷ v.quotes_key
        ∷ v.vault_base_key ∷ v.vault_quote_key ∷ v.base_mint ∷ v.quote_mint
        ∷ sdk.instructions_sysvar_id ∷ [])
      ++ (v.ext_keys ++ program_dependencies sdk v))
