-- ===== src/TradingVenue/Interface.antt =====
-- The trait `TradingVenue` of src/trading_venue/mod.rs: the methods that every venue implements, as a
-- record, and the methods that the trait provides, as functions of it.
pub mod Directions
use quay_titan_integration.Prelude.{
  ℕ, zero, suc, Bool, Result, ok, Fault, List, [], ◌∷◌, ◌++◌, map, ◌==◌, ltb, if◌then◌else◌, length,
  get_elem?, ok_or, lift, ◌>>=◌,
}
use quay_titan_integration.Prelude.Int.{ℤ}
use quay_titan_integration.Solana.{Pubkey, Instruction}
use quay_titan_integration.TradingVenue.Protocol.{PoolProtocol}
use quay_titan_integration.TradingVenue.Error.{TradingVenueError, token_info_index_error}
use quay_titan_integration.TradingVenue.Quote.{QuoteRequest, QuoteResult, exact_in}
use quay_titan_integration.TradingVenue.TokenInfo.{TokenInfo}
use quay_titan_integration.TradingVenue.Bounds.{find_boundaries}

pub record TradingVenue (F : Type 0) : Type 0 where
  pub initialized : Bool
  pub program_id : Pubkey
  pub program_dependencies : List Pubkey
  pub market_id : Pubkey
  pub get_token_info : List TokenInfo
  pub protocol : PoolProtocol
  pub get_required_pubkeys_for_update : Result TradingVenueError (List Pubkey)
  pub quote : QuoteRequest → Result TradingVenueError (QuoteResult F)
  pub generate_swap_instruction : QuoteRequest → Pubkey → Result TradingVenueError Instruction

-- The numbers from `from`, `count` of them, that fit a `u8`.
u8_indices : ℕ → ℕ → List ℕ
u8_indices from zero = []
u8_indices from (suc count) =
    if ltb from 256 then from ∷ u8_indices (suc from) count else u8_indices (suc from) count

-- The pairs `(i, j)` for the indices `j` other than `i`.
pairs_from : ℕ → List ℕ → List (ℕ × ℕ)
pairs_from i [] = []
pairs_from i (j ∷ js) = if i == j then pairs_from i js else (i, j) ∷ pairs_from i js

all_pairs : List ℕ → List ℕ → List (ℕ × ℕ)
all_pairs [] js = []
all_pairs (i ∷ is) js = pairs_from i js ++ all_pairs is js

module _ {F : Type 0} (venue : TradingVenue F) where
  pub tradable_mints : Result TradingVenueError (List Pubkey)
  tradable_mints = ok (map (λ t. t.pubkey) venue.get_token_info)

  pub directions_num : List (ℕ × ℕ)
  directions_num =
      let indices = u8_indices 0 (length venue.get_token_info) in all_pairs indices indices

  pub decimals : Result TradingVenueError (List ℤ)
  decimals = ok (map (λ t. t.decimals) venue.get_token_info)

  unfoldable pub get_token : ℕ → Result TradingVenueError TokenInfo
  get_token i = ok_or (get_elem? venue.get_token_info i) (token_info_index_error i)

  -- `bounds`: the search over this venue's own `quote`.
  unfoldable pub bounds : ℕ → ℕ → Result (Fault TradingVenueError) (ℕ × ℕ)
  bounds tkn_in_ind tkn_out_ind = do
    input ← lift (get_token tkn_in_ind)
    output ← lift (get_token tkn_out_ind)
    find_boundaries (λ x. venue.quote (record {
      input_mint = input.pubkey;
      output_mint = output.pubkey;
      amount = x;
      swap_type = exact_in;
    }))
