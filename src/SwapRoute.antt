-- ===== src/SwapRoute.antt =====
-- src/swap_route/mod.rs: from a venue and a request to a route leg, and the data of the route
-- instruction. What the derived Borsh code writes for a leg is the parameter `serialize`; writing into
-- a vector does not fail.
pub mod Legs
pub mod Wire
pub mod Side
pub mod Dispatch
pub mod Performed
use Prim.Native.String.{String}
use quay_titan_integration.Prelude.{
  ℕ, ◌%◌, ◌^◌, Bool, false, Option, none, some, Result, ok, err, ok_or, ◌>>=◌, List, [], ◌∷◌, ◌++◌,
  map, ◌==◌, if◌then◌else◌, length, get_elem?,
}
use quay_titan_integration.Prelude.Bytes.{le_bytes}
use quay_titan_integration.Solana.{Pubkey, AccountMeta, Instruction, new_readonly}
use quay_titan_integration.TradingVenue.Error.{TradingVenueError, static_str, missing_state}
use quay_titan_integration.TradingVenue.Protocol.{PoolProtocol, quay as quay_protocol}
use quay_titan_integration.TradingVenue.Quote.{QuoteRequest}
use quay_titan_integration.TradingVenue.Interface.{TradingVenue}

pub data Venue : Type 0 where
  quay : (sell_base : Bool) → Venue

pub record SwapSpecInputV2 : Type 0 where
  pub venue : Venue
  pub from : ℕ
  pub to : ℕ
  pub weight_nanos : ℕ
  pub n_accounts : ℕ

abbrev pub swap_route_v3_discriminator : ℕ
swap_route_v3_discriminator = 42

abbrev pub route_weight_all : ℕ
route_weight_all = 1000000000

-- The meta of a leg: TitanPDA does not sign.
abbrev pub unsigned : Pubkey → AccountMeta → AccountMeta
unsigned titan_pda acc =
    if acc.pubkey == titan_pda
    then record { pubkey = acc.pubkey; is_signer = false; is_writable = acc.is_writable }
    else acc

unfoldable pub assemble_leg_accounts : Instruction → Pubkey → Pubkey → List AccountMeta
assemble_leg_accounts swap_ix titan_pda venue_program_id =
    map (unsigned titan_pda) swap_ix.accounts ++ new_readonly venue_program_id false ∷ []

module _ {F : Type 0} (venue : TradingVenue F) where
  unfoldable pub protocol_to_venue : QuoteRequest → Result TradingVenueError Venue
  protocol_to_venue request = elim venue.protocol [
    | quay_protocol ↦ do
      base ← ok_or (get_elem? venue.get_token_info 0) (missing_state (static_str "Quay token info"))
      ok (quay (request.input_mint == base.pubkey))
  ]

  unfoldable pub build_swap_leg :
      QuoteRequest
      → Pubkey
      → (from to weight_nanos : ℕ) → Result TradingVenueError (SwapSpecInputV2 × List AccountMeta)
  build_swap_leg request titan_pda from to weight_nanos = do
    swap_ix ← venue.generate_swap_instruction request titan_pda
    selector ← protocol_to_venue request
    let accounts = assemble_leg_accounts swap_ix titan_pda venue.program_id in
        ok (
          record {
            venue = selector;
            from = from;
            to = to;
            weight_nanos = weight_nanos;
            n_accounts = length accounts % 256;
          },
          accounts,
        )

module _ (serialize : SwapSpecInputV2 → List ℕ) where
  pub serialize_all : List SwapSpecInputV2 → List ℕ
  serialize_all [] = []
  serialize_all (swap ∷ swaps) = serialize swap ++ serialize_all swaps

  pub encode_swap_route_v3_data : (amount mints : ℕ) → List SwapSpecInputV2 → List ℕ
  encode_swap_route_v3_data amount mints swaps =
      swap_route_v3_discriminator
      ∷ (le_bytes 8 amount ++ (mints ∷ (le_bytes 4 (length swaps % 2 ^ 32) ++ serialize_all swaps)))
