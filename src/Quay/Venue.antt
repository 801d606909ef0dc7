-- ===== src/Quay/Venue.antt =====
-- The state of a `QuayVenue`, and the gate that decides whether it may be routed to.
use Prim.Native.Nat.{bit_and}
use quay_titan_integration.Prelude.{
  ℕ, Bool, true, false, not, ◌&&◌, List, [], ◌∷◌, ◌==◌, ◌!=◌, length,
}
use quay_titan_integration.Prelude.Int.{ℤ}
use quay_titan_integration.Solana.{Pubkey}
use quay_titan_integration.TradingVenue.TokenInfo.{TokenInfo}
use quay_titan_integration.Quay.Sdk.{Sdk}

-- `QUAY_PROGRAM_ID` and `TITAN_ROUTER_ID`, whose base-58 texts are
-- QUayE6nexQWYNZAEqfN8FxoNwQDSu3CAzT2qq9J1ArG and T1TANpTeScyeqVzzgNViGDNrkQ6qHz9KrSBS4aNXvGT.
abbrev pub quay_program_id : Pubkey
quay_program_id = 0x7d3116d0f820c93a33d74b849df02335788234dd59b541e1b3ad0b0dc28c0306

abbrev pub titan_router_id : Pubkey
titan_router_id = 0xd4c988690b11045e2a2f74470ab0ff186e904b4c145c1835bb0ee7126e9ca906

pub record QuayVenue : Type 0 where
  pub program_id : Pubkey
  pub strategy_key : Pubkey
  pub strategy_data : List ℕ
  pub mm_key : Pubkey
  pub mm_data : List ℕ
  pub quotes_key : Pubkey
  pub quotes_data : List ℕ
  pub global_config_key : Pubkey
  pub global_config_data : List ℕ
  pub base_mint : Pubkey
  pub quote_mint : Pubkey
  pub vault_base_key : Pubkey
  pub vault_quote_key : Pubkey
  pub ext_keys : List Pubkey
  pub ext_data : List (List ℕ)
  pub tokens : List TokenInfo
  pub routing_flags : ℕ
  pub cfg_swap_halted : ℕ
  pub cfg_protocol_halted : ℕ
  pub strategy_frozen : ℕ
  pub strategy_frozen_admin : ℕ
  pub mm_frozen : ℕ
  pub mm_frozen_admin : ℕ
  pub mm_halted_admin : ℕ
  pub price_probe_base : ℕ
  pub price_probe_quote : ℕ
  pub current_slot : ℕ
  pub current_unix_sec : ℤ

abbrev pub is_empty : List ℕ → Bool
is_empty [] = true
is_empty (x ∷ xs) = false

unfoldable pub has_all_state : QuayVenue → Bool
has_all_state v =
    length v.ext_data == length v.ext_keys
    && not (is_empty v.mm_data)
    && not (is_empty v.quotes_data)
    && not (is_empty v.global_config_data)

unfoldable pub halts_clear : QuayVenue → Bool
halts_clear v =
    v.cfg_swap_halted == 0
    && v.cfg_protocol_halted == 0
    && v.strategy_frozen == 0
    && v.strategy_frozen_admin == 0
    && v.mm_frozen == 0
    && v.mm_frozen_admin == 0
    && v.mm_halted_admin == 0

module _ (sdk : Sdk) where
  unfoldable pub initialized : QuayVenue → Bool
  initialized v = bit_and v.routing_flags sdk.route_titan != 0 && has_all_state v && halts_clear v

  unfoldable pub program_dependencies : QuayVenue → List Pubkey
  program_dependencies v =
      sdk.spl_token_program_id ∷ sdk.token_2022_program_id ∷ sdk.system_program_id ∷ []
