-- ===== src/Tests/Route.antt =====
-- A leg of the refreshed venue, and two route instructions.
use quay_titan_integration.Prelude.{
  ℕ, ◌+◌, ◌≡◌, refl, Bool, true, false, ok, err, none, some, List, [], ◌∷◌, length, get_elem?,
  arith,
}
use quay_titan_integration.Program.Entry
use quay_titan_integration.Quay.Venue.{titan_router_id}
use quay_titan_integration.SwapRoute.{
  swap_route_v3_discriminator, quay, SwapSpecInputV2, assemble_leg_accounts, protocol_to_venue,
  build_swap_leg,
}
use quay_titan_integration.Solana.{AccountMeta, Instruction}
use quay_titan_integration.TradingVenue.Protocol
use quay_titan_integration.TradingVenue.Interface.{TradingVenue}
use quay_titan_integration.TradingVenue.Error.{exact_out_not_supported}
use quay_titan_integration.TradingVenue.TokenInfo.{TokenInfo}
use quay_titan_integration.Quay.Lifecycle.{loaded as life_loaded, refreshed}
use quay_titan_integration.Quay.Trait.{quay_venue}
use quay_titan_integration.Prelude.Int.{pos}
use quay_titan_integration.SwapRoute.Wire.{
  leg_bytes, IsBorsh, IsMachine, encode_swap_route_v3_data-injective,
}
use quay_titan_integration.SwapRoute.Side.{protocol_to_venue-side}
use quay_titan_integration.SwapRoute.Dispatch.{build_swap_leg-leg_account_metas}
use quay_titan_integration.Program.State.{AccountInfo}
use quay_titan_integration.Program.Legs.{leg_account_metas}
use quay_titan_integration.Program.QuayCpi.{side_byte}
use quay_titan_integration.Tests.Fixtures.{
  sdk, spl, answers, strategy_account, quotients, selling, swap_account_list,
}
use quay_titan_integration.Tests.Quay.{live, load_run, initialized_run, live_side}

protocol_to_venue-side_example :
    (sell_base : Bool) × (protocol_to_venue (quay_venue quotients sdk spl live) (selling 10)
      ≡ ok (quay sell_base))
    × (side_byte sell_base ≡ 0)
protocol_to_venue-side_example =
    protocol_to_venue-side quotients sdk spl refl refl live (selling 10) 0
      (refreshed (life_loaded 1 strategy_account load_run) answers) initialized_run live_side

abbrev token : TokenInfo
token = record {
  pubkey = 11;
  decimals = pos 6;
  is_token_2022 = false;
  transfer_fee = none;
  maximum_fee = none;
}

-- A venue with one canned swap instruction.
abbrev pub canned : TradingVenue ℕ
canned = record {
  initialized = true;
  program_id = 90;
  program_dependencies = [];
  market_id = 1;
  get_token_info = token ∷ [];
  protocol = Protocol.quay;
  get_required_pubkeys_for_update = ok [];
  quote = λ request. err exact_out_not_supported;
  generate_swap_instruction = λ request user. ok (swap_account_list user);
}

abbrev pub leg : List AccountMeta
leg =
    record { pubkey = 1; is_signer = false; is_writable = true }
    ∷ record { pubkey = 55; is_signer = false; is_writable = false }
    ∷ record { pubkey = 90; is_signer = false; is_writable = false }
    ∷ []

abbrev pub spec : SwapSpecInputV2
spec = record { venue = quay true; from = 0; to = 1; weight_nanos = 1000000000; n_accounts = 3 }

pub leg_run : build_swap_leg canned (selling 10) 55 0 1 1000000000 ≡ ok (spec, leg)
unfolding build_swap_leg protocol_to_venue assemble_leg_accounts
leg_run = refl

abbrev info : AccountMeta → AccountInfo
info acc = record {
  key = acc.pubkey;
  is_signer = acc.is_signer;
  is_writable = acc.is_writable;
  owner = 0;
  lamports = 1;
  bytes = [];
}

abbrev infos : List AccountInfo
infos =
    info (record { pubkey = 1; is_signer = false; is_writable = true })
    ∷ info (record { pubkey = 55; is_signer = false; is_writable = false })
    ∷ info (record { pubkey = 90; is_signer = false; is_writable = false })
    ∷ []

pub unrelated : ◌≡◌ {A = Bool} false true → ◌≡◌ {A = Bool} false true
unrelated e = e

build_swap_leg-leg_account_metas_example :
    (leg_account_metas 55 infos ≡ (swap_account_list 55).accounts)
    × (spec.n_accounts ≡ length (swap_account_list 55).accounts + 1)
build_swap_leg-leg_account_metas_example =
    build_swap_leg-leg_account_metas canned (selling 10) 55 0 1 1000000000 spec leg infos
      (swap_account_list 55) leg_run refl (unrelated, ((λ e. refl), tt)) (omega arith)
      ((refl, refl, refl), ((refl, refl, refl), ((refl, refl, refl), tt)))

-- An instruction that another account signs as well.
abbrev cosigned : Instruction
cosigned = record {
  program_id = 90;
  accounts =
      record { pubkey = 2; is_signer = true; is_writable = true } ∷ (swap_account_list 55).accounts;
  bytes = [];
}

cosigned_run :
    get_elem? (assemble_leg_accounts cosigned 55 90) 0
    ≡ some (record { pubkey = 2; is_signer = true; is_writable = true })
unfolding assemble_leg_accounts
cosigned_run = refl

-- What Borsh writes for a leg.
leg_bytes-IsBorsh : IsBorsh leg_bytes
leg_bytes-IsBorsh = record { layout = λ leg machine. refl }

spec-IsMachine : IsMachine spec
spec-IsMachine = record {
  from = omega arith;
  to = omega arith;
  weight_nanos = omega arith;
  n_accounts = omega arith;
}

encode_swap_route_v3_data-injective_example :
    (◌≡◌ {A = ℕ} 7 7) × (◌≡◌ {A = ℕ} 2 2) × (spec ∷ [] ≡ spec ∷ [])
encode_swap_route_v3_data-injective_example =
    encode_swap_route_v3_data-injective leg_bytes leg_bytes-IsBorsh 7 7 2 2 (spec ∷ []) (spec ∷ [])
      (omega arith) (omega arith) (spec-IsMachine, tt) (spec-IsMachine, tt) (omega arith)
      (omega arith) refl

-- The two crates name one program and one instruction.
same_program : ◌≡◌ {A = ℕ} titan_router_id Entry.id
same_program = refl

same_instruction : ◌≡◌ {A = ℕ} swap_route_v3_discriminator Entry.discriminator
same_instruction = refl
