-- ===== src/TradingVenue/TokenInfo.antt =====
-- src/trading_venue/token_info.rs. The mint decoder, the token programs' ids and the derivation of
-- associated token addresses belong to the SPL crates: they are the record `Spl`.
use quay_titan_integration.Prelude.{
  ℕ, ◌≡◌, Bool, Option, none, some, Result, ok, err, List, ◌==◌, if◌then◌else◌, arith,
}
use quay_titan_integration.Prelude.Int.{ℤ, pos}
use quay_titan_integration.Solana.{Pubkey, Account}
use quay_titan_integration.TradingVenue.Error.{
  TradingVenueError, deserialization_failed, pubkey as pubkey_info,
}

-- What the program reads of an unpacked mint: its decimals, and the transfer-fee extension as the
-- basis points and the largest fee of each epoch.
pub record Mint : Type 0 where
  pub decimals : ℕ
  pub transfer_fee_config : Option (ℕ → ℕ × ℕ)

pub record Spl : Type 0 where
  pub unpack_mint : List ℕ → Option Mint
  pub token_id : Pubkey
  pub token_2022_id : Pubkey
  pub associated_token_address : Pubkey → Pubkey → Pubkey → Pubkey

pub record TokenInfo : Type 0 where
  pub pubkey : Pubkey
  pub decimals : ℤ
  pub is_token_2022 : Bool
  pub transfer_fee : Option ℕ
  pub maximum_fee : Option ℕ

module _ (spl : Spl) where
  -- The fields of a decoded mint. The decimals are a `u8`, so `as i32` keeps them.
  unfoldable pub from_mint : Pubkey → Account → ℕ → Mint → TokenInfo
  from_mint key account epoch mint = record {
    pubkey = key;
    decimals = pos mint.decimals;
    is_token_2022 = account.owner == spl.token_2022_id;
    transfer_fee = elim mint.transfer_fee_config [ none ↦ none | some fees ↦ some (fees epoch).0 ];
    maximum_fee = elim mint.transfer_fee_config [ none ↦ none | some fees ↦ some (fees epoch).1 ];
  }

  -- `TokenInfo::new`
  unfoldable pub token_info_new : Pubkey → Account → ℕ → Result TradingVenueError TokenInfo
  token_info_new key account epoch = elim (spl.unpack_mint account.bytes) [
    | some mint ↦ ok (from_mint key account epoch mint)
    | none ↦ err (deserialization_failed (pubkey_info key))
  ]

  pub get_token_program : TokenInfo → Pubkey
  get_token_program t = if t.is_token_2022 then spl.token_2022_id else spl.token_id

  pub get_associated_token_address : TokenInfo → Pubkey → Pubkey
  get_associated_token_address t wallet =
      spl.associated_token_address wallet t.pubkey (get_token_program t)

  -- The metadata of a mint names that mint.
  pub token_info_new-pubkey :
      (key : Pubkey) (account : Account) (epoch : ℕ) {t : TokenInfo}
      → token_info_new key account epoch ≡ ok t
      → t.pubkey ≡ key
  unfolding token_info_new from_mint
  token_info_new-pubkey key account epoch h = ground arith
