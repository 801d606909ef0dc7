-- ===== src/Program/Accounts/Layout.antt =====
-- The reads of token accounts and of the token ledger, against the layouts of those accounts.
use quay_titan_integration.Prelude.{
  ℕ, ◌^◌, ◌≤◌, ◌<◌, ◌≡◌, refl, true, false, some, Result, ok, err, List, ◌++◌, ◌==◌, ==_iff, ltb,
  if◌then◌else◌, length, length-append, slice?, slice?-middle, slice?-enough, append_assoc, arith,
  ap,
}
use quay_titan_integration.Prelude.Bytes.{
  le_bytes, length-le_bytes, from_le_bytes, from_le_bytes-le_bytes,
}
use quay_titan_integration.Solana.{Pubkey, new_from_array}
use quay_titan_integration.Program.State.{TemplateError, invalid_account_data, AccountInfo}
use quay_titan_integration.Program.Accounts.{
  TokenIds, extract_token_amount, extract_token_owner, is_titan_pda_token_account, owned_by,
  read_ledger_data, read_token_ledger,
}

module _ (account : AccountInfo) (mint owner rest : List ℕ) (amount : ℕ) where
  -- Of an account whose data is a mint, an owner and an amount, in that order, and anything more, the
  -- program reads that owner and that amount.
  extract_token-layout :
      account.bytes ≡ mint ++ (owner ++ (le_bytes 8 amount ++ rest))
      → length mint ≡ 32
      → length owner ≡ 32
      → amount < 2 ^ 64
      → (extract_token_owner account ≡ ok (new_from_array owner))
        × (extract_token_amount account ≡ ok amount)
  unfolding extract_token_owner extract_token_amount
  extract_token-layout held m o small =
      let owner_part : slice? account.bytes 32 64 ≡ some owner =
        rw held (slice?-middle 32 64 mint owner (le_bytes 8 amount ++ rest) m (omega arith)) in
      let amount_part : slice? account.bytes 64 72 ≡ some (le_bytes 8 amount) =
        rw (held, ← append_assoc mint owner (le_bytes 8 amount ++ rest))
          (slice?-middle 64 72 (mint ++ owner) (le_bytes 8 amount) rest
            (omega (arith, length-append mint owner))
            (omega (arith, length-append mint owner, length-le_bytes 8 amount))) in
      (rw owner_part refl, rw amount_part (ap ok (from_le_bytes-le_bytes 8 amount small)))

owned_by-ok :
    (authority : Pubkey) (r : Result TemplateError Pubkey)
    → owned_by authority r ≡ true
    → r ≡ ok authority
owned_by-ok authority (ok owner) h = ap ok ((==_iff owner authority).0 h)
owned_by-ok authority (err e) h = cc

module _ (ids : TokenIds) (account : AccountInfo) (authority : Pubkey) where
  -- An account that passes for a token account of TitanPDA is owned by it, and its amount can be read.
  pub is_titan_pda_token_account-amount :
      is_titan_pda_token_account ids account authority ≡ true
      → (extract_token_owner account ≡ ok authority)
        × ((amount : ℕ) × (extract_token_amount account ≡ ok amount))
  unfolding is_titan_pda_token_account extract_token_amount
  is_titan_pda_token_account-amount h =
      let long : 165 ≤ length account.bytes = ground arith in
      let owned : owned_by authority (extract_token_owner account) ≡ true = ground arith in
      let (bytes, found) = slice?-enough account.bytes 64 72 (omega arith) (omega arith) in
      (
        owned_by-ok authority (extract_token_owner account) owned,
        (from_le_bytes bytes, rw found refl),
      )

module _ (ledger input : AccountInfo) (head key rest : List ℕ) (amount : ℕ) where
  -- A token ledger holds eight bytes, a token account's key and an amount: its amount counts when the
  -- key is that of the input account, and any other key is an error.
  read_token_ledger-layout :
      ledger.bytes ≡ head ++ (key ++ (le_bytes 8 amount ++ rest))
      → length head ≡ 8
      → length key ≡ 32
      → amount < 2 ^ 64
      → read_token_ledger (some ledger) input
        ≡ (if new_from_array key == input.key then ok (some amount) else err invalid_account_data)
  unfolding read_token_ledger read_ledger_data
  read_token_ledger-layout held h k small =
      let long : ltb (length ledger.bytes) 48 ≡ false = rw held (
        ground (
          arith,
          length-append head (key ++ (le_bytes 8 amount ++ rest)),
          length-append key (le_bytes 8 amount ++ rest),
          length-append (le_bytes 8 amount) rest,
          length-le_bytes 8 amount,
        )) in
      let key_part : slice? ledger.bytes 8 40 ≡ some key =
        rw held (slice?-middle 8 40 head key (le_bytes 8 amount ++ rest) h (omega arith)) in
      let amount_part : slice? ledger.bytes 40 48 ≡ some (le_bytes 8 amount) =
        rw (held, ← append_assoc head key (le_bytes 8 amount ++ rest))
          (slice?-middle 40 48 (head ++ key) (le_bytes 8 amount) rest
            (omega (arith, length-append head key))
            (omega (arith, length-append head key, length-le_bytes 8 amount))) in
      rw (long, key_part, amount_part, from_le_bytes-le_bytes 8 amount small) (ground arith)
