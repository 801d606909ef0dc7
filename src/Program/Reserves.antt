-- ===== src/Program/Reserves.antt =====
-- instructions/swap_route_v3.rs: the balances of TitanPDA's token accounts, recorded before the trades
-- and compared after them.
pub mod Recorded
pub mod Kept
pub mod Reserved
pub mod Exact
use quay_titan_integration.Prelude.{
  ℕ, suc, ◌+◌, Bool, true, false, Option, none, some, Result, ok, err, List, [], ◌∷◌, ◌++◌, ltb,
  leb, if◌then◌else◌, get_elem?, replicate,
}
use quay_titan_integration.Prelude
use quay_titan_integration.Solana.{Pubkey}
use quay_titan_integration.Program.State.{
  TemplateError, invalid_account_data, reserved_balance_violation, AccountInfo, max_mints,
}
use quay_titan_integration.Program.Accounts.{
  TokenIds, extract_token_amount, is_titan_pda_token_account,
}
use quay_titan_integration.Program.Bitmap.{TitanPdaBitmap, new, set, is_set}
use quay_titan_integration.Program.Runtime.{
  Handle, Act, ProgramError, ◌>>=◌, ◌>>◌, done, try, index, need, see,
}

-- The bitmap, the balances of the marked accounts in order, and the reserves of the route's mints.
pub record Ledger : Type 0 where
  pub marks : TitanPdaBitmap
  pub balances : List ℕ
  pub reserved : List ℕ

abbrev pub empty_ledger : Ledger
empty_ledger = record { marks = new; balances = []; reserved = replicate max_mints 0 }

-- An account of the route's mints.
abbrev pub record_mint : ℕ → ℕ → Ledger → Ledger
record_mint i balance ledger = record {
  marks = set ledger.marks i;
  balances = ledger.balances ++ balance ∷ [];
  reserved = Prelude.set ledger.reserved i balance;
}

-- An account of a leg that is TitanPDA's.
abbrev pub record_other : ℕ → ℕ → Ledger → Ledger
record_other i balance ledger = record {
  marks = set ledger.marks i;
  balances = ledger.balances ++ balance ∷ [];
  reserved = ledger.reserved;
}

abbrev pub unwrap_or_zero : Result TemplateError ℕ → ℕ
unwrap_or_zero (ok balance) = balance
unwrap_or_zero (err e) = 0

module _ (ids : TokenIds) (mints : ℕ) (titan_pda : Pubkey) where
  -- The body of the first loop for account `i`.
  unfoldable pub take_balance : ℕ → Handle → Ledger → Act Ledger
  take_balance i handle ledger = do
    account ← see handle
    if ltb i mints
        then (do
          need (is_titan_pda_token_account ids account titan_pda) invalid_account_data
          balance ← try (extract_token_amount account)
          done (record_mint i balance ledger))
        else (if is_titan_pda_token_account ids account titan_pda
            then (do
              balance ← try (extract_token_amount account)
              done (record_other i balance ledger))
            else done ledger)

  unfoldable pub take_balances : ℕ → List Handle → Ledger → Act Ledger
  take_balances i [] ledger = done ledger
  take_balances i (handle ∷ handles) ledger = do
    next ← take_balance i handle ledger
    take_balances (suc i) handles next

-- The last loop, from account `i` and balance `balance_idx` on.
unfoldable pub check_balances : TitanPdaBitmap → List ℕ → ℕ → ℕ → List Handle → Act (Unit {0})
check_balances marks balances i balance_idx [] = done tt
check_balances marks balances i balance_idx (handle ∷ handles) =
    let rest = λ (idx : ℕ). check_balances marks balances (suc i) idx handles in
    if is_set marks i
    then (do
      account ← see handle
      before ← index (get_elem? balances balance_idx)
      need (leb before (unwrap_or_zero (extract_token_amount account))) reserved_balance_violation
      rest (suc balance_idx))
    else rest balance_idx
