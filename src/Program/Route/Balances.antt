-- ===== src/Program/Route/Balances.antt =====
-- Panics of the two loops over the balances in instructions/swap_route_v3.rs.
use quay_titan_integration.Prelude.{
  ℕ, suc, ◌≤◌, ◌≡◌, Bool, true, false, ◌&&◌, Option, none, some, ok, List, [], ◌∷◌, ◌++◌, ltb, leb,
  length, length-append, append_assoc, get_elem?, get_elem?-length, if◌then◌else◌, arith, ap, ◌∙◌,
  sym, subst, ok-injective, inl, inr, Bool-cases,
}
use quay_titan_integration.Solana.{Pubkey}
use quay_titan_integration.Program.State.{reserved_balance_violation}
use quay_titan_integration.Program.Accounts.{TokenIds, extract_token_amount}
use quay_titan_integration.Program.Bitmap.{TitanPdaBitmap, is_set, length-set_word}
use quay_titan_integration.Program.Runtime.{
  World, Handle, Act, view, ◌>>=◌, done, need, chain-eq-ok,
}
use quay_titan_integration.Program.Reserves.{
  Ledger, record_mint, record_other, unwrap_or_zero, take_balance, take_balances, check_balances,
}
use quay_titan_integration.Program.Reserves.Recorded.{cat, flag}
use quay_titan_integration.Program.Reserves.Kept.{flag_before, unmarked_round}
use quay_titan_integration.Program.Route.NoPanic.{
  IsSafe, safe_rules, done-IsSafe, need-IsSafe, chain-IsSafe,
}

-- The reserves keep their twelve places.
abbrev IsTwelve : Act Ledger → Type 0
IsTwelve m = (w : World) (out : Ledger) (w' : World) → m w ≡ ok (out, w') → length out.reserved ≡ 12

done-IsTwelve : (ledger : Ledger) → length ledger.reserved ≡ 12 → IsTwelve (done ledger)
done-IsTwelve ledger h w out w' e = sym (ap (λ p. length p.0.reserved) (ok-injective e)) ∙ h

chain-IsTwelve :
    {A : Type 0} (m : Act A) (k : A → Act Ledger) → ((a : A) → IsTwelve (k a)) → IsTwelve (m >>= k)
chain-IsTwelve m k rest w out w' e =
    let (a, mid, _, e1) = chain-eq-ok m k w w' out e in rest a mid out w' e1

if-IsTwelve :
    (c : Bool) (m n : Act Ledger) → IsTwelve m → IsTwelve n → IsTwelve (if c then m else n)
if-IsTwelve true m n p q = p
if-IsTwelve false m n p q = q

module _ (ids : TokenIds) (mints : ℕ) (pda : Pubkey) where
  take_balance-IsTwelve :
      (i : ℕ) (h : Handle) (ledger : Ledger)
      → length ledger.reserved ≡ 12
      → IsTwelve (take_balance ids mints pda i h ledger)
  unfolding take_balance
  take_balance-IsTwelve i h ledger twelve =
      let written = λ (b : ℕ).
        done-IsTwelve (record_mint i b ledger) (length-set_word ledger.reserved i b ∙ twelve) in
      let other = λ (b : ℕ). done-IsTwelve (record_other i b ledger) twelve in
      let same = done-IsTwelve ledger twelve in
      search (chain-IsTwelve, if-IsTwelve, written, other, same) depth 60

  pub take_balances-IsTwelve :
      (i : ℕ) (hs : List Handle) (ledger : Ledger)
      → length ledger.reserved ≡ 12
      → IsTwelve (take_balances ids mints pda i hs ledger)
  unfolding take_balances
  take_balances-IsTwelve i [] ledger twelve w out w' e = done-IsTwelve ledger twelve w out w' e
  take_balances-IsTwelve i (h ∷ hs) ledger twelve w out w' e =
      let (next, w1, first, rest) =
        chain-eq-ok (take_balance ids mints pda i h ledger) _ w w' out e in
      take_balances-IsTwelve (suc i) hs next
        (take_balance-IsTwelve i h ledger twelve w next w1 first) w1 out w' rest

  take_balance-IsSafe :
      (i : ℕ) (h : Handle) (ledger : Ledger) → IsSafe (take_balance ids mints pda i h ledger)
  unfolding take_balance
  take_balance-IsSafe i h ledger = search safe_rules depth 60

  pub take_balances-IsSafe :
      (i : ℕ) (hs : List Handle) (ledger : Ledger)
      → IsSafe (take_balances ids mints pda i hs ledger)
  unfolding take_balances
  take_balances-IsSafe i [] ledger = done-IsSafe ledger
  take_balances-IsSafe i (h ∷ hs) ledger =
      chain-IsSafe (take_balance ids mints pda i h ledger) _ (take_balance-IsSafe i h ledger)
        (λ next. take_balances-IsSafe (suc i) hs next)

unmarked-IsSafe :
    (marks : TitanPdaBitmap) (balances : List ℕ) (i idx : ℕ) (hs : List Handle)
    → ((j : ℕ) → i ≤ j → is_set marks j ≡ false)
    → IsSafe (check_balances marks balances i idx hs)
unfolding check_balances
unmarked-IsSafe marks balances i idx [] off = done-IsSafe tt
unmarked-IsSafe marks balances i idx (h ∷ hs) off =
    subst IsSafe (sym (unmarked_round marks balances i idx h hs (off i (omega arith))))
      (unmarked-IsSafe marks balances (suc i) idx hs (λ j le. off j (omega arith)))

-- The last loop finds a balance for each account that is marked.
pub check_balances-IsSafe :
    (marks : TitanPdaBitmap) (balances : List ℕ) (i idx : ℕ) (hs : List Handle)
    (es : List (Option ℕ)) (pre : List ℕ)
    → balances ≡ pre ++ cat es
    → length pre ≡ idx
    → ((j : ℕ) → i ≤ j → is_set marks j ≡ (ltb j 256 && flag i es j))
    → IsSafe (check_balances marks balances i idx hs)
unfolding check_balances
check_balances-IsSafe marks balances i idx [] es pre eb ep flags = done-IsSafe tt
check_balances-IsSafe marks balances i idx (h ∷ hs) [] pre eb ep flags =
    unmarked-IsSafe marks balances i idx (h ∷ hs) (λ j le. flags j le ∙ ground arith)
check_balances-IsSafe marks balances i idx (h ∷ hs) (none ∷ es) pre eb ep flags =
    let off : is_set marks i ≡ false =
      flags i (omega arith) ∙ ground (arith, flag_before (suc i) es i) in
    subst IsSafe (sym (unmarked_round marks balances i idx h hs off)) (
      check_balances-IsSafe marks balances (suc i) idx hs es pre eb ep
        (λ j le. flags j (omega arith) ∙ ground arith))
check_balances-IsSafe marks balances i idx (h ∷ hs) (some b ∷ es) pre eb ep flags =
    elim (Bool-cases (ltb i 256)) [
      | inr far ↦ unmarked-IsSafe marks balances i idx (h ∷ hs) (λ j le. flags j le ∙ ground arith)
      | inl near ↦
          let on : is_set marks i ≡ true = flags i (omega arith) ∙ ground arith in
          let at : get_elem? balances idx ≡ some b =
            rw (eb, ← ep) (get_elem?-length pre b (cat es)) in
          let rest =
            check_balances-IsSafe marks balances (suc i) (suc idx) hs es (pre ++ b ∷ [])
              (eb ∙ sym (append_assoc pre (b ∷ []) (cat es)))
              (omega (arith, length-append pre (b ∷ [])))
              (λ j le. flags j (omega arith) ∙ ground arith) in
          λ w.
            rw (on, check_balances, at)
              (chain-IsSafe
                (need (leb b (unwrap_or_zero (extract_token_amount (view w h))))
                  reserved_balance_violation)
                _ (need-IsSafe _ _) (λ u. rest) w)
    ]
