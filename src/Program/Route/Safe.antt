-- ===== src/Program/Route/Safe.antt =====
-- The balances of TitanPDA over a whole route of instructions/swap_route_v3.rs.
use quay_titan_integration.Prelude.{
  ℕ, zero, suc, ◌+◌, ◌≤◌, ◌<◌, ◌≡◌, refl, true, false, Option, none, some, ok, List, [], ◌∷◌,
  length, get_elem?, arith, ap, ◌∙◌, sym, subst, true≢false,
}
use quay_titan_integration.Solana.{Pubkey}
use quay_titan_integration.Program.State.{SwapSpecInputV2}
use quay_titan_integration.Program.Accounts.{
  TokenIds, extract_token_amount, is_titan_pda_token_account,
}
use quay_titan_integration.Program.Bitmap.{new-HasFourWords, is_set-new}
use quay_titan_integration.Program.Runtime.{World, Handle, Runtime, view}
use quay_titan_integration.Program.Reserves.{
  Ledger, empty_ledger, unwrap_or_zero, take_balances, check_balances,
}
use quay_titan_integration.Program.Reserves.Recorded.{Recorded, take_balances-Taken}
use quay_titan_integration.Program.Reserves.Kept.{AllKept, Keeps, check_balances-AllKept}
use quay_titan_integration.Program.Route.{SwapRouteV3, create_missing, execute}
use quay_titan_integration.Program.Route.Stages.{settled, staged}

-- The entry of an account of TitanPDA, and what it keeps.
kept_at :
    (ids : TokenIds) (mints : ℕ) (pda : Pubkey) (w w' : World) (i k : ℕ) (hs : List Handle)
    (es : List (Option ℕ)) (h : Handle)
    → Recorded ids mints pda w hs es
    → AllKept w' i hs es
    → get_elem? hs k ≡ some h
    → i + k < 256
    → is_titan_pda_token_account ids (view w h) pda ≡ true
    → (b : ℕ) × (extract_token_amount (view w h) ≡ ok b)
      × (b ≤ unwrap_or_zero (extract_token_amount (view w' h)))
kept_at ids mints pda w w' i k [] es h recorded kept at near own = cc
kept_at ids mints pda w w' i k (g ∷ hs) [] h recorded kept at near own = absurd recorded
kept_at ids mints pda w w' i zero (g ∷ hs) (none ∷ es) h recorded kept at near own =
    let same : g ≡ h = cc in
    absurd (
      true≢false (
        sym own
        ∙ subst (λ x. is_titan_pda_token_account ids (view w x) pda ≡ false) same recorded.0))
kept_at ids mints pda w w' i zero (g ∷ hs) (some b ∷ es) h recorded kept at near own =
    let same : g ≡ h = cc in
    (
      b,
      subst (λ x. extract_token_amount (view w x) ≡ ok b) same recorded.0.1,
      subst (λ x. Keeps w' x b) same (kept.0 (omega arith)),
    )
kept_at ids mints pda w w' i (suc k) (g ∷ hs) (none ∷ es) h recorded kept at near own =
    kept_at ids mints pda w w' (suc i) k hs es h recorded.1 kept at (omega arith) own
kept_at ids mints pda w w' i (suc k) (g ∷ hs) (some b ∷ es) h recorded kept at near own =
    kept_at ids mints pda w w' (suc i) k hs es h recorded.1 kept.1 at (omega arith) own

pub Recorded-length :
    (ids : TokenIds) (mints : ℕ) (pda : Pubkey) (w : World) (hs : List Handle)
    (es : List (Option ℕ))
    → Recorded ids mints pda w hs es
    → length hs ≡ length es
Recorded-length ids mints pda w [] [] r = refl
Recorded-length ids mints pda w [] (e ∷ es) r = absurd r
Recorded-length ids mints pda w (h ∷ hs) [] r = absurd r
Recorded-length ids mints pda w (h ∷ hs) (e ∷ es) r =
    ap suc (Recorded-length ids mints pda w hs es r.1)

module _ (rt : Runtime) (ids : TokenIds) (accounts : SwapRouteV3) (remaining : List Handle)
    (mints : ℕ) where
  -- Every account of TitanPDA among the first 256 has at the end at least what it had.
  abbrev pub AllSafe : World → World → Type 0
  AllSafe before after =
      (i : ℕ) (h : Handle)
      → i < 256
      → get_elem? remaining i ≡ some h
      → is_titan_pda_token_account ids (view before h) accounts.titan_pda.key ≡ true
      → (b : ℕ) × (extract_token_amount (view before h) ≡ ok b)
        × (b ≤ unwrap_or_zero (extract_token_amount (view after h)))

  safe_from :
      (ledger : Ledger) (start w9 w' : World)
      → take_balances ids mints accounts.titan_pda.key 0 remaining empty_ledger start
        ≡ ok (ledger, w9)
      → check_balances ledger.marks ledger.balances 0 0 remaining w' ≡ ok (tt, w')
      → AllSafe start w'
  safe_from ledger start w9 w' taken checked i h near at own =
      let (_, entries) =
        take_balances-Taken ids mints accounts.titan_pda.key 0 remaining empty_ledger start ledger
          w9 new-HasFourWords taken in
      let (es, recorded, held, flags) = entries in
      let kept =
        check_balances-AllKept ledger.marks ledger.balances 0 0 remaining es [] w' w' held refl
          (Recorded-length ids mints accounts.titan_pda.key start remaining es recorded)
          (λ j le lt. flags j ∙ ground (arith, is_set-new j)) checked in
      kept_at ids mints accounts.titan_pda.key start w' 0 i remaining es h recorded kept at
        (omega arith) own

  -- A route that succeeds, whatever the other programs do in its calls, leaves every token account of
  -- TitanPDA among the first 256 remaining accounts with at least the balance that it had once the
  -- missing accounts were created.
  pub execute-AllSafe :
      (amount : ℕ) (swaps : List SwapSpecInputV2) (w w' : World)
      → execute rt ids accounts remaining mints amount swaps w ≡ ok (tt, w')
      → (created : ℕ) × (start : World) × (create_missing rt ids accounts remaining mints mints 0 0
            w
          ≡ ok (created, start))
        × AllSafe start w'
  execute-AllSafe amount swaps w w' h =
      let (request, created, start, ledger, _, made, taken, rest) =
        staged rt ids accounts remaining mints amount swaps w w' h in
      let (_, _, _, _, _, _, _, checked) =
        settled rt ids accounts remaining mints amount swaps request created ledger start w' rest in
      (created, start, made, safe_from ledger start start w' taken checked)
