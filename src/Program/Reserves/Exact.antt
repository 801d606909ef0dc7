-- ===== src/Program/Reserves/Exact.antt =====
-- The two loops over the balances in instructions/swap_route_v3.rs together: the bitmap and the compact
-- list of balances against a comparison of each account with its own balance.
use quay_titan_integration.Prelude.{
  ℕ, suc, ◌≤◌, ◌≡◌, refl, Bool, true, false, not, ◌&&◌, ◌||◌, Option, none, some, Result, ok, err,
  List, [], ◌∷◌, ◌++◌, ltb, leb, length, length-append, get_elem?, get_elem?-length, append_assoc,
  arith, ap, ◌∙◌, sym, inl, inr, Bool-cases,
}
use quay_titan_integration.Solana.{Pubkey}
use quay_titan_integration.Program.State.{reserved_balance_violation}
use quay_titan_integration.Program.Accounts.{TokenIds, extract_token_amount}
use quay_titan_integration.Program.Bitmap.{TitanPdaBitmap, is_set, is_set-new, new-HasFourWords}
use quay_titan_integration.Program.Runtime.{World, Handle, ProgramError, template, view}
use quay_titan_integration.Program.Reserves.{
  Ledger, empty_ledger, unwrap_or_zero, take_balances, check_balances,
}
use quay_titan_integration.Program.Reserves.Recorded.{cat, flag, Recorded, take_balances-Taken}
use quay_titan_integration.Program.Reserves.Kept.{unmarked_round, flag_before}

-- Whether every recorded account among the first 256 has at least its recorded balance.
abbrev pub all_kept : World → ℕ → List Handle → List (Option ℕ) → Bool
all_kept w i [] es = true
all_kept w i (h ∷ hs) [] = true
all_kept w i (h ∷ hs) (none ∷ es) = all_kept w (suc i) hs es
all_kept w i (h ∷ hs) (some b ∷ es) =
    (not (ltb i 256) || leb b (unwrap_or_zero (extract_token_amount (view w h))))
    && all_kept w (suc i) hs es

abbrev pub verdict : Bool → World → Result ProgramError (Unit {0} × World)
verdict true w = ok (tt, w)
verdict false w = err (template reserved_balance_violation)

all_kept-far :
    (w : World) (i : ℕ) (hs : List Handle) (es : List (Option ℕ))
    → 256 ≤ i
    → all_kept w i hs es ≡ true
all_kept-far w i [] es far = refl
all_kept-far w i (h ∷ hs) [] far = refl
all_kept-far w i (h ∷ hs) (none ∷ es) far = all_kept-far w (suc i) hs es (omega arith)
all_kept-far w i (h ∷ hs) (some b ∷ es) far =
    ground (arith, all_kept-far w (suc i) hs es (omega arith))

unmarked_all :
    (marks : TitanPdaBitmap) (balances : List ℕ) (i idx : ℕ) (hs : List Handle) (w : World)
    → ((j : ℕ) → i ≤ j → is_set marks j ≡ false)
    → check_balances marks balances i idx hs w ≡ ok (tt, w)
unfolding check_balances
unmarked_all marks balances i idx [] w off = refl
unmarked_all marks balances i idx (h ∷ hs) w off =
    ap (λ act. act w) (unmarked_round marks balances i idx h hs (off i (omega arith)))
    ∙ unmarked_all marks balances (suc i) idx hs w (λ j le. off j (omega arith))

check_balances-verdict :
    (marks : TitanPdaBitmap) (balances : List ℕ) (i idx : ℕ) (hs : List Handle)
    (es : List (Option ℕ)) (pre : List ℕ) (w : World)
    → balances ≡ pre ++ cat es
    → length pre ≡ idx
    → ((j : ℕ) → i ≤ j → is_set marks j ≡ (ltb j 256 && flag i es j))
    → check_balances marks balances i idx hs w ≡ verdict (all_kept w i hs es) w
unfolding check_balances
check_balances-verdict marks balances i idx [] es pre w eb ep flags = refl
check_balances-verdict marks balances i idx (h ∷ hs) [] pre w eb ep flags =
    unmarked_all marks balances i idx (h ∷ hs) w (λ j le. flags j le ∙ ground arith)
check_balances-verdict marks balances i idx (h ∷ hs) (none ∷ es) pre w eb ep flags =
    let off : is_set marks i ≡ false =
      flags i (omega arith) ∙ ground (arith, flag_before (suc i) es i) in
    ap (λ act. act w) (unmarked_round marks balances i idx h hs off)
    ∙ check_balances-verdict marks balances (suc i) idx hs es pre w eb ep
        (λ j le. flags j (omega arith) ∙ ground arith)
check_balances-verdict marks balances i idx (h ∷ hs) (some b ∷ es) pre w eb ep flags =
    elim (Bool-cases (ltb i 256)) [
      | inr far ↦
          unmarked_all marks balances i idx (h ∷ hs) w (λ j le. flags j le ∙ ground arith)
          ∙ ap (λ c. verdict c w) (sym (all_kept-far w i (h ∷ hs) (some b ∷ es) (ground arith)))
      | inl near ↦
          let on : is_set marks i ≡ true = flags i (omega arith) ∙ ground arith in
          let at : get_elem? balances idx ≡ some b =
            rw (eb, ← ep) (get_elem?-length pre b (cat es)) in
          let rest =
            check_balances-verdict marks balances (suc i) (suc idx) hs es (pre ++ b ∷ []) w
              (eb ∙ sym (append_assoc pre (b ∷ []) (cat es)))
              (omega (arith, length-append pre (b ∷ [])))
              (λ j le. flags j (omega arith) ∙ ground arith) in
          elim (Bool-cases (leb b (unwrap_or_zero (extract_token_amount (view w h))))) [
            | inl enough ↦ rw (on, check_balances, at, enough, near) rest
            | inr short ↦ rw (on, check_balances, at, short, near) refl
          ]
    ]

module _ (ids : TokenIds) (mints : ℕ) (pda : Pubkey) (remaining : List Handle) where
  -- When the recording loop has succeeded on `before`, the last loop, on any later accounts, passes when
  -- each account of TitanPDA among the first 256 has at least the balance that it had in `before`, and
  -- otherwise fails with ReservedBalanceViolation.
  pub check_balances-exact :
      (before : World) (ledger : Ledger) (w : World)
      → take_balances ids mints pda 0 remaining empty_ledger before ≡ ok (ledger, w)
      → (es : List (Option ℕ)) × Recorded ids mints pda before remaining es
        × ((after : World)
            → check_balances ledger.marks ledger.balances 0 0 remaining after
              ≡ verdict (all_kept after 0 remaining es) after)
  check_balances-exact before ledger w taken =
      let (_, entries) =
        take_balances-Taken ids mints pda 0 remaining empty_ledger before ledger w new-HasFourWords
          taken in
      let (es, recorded, held, flags) = entries in
      (
        es,
        recorded,
        λ after.
            check_balances-verdict ledger.marks ledger.balances 0 0 remaining es [] after held refl
              (λ j le. flags j ∙ ground (arith, is_set-new j)),
      )
