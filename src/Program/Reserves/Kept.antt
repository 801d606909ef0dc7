-- ===== src/Program/Reserves/Kept.antt =====
-- The last loop of the handler in instructions/swap_route_v3.rs, against the recorded balances.
use quay_titan_integration.Prelude.{
  ℕ, suc, ◌≤◌, ◌<◌, ◌≡◌, refl, Bool, true, false, Option, none, some, ok, List, [], ◌∷◌, ◌++◌, ltb,
  leb, length, length-append, get_elem?, get_elem?-length, append_assoc, arith, ap, ◌∙◌, sym,
  leb→le, inl, inr, Bool-cases,
}
use quay_titan_integration.Program.State.{TemplateError, reserved_balance_violation}
use quay_titan_integration.Program.Accounts.{extract_token_amount}
use quay_titan_integration.Program.Bitmap.{TitanPdaBitmap, is_set}
use quay_titan_integration.Program.Runtime.{World, Handle, Act, view, ◌>>◌, need}
use quay_titan_integration.Program.Reserves.{unwrap_or_zero, check_balances}
use quay_titan_integration.Program.Reserves.Recorded.{cat, flag}

-- The account passes the last loop with at least the balance `before`.
abbrev pub Keeps : World → Handle → ℕ → Type 0
Keeps w h before = before ≤ unwrap_or_zero (extract_token_amount (view w h))

abbrev pub AllKept : World → ℕ → List Handle → List (Option ℕ) → Type 0
AllKept w i [] es = Unit
AllKept w i (h ∷ hs) [] = Unit
AllKept w i (h ∷ hs) (none ∷ es) = AllKept w (suc i) hs es
AllKept w i (h ∷ hs) (some b ∷ es) = (i < 256 → Keeps w h b) × AllKept w (suc i) hs es

beyond : (w : World) (i : ℕ) (hs : List Handle) (es : List (Option ℕ)) → 256 ≤ i → AllKept w i hs es
beyond w i [] es far = tt
beyond w i (h ∷ hs) [] far = tt
beyond w i (h ∷ hs) (none ∷ es) far = beyond w (suc i) hs es (omega arith)
beyond w i (h ∷ hs) (some b ∷ es) far =
    ((λ near. absurd (omega arith)), beyond w (suc i) hs es (omega arith))

pub flag_before : (i : ℕ) (es : List (Option ℕ)) (j : ℕ) → j < i → flag i es j ≡ false
flag_before i [] j h = refl
flag_before i (e ∷ es) j h = ground (arith, flag_before (suc i) es j)

need_passed :
    (c : Bool) (e : TemplateError) (rest : Act (Unit {0})) (w w' : World)
    → (need c e >> rest) w ≡ ok (tt, w')
    → (c ≡ true) × (rest w ≡ ok (tt, w'))
need_passed true e rest w w' h = (refl, h)
need_passed false e rest w w' h = cc

-- One round of the last loop for an account that is marked, and for one that is not.
module _ (marks : TitanPdaBitmap) (balances : List ℕ) (i idx : ℕ) (h : Handle)
    (hs : List Handle) where
  pub unmarked_round :
      is_set marks i ≡ false
      → check_balances marks balances i idx (h ∷ hs) ≡ check_balances marks balances (suc i) idx hs
  unfolding check_balances
  unmarked_round off = rw (off, check_balances) refl

  marked_round :
      (w w' : World) (b : ℕ)
      → is_set marks i ≡ true
      → get_elem? balances idx ≡ some b
      → check_balances marks balances i idx (h ∷ hs) w ≡ ok (tt, w')
      → Keeps w h b × (check_balances marks balances (suc i) (suc idx) hs w ≡ ok (tt, w'))
  unfolding check_balances
  marked_round w w' b on at e =
      let step : check_balances marks balances i idx (h ∷ hs) w
          ≡ (need (leb b (unwrap_or_zero (extract_token_amount (view w h))))
                  reserved_balance_violation
                >> check_balances marks balances (suc i) (suc idx) hs)
              w =
        rw (on, check_balances, at) refl in
      let (enough, rest) =
        need_passed (leb b (unwrap_or_zero (extract_token_amount (view w h))))
          reserved_balance_violation (check_balances marks balances (suc i) (suc idx) hs) w w'
          (sym step ∙ e) in
      (leb→le b (unwrap_or_zero (extract_token_amount (view w h))) enough, rest)

pub check_balances-AllKept :
    (marks : TitanPdaBitmap) (balances : List ℕ) (i idx : ℕ) (hs : List Handle)
    (es : List (Option ℕ)) (pre : List ℕ) (w w' : World)
    → balances ≡ pre ++ cat es
    → length pre ≡ idx
    → length hs ≡ length es
    → ((j : ℕ) → i ≤ j → j < 256 → is_set marks j ≡ flag i es j)
    → check_balances marks balances i idx hs w ≡ ok (tt, w')
    → AllKept w i hs es
check_balances-AllKept marks balances i idx [] es pre w w' eb ep el flags e = tt
check_balances-AllKept marks balances i idx (h ∷ hs) [] pre w w' eb ep el flags e = tt
check_balances-AllKept marks balances i idx (h ∷ hs) (none ∷ es) pre w w' eb ep el flags e =
    elim (Bool-cases (ltb i 256)) [
      | inr far ↦ beyond w (suc i) hs es (ground arith)
      | inl near ↦
          let off : is_set marks i ≡ false =
            flags i (omega arith) (ground arith) ∙ ground (arith, flag_before (suc i) es i) in
          check_balances-AllKept marks balances (suc i) idx hs es pre w w' eb ep (omega arith)
            (λ j le lt. flags j (omega arith) lt ∙ ground arith)
            (ap (λ act. act w) (sym (unmarked_round marks balances i idx h hs off)) ∙ e)
    ]
check_balances-AllKept marks balances i idx (h ∷ hs) (some b ∷ es) pre w w' eb ep el flags e =
    elim (Bool-cases (ltb i 256)) [
      | inr far ↦ beyond w i (h ∷ hs) (some b ∷ es) (ground arith)
      | inl near ↦
          let on : is_set marks i ≡ true = flags i (omega arith) (ground arith) ∙ ground arith in
          let at : get_elem? balances idx ≡ some b =
            rw (eb, ← ep) (get_elem?-length pre b (cat es)) in
          let (kept, rest) = marked_round marks balances i idx h hs w w' b on at e in
          (
            (λ lt. kept),
            check_balances-AllKept marks balances (suc i) (suc idx) hs es (pre ++ b ∷ []) w w'
                (eb ∙ sym (append_assoc pre (b ∷ []) (cat es)))
                (omega (arith, length-append pre (b ∷ []))) (omega arith)
                (λ j le lt. flags j (omega arith) lt ∙ ground arith) rest,
          )
    ]
