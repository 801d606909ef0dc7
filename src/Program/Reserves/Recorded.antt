-- ===== src/Program/Reserves/Recorded.antt =====
-- The recording loop of the handler in instructions/swap_route_v3.rs: an entry for each account, in order.
use quay_titan_integration.Prelude.{
  ℕ, suc, ◌≡◌, refl, Bool, true, false, ◌&&◌, ◌||◌, Option, none, some, Result, ok, err,
  ok-injective, List, [], ◌∷◌, ◌++◌, ltb, ◌==◌, if◌then◌else◌, append_assoc, append-nil, arith, ap,
  ◌∙◌, sym, subst,
}
use quay_titan_integration.Solana.{Pubkey}
use quay_titan_integration.Program.State.{TemplateError, invalid_account_data}
use quay_titan_integration.Program.Accounts.{
  TokenIds, extract_token_amount, is_titan_pda_token_account,
}
use quay_titan_integration.Program.Bitmap.{
  TitanPdaBitmap, set, is_set, is_set-set, HasFourWords, set-HasFourWords,
}
use quay_titan_integration.Program.Runtime.{
  World, Handle, view, ◌>>=◌, ◌>>◌, done, try, need, chain-eq-ok,
}
use quay_titan_integration.Program.Reserves.{
  Ledger, record_mint, record_other, take_balance, take_balances,
}

abbrev pub is_some : Option ℕ → Bool
is_some none = false
is_some (some b) = true

-- The recorded balances, in order.
abbrev pub cat : List (Option ℕ) → List ℕ
cat [] = []
cat (none ∷ es) = cat es
cat (some b ∷ es) = b ∷ cat es

-- Whether place `j` is recorded, for the entries from place `i` on.
abbrev pub flag : ℕ → List (Option ℕ) → ℕ → Bool
flag i [] j = false
flag i (e ∷ es) j = (i == j && is_some e) || flag (suc i) es j

abbrev opt : Option ℕ → List ℕ
opt none = []
opt (some b) = b ∷ []

abbrev mark : Option ℕ → ℕ → TitanPdaBitmap → TitanPdaBitmap
mark none i marks = marks
mark (some b) i marks = set marks i

module _ (ids : TokenIds) (mints : ℕ) (pda : Pubkey) where
  -- An entry of the record for the account at one place.
  abbrev pub Entry : World → Handle → Option ℕ → Type 0
  Entry w h none = is_titan_pda_token_account ids (view w h) pda ≡ false
  Entry w h (some b) =
      (is_titan_pda_token_account ids (view w h) pda ≡ true)
      × (extract_token_amount (view w h) ≡ ok b)

  abbrev pub Recorded : World → List Handle → List (Option ℕ) → Type 0
  Recorded w [] [] = Unit
  Recorded w [] (e ∷ es) = ⊥
  Recorded w (h ∷ hs) [] = ⊥
  Recorded w (h ∷ hs) (e ∷ es) = Entry w h e × Recorded w hs es

  Step : ℕ → Handle → World → Ledger → Ledger → World → Type 0
  Step i h w ledger next w' =
      (w' ≡ w)
      × ((e : Option ℕ) × Entry w h e
          × (next.balances ≡ ledger.balances ++ opt e)
          × (next.marks ≡ mark e i ledger.marks))

  module _ (i : ℕ) (h : Handle) (ledger : Ledger) (w : World) where
    step_of :
        (c t : Bool) (r : Result TemplateError ℕ)
        → is_titan_pda_token_account ids (view w h) pda ≡ t
        → extract_token_amount (view w h) ≡ r
        → (next : Ledger) (w' : World)
        → (if c
              then (need t invalid_account_data
                  >> (try r >>= λ balance. done (record_mint i balance ledger)))
              else (if t
                  then (try r >>= λ balance. done (record_other i balance ledger))
                  else done ledger))
            w
          ≡ ok (next, w')
        → Step i h w ledger next w'
    unfolding Step
    step_of true true (ok b) ht hr next w' e =
        let p = ok-injective e in
        (
          sym (ap (λ x. x.1) p),
          (some b, (ht, hr), sym (ap (λ x. x.0.balances) p), sym (ap (λ x. x.0.marks) p)),
        )
    step_of true true (err f) ht hr next w' e = cc
    step_of true false r ht hr next w' e = cc
    step_of false true (ok b) ht hr next w' e =
        let p = ok-injective e in
        (
          sym (ap (λ x. x.1) p),
          (some b, (ht, hr), sym (ap (λ x. x.0.balances) p), sym (ap (λ x. x.0.marks) p)),
        )
    step_of false true (err f) ht hr next w' e = cc
    step_of false false r ht hr next w' e =
        let p = ok-injective e in
        (
          sym (ap (λ x. x.1) p),
          (
            none,
            ht,
            sym (ap (λ x. x.0.balances) p) ∙ sym (append-nil ledger.balances),
            sym (ap (λ x. x.0.marks) p),
          ),
        )

    take_balance-Step :
        (next : Ledger) (w' : World)
        → take_balance ids mints pda i h ledger w ≡ ok (next, w')
        → Step i h w ledger next w'
    unfolding take_balance
    take_balance-Step next w' e =
        step_of (ltb i mints) (is_titan_pda_token_account ids (view w h) pda)
          (extract_token_amount (view w h)) refl refl next w' e

  -- What the loop has recorded, over a ledger that it started from.
  abbrev pub Taken : ℕ → List Handle → World → Ledger → Ledger → World → Type 0
  Taken i hs w ledger out w' =
      (w' ≡ w)
      × ((es : List (Option ℕ)) × Recorded w hs es
          × (out.balances ≡ ledger.balances ++ cat es)
          × ((j : ℕ) → is_set out.marks j ≡ ((ltb j 256 && flag i es j) || is_set ledger.marks j)))

  opt-cat : (e : Option ℕ) (es : List (Option ℕ)) → opt e ++ cat es ≡ cat (e ∷ es)
  opt-cat none es = refl
  opt-cat (some b) es = refl

  is_set-mark :
      (e : Option ℕ) (i j : ℕ) (marks : TitanPdaBitmap)
      → HasFourWords marks
      → is_set (mark e i marks) j ≡ ((ltb j 256 && (i == j && is_some e)) || is_set marks j)
  is_set-mark none i j marks four = ground arith
  is_set-mark (some b) i j marks four = ground (arith, is_set-set marks i j four)

  mark-HasFourWords :
      (e : Option ℕ) (i : ℕ) (marks : TitanPdaBitmap)
      → HasFourWords marks
      → HasFourWords (mark e i marks)
  mark-HasFourWords none i marks four = four
  mark-HasFourWords (some b) i marks four = set-HasFourWords marks i four

  flags_step :
      (i : ℕ) (e : Option ℕ) (es : List (Option ℕ)) (j : ℕ) (before next out : TitanPdaBitmap)
      → next ≡ mark e i before
      → HasFourWords before
      → is_set out j ≡ ((ltb j 256 && flag (suc i) es j) || is_set next j)
      → is_set out j ≡ ((ltb j 256 && flag i (e ∷ es) j) || is_set before j)
  flags_step i e es j before next out marked four h =
      let here : is_set next j ≡ ((ltb j 256 && (i == j && is_some e)) || is_set before j) =
        ap (λ m. is_set m j) marked ∙ is_set-mark e i j before four in
      h ∙ rw here (ground arith)

  pub take_balances-Taken :
      (i : ℕ) (hs : List Handle) (ledger : Ledger) (w : World) (out : Ledger) (w' : World)
      → HasFourWords ledger.marks
      → take_balances ids mints pda i hs ledger w ≡ ok (out, w')
      → Taken i hs w ledger out w'
  unfolding take_balances Step
  take_balances-Taken i [] ledger w out w' four e =
      let p = ok-injective e in
      (
        sym (ap (λ x. x.1) p),
        (
          [],
          tt,
          sym (ap (λ x. x.0.balances) p) ∙ sym (append-nil ledger.balances),
          λ j. ap (λ x. is_set x.0.marks j) (sym p) ∙ ground arith,
        ),
      )
  take_balances-Taken i (h ∷ hs) ledger w out w' four e =
      let (next, w1, first, rest) =
        chain-eq-ok (take_balance ids mints pda i h ledger) _ w w' out e in
      let (same, taken) = take_balance-Step i h ledger w next w1 first in
      let (entry, held, grown, marked) = taken in
      let rest' =
        subst (λ u. take_balances ids mints pda (suc i) hs next u ≡ ok (out, w')) same rest in
      let four' = subst HasFourWords (sym marked) (mark-HasFourWords entry i ledger.marks four) in
      let (unmoved, others) = take_balances-Taken (suc i) hs next w out w' four' rest' in
      let (es, records, appended, flags) = others in
      (
        unmoved,
        (
          entry ∷ es,
          (held, records),
          appended
              ∙ ap (λ bs. bs ++ cat es) grown
              ∙ append_assoc ledger.balances (opt entry) (cat es)
              ∙ ap (λ bs. ledger.balances ++ bs) (opt-cat entry es),
          λ j. flags_step i entry es j ledger.marks next.marks out.marks marked four (flags j),
        ),
      )
