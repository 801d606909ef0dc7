-- ===== src/Program/Reserves/Reserved.antt =====
-- The reserves of the route's mints that the recording loop of instructions/swap_route_v3.rs leaves.
use quay_titan_integration.Prelude.{
  ◌≢◌, inl, inr, Bool-cases, get_elem?-set, get_elem?-set_other, length-set, ℕ, zero, suc, ◌+◌, ◌≤◌,
  ◌<◌, ◌≡◌, refl, Bool, true, false, Option, none, some, Result, ok, err, ok-injective, List, [],
  ◌∷◌, ltb, ◌==◌, length, get_elem?, if◌then◌else◌, arith, ap, ◌∙◌, sym, subst,
}
use quay_titan_integration.Prelude
use quay_titan_integration.Solana.{Pubkey}
use quay_titan_integration.Program.State.{TemplateError, invalid_account_data}
use quay_titan_integration.Program.Accounts.{
  TokenIds, extract_token_amount, is_titan_pda_token_account,
}
use quay_titan_integration.Program.Runtime.{
  World, Handle, view, ◌>>=◌, ◌>>◌, done, try, need, chain-eq-ok,
}
use quay_titan_integration.Program.Reserves.{
  Ledger, record_mint, record_other, take_balance, take_balances,
}

module _ (ids : TokenIds) (mints : ℕ) (pda : Pubkey) where
  -- The account at place `i` is TitanPDA's, and the reserve is its balance.
  abbrev pub Reserve : World → Handle → List ℕ → ℕ → Type 0
  Reserve w h reserved i =
      (b : ℕ) × (extract_token_amount (view w h) ≡ ok b)
      × (is_titan_pda_token_account ids (view w h) pda ≡ true)
      × (get_elem? reserved i ≡ some b)

  module _ (i : ℕ) (h : Handle) (ledger : Ledger) (w : World) where
    abbrev Round : Ledger → World → Type 0
    Round next w' =
        (w' ≡ w)
        × (i < mints
            → (b : ℕ) × (extract_token_amount (view w h) ≡ ok b)
              × (is_titan_pda_token_account ids (view w h) pda ≡ true)
              × (next.reserved ≡ Prelude.set ledger.reserved i b))
        × (mints ≤ i → next.reserved ≡ ledger.reserved)

    by_tests :
        (c t : Bool) (r : Result TemplateError ℕ)
        → ltb i mints ≡ c
        → is_titan_pda_token_account ids (view w h) pda ≡ t
        → extract_token_amount (view w h) ≡ r
        → (next : Ledger) (w' : World)
        → (if c
              then (need t invalid_account_data
                  >> (try r >>= λ balance. done (record_mint i balance ledger)))
              else (if t
                  then (try r >>= λ balance. done (record_other i balance ledger))
                  else done ledger))
            w
          ≡ ok (next, w')
        → Round next w'
    by_tests true true (ok b) hc ht hr next w' e =
        let p = ok-injective e in
        (
          sym (ap (λ x. x.1) p),
          λ lt. (b, hr, ht, sym (ap (λ x. x.0.reserved) p)),
          λ ge. absurd (ground arith),
        )
    by_tests true true (err f) hc ht hr next w' e = cc
    by_tests true false r hc ht hr next w' e = cc
    by_tests false true (ok b) hc ht hr next w' e =
        let p = ok-injective e in
        (sym (ap (λ x. x.1) p), λ lt. absurd (ground arith), λ ge. sym (ap (λ x. x.0.reserved) p))
    by_tests false true (err f) hc ht hr next w' e = cc
    by_tests false false r hc ht hr next w' e =
        let p = ok-injective e in
        (sym (ap (λ x. x.1) p), λ lt. absurd (ground arith), λ ge. sym (ap (λ x. x.0.reserved) p))

    take_balance-Round :
        (next : Ledger) (w' : World)
        → take_balance ids mints pda i h ledger w ≡ ok (next, w')
        → Round next w'
    unfolding take_balance
    take_balance-Round next w' e =
        by_tests (ltb i mints) (is_titan_pda_token_account ids (view w h) pda)
          (extract_token_amount (view w h)) refl refl refl next w' e

  kept_length :
      (i : ℕ) (h : Handle) (ledger next : Ledger) (w w' : World)
      → Round i h ledger w next w'
      → length next.reserved ≡ length ledger.reserved
  kept_length i h ledger next w w' (still, inside, outside) = elim (Bool-cases (ltb i mints)) [
    | inl e ↦
        let (b, _, _, written) = inside (ground arith) in
        ap length written ∙ length-set ledger.reserved i b
    | inr e ↦ ap length (outside (ground arith))
  ]

  kept_before :
      (i j : ℕ) (h : Handle) (ledger next : Ledger) (w w' : World)
      → Round i h ledger w next w'
      → j < i
      → get_elem? next.reserved j ≡ get_elem? ledger.reserved j
  kept_before i j h ledger next w w' (still, inside, outside) before =
      elim (Bool-cases (ltb i mints)) [
        | inl e ↦
            let (b, _, _, written) = inside (ground arith) in
            ap (λ r. get_elem? r j) written
            ∙ get_elem?-set_other ledger.reserved i j b (λ same. omega (arith, same))
        | inr e ↦ ap (λ r. get_elem? r j) (outside (ground arith))
      ]

  -- The reserve at a place, from the round of that place or the rest of the loop.
  here_or_later :
      (i : ℕ) (h : Handle) (hs : List Handle) (ledger next out : Ledger) (w w1 : World) (k : ℕ)
      (g : Handle)
      → Round i h ledger w next w1
      → mints ≤ length ledger.reserved
      → ((j : ℕ) → j < suc i → get_elem? out.reserved j ≡ get_elem? next.reserved j)
      → ((k : ℕ) (h : Handle)
          → get_elem? hs k ≡ some h
          → suc i + k < mints
          → Reserve w1 h out.reserved (suc i + k))
      → get_elem? (h ∷ hs) k ≡ some g
      → i + k < mints
      → Reserve w g out.reserved (i + k)
  here_or_later i h hs ledger next out w w1 zero g (still, inside, _) room earlier later at lt =
      let (b, read, own, written) = inside (omega arith) in
      let same : h ≡ g = cc in
      let index : i ≡ i + 0 = omega arith in
      (
        b,
        subst (λ x. extract_token_amount (view w x) ≡ ok b) same read,
        subst (λ x. is_titan_pda_token_account ids (view w x) pda ≡ true) same own,
        subst (λ n. get_elem? out.reserved n ≡ some b) index
            (earlier i (omega arith)
              ∙ ap (λ r. get_elem? r i) written
              ∙ get_elem?-set ledger.reserved i b (omega arith)),
      )
  here_or_later i h hs ledger next out w w1 (suc k) g (still, _, _) room earlier later at lt =
      let (b, read, own, found) = later k g at (omega arith) in
      let index : suc i + k ≡ i + suc k = omega arith in
      (
        b,
        subst (λ u. extract_token_amount (view u g) ≡ ok b) still read,
        subst (λ u. is_titan_pda_token_account ids (view u g) pda ≡ true) still own,
        subst (λ n. get_elem? out.reserved n ≡ some b) index found,
      )

  -- After the loop, the reserve of each account of the route is the balance that it has then.
  pub take_balances-Reserve :
      (i : ℕ) (hs : List Handle) (ledger : Ledger) (w : World) (out : Ledger) (w' : World)
      → mints ≤ length ledger.reserved
      → take_balances ids mints pda i hs ledger w ≡ ok (out, w')
      → ((j : ℕ) → j < i → get_elem? out.reserved j ≡ get_elem? ledger.reserved j)
        × ((k : ℕ) (h : Handle)
            → get_elem? hs k ≡ some h
            → i + k < mints
            → Reserve w h out.reserved (i + k))
  unfolding take_balances
  take_balances-Reserve i [] ledger w out w' room e =
      let same = ap (λ p. p.0.reserved) (ok-injective e) in
      (λ j lt. ap (λ r. get_elem? r j) (sym same), λ k h at lt. cc)
  take_balances-Reserve i (h ∷ hs) ledger w out w' room e =
      let (next, w1, first, rest) =
        chain-eq-ok (take_balance ids mints pda i h ledger) _ w w' out e in
      let round = take_balance-Round i h ledger w next w1 first in
      let (earlier, later) =
        take_balances-Reserve (suc i) hs next w1 out w'
          (omega (arith, kept_length i h ledger next w w1 round)) rest in
      (
        λ j lt. earlier j (omega arith) ∙ kept_before i j h ledger next w w1 round lt,
        λ k g at lt. here_or_later i h hs ledger next out w w1 k g round room earlier later at lt,
      )
