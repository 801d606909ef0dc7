-- ===== src/SwapRoute/Legs.antt =====
-- The accounts of a leg against those of the venue's swap instruction.
use quay_titan_integration.Prelude.{
  ℕ, zero, true≢false, Bool-cases, ==_iff, inl, inr, suc, ◌%◌, ◌≡◌, ◌≢◌, refl, true, false, some,
  ok, >>=-eq-ok, ok-injective, List, [], ◌∷◌, ◌++◌, map, ◌==◌, length, get_elem?, ap, ◌∙◌, sym,
}
use quay_titan_integration.Solana.{Pubkey, AccountMeta, Instruction, new_readonly}
use quay_titan_integration.TradingVenue.Quote.{QuoteRequest}
use quay_titan_integration.TradingVenue.Interface.{TradingVenue}
use quay_titan_integration.SwapRoute.{
  SwapSpecInputV2, unsigned, assemble_leg_accounts, protocol_to_venue, build_swap_leg,
}

module _ (pda : Pubkey) where
  unsigned-signer :
      (a acc : AccountMeta)
      → unsigned pda a ≡ acc
      → acc.is_signer ≡ true
      → (a ≡ acc) × (acc.pubkey ≢ pda)
  unsigned-signer a acc e signs = elim (Bool-cases (a.pubkey == pda)) [
    | inl own ↦
        let cleared : (unsigned pda a).is_signer ≡ false = rw own refl in
        let kept : (unsigned pda a).is_signer ≡ true = ap (λ m. m.is_signer) e ∙ signs in
        absurd (true≢false (sym kept ∙ cleared))
    | inr other ↦
        let same : unsigned pda a ≡ a = rw other refl in
        let whole = sym same ∙ e in
        (
          whole,
          λ here.
              true≢false (sym ((==_iff a.pubkey pda).1 (ap (λ m. m.pubkey) whole ∙ here)) ∙ other),
        )
  ]

  go :
      (program : Pubkey) (acc : AccountMeta)
      → acc.is_signer ≡ true
      → (accounts : List AccountMeta) (i : ℕ)
      → get_elem? (map (unsigned pda) accounts ++ new_readonly program false ∷ []) i ≡ some acc
      → (get_elem? accounts i ≡ some acc) × (acc.pubkey ≢ pda)
  go program acc signs [] zero e =
      let e' : new_readonly program false ≡ acc = cc in
      absurd (true≢false (sym signs ∙ sym (ap (λ m. m.is_signer) e')))
  go program acc signs [] (suc i) e = cc
  go program acc signs (a ∷ accounts) zero e =
      let e' : unsigned pda a ≡ acc = cc in
      let (same, other) = unsigned-signer a acc e' signs in (ap some same, other)
  go program acc signs (a ∷ accounts) (suc i) e = go program acc signs accounts i e

  -- A signer of the leg is a signer of the swap instruction, at the same place, other than TitanPDA.
  assemble_leg_accounts-signer :
      (ix : Instruction) (program : Pubkey) (i : ℕ) (acc : AccountMeta)
      → get_elem? (assemble_leg_accounts ix pda program) i ≡ some acc
      → acc.is_signer ≡ true
      → (get_elem? ix.accounts i ≡ some acc) × (acc.pubkey ≢ pda)
  unfolding assemble_leg_accounts
  assemble_leg_accounts-signer ix program i acc h signs = go program acc signs ix.accounts i h

module _ {F : Type 0} (venue : TradingVenue F) (request : QuoteRequest) (pda : Pubkey)
    (from to weight : ℕ) where
  -- What a leg that is built is made of.
  pub build_swap_leg-Built :
      (spec : SwapSpecInputV2) (accounts : List AccountMeta)
      → build_swap_leg venue request pda from to weight ≡ ok (spec, accounts)
      → (ix : Instruction) × (venue.generate_swap_instruction request pda ≡ ok ix)
        × (protocol_to_venue venue request ≡ ok spec.venue)
        × (accounts ≡ assemble_leg_accounts ix pda venue.program_id)
        × (spec.n_accounts ≡ length accounts % 256)
  unfolding build_swap_leg
  build_swap_leg-Built spec accounts h =
      let (ix, built, h1) = >>=-eq-ok (venue.generate_swap_instruction request pda) _ h in
      let (selector, chosen, h2) = >>=-eq-ok (protocol_to_venue venue request) _ h1 in
      let e = ok-injective h2 in
      (
        ix,
        built,
        chosen ∙ ap (λ p. ok (p.0.venue)) e,
        sym (ap (λ p. p.1) e),
        sym (ap (λ p. p.0.n_accounts) e) ∙ ap (λ accounts. length accounts % 256) (ap (λ p. p.1) e),
      )
