-- ===== src/SwapRoute/Dispatch.antt =====
-- From the venue's swap instruction to the leg and back: the account metas of the instruction that the
-- program builds for the leg.
use quay_titan_integration.Prelude.{
  ℕ, suc, ◌+◌, ◌-◌, ◌<◌, ◌≡◌, refl, Bool, true, false, ok, List, [], ◌∷◌, ◌++◌, map, ◌==◌, length,
  length-append, length-map, take, All, arith, ap, ap₂, ◌∙◌, sym, subst, ok-injective, Bool-cases,
  inl, inr,
}
use quay_titan_integration.Solana.{Pubkey, AccountMeta, Instruction, new_readonly}
use quay_titan_integration.TradingVenue.Quote.{QuoteRequest}
use quay_titan_integration.TradingVenue.Interface.{TradingVenue}
use quay_titan_integration.SwapRoute.{
  SwapSpecInputV2, unsigned, assemble_leg_accounts, build_swap_leg,
}
use quay_titan_integration.SwapRoute.Legs.{build_swap_leg-Built}
use quay_titan_integration.Program.State.{AccountInfo}
use quay_titan_integration.Program.Legs.{leg_meta, leg_account_metas}

-- The runtime passes an account with the key and the flags of its meta.
abbrev pub Presents : AccountInfo → AccountMeta → Type 0
Presents info acc =
    (info.key ≡ acc.pubkey)
    × (info.is_signer ≡ acc.is_signer)
    × (info.is_writable ≡ acc.is_writable)

abbrev pub AllPresent : List AccountInfo → List AccountMeta → Type 0
AllPresent [] [] = Unit
AllPresent [] (a ∷ accounts) = ⊥
AllPresent (i ∷ infos) [] = ⊥
AllPresent (i ∷ infos) (a ∷ accounts) = Presents i a × AllPresent infos accounts

pub AllPresent-length :
    (infos : List AccountInfo) (accounts : List AccountMeta)
    → AllPresent infos accounts
    → length infos ≡ length accounts
AllPresent-length [] [] here = refl
AllPresent-length [] (a ∷ accounts) here = absurd here
AllPresent-length (i ∷ infos) [] here = absurd here
AllPresent-length (i ∷ infos) (a ∷ accounts) here = ap suc (AllPresent-length infos accounts here.1)

meta_ext :
    {k : Pubkey} {s w : Bool} (acc : AccountMeta)
    → k ≡ acc.pubkey
    → s ≡ acc.is_signer
    → w ≡ acc.is_writable
    → ◌≡◌ {A = AccountMeta} (record { pubkey = k; is_signer = s; is_writable = w }) acc
meta_ext acc p q r = rw (p, q, r) refl

module _ (pda : Pubkey) where
  -- TitanPDA, wherever it occurs, is a signer.
  abbrev pub Signs : AccountMeta → Type 0
  Signs acc = (acc.pubkey == pda) ≡ true → acc.is_signer ≡ true

  leg_meta-unsigned :
      (info : AccountInfo) (acc : AccountMeta)
      → Presents info (unsigned pda acc)
      → Signs acc
      → leg_meta pda info ≡ acc
  leg_meta-unsigned info acc (k, s, w) signs = elim (Bool-cases (acc.pubkey == pda)) [
    | inl own ↦
        let key : info.key ≡ acc.pubkey = k ∙ rw own refl in
        meta_ext acc key (rw (key, own) (sym (signs own))) (w ∙ rw own refl)
    | inr other ↦
        let key : info.key ≡ acc.pubkey = k ∙ rw other refl in
        meta_ext acc key (rw (key, other) (s ∙ rw other refl)) (w ∙ rw other refl)
  ]

  metas-unsigned :
      (infos : List AccountInfo) (accounts : List AccountMeta) (last : AccountMeta)
      → AllPresent infos (map (unsigned pda) accounts ++ last ∷ [])
      → All Signs accounts
      → map (leg_meta pda) (take (length accounts) infos) ≡ accounts
  metas-unsigned infos [] last here signs = refl
  metas-unsigned [] (a ∷ accounts) last here signs = absurd here
  metas-unsigned (i ∷ infos) (a ∷ accounts) last here signs =
      ap₂ (λ m ms. m ∷ ms) (leg_meta-unsigned i a here.0 signs.0)
        (metas-unsigned infos accounts last here.1 signs.1)

module _ {F : Type 0} (venue : TradingVenue F) (request : QuoteRequest) (pda : Pubkey)
    (from to weight : ℕ) where
  -- The accounts of a leg that is built, passed on by the runtime, give the program's instruction the
  -- very account metas of the venue's own swap instruction, when TitanPDA signs that one wherever it
  -- occurs in it; and below 256 accounts the leg's count is their number and one more.
  pub build_swap_leg-leg_account_metas :
      (spec : SwapSpecInputV2) (accounts : List AccountMeta) (infos : List AccountInfo)
      (ix : Instruction)
      → build_swap_leg venue request pda from to weight ≡ ok (spec, accounts)
      → venue.generate_swap_instruction request pda ≡ ok ix
      → All (Signs pda) ix.accounts
      → length accounts < 256
      → AllPresent infos accounts
      → (leg_account_metas pda infos ≡ ix.accounts) × (spec.n_accounts ≡ length ix.accounts + 1)
  unfolding leg_account_metas assemble_leg_accounts
  build_swap_leg-leg_account_metas spec accounts infos ix built made signs small here =
      let (ix', made', _, assembled, counted) =
        build_swap_leg-Built venue request pda from to weight spec accounts built in
      let same : ix' ≡ ix = ok-injective (sym made' ∙ made) in
      let leg : accounts
          ≡ map (unsigned pda) ix.accounts ++ new_readonly venue.program_id false ∷ [] =
        assembled ∙ ap (λ x. assemble_leg_accounts x pda venue.program_id) same in
      let size : length accounts ≡ length ix.accounts + 1 =
        ap length leg
        ∙ omega (
          arith,
          length-append (map (unsigned pda) ix.accounts) (new_readonly venue.program_id false ∷ []),
          length-map (unsigned pda) ix.accounts,
        ) in
      let kept : length infos - 1 ≡ length ix.accounts =
        omega (arith, AllPresent-length infos accounts here, size) in
      (
        ap (λ n. map (leg_meta pda) (take n infos)) kept
            ∙ metas-unsigned pda infos ix.accounts (new_readonly venue.program_id false)
                (subst (AllPresent infos) leg here) signs,
        omega (arith, counted, size),
      )
