-- ===== src/Tests/Creates.antt =====
-- Accounts that are created and closed in a state that keeps what a route needs.
use quay_titan_integration.Prelude.{
  ℕ, zero, suc, ◌+◌, ◌≤◌, ◌≡◌, refl, ◌⊎◌, inl, inr, true, false, List, [], ◌∷◌, ◌++◌, length,
  slice?, replicate, ◌==◌, if◌then◌else◌, arith, ap, ◌∙◌, sym, subst, Bool-cases,
}
use quay_titan_integration.Prelude.Bytes.{le_bytes, from_le_bytes}
use quay_titan_integration.Solana.{Pubkey}
use quay_titan_integration.Program.Accounts.{
  account_exists, extract_token_amount, extract_token_owner, extract_mint_decimals,
  is_titan_pda_token_account,
}
use quay_titan_integration.Program.Runtime.{AccountState, World, Handle, view}
use quay_titan_integration.Program.Route.Authority.{IsAta, IsMint}
use quay_titan_integration.Program.Route.Closing.{held}
use quay_titan_integration.Program.Route.Success.{at, IsFree, TokenAccount, Keeps}
use quay_titan_integration.Tests.Execute.{ids, handle, accounts, remaining}
use quay_titan_integration.Tests.Moves.{AllAlike}

-- An account with data has lamports, and the two mints are there.
abbrev pub Funds : World → Type 0
Funds w =
    ((key : Pubkey) → IsFree w key → (w key).bytes ≡ [])
    × (account_exists (view w (at 20)) ≡ true)
    × (account_exists (view w (at 21)) ≡ true)

abbrev pub fresh : (program mint owner amount : ℕ) → AccountState
fresh program mint owner amount = record {
  owner = program;
  lamports = 1;
  bytes =
      (mint ∷ replicate 31 0)
      ++ ((owner ∷ replicate 31 0) ++ (le_bytes 8 amount ++ replicate 93 0));
}

abbrev pub opened : (program mint owner ata : ℕ) → World → World
opened program mint owner ata w = λ key. if key == ata then fresh program mint owner 0 else w key

abbrev pub emptied : Pubkey → World → World
emptied account w = λ key.
    if key == account then record { owner = (w key).owner; lamports = 0; bytes = [] } else w key

pub is_ata : (i : ℕ) (ata : Handle) → IsAta accounts remaining 2 i ata → ata.key ≡ 10 + i
is_ata zero ata a = let same : handle 10 ≡ ata = cc in ap (λ h. h.key) (sym same)
is_ata (suc zero) ata a = let same : handle 11 ≡ ata = cc in ap (λ h. h.key) (sym same)
is_ata (suc (suc i)) ata a = absurd (omega (arith, a.1))

pub is_mint :
    (i : ℕ) (mint : Handle) → IsMint accounts remaining 2 i mint → (mint.key ≡ 20) ⊎ (mint.key ≡ 21)
is_mint zero mint m = inl (let same : handle 20 ≡ mint = cc in ap (λ h. h.key) (sym same))
is_mint (suc zero) mint m = inr (let same : handle 21 ≡ mint = cc in ap (λ h. h.key) (sym same))
is_mint (suc (suc i)) mint m = absurd (omega (arith, m.1))

pub mint_there :
    (w : World) (i : ℕ) (mint : Handle)
    → Funds w
    → IsMint accounts remaining 2 i mint
    → account_exists (view w (at mint.key)) ≡ true
mint_there w i mint good m = elim (is_mint i mint m) [ inl e ↦ rw e good.1 | inr e ↦ rw e good.2 ]

pub no_bytes : (xs : List ℕ) → length xs ≡ 0 → xs ≡ []
no_bytes [] h = refl
no_bytes (x ∷ xs) h = absurd (omega (arith, h))

pub alike_Funds : (w w' : World) → AllAlike w w' → Funds w → Funds w'
unfolding account_exists
alike_Funds w w' alike (data_paid, base, quote) = (
  λ key free.
      let same = alike key in
      let before = data_paid key (rw (← same.lamports, ← same.head.size) free) in
      no_bytes (w' key).bytes (same.head.size ∙ ap length before),
  let same = alike 20 in rw (same.lamports, same.head.size) base,
  let same = alike 21 in rw (same.lamports, same.head.size) quote,
)

pub fresh-TokenAccount :
    (program mint owner ata : ℕ) (w : World)
    → (program ≡ 81) ⊎ (program ≡ 82)
    → TokenAccount ids (opened program mint owner ata w) ata owner program mint
unfolding is_titan_pda_token_account extract_token_owner slice? le_bytes from_le_bytes
    account_exists
fresh-TokenAccount program mint owner ata w known =
    let here : (ata == ata) ≡ true = ground arith in
    record {
      held_by = elim known [
        | inl e ↦ rw (here, e) (ground arith)
        | inr e ↦ rw (here, e) (ground arith)
      ];
      run_by = rw here refl;
      of_mint = rw here (omega arith);
      there = rw here (ground arith);
    }

-- An account that is there, or has data, is not the free one.
pub not_free :
    (w : World) (key ata : Pubkey)
    → account_exists (view w (at key)) ≡ true
    → IsFree w ata
    → (key == ata) ≡ false
not_free w key ata there free = elim (Bool-cases (key == ata)) [
  | inr e ↦ e
  | inl e ↦
      let same : key ≡ ata = ground arith in
      let there' = subst (λ k. account_exists (view w (at k)) ≡ true) same there in cc
]

pub no_token :
    (w : World) (key owner program mint : Pubkey)
    → (w key).bytes ≡ []
    → ¬ (TokenAccount ids w key owner program mint)
unfolding is_titan_pda_token_account
no_token w key owner program mint e t = absurd (ground (arith, t.held_by, ap length e))

pub create-Keeps :
    (program mint owner ata : ℕ) (w : World)
    → Funds w
    → IsFree w ata
    → Keeps ids accounts remaining 2 w (opened program mint owner ata w)
unfolding is_titan_pda_token_account extract_token_owner extract_mint_decimals account_exists
create-Keeps program mint owner ata w good free = record {
  tokens = λ key owner' program' mint' t. elim (Bool-cases (key == ata)) [
    | inl e ↦
        let same : ata ≡ key = ground arith in
        absurd (
          no_token w key owner' program' mint'
            (subst (λ k. (w k).bytes ≡ []) same (good.0 ata free)) t)
    | inr e ↦ record {
      held_by = rw e t.held_by;
      run_by = rw e t.run_by;
      of_mint = rw e t.of_mint;
      there = rw e t.there;
    }
  ];
  owners = λ i m p. rw (not_free w m.key ata (mint_there w i m good p) free) refl;
  decimals = λ i m p. rw (not_free w m.key ata (mint_there w i m good p) free) refl;
}

pub create-Funds :
    (program mint owner ata : ℕ) (w : World)
    → Funds w
    → IsFree w ata
    → Funds (opened program mint owner ata w)
unfolding account_exists
create-Funds program mint owner ata w good free = (
  λ key free'. elim (Bool-cases (key == ata)) [
    | inl e ↦ let gone = rw e at free' in absurd (ground (arith, gone))
    | inr e ↦ rw e (good.0 key (rw e at free'))
  ],
  rw (not_free w 20 ata good.1 free) good.1,
  rw (not_free w 21 ata good.2 free) good.2,
)

pub close-Funds :
    (account : Pubkey) (w : World)
    → ((20 == account) ≡ false) × ((21 == account) ≡ false)
    → Funds w
    → Funds (emptied account w)
unfolding account_exists
close-Funds account w apart good = (
  λ key free. elim (Bool-cases (key == account)) [
    | inl e ↦ rw e refl
    | inr e ↦ rw e (good.0 key (rw e at free))
  ],
  rw apart.0 good.1,
  rw apart.1 good.2,
)

pub close-TokenAccount :
    (account : Pubkey) (w : World) (key owner program mint : Pubkey)
    → (key == account) ≡ false
    → TokenAccount ids w key owner program mint
    → TokenAccount ids (emptied account w) key owner program mint
unfolding is_titan_pda_token_account extract_token_owner account_exists
close-TokenAccount account w key owner program mint e t = record {
  held_by = rw e t.held_by;
  run_by = rw e t.run_by;
  of_mint = rw e t.of_mint;
  there = rw e t.there;
}

pub close-owner :
    (account : Pubkey) (w : World) (key : Pubkey) → (emptied account w key).owner ≡ (w key).owner
close-owner account w key = elim (Bool-cases (key == account)) [
  | inl e ↦ rw e refl
  | inr e ↦ rw e refl
]

pub close-held :
    (account : Pubkey) (w : World) (key : Pubkey)
    → (key == account) ≡ false
    → held w key ≤ held (emptied account w) key
unfolding extract_token_amount
close-held account w key e = rw e (omega arith)
