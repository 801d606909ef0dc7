-- ===== src/Quay/State/External.antt =====
-- The data of the bound external accounts after a refresh.
use quay_titan_integration.Prelude.{
  ℕ, zero, suc, ◌+◌, ◌<◌, ◌≡◌, ◌≢◌, refl, true, false, ◌⊎◌, inl, inr, Option, none, some, Result,
  ok, List, [], ◌∷◌, ◌++◌, length, get_elem?, ◌==◌, arith, ap, ◌∙◌, sym, subst, append_assoc,
  append-nil, Option-cases, Bool-cases, Result-cases,
}
use quay_titan_integration.Solana.{Pubkey, Account}
use quay_titan_integration.TradingVenue.Error.{AccountCacheError}
use quay_titan_integration.TradingVenue.TokenInfo.{Spl}
use quay_titan_integration.Quay.Sdk.{Sdk}
use quay_titan_integration.Quay.Venue.{QuayVenue, initialized, has_all_state}
use quay_titan_integration.Quay.State.{
  refresh_state, fixed_keys, same_keys, present, collect_ext, ext_data_of,
}
use quay_titan_integration.Quay.State.Atomic.{refresh_state-IsAtomic}
use quay_titan_integration.Quay.State.Snapshot.{Snapshot, snapshot, refresh_state-Refreshed}

pub same_keys→eq : (js ks : List Pubkey) → same_keys js ks ≡ true → js ≡ ks
unfolding same_keys
same_keys→eq [] [] h = refl
same_keys→eq [] (k ∷ ks) h = cc
same_keys→eq (j ∷ js) [] h = cc
same_keys→eq (j ∷ js) (k ∷ ks) h = ground (arith, same_keys→eq js ks)

-- `found` holds the data of the accounts from slot `i` on, one for each key.
abbrev pub Collected : List (Option Account) → ℕ → List Pubkey → List (List ℕ) → Type 0
Collected accounts i keys found =
    (length found ≡ length keys)
    × ((j : ℕ)
        → j < length keys
        → (a : Account) × (present accounts (i + j) ≡ some a) × (get_elem? found j ≡ some a.bytes))

cons_each :
    (accounts : List (Option Account)) (i : ℕ) (key : Pubkey) (keys : List Pubkey)
    (found : List (List ℕ)) (a : Account)
    → present accounts i ≡ some a
    → Collected accounts (suc i) keys found
    → (j : ℕ) → j < length (key ∷ keys)
    → (b : Account) × (present accounts (i + j) ≡ some b)
      × (get_elem? (a.bytes ∷ found) j ≡ some b.bytes)
cons_each accounts i key keys found a here c zero h =
    let same : i + 0 ≡ i = omega arith in (a, ap (present accounts) same ∙ here, refl)
cons_each accounts i key keys found a here c (suc j) h =
    let (b, e, g) = c.1 j (omega arith) in
    let same : i + suc j ≡ suc i + j = omega arith in (b, ap (present accounts) same ∙ e, g)

module _ (accounts : List (Option Account)) (i : ℕ) (key : Pubkey) (keys : List Pubkey)
    (before : List (List ℕ)) where
  collect_stop : present accounts i ≡ none → collect_ext accounts i (key ∷ keys) before ≡ []
  unfolding collect_ext
  collect_stop missing = rw (missing, collect_ext) refl

  collect_next :
      (a : Account)
      → present accounts i ≡ some a
      → collect_ext accounts i (key ∷ keys) before
        ≡ collect_ext accounts (suc i) keys (before ++ a.bytes ∷ [])
  unfolding collect_ext
  collect_next a here = rw (here, collect_ext) refl

collect_ext-Collected :
    (accounts : List (Option Account)) (i : ℕ) (keys : List Pubkey) (before : List (List ℕ))
    → (collect_ext accounts i keys before ≡ [])
      ⊎ ((found : List (List ℕ)) × (collect_ext accounts i keys before ≡ before ++ found)
          × Collected accounts i keys found)
unfolding collect_ext
collect_ext-Collected accounts i [] before =
    inr ([], sym (append-nil before), (refl, λ j h. absurd (omega arith)))
collect_ext-Collected accounts i (key ∷ keys) before = elim (Option-cases (present accounts i)) [
  | inl missing ↦ inl (collect_stop accounts i key keys before missing)
  | inr (a, here) ↦ elim (collect_ext-Collected accounts (suc i) keys (before ++ a.bytes ∷ [])) [
    | inl stopped ↦ inl (collect_next accounts i key keys before a here ∙ stopped)
    | inr (found, e, c) ↦ inr (
      a.bytes ∷ found,
      collect_next accounts i key keys before a here
          ∙ (e ∙ append_assoc before (a.bytes ∷ []) found),
      (ap suc c.0, cons_each accounts i key keys found a here c),
    )
  ]
]

-- Nothing, or the data of every bound account, fetched at its own slot under an unchanged binding.
abbrev pub IsPaired : List (Option Account) → List Pubkey → List Pubkey → List (List ℕ) → Type 0
IsPaired accounts fresh old found =
    (found ≡ []) ⊎ ((fresh ≡ old) × Collected accounts 9 fresh found)

ext_data_of-IsPaired :
    (accounts : List (Option Account)) (fresh old : List Pubkey)
    → IsPaired accounts fresh old (ext_data_of accounts fresh old)
unfolding ext_data_of
ext_data_of-IsPaired accounts fresh old = elim (Bool-cases (same_keys fresh old)) [
  | inr rebound ↦ inl (rw rebound refl)
  | inl same ↦ elim (Bool-cases (length (collect_ext accounts 9 fresh []) == length fresh)) [
    | inr short ↦ inl (rw (same, short) refl)
    | inl full ↦ elim (collect_ext-Collected accounts 9 fresh []) [
      | inl stopped ↦ inl (rw (same, full) stopped)
      | inr (found, e, c) ↦ inr (
        same_keys→eq fresh old same,
        rw (same, full) (subst (Collected accounts 9 fresh) (sym e) c),
      )
    ]
  ]
]

nonempty_length : (keys : List Pubkey) → keys ≢ [] → (length {A = List ℕ} [] == length keys) ≡ false
nonempty_length [] h = absurd (h refl)
nonempty_length (k ∷ ks) h = ground arith

uncovered :
    (sdk : Sdk) (w : QuayVenue) → w.ext_data ≡ [] → w.ext_keys ≢ [] → initialized sdk w ≡ false
unfolding initialized has_all_state
uncovered sdk w empty bound =
    let none_held : (length w.ext_data == length w.ext_keys) ≡ false =
      rw empty (nonempty_length w.ext_keys bound) in
    ground arith

module _ (sdk : Sdk) (spl : Spl) where
  Snapshot-IsPaired :
      (accounts : List (Option Account)) (v w : QuayVenue)
      → Snapshot sdk spl accounts v w
      → IsPaired accounts w.ext_keys v.ext_keys w.ext_data
  Snapshot-IsPaired accounts v w
        (snapshot a0 a1 a2 a3 a4 a5 a6 a7 a8 strategy mm cfg b q clock fresh e0 e1 e2 e3 e4 e5 e6 e7
          e8 e9 e10 e11 e12 e13 e14 e15) =
      ext_data_of-IsPaired accounts fresh v.ext_keys

  -- After a refresh that succeeded, the venue either holds no external data, or the binding did not
  -- change and entry `j` of the data is that of the account which the cache returned for the `j`-th
  -- bound key, slot `9 + j` of the request.
  pub refresh_state-IsPaired :
      (get_accounts : List Pubkey → Result AccountCacheError (List (Option Account)))
      (v : QuayVenue)
      → (refresh_state sdk spl get_accounts v).0 ≡ ok tt
      → let w = (refresh_state sdk spl get_accounts v).1 in
        (accounts : List (Option Account)) × (get_accounts (fixed_keys sdk v ++ v.ext_keys)
          ≡ ok accounts)
        × ((w.ext_data ≡ [])
            ⊎ ((w.ext_keys ≡ v.ext_keys) × Collected accounts 9 w.ext_keys w.ext_data))
  refresh_state-IsPaired get_accounts v done =
      let (accounts, fetched, _, taken) = refresh_state-Refreshed sdk spl get_accounts v done in
      (accounts, fetched, Snapshot-IsPaired accounts v _ taken)

  Snapshot-keeps :
      (accounts : List (Option Account)) (v w : QuayVenue)
      → Snapshot sdk spl accounts v w
      → fixed_keys sdk w ≡ fixed_keys sdk v
  Snapshot-keeps accounts v w
        (snapshot a0 a1 a2 a3 a4 a5 a6 a7 a8 strategy mm cfg b q clock fresh e0 e1 e2 e3 e4 e5 e6 e7
          e8 e9 e10 e11 e12 e13 e14 e15) =
      refl

  -- When a refresh that succeeds finds a binding of external accounts that has changed and is not
  -- empty, the venue is not initialized until a later refresh.
  rebind_not_initialized :
      (get_accounts : List Pubkey → Result AccountCacheError (List (Option Account)))
      (v : QuayVenue)
      → (refresh_state sdk spl get_accounts v).0 ≡ ok tt
      → let w = (refresh_state sdk spl get_accounts v).1 in
        w.ext_keys ≢ v.ext_keys → w.ext_keys ≢ [] → initialized sdk w ≡ false
  rebind_not_initialized get_accounts v done changed bound =
      let (_, _, paired) = refresh_state-IsPaired get_accounts v done in
      elim paired [
        | inr (same, _) ↦ absurd (changed same)
        | inl empty ↦ uncovered sdk (refresh_state sdk spl get_accounts v).1 empty bound
      ]

  -- A refresh never changes which accounts the venue stands for, whether it succeeds or fails.
  pub refresh_state-fixed_keys :
      (get_accounts : List Pubkey → Result AccountCacheError (List (Option Account)))
      (v : QuayVenue)
      → fixed_keys sdk (refresh_state sdk spl get_accounts v).1 ≡ fixed_keys sdk v
  refresh_state-fixed_keys get_accounts v =
      elim (Result-cases (refresh_state sdk spl get_accounts v).0) [
        | inr (e, failed) ↦
            ap (fixed_keys sdk) (refresh_state-IsAtomic sdk spl get_accounts v e failed)
        | inl (u, done) ↦
            let (accounts, _, _, taken) = refresh_state-Refreshed sdk spl get_accounts v done in
            Snapshot-keeps accounts v _ taken
      ]
