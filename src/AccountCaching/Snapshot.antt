-- ===== src/AccountCaching/Snapshot.antt =====
-- `get_accounts` against its specification: each key's cached account, or else what the RPC answers.
use quay_titan_integration.Prelude.{
  ◌≡◌, refl, Bool, true, false, not, ◌&&◌, ◌||◌, Option, none, some, ok, List, [], ◌∷◌, ◌++◌, map,
  ◌==◌, if◌then◌else◌, arith, ap, ◌∙◌, sym, inl, inr, Option-cases, append-nil, append_assoc,
}
use quay_titan_integration.Solana.{Pubkey, Account}
use quay_titan_integration.AccountCaching.{
  Rpc, AccountMap, insert, empty, cached, get_multiple, classify, store, reassemble, answer_from,
  fetch, get_accounts,
}

abbrev pub mem : Pubkey → List Pubkey → Bool
mem k [] = false
mem k (j ∷ js) = k == j || mem k js

abbrev pub is_some : Option Account → Bool
is_some none = false
is_some (some a) = true

-- The keys that a request asks the RPC for, in order.
abbrev pub ask : Option Account → Pubkey → List Pubkey → List Pubkey
ask none key keys = key ∷ keys
ask (some a) key keys = keys

pub asked : AccountMap → List Pubkey → List Pubkey
asked cache [] = []
asked cache (key ∷ keys) = ask (cached cache key) key (asked cache keys)

classify_missing :
    (cache : AccountMap) (keys : List Pubkey) (found : AccountMap) (missing : List Pubkey)
    → (classify (get_multiple cache keys) keys (found, missing)).1 ≡ missing ++ asked cache keys
unfolding classify get_multiple asked
classify_missing cache [] found missing = sym (append-nil missing)
classify_missing cache (key ∷ keys) found missing = elim (Option-cases (cached cache key)) [
  | inl absent ↦ rw absent (
      classify_missing cache keys found (missing ++ key ∷ [])
      ∙ append_assoc missing (key ∷ []) (asked cache keys))
  | inr (a, held) ↦ rw held (classify_missing cache keys (insert key (some a) found) missing)
]

classify_found :
    (cache : AccountMap) (keys : List Pubkey) (found : AccountMap) (missing : List Pubkey)
    (k : Pubkey)
    → (classify (get_multiple cache keys) keys (found, missing)).0 k
      ≡ (if mem k keys && is_some (cached cache k) then some (cached cache k) else found k)
unfolding classify get_multiple
classify_found cache [] found missing k = refl
classify_found cache (key ∷ keys) found missing k = elim (Option-cases (cached cache key)) [
  | inl absent ↦ rw absent (classify_found cache keys found (missing ++ key ∷ []) k ∙ ground arith)
  | inr (a, held) ↦
      rw held (classify_found cache keys (insert key (some a) found) missing k ∙ ground arith)
]

mem-asked :
    (cache : AccountMap) (keys : List Pubkey) (k : Pubkey)
    → mem k (asked cache keys) ≡ (mem k keys && not (is_some (cached cache k)))
unfolding asked
mem-asked cache [] k = refl
mem-asked cache (key ∷ keys) k = ground (arith, mem-asked cache keys k)

store_pointwise :
    (ledger : Pubkey → Option Account) (keys : List Pubkey) (found cache : AccountMap) (k : Pubkey)
    → ((store keys (map ledger keys) (found, cache)).0 k
        ≡ (if mem k keys then some (ledger k) else found k))
      × ((store keys (map ledger keys) (found, cache)).1 k
          ≡ (if mem k keys then some (ledger k) else cache k))
unfolding store
store_pointwise ledger [] found cache k = (refl, refl)
store_pointwise ledger (key ∷ keys) found cache k = ground (
  arith,
  store_pointwise ledger keys (insert key (ledger key) found) (insert key (ledger key) cache) k,
)

reassemble_all :
    (view : Pubkey → Option Account) (found : AccountMap) (keys : List Pubkey)
    → ((k : Pubkey) → mem k keys ≡ true → found k ≡ some (view k))
    → reassemble found keys ≡ ok (map view keys)
unfolding reassemble
reassemble_all view found [] h = refl
reassemble_all view found (key ∷ keys) h =
    rw (h key (ground arith), reassemble_all view found keys (λ k m. h k (ground arith))) refl

-- What a key stands for: its cached account, and otherwise the account on the ledger.
unfoldable pub view : (Pubkey → Option Account) → AccountMap → Pubkey → Option Account
view ledger cache key = elim (cached cache key) [ some a ↦ some a | none ↦ ledger key ]

module _ (rpc : Rpc) (ledger : Pubkey → Option Account)
    (pointwise : (keys : List Pubkey) → rpc.get_multiple_accounts keys ≡ ok (map ledger keys)) where
  fetch_pointwise :
      (missing : List Pubkey) (maps : AccountMap × AccountMap)
      → fetch rpc missing maps ≡ ok (store missing (map ledger missing) maps)
  unfolding fetch store
  fetch_pointwise [] maps = refl
  fetch_pointwise (key ∷ keys) maps = rw (pointwise (key ∷ keys), fetch) refl

  module _ (cache : AccountMap) (keys : List Pubkey) where
    abbrev split : AccountMap × List Pubkey
    split = classify (get_multiple cache keys) keys (empty, [])

    abbrev maps : AccountMap × AccountMap
    maps = store split.1 (map ledger split.1) (split.0, cache)

    get_accounts-maps : get_accounts rpc cache keys ≡ answer_from keys maps
    unfolding get_accounts
    get_accounts-maps = rw (fetch_pointwise split.1 (split.0, cache), get_accounts) refl

    missing-asked : split.1 ≡ asked cache keys
    missing-asked = classify_missing cache keys empty []

    found_view : (k : Pubkey) → mem k keys ≡ true → maps.0 k ≡ some (view ledger cache k)
    unfolding view
    found_view k m =
        let stored = (store_pointwise ledger split.1 split.0 cache k).0 in
        let hit = classify_found cache keys empty [] k in
        let which = rw (← missing-asked) at (mem-asked cache keys k) in
        ground (arith, stored, hit, which)

    -- When the RPC answers each key with the account on the ledger, in order, a request never panics
    -- or fails, and it answers each key, in order and repeated keys too, with the key's cached account
    -- or, where none is cached, with the account on the ledger.
    pub get_accounts-view : (get_accounts rpc cache keys).0 ≡ ok (map (view ledger cache) keys)
    unfolding answer_from
    get_accounts-view =
        ap (λ r. r.0) get_accounts-maps ∙ reassemble_all (view ledger cache) maps.0 keys found_view

    -- A request caches the ledger's answer, an absence too, for exactly the requested keys that had no
    -- cached account, and leaves every other entry alone.
    pub get_accounts-cache :
        (k : Pubkey)
        → (get_accounts rpc cache keys).1 k
          ≡ (if mem k keys && not (is_some (cached cache k)) then some (ledger k) else cache k)
    unfolding answer_from
    get_accounts-cache k =
        let stored = (store_pointwise ledger split.1 split.0 cache k).1 in
        let which = rw (← missing-asked) at (mem-asked cache keys k) in
        ap (λ r. r.1 k) get_accounts-maps ∙ stored ∙ rw which refl
