-- ===== src/AccountCaching/History.antt =====
-- A cache of src/account_caching/rpc_cache.rs over a sequence of calls, on a ledger that stays as it is.
use quay_titan_integration.Prelude.{
  ◌≡◌, refl, not, ◌&&◌, Option, none, some, Result, ok, err, Fault, lift, List, map, ◌==◌, arith,
  ap, ◌∙◌, sym, subst, fun_ext, inl, inr, Option-cases, Result-cases, Bool-cases, ok-injective,
}
use quay_titan_integration.Solana.{Pubkey, Account}
use quay_titan_integration.TradingVenue.Error.{AccountCacheError}
use quay_titan_integration.AccountCaching.{
  Rpc, AccountMap, new_cache, reset_cache, cached, get_account, get_accounts,
}
use quay_titan_integration.AccountCaching.Snapshot.{
  mem, is_some, view, get_accounts-view, get_accounts-cache,
}

-- The caches that the methods lead to, from a new one.
pub data Reach (rpc : Rpc) : AccountMap → Type 0 where
  created : Reach rpc new_cache
  reset : (cache : AccountMap) → Reach rpc cache → Reach rpc (reset_cache cache)
  asked_one :
      (cache : AccountMap) (key : Pubkey)
      → Reach rpc cache
      → Reach rpc (get_account rpc cache key).1
  asked_many :
      (cache : AccountMap) (keys : List Pubkey)
      → Reach rpc cache
      → Reach rpc (get_accounts rpc cache keys).1

-- The RPC client answers from a ledger.
pub record Serves (rpc : Rpc) (ledger : Pubkey → Option Account) : Type 0 where
  pub one :
      (key : Pubkey) (account : Account)
      → rpc.get_account key ≡ ok account
      → ledger key ≡ some account
  pub many : (keys : List Pubkey) → rpc.get_multiple_accounts keys ≡ ok (map ledger keys)

-- Every entry is the account on the ledger, or its absence.
abbrev Coherent : (Pubkey → Option Account) → AccountMap → Type 0
Coherent ledger cache =
    (key : Pubkey) (account : Option Account) → cache key ≡ some account → ledger key ≡ account

lift-eq-ok :
    {A : Type 0} (r : Result AccountCacheError A) {a : A}
    → ◌≡◌ {A = Result (Fault AccountCacheError) A} (lift r) (ok a)
    → r ≡ ok a
lift-eq-ok (ok b) h = ap ok (ok-injective h)
lift-eq-ok (err e) h = cc

module _ (rpc : Rpc) (ledger : Pubkey → Option Account) (serves : Serves rpc ledger) where
  asked_one-Coherent :
      (cache : AccountMap) (key : Pubkey)
      → Coherent ledger cache
      → Coherent ledger (get_account rpc cache key).1
  unfolding get_account
  asked_one-Coherent cache key coherent k a h = elim (Option-cases (cache key)) [
    | inr (b, there) ↦ coherent k a (rw (there, get_account) at h)
    | inl absent ↦ elim (Result-cases (rpc.get_account key)) [
      | inr (e, failed) ↦ coherent k a (rw (absent, failed, get_account) at h)
      | inl (b, answered) ↦ elim (Bool-cases (k == key)) [
        | inl e ↦
            let same : key ≡ k = ground arith in
            let stored : ◌≡◌ {A = Option (Option Account)} (some (some b)) (some a) =
              rw (absent, answered, e, get_account) at h in
            subst (λ n. ledger n ≡ a) same (serves.one key b answered ∙ cc)
        | inr e ↦ coherent k a (rw (absent, answered, e, get_account) at h)
      ]
    ]
  ]

  asked_many-Coherent :
      (cache : AccountMap) (keys : List Pubkey)
      → Coherent ledger cache
      → Coherent ledger (get_accounts rpc cache keys).1
  asked_many-Coherent cache keys coherent k a h =
      let entry = get_accounts-cache rpc ledger serves.many cache keys k in
      elim (Bool-cases (mem k keys && not (is_some (cached cache k)))) [
        | inl e ↦ let stored = sym (rw e at entry) ∙ h in cc
        | inr e ↦ coherent k a (sym (rw e at entry) ∙ h)
      ]

  Reach-Coherent : (cache : AccountMap) → Reach rpc cache → Coherent ledger cache
  unfolding new_cache reset_cache
  Reach-Coherent cache created = λ k a h. cc
  Reach-Coherent cache (reset old _) = λ k a h. cc
  Reach-Coherent cache (asked_one old key reached) =
      asked_one-Coherent old key (Reach-Coherent old reached)
  Reach-Coherent cache (asked_many old keys reached) =
      asked_many-Coherent old keys (Reach-Coherent old reached)

  -- What a reachable cache holds for a key, the ledger holds.
  Reach-view :
      (cache : AccountMap) → Reach rpc cache → (key : Pubkey) → view ledger cache key ≡ ledger key
  unfolding view cached
  Reach-view cache reached key = elim (Option-cases (cache key)) [
    | inl absent ↦ rw (absent, view, cached) refl
    | inr (none, there) ↦ rw (there, view, cached) refl
    | inr (some a, there) ↦
        rw (there, view, cached) (sym (Reach-Coherent cache reached key (some a) there))
  ]

  one_answer :
      (cache : AccountMap)
      → Reach rpc cache
      → (key : Pubkey) (answer : Option Account) → (get_account rpc cache key).0 ≡ ok answer
      → answer ≡ ledger key
  unfolding get_account
  one_answer cache reached key answer h = elim (Option-cases (cache key)) [
    | inr (a, there) ↦
        let given : ◌≡◌ {A = Result AccountCacheError (Option Account)} (ok a) (ok answer) =
          rw (there, get_account) at h in
        sym (ok-injective given) ∙ sym (Reach-Coherent cache reached key a there)
    | inl absent ↦ elim (Result-cases (rpc.get_account key)) [
      | inl (b, answered) ↦
          let given : ◌≡◌ {A = Result AccountCacheError (Option Account)} (ok (some b))
              (ok answer) =
            rw (absent, answered, get_account) at h in
          sym (ok-injective given) ∙ sym (serves.one key b answered)
      | inr (e, failed) ↦ let given = rw (absent, failed, get_account) at h in cc
    ]
  ]

  -- However it has been used, a cache answers what the ledger holds when the RPC client answers from
  -- a ledger that does not change: each key of a request, in order, and a single key whenever it gives
  -- an answer.
  pub Reach-answers :
      (cache : AccountMap)
      → Reach rpc cache
      → ((keys : List Pubkey) → (get_accounts rpc cache keys).0 ≡ ok (map ledger keys))
        × ((key : Pubkey) (answer : Option Account)
            → (get_account rpc cache key).0 ≡ ok answer
            → answer ≡ ledger key)
  Reach-answers cache reached = (
    λ keys.
        get_accounts-view rpc ledger serves.many cache keys
        ∙ ap (λ f. ok (map f keys)) (fun_ext (Reach-view cache reached)),
    one_answer cache reached,
  )
