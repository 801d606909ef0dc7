-- ===== src/Tests/Cache.antt =====
-- A request for two keys, one of them cached.
use quay_titan_integration.Prelude.{
  List, ◌≡◌, refl, not, ◌&&◌, Option, none, some, ok, err, [], ◌∷◌, map, ltb, if◌then◌else◌,
}
use quay_titan_integration.Solana.{Pubkey, Account}
use quay_titan_integration.AccountCaching.{
  new_cache, get_account, Rpc, AccountMap, insert, empty, cached, get_accounts,
}
use quay_titan_integration.AccountCaching.History.{
  Reach, created, asked_many, Serves, Reach-answers,
}
use quay_titan_integration.AccountCaching.Snapshot.{
  mem, is_some, view, get_accounts-view, get_accounts-cache,
}

abbrev ledger : Pubkey → Option Account
ledger key = if ltb key 10 then some (record { bytes = key ∷ []; owner = 1 }) else none

abbrev rpc : Rpc
rpc = record {
  get_account = λ key. err "not asked";
  get_multiple_accounts = λ keys. ok (map ledger keys);
}

abbrev cache : AccountMap
cache = insert 3 (some (record { bytes = []; owner = 2 })) empty

get_accounts-view_example :
    (get_accounts rpc cache (3 ∷ 4 ∷ [])).0 ≡ ok (map (view ledger cache) (3 ∷ 4 ∷ []))
get_accounts-view_example = get_accounts-view rpc ledger (λ keys. refl) cache (3 ∷ 4 ∷ [])

get_accounts-cache_example :
    (get_accounts rpc cache (3 ∷ 4 ∷ [])).1 4
    ≡ (if mem 4 (3 ∷ 4 ∷ []) && not (is_some (cached cache 4)) then some (ledger 4) else cache 4)
get_accounts-cache_example = get_accounts-cache rpc ledger (λ keys. refl) cache (3 ∷ 4 ∷ []) 4

-- A cache that has answered a request for two keys, one of which is missing.
abbrev used : AccountMap
used = (get_accounts rpc new_cache (3 ∷ 40 ∷ [])).1

used-Reach : Reach rpc used
used-Reach = asked_many new_cache (3 ∷ 40 ∷ []) created

rpc-Serves : Serves rpc ledger
rpc-Serves = record { one = λ key account h. cc; many = λ keys. refl }

Reach-answers_example :
    ((keys : List Pubkey) → (get_accounts rpc used keys).0 ≡ ok (map ledger keys))
    × ((key : Pubkey) (answer : Option Account)
        → (get_account rpc used key).0 ≡ ok answer
        → answer ≡ ledger key)
Reach-answers_example = Reach-answers rpc ledger rpc-Serves used used-Reach
