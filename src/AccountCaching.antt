-- ===== src/AccountCaching.antt =====
-- src/account_caching/rpc_cache.rs: `RpcClientCache`. The two hash maps are functions from keys; the RPC
-- client is a record of its two calls. A method returns its result with the cache that it leaves.
pub mod Snapshot
pub mod History
use Prim.Native.String.{String}
use quay_titan_integration.Prelude.{
  ℕ, Bool, Option, none, some, Result, ok, err, Fault, returned, panic, or_panic, map_err, lift,
  List, [], ◌∷◌, ◌++◌, map, ◌==◌, if◌then◌else◌, ◌>>=◌,
}
use quay_titan_integration.Solana.{Pubkey, Account}
use quay_titan_integration.TradingVenue.Error.{AccountCacheError, failed_to_fetch_account}

-- The calls of `RpcClient`; an error is its rendered message.
pub record Rpc : Type 0 where
  pub get_account : Pubkey → Result String Account
  pub get_multiple_accounts : List Pubkey → Result String (List (Option Account))

-- `DashMap<Pubkey, Option<Account>>` and `AHashMap<Pubkey, Option<Account>>`
abbrev pub AccountMap : Type 0
AccountMap = Pubkey → Option (Option Account)

abbrev pub insert : Pubkey → Option Account → AccountMap → AccountMap
insert key account m = λ k. if k == key then some account else m k

abbrev pub empty : AccountMap
empty = λ k. none

-- `RpcClientCache::new`, and `reset_cache`.
pub new_cache : AccountMap
new_cache = empty

pub reset_cache : AccountMap → AccountMap
reset_cache cache = empty

-- One entry of `get_multiple`: a cached absence and an absent entry both give `None`.
unfoldable pub cached : AccountMap → Pubkey → Option Account
cached cache key = elim (cache key) [ some value ↦ value | none ↦ none ]

pub get_multiple : AccountMap → List Pubkey → List (Option Account)
get_multiple cache keys = map (cached cache) keys

unfoldable pub get_account :
    Rpc → AccountMap → Pubkey → Result AccountCacheError (Option Account) × AccountMap
get_account rpc cache key = elim (cache key) [
  | some account ↦ (ok account, cache)
  | none ↦ elim (rpc.get_account key) [
    | ok response ↦ (ok (some response), insert key (some response) cache)
    | err e ↦ (err (failed_to_fetch_account e), cache)
  ]
]

-- The loop over the cached results and their keys: hits go to the map, misses to the list.
pub classify :
    List (Option Account) → List Pubkey → AccountMap × List Pubkey → AccountMap × List Pubkey
classify [] keys acc = acc
classify (account ∷ results) [] acc = acc
classify (some account ∷ results) (key ∷ keys) (found, missing) =
    classify results keys (insert key (some account) found, missing)
classify (none ∷ results) (key ∷ keys) (found, missing) =
    classify results keys (found, missing ++ key ∷ [])

-- The loop over the response: both maps take each answer.
pub store : List Pubkey → List (Option Account) → AccountMap × AccountMap → AccountMap × AccountMap
store [] response maps = maps
store (key ∷ keys) [] maps = maps
store (key ∷ keys) (account ∷ response) (found, cache) =
    store keys response (insert key account found, insert key account cache)

-- The results in the order of the input; `unwrap` panics at a key that has none.
pub reassemble : AccountMap → List Pubkey → Result (Fault AccountCacheError) (List (Option Account))
reassemble found [] = ok []
reassemble found (key ∷ keys) = do
  item ← or_panic (found key)
  rest ← reassemble found keys
  ok (item ∷ rest)

-- The rest of `get_accounts`, once the maps are complete.
pub answer_from :
    List Pubkey
    → AccountMap × AccountMap
    → Result (Fault AccountCacheError) (List (Option Account)) × AccountMap
answer_from keys (found, cache) = (reassemble found keys, cache)

-- The request for the missing keys, when there are any.
pub fetch :
    Rpc → List Pubkey → AccountMap × AccountMap → Result AccountCacheError (AccountMap × AccountMap)
fetch rpc [] maps = ok maps
fetch rpc (key ∷ keys) maps = elim (rpc.get_multiple_accounts (key ∷ keys)) [
  | ok response ↦ ok (store (key ∷ keys) response maps)
  | err e ↦ err (failed_to_fetch_account e)
]

pub get_accounts :
    Rpc
    → AccountMap
    → List Pubkey
    → Result (Fault AccountCacheError) (List (Option Account)) × AccountMap
get_accounts rpc cache keys =
    let (found, missing) = classify (get_multiple cache keys) keys (empty, []) in
    elim (fetch rpc missing (found, cache)) [
      | ok maps ↦ answer_from keys maps
      | err e ↦ (err (returned e), cache)
    ]
