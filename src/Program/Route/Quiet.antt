-- ===== src/Program/Route/Quiet.antt =====
-- The stages of `execute` in instructions/swap_route_v3.rs that only read the accounts.
use quay_titan_integration.Prelude.{
  ℕ, suc, ◌≡◌, Bool, true, false, Option, none, some, Result, ok, err, List, [], ◌∷◌, if◌then◌else◌,
  ap, ◌∙◌, sym, ok-injective,
}
use quay_titan_integration.Program.State.{SwapSpecInputV2, TemplateError}
use quay_titan_integration.Program.Accounts.{TokenIds}
use quay_titan_integration.Program.Bitmap.{TitanPdaBitmap}
use quay_titan_integration.Program.Runtime.{
  World, Handle, Runtime, Act, ProgramError, ◌>>=◌, done, try, pure, found, index, need, see,
  chain-eq-ok,
}
use quay_titan_integration.Program.Reserves.{check_balances}
use quay_titan_integration.Program.Route.{
  SwapRouteV3, token_program_of, read_request, check_request, read_ledger, mint_decimals,
}

-- It leaves the accounts alone.
abbrev pub IsQuiet : {A : Type 0} → Act A → Type 0
IsQuiet {A} m = (w : World) (a : A) (w' : World) → m w ≡ ok (a, w') → w' ≡ w

module _ {A : Type 0} where
  pure-IsQuiet : (r : Result ProgramError A) → IsQuiet (pure r)
  pure-IsQuiet (ok a) w b w' h = sym (ap (λ p. p.1) (ok-injective h))
  pure-IsQuiet (err e) w b w' h = cc

  pub try-IsQuiet : (r : Result TemplateError A) → IsQuiet (try r)
  try-IsQuiet (ok a) w b w' h = sym (ap (λ p. p.1) (ok-injective h))
  try-IsQuiet (err e) w b w' h = cc

  found-IsQuiet : (o : Option A) (e : TemplateError) → IsQuiet (found o e)
  found-IsQuiet (some a) e w b w' h = sym (ap (λ p. p.1) (ok-injective h))
  found-IsQuiet none e w b w' h = cc

  pub index-IsQuiet : (o : Option A) → IsQuiet (index o)
  index-IsQuiet (some a) w b w' h = sym (ap (λ p. p.1) (ok-injective h))
  index-IsQuiet none w b w' h = cc

  pub done-IsQuiet : (a : A) → IsQuiet (done a)
  done-IsQuiet a w b w' h = sym (ap (λ p. p.1) (ok-injective h))

pub need-IsQuiet : (c : Bool) (e : TemplateError) → IsQuiet (need c e)
need-IsQuiet true e w b w' h = sym (ap (λ p. p.1) (ok-injective h))
need-IsQuiet false e w b w' h = cc

pub see-IsQuiet : (handle : Handle) → IsQuiet (see handle)
see-IsQuiet handle w b w' h = sym (ap (λ p. p.1) (ok-injective h))

if-IsQuiet :
    {A : Type 0} (c : Bool) (m n : Act A) → IsQuiet m → IsQuiet n → IsQuiet (if c then m else n)
if-IsQuiet true m n p q = p
if-IsQuiet false m n p q = q

chain-IsQuiet :
    {A B : Type 0} (m : Act A) (k : A → Act B)
    → IsQuiet m
    → ((a : A) → IsQuiet (k a))
    → IsQuiet (m >>= k)
chain-IsQuiet m k p q w b w' h =
    let (a, mid, first, rest) = chain-eq-ok m k w w' b h in q a mid b w' rest ∙ p w a mid first

ruleset quiet_rules = (
  chain-IsQuiet, try-IsQuiet, found-IsQuiet, index-IsQuiet, done-IsQuiet, need-IsQuiet, see-IsQuiet,
  if-IsQuiet,
)

pub check_request-IsQuiet :
    (mints : ℕ) (swaps : List SwapSpecInputV2) (n : ℕ) → IsQuiet (check_request mints swaps n)
unfolding check_request
check_request-IsQuiet mints swaps n = search quiet_rules depth 60

mint_decimals-IsQuiet :
    (rt : Runtime) (ids : TokenIds) (accounts : SwapRouteV3) (remaining : List Handle) (mints : ℕ)
    (h : Handle)
    → IsQuiet (mint_decimals rt ids accounts remaining mints h)
unfolding mint_decimals
mint_decimals-IsQuiet rt ids accounts remaining mints h = search quiet_rules depth 60

pub read_ledger-IsQuiet :
    (rt : Runtime) (ids : TokenIds) (accounts : SwapRouteV3) (remaining : List Handle) (mints : ℕ)
    → IsQuiet (read_ledger rt ids accounts remaining mints)
unfolding read_ledger
read_ledger-IsQuiet rt ids accounts remaining mints w a w' h = try-IsQuiet _ w a w' h

pub read_request-IsQuiet :
    (rt : Runtime) (ids : TokenIds) (accounts : SwapRouteV3) (remaining : List Handle) (mints : ℕ)
    (swaps : List SwapSpecInputV2)
    → IsQuiet (read_request rt ids accounts remaining mints swaps)
unfolding read_request
read_request-IsQuiet rt ids accounts remaining mints swaps =
    search (quiet_rules, check_request-IsQuiet, read_ledger-IsQuiet, mint_decimals-IsQuiet) depth 60

pub check_balances-IsQuiet :
    (marks : TitanPdaBitmap) (balances : List ℕ) (i idx : ℕ) (hs : List Handle)
    → IsQuiet (check_balances marks balances i idx hs)
unfolding check_balances
check_balances-IsQuiet marks balances i idx [] = done-IsQuiet tt
check_balances-IsQuiet marks balances i idx (h ∷ hs) =
    let marked = check_balances-IsQuiet marks balances (suc i) (suc idx) hs in
    let unmarked = check_balances-IsQuiet marks balances (suc i) idx hs in
    search (quiet_rules, marked, unmarked) depth 60

pub token_program_of-IsQuiet :
    (rt : Runtime) (ids : TokenIds) (accounts : SwapRouteV3) (remaining : List Handle) (mints : ℕ)
    (h : Handle)
    → IsQuiet (token_program_of rt ids accounts remaining mints h)
unfolding token_program_of
token_program_of-IsQuiet rt ids accounts remaining mints h w a w' e =
    sym (ap (λ p. p.1) (ok-injective e))
