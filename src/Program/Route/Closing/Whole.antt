-- ===== src/Program/Route/Closing/Whole.antt =====
-- The created accounts over a whole route of instructions/swap_route_v3.rs.
use quay_titan_integration.Prelude.{ℕ, ◌<◌, ◌≡◌, ok, List, [], get_elem?, some, arith, subst}
use quay_titan_integration.Program.State.{SwapSpecInputV2}
use quay_titan_integration.Program.Accounts.{TokenIds}
use quay_titan_integration.Program.Runtime.{World, Handle, Runtime}
use quay_titan_integration.Program.Route.{SwapRouteV3, execute}
use quay_titan_integration.Program.Route.Stages.{settled, staged}
use quay_titan_integration.Program.Route.Closing.{Settled, ClosesOnly, close_created-Settled}
use quay_titan_integration.Program.Route.Closing.Created.{CreatesOnly, create_missing-WasCreated}

module _ (rt : Runtime) (ids : TokenIds) (accounts : SwapRouteV3) (remaining : List Handle)
    (mints : ℕ) where
  -- When a creation gives data to the created account alone, and a close takes the data of the closed
  -- account and of no other, no empty token account is left behind: after a route that succeeds, every
  -- account of the route that had no data before it has none again, or holds a positive amount.
  pub execute-Settled :
      CreatesOnly rt
      → ClosesOnly rt
      → (amount : ℕ) (swaps : List SwapSpecInputV2) (w w' : World) (i : ℕ) (h : Handle)
      → execute rt ids accounts remaining mints amount swaps w ≡ ok (tt, w')
      → i < mints
      → get_elem? remaining i ≡ some h
      → (w h.key).bytes ≡ []
      → Settled w' h.key
  execute-Settled creates closes amount swaps w w' i h run near at gone =
      let (request, created, start, ledger, _, made, _, rest) =
        staged rt ids accounts remaining mints amount swaps w w' run in
      let (_, _, paid, _, _, _, closing, _) =
        settled rt ids accounts remaining mints amount swaps request created ledger start w' rest in
      let (j, g, inside, there, named, on) =
        (create_missing-WasCreated rt creates ids accounts remaining mints mints 0 0 w start created
            (omega arith) made).1
          i h (omega arith) (omega arith) at gone in
      subst (Settled w') named (
        (close_created-Settled rt closes ids accounts remaining mints mints 0 created paid w'
            closing).1
          j g (omega arith) (omega arith) there on)
