-- ===== src/Program/Route/Closing/Created.antt =====
-- instructions/swap_route_v3.rs: the loop that creates the missing accounts.
use quay_titan_integration.Prelude.{
  ℕ, zero, suc, ◌+◌, ◌≤◌, ◌<◌, ◌≡◌, inl, inr, true, false, some, ok, List, [], get_elem?, ◌==◌,
  if◌then◌else◌, arith, ap, ◌∙◌, sym, subst, ok-injective, Bool-cases,
}
use quay_titan_integration.Prelude.Bits.{test_bit, set_bit, test_bit-set_bit}
use quay_titan_integration.Solana.{Pubkey}
use quay_titan_integration.Program.State.{missing_remaining_account}
use quay_titan_integration.Program.Accounts.{TokenIds, account_exists}
use quay_titan_integration.Program.Runtime.{
  World, Handle, Runtime, create_ata, view, found-eq-ok, changed-eq-ok, chain-eq-ok, ◌>>=◌, ◌>>◌,
}
use quay_titan_integration.Program.Tokens.{create_ata_for}
use quay_titan_integration.Program.Route.{SwapRouteV3, place, token_program_of, create_missing}
use quay_titan_integration.Program.Route.Quiet.{token_program_of-IsQuiet}

-- A creation that succeeds gives data to no account but the created one.
pub record CreatesOnly (rt : Runtime) : Type 0 where
  pub others :
      (payer owner mint ata token_program system_program : Pubkey) (w w' : World) (key : Pubkey)
      → rt.invoke (create_ata payer owner mint ata token_program system_program) w ≡ ok w'
      → (key == ata) ≡ false
      → (w' key).bytes ≡ (w key).bytes

empty-account_exists :
    (w : World) (h : Handle) → (w h.key).bytes ≡ [] → account_exists (view w h) ≡ false
unfolding account_exists
empty-account_exists w h e = rw e (ground arith)

module _ (rt : Runtime) (honest : CreatesOnly rt) (ids : TokenIds) (accounts : SwapRouteV3)
    (remaining : List Handle) (mints : ℕ) where
  -- The account at a key has been created: the bit of one of its places is set.
  abbrev pub WasCreated : ℕ → Pubkey → Type 0
  WasCreated created key =
      (j : ℕ) × (h : Handle) × (j < mints)
      × (get_elem? remaining j ≡ some h)
      × (h.key ≡ key)
      × (test_bit created j ≡ true)

  -- A round that finds the account missing.
  create_ata_next :
      (count i created : ℕ) (ata : Handle) (w w' : World) (out : ℕ)
      → account_exists (view w ata) ≡ false
      → (if account_exists (view w ata)
            then create_missing rt ids accounts remaining mints count (suc i) created
            else (do
              mint ← place rt ids accounts remaining mints (mints + i)
              token_program ← token_program_of rt ids accounts remaining mints mint
              create_ata_for rt ids accounts.payer.key accounts.titan_pda.key mint.key ata.key
                  token_program accounts.system_program.key
              create_missing rt ids accounts remaining mints count (suc i) (set_bit created i)))
          w
        ≡ ok (out, w')
      → (mid : World) × (create_missing rt ids accounts remaining mints count
            (suc i)
            (set_bit created i)
            mid
          ≡ ok (out, w'))
        × ((key : Pubkey) → (key == ata.key) ≡ false → (mid key).bytes ≡ (w key).bytes)
  unfolding create_ata_for
  create_ata_next count i created ata w w' out missing h =
      let (mint, w1, e1, h1) =
        chain-eq-ok (place rt ids accounts remaining mints (mints + i)) _ w w' out
          (rw missing at h) in
      let (_, still) =
        found-eq-ok (get_elem? remaining (mints + i)) missing_remaining_account w w1 mint e1 in
      let (program, w2, e2, h2) =
        chain-eq-ok (token_program_of rt ids accounts remaining mints mint) _ w1 w' out h1 in
      let (_, w3, e3, h3) =
        chain-eq-ok
          (create_ata_for rt ids accounts.payer.key accounts.titan_pda.key mint.key ata.key program
            accounts.system_program.key)
          _ w2 w' out h2 in
      let same : w2 ≡ w =
        token_program_of-IsQuiet rt ids accounts remaining mints mint w1 program w2 e2 ∙ still in
      (
        w3,
        h3,
        λ key other.
            honest.others accounts.payer.key accounts.titan_pda.key mint.key ata.key program
              accounts.system_program.key w2 w3 key (changed-eq-ok (rt.invoke _ w2) w3 e3) other
            ∙ ap (λ u. (u key).bytes) same,
      )

  -- What a round leaves for the rest: the account of its place is created when it has no data.
  abbrev Round : ℕ → ℕ → ℕ → World → World → ℕ → Type 0
  Round count i created w w' out =
      (ata : Handle) × (mid : World) × (next : ℕ) × (get_elem? remaining i ≡ some ata)
      × (create_missing rt ids accounts remaining mints count (suc i) next mid ≡ ok (out, w'))
      × ((j : ℕ) → test_bit created j ≡ true → test_bit next j ≡ true)
      × ((key : Pubkey) → (key == ata.key) ≡ false → (w key).bytes ≡ [] → (mid key).bytes ≡ [])
      × ((w ata.key).bytes ≡ [] → test_bit next i ≡ true)

  create_next :
      (count i created : ℕ) (w w' : World) (out : ℕ)
      → create_missing rt ids accounts remaining mints (suc count) i created w ≡ ok (out, w')
      → Round count i created w w' out
  unfolding create_missing
  create_next count i created w w' out h =
      let (ata, w1, e1, h1) = chain-eq-ok (place rt ids accounts remaining mints i) _ w w' out h in
      let (there, still) =
        found-eq-ok (get_elem? remaining i) missing_remaining_account w w1 ata e1 in
      elim (Bool-cases (account_exists (view w1 ata))) [
        | inl exists ↦ (
          ata,
          w1,
          created,
          there,
          rw exists at h1,
          λ j on. on,
          λ key other gone. ap (λ u. (u key).bytes) still ∙ gone,
          λ gone.
              let missing =
                empty-account_exists w1 ata (ap (λ u. (u ata.key).bytes) still ∙ gone) in
              cc,
        )
        | inr missing ↦
            let (mid, rest, frame) = create_ata_next count i created ata w1 w' out missing h1 in
            (
              ata,
              mid,
              set_bit created i,
              there,
              rest,
              λ j on. ground (arith, test_bit-set_bit created i j),
              λ key other gone. frame key other ∙ ap (λ u. (u key).bytes) still ∙ gone,
              λ gone. ground (arith, test_bit-set_bit created i i),
            )
      ]

  -- Every account of the route that has no data is created, and the bits that were set stay set.
  pub create_missing-WasCreated :
      (count i created : ℕ) (w w' : World) (out : ℕ)
      → i + count ≤ mints
      → create_missing rt ids accounts remaining mints count i created w ≡ ok (out, w')
      → ((j : ℕ) → test_bit created j ≡ true → test_bit out j ≡ true)
        × ((j : ℕ) (h : Handle)
            → i ≤ j
            → j < i + count
            → get_elem? remaining j ≡ some h
            → (w h.key).bytes ≡ []
            → WasCreated out h.key)
  unfolding create_missing
  create_missing-WasCreated zero i created w w' out le h =
      let same : created ≡ out = ap (λ p. p.0) (ok-injective h) in
      (
        λ j on. subst (λ c. test_bit c j ≡ true) same on,
        λ j g from to at gone. absurd (omega arith),
      )
  create_missing-WasCreated (suc count) i created w w' out le h =
      let (ata, mid, next, there, rest, stays, frame, made) =
        create_next count i created w w' out h in
      let (kept, later) =
        create_missing-WasCreated count (suc i) next mid w' out (omega arith) rest in
      (
        λ j on. kept j (stays j on),
        λ j g from to at gone. elim (Bool-cases (g.key == ata.key)) [
          | inl e ↦
              let same : g.key ≡ ata.key = ground arith in
              (i, ata, omega arith, there, sym same, kept i (made (rw same at gone)))
          | inr other ↦ elim (Bool-cases (i == j)) [
            | inl e ↦
                let place_of : i ≡ j = ground arith in
                let there' = subst (λ n. get_elem? remaining n ≡ some ata) place_of there in
                let one : ata ≡ g = cc in absurd (ground (arith, other, ap (λ a. a.key) one))
            | inr e ↦ later j g (ground arith) (omega arith) at (frame g.key other gone)
          ]
        ],
      )
