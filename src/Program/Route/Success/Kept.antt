-- ===== src/Program/Route/Success/Kept.antt =====
-- instructions/swap_route_v3.rs: what the token accounts and the mints of a route keep.
use quay_titan_integration.Prelude.{
  ℕ, ◌+◌, ◌*◌, ◌≤◌, ◌<◌, ◌≡◌, refl, sym, subst, ◌∙◌, arith, length, get_elem?-lt, Bool,
  if◌then◌else◌, ap, true, false, ok, List, ◌==◌,
}
use quay_titan_integration.Solana.{Pubkey}
use quay_titan_integration.Program.State.{AccountInfo}
use quay_titan_integration.Program.Accounts.{TokenIds, account_exists, get_token_program_for_mint}
use quay_titan_integration.Program.Runtime.{World, Handle, Runtime, view}
use quay_titan_integration.Program.Route.{SwapRouteV3, token_program_of}
use quay_titan_integration.Program.Route.Authority.{IsAta, IsMint}
use quay_titan_integration.Program.Route.Success.{
  CanCreate, IsFree, at, TokenAccount, program_for, Keeps, IsOpen,
}

if_key : (c : Bool) (a b : AccountInfo) → (if c then a else b).key ≡ (if c then a.key else b.key)
if_key true a b = refl
if_key false a b = refl

module _ (ids : TokenIds) (accounts : SwapRouteV3) (remaining : List Handle) (mints : ℕ) where
  pub Keeps-refl : (w : World) → Keeps ids accounts remaining mints w w
  Keeps-refl w = record {
    tokens = λ key owner program mint h. h;
    owners = λ i mint h. refl;
    decimals = λ i mint h. refl;
  }

  pub Keeps-trans :
      (w mid w' : World)
      → Keeps ids accounts remaining mints w mid
      → Keeps ids accounts remaining mints mid w'
      → Keeps ids accounts remaining mints w w'
  Keeps-trans w mid w' first second = record {
    tokens = λ key owner program mint h.
        second.tokens key owner program mint (first.tokens key owner program mint h);
    owners = λ i mint h. second.owners i mint h ∙ first.owners i mint h;
    decimals = λ i mint h. second.decimals i mint h ∙ first.decimals i mint h;
  }

  pub program_for_kept :
      (w w' : World) (mint : Handle)
      → (w' mint.key).owner ≡ (w mint.key).owner
      → program_for ids accounts remaining mints w' mint
        ≡ program_for ids accounts remaining mints w mint
  program_for_kept w w' mint same = rw same refl

  pub token_program_of-eq :
      (rt : Runtime) (w : World) (mint : Handle)
      → token_program_of rt ids accounts remaining mints mint w
        ≡ ok (program_for ids accounts remaining mints w mint, w)
  unfolding token_program_of get_token_program_for_mint
  token_program_of-eq rt w mint =
      ap (λ p. ok (p, w))
        (if_key ((w mint.key).owner == ids.token_2022_id) (view w accounts.token_2022_program)
          (view w accounts.token_program))

  -- An account for a mint of the route stays one.
  pub tokens_kept :
      (w w' : World) (i : ℕ) (mint : Handle) (key owner : Pubkey)
      → Keeps ids accounts remaining mints w w'
      → IsMint accounts remaining mints i mint
      → TokenAccount ids w key owner (program_for ids accounts remaining mints w mint) mint.key
      → TokenAccount ids w' key owner (program_for ids accounts remaining mints w' mint) mint.key
  tokens_kept w w' i mint key owner keeps m account =
      subst (λ p. TokenAccount ids w' key owner p mint.key)
        (sym (program_for_kept w w' mint (keeps.owners i mint m)))
        (keeps.tokens key owner (program_for ids accounts remaining mints w mint) mint.key account)

  -- An account that can be created still can, while nothing is there.
  pub CanCreate-kept :
      (w w' : World) (i : ℕ) (mint : Handle) (owner key : Pubkey)
      → Keeps ids accounts remaining mints w w'
      → IsMint accounts remaining mints i mint
      → (IsFree w key → IsFree w' key)
      → CanCreate ids accounts remaining mints w owner key mint
      → CanCreate ids accounts remaining mints w' owner key mint
  CanCreate-kept w w' i mint owner key keeps m stays (free, owned, derived) =
      let same = program_for_kept w w' mint (keeps.owners i mint m) in
      (
        stays free,
        keeps.owners i mint m ∙ owned ∙ sym same,
        ap (λ p. ids.associated_address owner p mint.key) same ∙ derived,
      )

  pub IsOpen-kept :
      (w w' : World) (i : ℕ)
      → Keeps ids accounts remaining mints w w'
      → IsOpen ids accounts remaining mints w i
      → IsOpen ids accounts remaining mints w' i
  IsOpen-kept w w' i keeps open_i ata mint a m =
      tokens_kept w w' i mint ata.key accounts.titan_pda.key keeps m (open_i ata mint a m)

  pub exists_at :
      (w : World) (h : Handle) → account_exists (view w h) ≡ account_exists (view w (at h.key))
  unfolding account_exists
  exists_at w h = refl

  -- The accounts and the mints of the route are there.
  pub placed :
      (i : ℕ)
      → i < mints
      → 2 * mints ≤ length remaining
      → ((ata : Handle) × IsAta accounts remaining mints i ata)
        × ((mint : Handle) × IsMint accounts remaining mints i mint)
  placed i lt room =
      let (ata, there) = get_elem?-lt remaining i (omega arith) in
      let (mint, there') = get_elem?-lt remaining (mints + i) (omega arith) in
      ((ata, (there, lt)), (mint, (there', lt)))
