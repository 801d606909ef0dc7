-- ===== src/Program/Route/Success.antt =====
-- instructions/swap_route_v3.rs: what a route needs of the accounts and of the other programs to succeed.
pub mod Kept
pub mod Ready
pub mod Creating
pub mod Recording
pub mod Trading
pub mod Moving
pub mod Paying
pub mod Closing
pub mod Settling
pub mod Starting
pub mod Whole
use quay_titan_integration.Prelude.{
  ℕ, ◌+◌, ◌*◌, ◌≤◌, ◌<◌, ◌≡◌, refl, sym, subst, ◌∙◌, ◌⊎◌, inl, inr, arith, length, get_elem?-lt,
  Bool-cases, Bool, if◌then◌else◌, ap, true, false, Option, none, some, ok, List, get_elem?, take,
  ◌==◌,
}
use quay_titan_integration.Solana.{Pubkey, new_from_array}
use quay_titan_integration.Program.State.{AccountInfo}
use quay_titan_integration.Program.Accounts.{
  TokenIds, account_exists, extract_mint_decimals, get_token_program_for_mint,
  is_titan_pda_token_account,
}
use quay_titan_integration.Program.Runtime.{
  World, Handle, Cpi, Runtime, view, create_ata, transfer, transfer_checked, close_account,
  system_transfer, venue_call,
}
use quay_titan_integration.Program.Route.{SwapRouteV3, token_program_of}
use quay_titan_integration.Program.Route.Authority.{Permitted, IsAta, IsMint}
use quay_titan_integration.Program.Route.Closing.{held}

-- The place of a key.
abbrev pub at : Pubkey → Handle
at key = record { key = key; is_signer = false; is_writable = false }

-- Nothing is there yet.
abbrev pub IsFree : World → Pubkey → Type 0
IsFree w key = account_exists (view w (at key)) ≡ false

-- A token account of an owner, for a mint, under the token program that runs it.
pub record TokenAccount (ids : TokenIds) (w : World) (key owner program mint : Pubkey)
    : Type 0 where
  pub held_by : is_titan_pda_token_account ids (view w (at key)) owner ≡ true
  pub run_by : (w key).owner ≡ program
  pub of_mint : new_from_array (take 32 (w key).bytes) ≡ mint
  pub there : account_exists (view w (at key)) ≡ true

module _ (ids : TokenIds) (accounts : SwapRouteV3) (remaining : List Handle) (mints : ℕ) where
  -- The token program of a mint.
  abbrev pub program_for : World → Handle → Pubkey
  program_for w mint =
      if (w mint.key).owner == ids.token_2022_id
      then accounts.token_2022_program.key
      else accounts.token_program.key

  -- Token accounts and mints are still what they were, whatever the amounts.
  pub record Keeps (w w' : World) : Type 0 where
    pub tokens :
        (key owner program mint : Pubkey)
        → TokenAccount ids w key owner program mint
        → TokenAccount ids w' key owner program mint
    pub owners :
        (i : ℕ) (mint : Handle)
        → IsMint accounts remaining mints i mint
        → (w' mint.key).owner ≡ (w mint.key).owner
    pub decimals :
        (i : ℕ) (mint : Handle)
        → IsMint accounts remaining mints i mint
        → extract_mint_decimals (view w' mint) ≡ extract_mint_decimals (view w mint)

  -- A call that gives the user no output account keeps the place free.
  abbrev pub Leaves : World → World → Type 0
  Leaves w w' =
      Keeps w w'
      × (IsFree w accounts.output_token_account.key → IsFree w' accounts.output_token_account.key)

  -- Nothing is at a key yet, which is the associated address of an owner for a mint under the mint's own
  -- token program.
  abbrev pub CanCreate : World → (owner key : Pubkey) → Handle → Type 0
  CanCreate w owner key mint =
      IsFree w key
      × ((w mint.key).owner ≡ program_for w mint)
      × (ids.associated_address owner (program_for w mint) mint.key ≡ key)

  -- Account `i` of the route is TitanPDA's, for its mint.
  abbrev pub IsOpen : World → ℕ → Type 0
  IsOpen w i =
      (ata mint : Handle)
      → IsAta accounts remaining mints i ata
      → IsMint accounts remaining mints i mint
      → TokenAccount ids w ata.key accounts.titan_pda.key (program_for w mint) mint.key

  -- It is, or it can be created.
  abbrev pub CanOpen : World → ℕ → Type 0
  CanOpen w i =
      (ata mint : Handle)
      → IsAta accounts remaining mints i ata
      → IsMint accounts remaining mints i mint
      → TokenAccount ids w ata.key accounts.titan_pda.key (program_for w mint) mint.key
        ⊎ CanCreate w accounts.titan_pda.key ata.key mint

  -- A key that is none of the route's own accounts.
  abbrev pub IsForeign : Pubkey → Type 0
  IsForeign key =
      (i : ℕ) (ata : Handle) → IsAta accounts remaining mints i ata → (key == ata.key) ≡ false

  -- The accounts of the route are different accounts.
  abbrev pub AreApart : Type 0
  AreApart =
      (i j : ℕ) (a b : Handle)
      → IsAta accounts remaining mints i a
      → IsAta accounts remaining mints j b
      → (i == j) ≡ false
      → (a.key == b.key) ≡ false

  -- A transfer goes between two accounts of one mint, on the authority of the owner of the source, and
  -- the source holds the amount.
  abbrev pub CanMove : World → (program source destination authority mint : Pubkey) → ℕ → Type 0
  CanMove w program source destination authority mint amount =
      TokenAccount ids w source authority program mint
      × ((owner : Pubkey) × TokenAccount ids w destination owner program mint)
      × (amount ≤ held w source)

  -- What a call relies on. No promise is needed of the calls that wrap lamports, nor, here, of trades.
  abbrev pub Due : Cpi → World → Type 0
  Due (create_ata payer owner mint ata program system) w =
      IsFree w ata × ((w mint).owner ≡ program) × (ids.associated_address owner program mint ≡ ata)
  Due (transfer program source destination authority amount signed) w =
      (mint : Pubkey) × CanMove w program source destination authority mint amount
  Due (transfer_checked program source mint destination authority amount decimals signed) w =
      CanMove w program source destination authority mint amount
      × (extract_mint_decimals (view w (at mint)) ≡ ok decimals)
  Due (close_account program account destination authority signed) w =
      ((mint : Pubkey) × TokenAccount ids w account authority program mint) × (held w account ≡ 0)
  Due _ w = ⊥

  -- A call takes at most an amount from one account, and nothing from any other.
  abbrev pub TakesFrom : World → World → Pubkey → ℕ → Type 0
  TakesFrom w w' source amount =
      (held w source ≤ held w' source + amount)
      × ((key : Pubkey) → (key == source) ≡ false → held w key ≤ held w' key)

  -- What a call that succeeded has done.
  abbrev pub Effect : Cpi → World → World → Type 0
  Effect (create_ata payer owner mint ata program system) w w' =
      Keeps w w'
      × TokenAccount ids w' ata owner program mint
      × ((key : Pubkey)
          → (key == ata) ≡ false
          → (IsFree w key → IsFree w' key) × (held w' key ≡ held w key))
  Effect (transfer program source destination authority amount signed) w w' =
      Leaves w w' × TakesFrom w w' source amount
  Effect (transfer_checked program source mint destination authority amount decimals signed) w w' =
      Leaves w w' × TakesFrom w w' source amount
  Effect (close_account program account destination authority signed) w w' =
      ((key owner program mint : Pubkey)
        → (key == account) ≡ false
        → TokenAccount ids w key owner program mint
        → TokenAccount ids w' key owner program mint)
      × ((i : ℕ) (mint : Handle)
          → IsMint accounts remaining mints i mint
          → (w' mint.key).owner ≡ (w mint.key).owner)
      × ((key : Pubkey) → (key == account) ≡ false → held w key ≤ held w' key)
  Effect _ w w' = Leaves w w'

  -- The instruction names the two token programs, and every call that the route may make to create, move or
  -- close token accounts does its work, in a state that the other programs accept, when what it relies on
  -- is there.
  pub record Obliging (rt : Runtime) (Good : World → Type 0) : Type 0 where
    pub plain_program : accounts.token_program.key ≡ ids.spl_token_id
    pub new_program : accounts.token_2022_program.key ≡ ids.token_2022_id
    pub obliged :
        (cpi : Cpi) (w : World)
        → Permitted accounts remaining mints ids cpi
        → Good w
        → Due cpi w
        → (w' : World) × (rt.invoke cpi w ≡ ok w') × Good w' × Effect cpi w w'
