-- ===== src/Program/Runtime.antt =====
-- What the program's instruction works on: the accounts, by key, so that two places of the account list
-- with one key share one account; the calls of other programs; and the steps of a handler, which read
-- and change the accounts and may fail. A failed instruction is rolled back, so an error carries no state.
use quay_titan_integration.Prelude.{
  ℕ, ◌≡◌, refl, Bool, true, false, Option, none, some, Result, ok, err, map_err, List, ap,
  ok-injective, sym,
}
use quay_titan_integration.Solana.{Pubkey, Instruction}
use quay_titan_integration.Program.State.{TemplateError, AccountInfo}

pub record AccountState : Type 0 where
  pub owner : Pubkey
  pub lamports : ℕ
  pub bytes : List ℕ

abbrev pub World : Type 0
World = Pubkey → AccountState

-- A place of the instruction's account list.
pub record Handle : Type 0 where
  pub key : Pubkey
  pub is_signer : Bool
  pub is_writable : Bool

-- What the program sees of an account at one moment.
abbrev pub view : World → Handle → AccountInfo
view world handle = record {
  key = handle.key;
  is_signer = handle.is_signer;
  is_writable = handle.is_writable;
  owner = (world handle.key).owner;
  lamports = (world handle.key).lamports;
  bytes = (world handle.key).bytes;
}

-- The calls of other programs; `signed` is whether TitanPDA's seeds sign.
pub data Cpi : Type 0 where
  create_ata : (payer owner mint ata token_program system_program : Pubkey) → Cpi
  transfer :
      (token_program source destination authority : Pubkey) (amount : ℕ) (signed : Bool) → Cpi
  transfer_checked :
      (token_program source mint destination authority : Pubkey) (amount decimals : ℕ)
      (signed : Bool)
      → Cpi
  close_account : (token_program account destination authority : Pubkey) (signed : Bool) → Cpi
  system_transfer : (source destination : Pubkey) (amount : ℕ) → Cpi
  sync_native : (token_program account : Pubkey) → Cpi
  venue_call : Instruction → List Pubkey → Cpi

-- An error of the program, a code of another program, or a panic.
pub data ProgramError : Type 0 where
  template : TemplateError → ProgramError
  foreign : ℕ → ProgramError
  panicked : ProgramError

pub record Runtime : Type 0 where
  pub invoke : Cpi → World → Result ProgramError World

abbrev pub Act : Type 0 → Type 0
Act A = World → Result ProgramError (A × World)

abbrev pub continue :
    {A B : Type 0} → (A → Act B) → Result ProgramError (A × World) → Result ProgramError (B × World)
continue k (ok (a, world)) = k a world
continue k (err e) = err e

infixl 5 ◌>>=◌ ◌>>◌
abbrev pub ◌>>=◌ : {A B : Type 0} → Act A → (A → Act B) → Act B
◌>>=◌ m k world = continue k (m world)

abbrev pub ◌>>◌ : {B : Type 0} → Act (Unit {0}) → Act B → Act B
m >> k = m >>= λ _. k

abbrev pub done : {A : Type 0} → A → Act A
done a world = ok (a, world)

abbrev pub pass : {A : Type 0} → World → Result ProgramError A → Result ProgramError (A × World)
pass world (ok a) = ok (a, world)
pass world (err e) = err e

-- A call that changes nothing.
abbrev pub pure : {A : Type 0} → Result ProgramError A → Act A
pure r world = pass world r

abbrev pub try : {A : Type 0} → Result TemplateError A → Act A
try r = pure (map_err template r)

-- `ok_or(e)?`
abbrev pub found : {A : Type 0} → Option A → TemplateError → Act A
found (some a) e world = ok (a, world)
found none e world = err (template e)

-- `xs[i]`
abbrev pub index : {A : Type 0} → Option A → Act A
index (some a) world = ok (a, world)
index none world = err panicked

-- `require!`
abbrev pub need : Bool → TemplateError → Act (Unit {0})
need true e world = ok (tt, world)
need false e world = err (template e)

abbrev pub see : Handle → Act AccountInfo
see handle world = ok (view world handle, world)

abbrev pub changed : Result ProgramError World → Result ProgramError (Unit {0} × World)
changed (ok world) = ok (tt, world)
changed (err e) = err e

abbrev pub call : Runtime → Cpi → Act (Unit {0})
call rt cpi world = changed (rt.invoke cpi world)

-- What a chain that succeeded went through.
pub chain-eq-ok :
    {A B : Type 0} (m : Act A) (k : A → Act B) (before after : World) (b : B)
    → (m >>= k) before ≡ ok (b, after)
    → (a : A) × (mid : World) × (m before ≡ ok (a, mid)) × (k a mid ≡ ok (b, after))
chain-eq-ok m k before after b h = split (m before) h
  where
    split :
        (r : Result ProgramError (_ × World))
        → continue k r ≡ ok (b, after)
        → (a : _) × (mid : World) × (r ≡ ok (a, mid)) × (k a mid ≡ ok (b, after))
    split (ok (a, mid)) e = (a, mid, refl, e)
    split (err f) e = cc

pub changed-eq-ok :
    (r : Result ProgramError World) (w' : World) → changed r ≡ ok (tt, w') → r ≡ ok w'
changed-eq-ok (ok w) w' h = ap (λ p. ok p.1) (ok-injective h)
changed-eq-ok (err e) w' h = cc

-- A look-up that succeeded found something, and changed nothing.
pub found-eq-ok :
    {A : Type 0} (o : Option A) (e : TemplateError) (w w' : World) (a : A)
    → found o e w ≡ ok (a, w')
    → (o ≡ some a) × (w' ≡ w)
found-eq-ok (some b) e w w' a h =
    let p = ok-injective h in (ap (λ x. some x.0) p, sym (ap (λ x. x.1) p))
found-eq-ok none e w w' a h = cc
