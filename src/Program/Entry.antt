-- ===== src/Program/Entry.antt =====
-- lib.rs of the program, instructions/initialize.rs, and TitanPDA of state.rs: the two instructions, and
-- the seeds that TitanPDA's address is derived from. The derivation of addresses, and the bump that the
-- framework finds when it creates the account, are parameters.
use quay_titan_integration.Prelude.{
  ℕ, ◌≡◌, ap, ◌∙◌, sym, Option, some, Result, ok, List, [], ◌∷◌, ◌++◌, ok-injective,
}
use quay_titan_integration.Solana.{Pubkey}
use quay_titan_integration.Program.State.{TitanPda, SwapSpecInputV2, TemplateError}
use quay_titan_integration.Program.Accounts.{TokenIds}
use quay_titan_integration.Program.Runtime.{Handle, Runtime, Act}
use quay_titan_integration.Program.Route.{SwapRouteV3, execute}

-- `declare_id!`: T1TANpTeScyeqVzzgNViGDNrkQ6qHz9KrSBS4aNXvGT
abbrev pub id : Pubkey
id = 0xd4c988690b11045e2a2f74470ab0ff186e904b4c145c1835bb0ee7126e9ca906

-- `#[instruction(discriminator = [42])]`
abbrev pub discriminator : ℕ
discriminator = 42

-- `TitanPda::SEED`: titan_pda
abbrev pub seed : List ℕ
seed = 116 ∷ 105 ∷ 116 ∷ 97 ∷ 110 ∷ 95 ∷ 112 ∷ 100 ∷ 97 ∷ []

-- `TitanPda::SIZE`
abbrev pub size : ℕ
size = 1

pub record Initialize : Type 0 where
  pub payer : Handle
  pub titan_pda : TitanPda
  pub system_program : Handle

-- `Initialize::execute`, given `ctx.bumps.titan_pda`.
unfoldable pub initialize : ℕ → Initialize → Result TemplateError Initialize
initialize bump accounts = ok (record accounts { titan_pda = record { bump = bump } })

-- The entry of lib.rs: `mints` is a byte.
unfoldable pub swap_route_v3 :
    Runtime
    → TokenIds
    → SwapRouteV3
    → List Handle
    → (amount mints : ℕ) → List SwapSpecInputV2
    → Act (Unit {0})
swap_route_v3 rt ids accounts remaining amount mints swaps =
    execute rt ids accounts remaining mints amount swaps

-- The seeds that TitanPDA signs with.
unfoldable pub signer_seeds : TitanPda → List (List ℕ)
signer_seeds titan_pda = seed ∷ (titan_pda.bump ∷ []) ∷ []

-- `Pubkey::find_program_address` and `Pubkey::create_program_address` for the program.
pub record Derivation : Type 0 where
  pub find_program_address : List (List ℕ) → Pubkey × ℕ
  pub create_program_address : List (List ℕ) → Option Pubkey
  -- An address that is found is the one created with its bump as a further seed.
  pub found :
      (seeds : List (List ℕ))
      → create_program_address (seeds ++ ((find_program_address seeds).1 ∷ []) ∷ [])
        ≡ some (find_program_address seeds).0

-- Once initialized with the bump of its address, TitanPDA signs for exactly the address that it was
-- created at.
pub initialize-signer_seeds :
    (d : Derivation) (accounts after : Initialize)
    → initialize (d.find_program_address (seed ∷ [])).1 accounts ≡ ok after
    → d.create_program_address (signer_seeds after.titan_pda)
      ≡ some (d.find_program_address (seed ∷ [])).0
unfolding initialize signer_seeds
initialize-signer_seeds d accounts after h =
    ap (λ a. d.create_program_address (seed ∷ (a.titan_pda.bump ∷ []) ∷ [])) (sym (ok-injective h))
    ∙ d.found (seed ∷ [])
