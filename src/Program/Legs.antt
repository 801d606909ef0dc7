-- ===== src/Program/Legs.antt =====
-- instructions/swap_route_v3.rs: one leg of the loop over the swaps: what it spends, and the account
-- metas of its instruction.
use quay_titan_integration.Prelude.{
  ℕ, ◌+◌, ◌-◌, ◌*◌, ◌/◌, ◌%◌, ◌^◌, ◌≤◌, ◌<◌, min, ◌≡◌, ap, ◌∙◌, ◌||◌, List, map, ◌==◌, length, take,
  arith,
}
use native.Mathlib.Nat.{mul-add}
use quay_titan_integration.Solana.{Pubkey, AccountMeta}
use quay_titan_integration.Program.State.{AccountInfo}

-- `saturating_mul` on `u128`
abbrev pub saturating_mul128 : ℕ → ℕ → ℕ
saturating_mul128 x y = min (x * y) (2 ^ 128 - 1)

-- The amount that a leg spends of the balance that arrived for the route.
unfoldable pub leg_input_amount : (balance reserved weight_nanos : ℕ) → ℕ
leg_input_amount balance reserved weight_nanos =
    saturating_mul128 (balance - reserved) (min weight_nanos 1000000000) / 1000000000 % 2 ^ 64

-- The meta of the instruction for one account of the leg: TitanPDA signs.
abbrev pub leg_meta : Pubkey → AccountInfo → AccountMeta
leg_meta titan_pda account = record {
  pubkey = account.key;
  is_signer = account.key == titan_pda || account.is_signer;
  is_writable = account.is_writable;
}

-- `leg_accounts[..account_increment - 1]`, as metas.
unfoldable pub leg_account_metas : Pubkey → List AccountInfo → List AccountMeta
leg_account_metas titan_pda leg_accounts =
    map (leg_meta titan_pda) (take (length leg_accounts - 1) leg_accounts)

mul_le_mul_left : (a w n : ℕ) → w ≤ n → a * w ≤ a * n
mul_le_mul_left a w n h =
    let split : a * n ≡ a * w + a * (n - w) = ap (λ m. a * m) (omega arith) ∙ mul-add a w (n - w) in
    omega (arith, split)

-- A leg spends nothing of the reserve, on any balance.
pub leg_input_amount-le :
    (balance reserved weight : ℕ) → leg_input_amount balance reserved weight ≤ balance - reserved
unfolding leg_input_amount
leg_input_amount-le balance reserved weight =
    let a = balance - reserved in
    let w = min weight 1000000000 in omega (arith, mul_le_mul_left a w 1000000000 (omega arith))

-- A leg never spends more than what is there beyond the reserve, a weight of 10^9 and more spends all
-- of it, and in between the amount is the weighted one rounded down: no step saturates or wraps for a
-- 64-bit balance.
pub leg_input_amount-exact :
    (balance reserved weight : ℕ)
    → balance < 2 ^ 64
    → (leg_input_amount balance reserved weight
        ≡ (balance - reserved) * min weight 1000000000 / 1000000000)
      × (leg_input_amount balance reserved weight ≤ balance - reserved)
      × (1000000000 ≤ weight → leg_input_amount balance reserved weight ≡ balance - reserved)
unfolding leg_input_amount
leg_input_amount-exact balance reserved weight h =
    let a = balance - reserved in
    let w = min weight 1000000000 in
    let bounded : a * w ≤ a * 1000000000 = mul_le_mul_left a w 1000000000 (omega arith) in
    (
      omega (arith, bounded),
      omega (arith, bounded),
      λ full.
          let whole : w ≡ 1000000000 = omega arith in
          let product : a * w ≡ a * 1000000000 = ap (λ n. a * n) whole in omega (arith, product),
    )
