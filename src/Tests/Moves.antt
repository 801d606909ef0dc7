-- ===== src/Tests/Moves.antt =====
-- Transfers that keep what a route needs of the accounts.
use quay_titan_integration.Prelude.{
  ℕ, ◌+◌, ◌-◌, ◌&&◌, Bool, true, false, leb, zero, suc, ◌≤◌, ◌≡◌, refl, inl, inr, some, List, [],
  ◌∷◌, ◌++◌, length, length-append, length-drop, length-take_le, ltb, take, drop, append_assoc,
  slice?, slice?-middle, get_elem?, get_elem?-append_left, ◌==◌, if◌then◌else◌, arith, ap, ◌∙◌, sym,
  subst, Bool-cases,
}
use quay_titan_integration.Prelude.Bytes.{le_bytes, length-le_bytes}
use quay_titan_integration.Solana.{Pubkey, new_from_array}
use quay_titan_integration.Program.Route.Closing.{held}
use quay_titan_integration.Program.Accounts.{
  extract_token_amount, account_exists, extract_token_owner, extract_mint_decimals,
  is_titan_pda_token_account,
}
use quay_titan_integration.Program.Runtime.{AccountState, World}
use quay_titan_integration.Program.Route.Success.{Leaves, TakesFrom}
use quay_titan_integration.Tests.Execute.{ids, accounts, remaining, with_amount}

take_left : (n : ℕ) (xs ys : List ℕ) → n ≤ length xs → take n (xs ++ ys) ≡ take n xs
take_left zero xs ys h = refl
take_left (suc n) [] ys h = absurd (omega arith)
take_left (suc n) (x ∷ xs) ys h = ap (λ zs. x ∷ zs) (take_left n xs ys (omega arith))

drop_left : (n : ℕ) (xs ys : List ℕ) → n ≤ length xs → drop n (xs ++ ys) ≡ drop n xs ++ ys
drop_left zero xs ys h = refl
drop_left (suc n) [] ys h = absurd (omega arith)
drop_left (suc n) (x ∷ xs) ys h = drop_left n xs ys (omega arith)

take-drop : (n : ℕ) (xs : List ℕ) → take n xs ++ drop n xs ≡ xs
take-drop zero xs = refl
take-drop (suc n) [] = refl
take-drop (suc n) (x ∷ xs) = ap (λ zs. x ∷ zs) (take-drop n xs)

-- The mint, the owner and the decimals lie before the amount.
pub record SameHead (xs ys : List ℕ) : Type 0 where
  pub size : length xs ≡ length ys
  pub mint : take 32 xs ≡ take 32 ys
  pub owner : slice? xs 32 64 ≡ slice? ys 32 64
  pub decimals : get_elem? xs 44 ≡ get_elem? ys 44

owner_left : (pre xs : List ℕ) → length pre ≡ 64 → slice? (pre ++ xs) 32 64 ≡ some (drop 32 pre)
owner_left pre xs whole =
    let first : length (take 32 pre) ≡ 32 = length-take_le 32 pre (omega (arith, whole)) in
    let split : pre ++ xs ≡ take 32 pre ++ (drop 32 pre ++ xs) =
      ap (λ p. p ++ xs) (sym (take-drop 32 pre)) ∙ append_assoc (take 32 pre) (drop 32 pre) xs in
    ap (λ ys. slice? ys 32 64) split
    ∙ slice?-middle 32 64 (take 32 pre) (drop 32 pre) xs first
        (omega (arith, first, length-drop 32 pre, whole))

same_head :
    (pre xs ys : List ℕ)
    → length pre ≡ 64
    → length (pre ++ xs) ≡ length (pre ++ ys)
    → SameHead (pre ++ xs) (pre ++ ys)
same_head pre xs ys whole size = record {
  size = size;
  mint =
      take_left 32 pre xs (omega (arith, whole)) ∙ sym (take_left 32 pre ys (omega (arith, whole)));
  owner = owner_left pre xs whole ∙ sym (owner_left pre ys whole);
  decimals =
      get_elem?-append_left pre xs 44 (omega (arith, whole))
      ∙ sym (get_elem?-append_left pre ys 44 (omega (arith, whole)));
}

abbrev refill : ℕ → AccountState → AccountState
refill amount state = if ltb (length state.bytes) 165 then state else with_amount amount state

-- The amount of a token account, set.
abbrev put : Pubkey → ℕ → World → World
put key amount w = λ k. if k == key then refill amount (w k) else w k

-- Two accounts that differ in no more than an amount.
pub record Alike (s t : AccountState) : Type 0 where
  pub owner : s.owner ≡ t.owner
  pub lamports : s.lamports ≡ t.lamports
  pub head : SameHead s.bytes t.bytes

SameHead-refl : (xs : List ℕ) → SameHead xs xs
SameHead-refl xs = record { size = refl; mint = refl; owner = refl; decimals = refl }

pub Alike-refl : (s : AccountState) → Alike s s
Alike-refl s = record { owner = refl; lamports = refl; head = SameHead-refl s.bytes }

pub Alike-trans : (s t u : AccountState) → Alike s t → Alike t u → Alike s u
Alike-trans s t u p q = record {
  owner = p.owner ∙ q.owner;
  lamports = p.lamports ∙ q.lamports;
  head = record {
    size = p.head.size ∙ q.head.size;
    mint = p.head.mint ∙ q.head.mint;
    owner = p.head.owner ∙ q.head.owner;
    decimals = p.head.decimals ∙ q.head.decimals;
  };
}

with_amount-Alike :
    (amount : ℕ) (state : AccountState)
    → 165 ≤ length state.bytes
    → Alike (with_amount amount state) state
with_amount-Alike amount state long =
    let bytes = state.bytes in
    let pre = take 64 bytes in
    let filled = le_bytes 8 amount ++ drop 72 bytes in
    let whole : length pre ≡ 64 = length-take_le 64 bytes (omega (arith, long)) in
    let joined : pre ++ drop 64 bytes ≡ bytes = take-drop 64 bytes in
    let size : length (pre ++ filled) ≡ length (pre ++ drop 64 bytes) = omega (
      arith,
      length-append pre filled,
      length-append pre (drop 64 bytes),
      length-append (le_bytes 8 amount) (drop 72 bytes),
      length-le_bytes 8 amount,
      length-drop 72 bytes,
      length-drop 64 bytes,
      whole,
      long,
    ) in
    record {
      owner = refl;
      lamports = refl;
      head =
          subst (λ ys. SameHead (pre ++ filled) ys) joined
            (same_head pre filled (drop 64 bytes) whole size);
    }

refill-Alike : (amount : ℕ) (state : AccountState) → Alike (refill amount state) state
refill-Alike amount state = elim (Bool-cases (ltb (length state.bytes) 165)) [
  | inl short ↦ rw short (Alike-refl state)
  | inr long ↦ rw long (with_amount-Alike amount state (ground arith))
]

put-Alike : (key : Pubkey) (amount : ℕ) (w : World) (k : Pubkey) → Alike (put key amount w k) (w k)
put-Alike key amount w k = elim (Bool-cases (k == key)) [
  | inl here ↦ rw here (refill-Alike amount (w k))
  | inr other ↦ rw other (Alike-refl (w k))
]

abbrev pub AllAlike : World → World → Type 0
AllAlike w w' = (k : Pubkey) → Alike (w' k) (w k)

abbrev pub shift : Pubkey → Pubkey → ℕ → ℕ → World → World
shift source destination left right w = put destination right (put source left w)

pub shift-AllAlike :
    (source destination : Pubkey) (left right : ℕ) (w : World)
    → AllAlike w (shift source destination left right w)
shift-AllAlike source destination left right w k =
    Alike-trans (shift source destination left right w k) (put source left w k) (w k)
      (put-Alike destination right (put source left w) k) (put-Alike source left w k)

pub AllAlike-Leaves : (w w' : World) → AllAlike w w' → Leaves ids accounts remaining 2 w w'
unfolding is_titan_pda_token_account extract_token_owner extract_mint_decimals account_exists
AllAlike-Leaves w w' alike = (
  record {
    tokens = λ key owner program mint t.
        let same = alike key in
        record {
          held_by = rw (same.owner, same.head.size, same.head.owner) t.held_by;
          run_by = same.owner ∙ t.run_by;
          of_mint = ap new_from_array same.head.mint ∙ t.of_mint;
          there = rw (same.lamports, same.head.size) t.there;
        };
    owners = λ i mint m. (alike mint.key).owner;
    decimals = λ i mint m. rw (alike mint.key).head.decimals refl;
  },
  λ free.
      let same = alike accounts.output_token_account.key in rw (same.lamports, same.head.size) free,
)

put_other :
    (key : Pubkey) (amount : ℕ) (w : World) (k : Pubkey)
    → (k == key) ≡ false
    → held (put key amount w) k ≡ held w k
unfolding extract_token_amount
put_other key amount w k e = rw e refl

abbrev spares : (source destination : Pubkey) (amount : ℕ) → World → World → Bool
spares source destination amount w w' =
    leb (held w source) (held w' source + amount) && leb (held w destination) (held w' destination)

-- A transfer that is made when it takes no more than it should, and gives.
abbrev pub careful : Pubkey → Pubkey → ℕ → World → World
careful source destination amount w =
    let w' = shift source destination (held w source - amount) (held w destination + amount) w in
    if spares source destination amount w w' then w' else w

pub careful-AllAlike :
    (source destination : Pubkey) (amount : ℕ) (w : World)
    → AllAlike w (careful source destination amount w)
careful-AllAlike source destination amount w =
    let left = held w source - amount in
    let right = held w destination + amount in
    either_way (spares source destination amount w (shift source destination left right w))
      (shift source destination left right w) w (shift-AllAlike source destination left right w)
      (λ k. Alike-refl (w k))
  where
    either_way :
        (c : Bool) (u v : World) → AllAlike w u → AllAlike w v → AllAlike w (if c then u else v)
    either_way true u v p q = p
    either_way false u v p q = q

-- What two tests of two numbers each say.
both_le : (a b c d : ℕ) → (leb a b && leb c d) ≡ true → (a ≤ b) × (c ≤ d)
both_le a b c d h = (ground arith, ground arith)

pub careful-TakesFrom :
    (source destination : Pubkey) (amount : ℕ) (w : World)
    → TakesFrom ids accounts remaining 2 w (careful source destination amount w) source amount
careful-TakesFrom source destination amount w =
    let left = held w source - amount in
    let right = held w destination + amount in
    let w' = shift source destination left right w in
    by_test (spares source destination amount w w') w' (λ passed.
      let (most, gained) =
        both_le (held w source) (held w' source + amount) (held w destination) (held w' destination)
          passed in
      (
        most,
        λ key e. elim (Bool-cases (key == destination)) [
          | inl at_destination ↦
              let same : destination ≡ key = ground arith in
              subst (λ k. held w k ≤ held w' k) same gained
          | inr elsewhere ↦ omega (
            arith,
            put_other destination right (put source left w) key elsewhere,
            put_other source left w key e,
          )
        ],
      ))
  where
    by_test :
        (c : Bool) (u : World)
        → (c ≡ true → TakesFrom ids accounts remaining 2 w u source amount)
        → TakesFrom ids accounts remaining 2 w (if c then u else w) source amount
    by_test true u p = p refl
    by_test false u p = (omega arith, λ key e. omega arith)
