-- ===== src/Quay/Step.antt =====
-- A method that may change the venue and may fail: what it has written stays written when it fails.
use quay_titan_integration.Prelude.{
  ◌≡◌, refl, Bool, true, false, if◌then◌else◌, Result, ok, err, Fault, returned, panic, ◌∙◌,
}
use quay_titan_integration.TradingVenue.Error.{TradingVenueError}
use quay_titan_integration.Quay.Venue.{QuayVenue}

abbrev pub Outcome : Type 0 → Type 0
Outcome A = Result (Fault TradingVenueError) A

abbrev pub Step : Type 0 → Type 0
Step A = QuayVenue → Outcome A × QuayVenue

-- The rest of a method, after a step that ended as it did.
abbrev pub after : {A B : Type 0} → (A → Step B) → Outcome A × QuayVenue → Outcome B × QuayVenue
after k (ok a, v) = k a v
after k (err e, v) = (err e, v)

infixl 5 ◌>>=◌ ◌>>◌
abbrev pub ◌>>=◌ : {A B : Type 0} → Step A → (A → Step B) → Step B
◌>>=◌ m k v = after k (m v)

abbrev pub ◌>>◌ : {B : Type 0} → Step (Unit {0}) → Step B → Step B
m >> k = m >>= λ _. k

-- A read of `self`.
abbrev pub gets : {A : Type 0} → (QuayVenue → A) → Step A
gets read v = (ok (read v), v)

-- A call that does not touch `self`.
abbrev pub run : {A : Type 0} → Outcome A → Step A
run r v = (r, v)

-- `?` on a `Result`.
abbrev pub try : {A : Type 0} → Result TradingVenueError A → Step A
try (ok a) v = (ok a, v)
try (err e) v = (err (returned e), v)

abbrev pub modify : (QuayVenue → QuayVenue) → Step (Unit {0})
modify write v = (ok tt, write v)

-- It leaves the venue alone, however it ends.
abbrev pub Reads : {A : Type 0} → Step A → Type 0
Reads m = (v : QuayVenue) → (m v).1 ≡ v

-- It leaves the venue alone when it fails.
abbrev pub IsAtomic : {A : Type 0} → Step A → Type 0
IsAtomic m = (v : QuayVenue) (e : Fault TradingVenueError) → (m v).0 ≡ err e → (m v).1 ≡ v

module _ {A : Type 0} where
  pub gets-Reads : (read : QuayVenue → A) → Reads (gets read)
  gets-Reads read v = refl

  pub run-Reads : (r : Outcome A) → Reads (run r)
  run-Reads r v = refl

  pub try-Reads : (r : Result TradingVenueError A) → Reads (try r)
  try-Reads (ok a) v = refl
  try-Reads (err e) v = refl

pub modify-IsAtomic : (write : QuayVenue → QuayVenue) → IsAtomic (modify write)
modify-IsAtomic write v e h = cc

after-IsAtomic :
    {A B : Type 0} (k : A → Step B) (r : Outcome A) (v : QuayVenue)
    → ((a : A) → IsAtomic (k a))
    → (e : Fault TradingVenueError) → (after k (r, v)).0 ≡ err e
    → (after k (r, v)).1 ≡ v
after-IsAtomic k (ok a) v rest e h = rest a v e h
after-IsAtomic k (err d) v rest e h = refl

-- Steps that only read may come before an atomic one.
pub then-IsAtomic :
    {A B : Type 0} (m : Step A) (k : A → Step B)
    → Reads m
    → ((a : A) → IsAtomic (k a))
    → IsAtomic (m >>= k)
then-IsAtomic m k reads rest v e h = after-IsAtomic k (m v).0 (m v).1 rest e h ∙ reads v

abbrev pub is_panic : {A : Type 0} → Outcome A → Bool
is_panic (ok a) = false
is_panic (err (returned e)) = false
is_panic (err panic) = true

-- It ends with a value or an error of its own.
abbrev pub IsSafe : {A : Type 0} → Step A → Type 0
IsSafe m = (v : QuayVenue) → is_panic (m v).0 ≡ false

module _ {A : Type 0} where
  pub gets-IsSafe : (read : QuayVenue → A) → IsSafe (gets read)
  gets-IsSafe read v = refl

  pub try-IsSafe : (r : Result TradingVenueError A) → IsSafe (try r)
  try-IsSafe (ok a) v = refl
  try-IsSafe (err e) v = refl

pub modify-IsSafe : (write : QuayVenue → QuayVenue) → IsSafe (modify write)
modify-IsSafe write v = refl

after-IsSafe :
    {A B : Type 0} (k : A → Step B) (r : Outcome A) (v : QuayVenue)
    → is_panic r ≡ false
    → ((a : A) → IsSafe (k a))
    → is_panic (after k (r, v)).0 ≡ false
after-IsSafe k (ok a) v p rest = rest a v
after-IsSafe k (err (returned e)) v p rest = refl
after-IsSafe k (err panic) v p rest = cc

pub then-IsSafe :
    {A B : Type 0} (m : Step A) (k : A → Step B)
    → IsSafe m
    → ((a : A) → IsSafe (k a))
    → IsSafe (m >>= k)
then-IsSafe m k safe rest v = after-IsSafe k (m v).0 (m v).1 (safe v) rest

-- A test that returns an error unless it holds.
pub check-IsSafe :
    {B : Type 0} (c : Bool) (e : TradingVenueError) (rest : Step B)
    → (c ≡ true → IsSafe rest)
    → IsSafe (run (if c then ok tt else err (returned e)) >> rest)
check-IsSafe true e rest safe v = safe refl v
check-IsSafe false e rest safe v = refl

-- From `v`, if it succeeds it ends in a venue that satisfies `P`.
pub record Leads (P : QuayVenue → Type 0) (v : QuayVenue) (m : Step (Unit {0})) : Type 0 where
  pub result : (m v).0 ≡ ok tt → P (m v).1

module _ (P : QuayVenue → Type 0) (v : QuayVenue) where
  pub run-Leads :
      {A : Type 0} (k : A → Step (Unit {0})) (r : Outcome A)
      → ((a : A) → r ≡ ok a → Leads P v (k a))
      → Leads P v (run r >>= k)
  run-Leads k (ok a) rest = record { result = (rest a refl).result }
  run-Leads k (err e) rest = record { result = λ h. cc }

  pub try-Leads :
      {A : Type 0} (k : A → Step (Unit {0})) (r : Result TradingVenueError A)
      → ((a : A) → r ≡ ok a → Leads P v (k a))
      → Leads P v (try r >>= k)
  try-Leads k (ok a) rest = record { result = (rest a refl).result }
  try-Leads k (err e) rest = record { result = λ h. cc }

  pub modify-Leads : (write : QuayVenue → QuayVenue) → P (write v) → Leads P v (modify write)
  modify-Leads write p = record { result = λ h. p }

  pub check-Leads :
      (c : Bool) (e : Fault TradingVenueError) (rest : Step (Unit {0}))
      → (c ≡ true → Leads P v rest)
      → Leads P v (run (if c then ok tt else err e) >> rest)
  check-Leads true e rest led = record { result = (led refl).result }
  check-Leads false e rest led = record { result = λ h. cc }

pub map-Leads :
    {P Q : QuayVenue → Type 0} {v : QuayVenue} {m : Step (Unit {0})}
    → ((w : QuayVenue) → P w → Q w)
    → Leads P v m
    → Leads Q v m
map-Leads f led = record { result = λ h. f _ (led.result h) }
