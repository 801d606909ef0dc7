-- ===== src/Program/Ends.antt =====
-- Steps of a handler that succeed from a given state of the accounts, and what they leave.
use quay_titan_integration.Prelude.{◌≡◌, refl, Bool, true, Option, some, Result, ok}
use quay_titan_integration.Program.State.{TemplateError}
use quay_titan_integration.Program.Runtime.{
  World, Cpi, Runtime, Act, ◌>>=◌, done, try, found, index, need, call,
}

module _ {A : Type 0} where
  -- From `w` the step succeeds, with a result and accounts that satisfy `Q`.
  abbrev pub Ends : Act A → World → (A → World → Type 0) → Type 0
  Ends m w Q = (a : A) × (w' : World) × (m w ≡ ok (a, w')) × Q a w'

  pub done-Ends : (a : A) (w : World) (Q : A → World → Type 0) → Q a w → Ends (done a) w Q
  done-Ends a w Q q = (a, w, refl, q)

module _ {A B : Type 0} where
  pub chain-Ends :
      (m : Act A) (k : A → Act B) (w : World) (Q : A → World → Type 0) (R : B → World → Type 0)
      → Ends m w Q
      → ((a : A) (mid : World) → Q a mid → Ends (k a) mid R)
      → Ends (m >>= k) w R
  chain-Ends m k w Q R (a, mid, first, q) rest =
      let (b, w', second, r) = rest a mid q in (b, w', rw first second, r)

  -- Look-ups and checks that pass.
  pub found-Ends :
      (o : Option A) (e : TemplateError) (k : A → Act B) (w : World) (R : B → World → Type 0)
      (a : A)
      → o ≡ some a
      → Ends (k a) w R
      → Ends (found o e >>= k) w R
  found-Ends o e k w R a at rest = rw at rest

  pub index-Ends :
      (o : Option A) (k : A → Act B) (w : World) (R : B → World → Type 0) (a : A)
      → o ≡ some a
      → Ends (k a) w R
      → Ends (index o >>= k) w R
  index-Ends o k w R a at rest = rw at rest

  pub try-Ends :
      (r : Result TemplateError A) (k : A → Act B) (w : World) (R : B → World → Type 0) (a : A)
      → r ≡ ok a
      → Ends (k a) w R
      → Ends (try r >>= k) w R
  try-Ends r k w R a e rest = rw e rest

pub need-Ends :
    {B : Type 0} (c : Bool) (e : TemplateError) (k : Unit {0} → Act B) (w : World)
    (R : B → World → Type 0)
    → c ≡ true
    → Ends (k tt) w R
    → Ends (need c e >>= k) w R
need-Ends c e k w R passed rest = rw passed rest

pub call-Ends :
    (rt : Runtime) (cpi : Cpi) (w w' : World) (Q : Unit {0} → World → Type 0)
    → rt.invoke cpi w ≡ ok w'
    → Q tt w'
    → Ends (call rt cpi) w Q
call-Ends rt cpi w w' Q run q = (tt, w', rw run refl, q)
