-- ===== src/Program/Calls.antt =====
-- The calls of other programs that a step of the handler makes, in order, and rules for the steps whose
-- calls all satisfy a predicate.
use quay_titan_integration.Prelude.{
  ℕ, ltb, ◌==◌, not, ◌≡◌, refl, Bool, true, false, Option, none, some, Result, ok, if◌then◌else◌,
  sym, subst,
}
use quay_titan_integration.Program.State.{TemplateError}
use quay_titan_integration.Program.Runtime.{
  World, Handle, Cpi, Runtime, Act, ◌>>=◌, done, try, found, index, need, see, call, chain-eq-ok,
  changed-eq-ok,
}
use quay_titan_integration.Program.Route.Quiet.{
  IsQuiet, try-IsQuiet, index-IsQuiet, done-IsQuiet, need-IsQuiet, see-IsQuiet,
}

module _ (rt : Runtime) (P : Cpi → Type 0) where
  -- Calls that all satisfy `P` lead from one state of the accounts to another.
  pub data Calls : World → World → Type 0 where
    stay : (w : World) → Calls w w
    then_call :
        (cpi : Cpi) (w mid w' : World)
        → P cpi
        → rt.invoke cpi w ≡ ok mid
        → Calls mid w'
        → Calls w w'

  pub Calls-trans : (w mid w' : World) → Calls w mid → Calls mid w' → Calls w w'
  Calls-trans w mid w' (stay _) rest = rest
  Calls-trans w mid w' (then_call cpi _ next _ p e run) rest =
      then_call cpi w next w' p e (Calls-trans next mid w' run rest)

  -- What every such call keeps, the sequence keeps.
  pub Calls-elim :
      (R : World → World → Type 0)
      → ((w : World) → R w w)
      → ((w mid w' : World) → R w mid → R mid w' → R w w')
      → ((cpi : Cpi) (w w' : World) → P cpi → rt.invoke cpi w ≡ ok w' → R w w')
      → (w w' : World) → Calls w w'
      → R w w'
  Calls-elim R same trans step w w' (stay _) = same w
  Calls-elim R same trans step w w' (then_call cpi _ mid _ p e run) =
      trans w mid w' (step cpi w mid p e) (Calls-elim R same trans step mid w' run)

  -- A step whose calls all satisfy `P`.
  pub record Makes {A : Type 0} (m : Act A) : Type 0 where
    pub calls : (w : World) (a : A) (w' : World) → m w ≡ ok (a, w') → Calls w w'

  pub quiet-Makes : {A : Type 0} (m : Act A) → IsQuiet m → Makes m
  quiet-Makes m quiet = record {
    calls = λ w a w' h. subst (λ u. Calls w u) (sym (quiet w a w' h)) (stay w);
  }

  pub call-Makes : (cpi : Cpi) → P cpi → Makes (call rt cpi)
  call-Makes cpi p = record {
    calls = λ w u w' h. then_call cpi w w' w' p (changed-eq-ok (rt.invoke cpi w) w' h) (stay w');
  }

  -- What a step that succeeded has established may be used for the rest.
  pub chain-Makes_after :
      {A B : Type 0} (m : Act A) (k : A → Act B)
      → Makes m
      → ((a : A) (w mid : World) → m w ≡ ok (a, mid) → Makes (k a))
      → Makes (m >>= k)
  chain-Makes_after m k p q = record {
    calls = λ w b w' h.
        let (a, mid, first, rest) = chain-eq-ok m k w w' b h in
        Calls-trans w mid w' (p.calls w a mid first) ((q a w mid first).calls mid b w' rest);
  }

  pub chain-Makes :
      {A B : Type 0} (m : Act A) (k : A → Act B)
      → Makes m
      → ((a : A) → Makes (k a))
      → Makes (m >>= k)
  chain-Makes m k p q = chain-Makes_after m k p (λ a w mid e. q a)

  pub if-Makes :
      {A : Type 0} (c : Bool) (m n : Act A) → Makes m → Makes n → Makes (if c then m else n)
  if-Makes true m n p q = p
  if-Makes false m n p q = q

  -- Tests that unfold.
  pub if_lt-Makes :
      {A : Type 0} (a b : ℕ) (m n : Act A) → Makes m → Makes n → Makes (if ltb a b then m else n)
  if_lt-Makes a b = if-Makes (ltb a b)

  pub if_eq-Makes :
      {A : Type 0} (a b : ℕ) (m n : Act A) → Makes m → Makes n → Makes (if a == b then m else n)
  if_eq-Makes a b = if-Makes (a == b)

  pub if_not-Makes :
      {A : Type 0} (c : Bool) (m n : Act A) → Makes m → Makes n → Makes (if not c then m else n)
  if_not-Makes c = if-Makes (not c)

  -- A look-up that succeeds, and what it found.
  pub found-Makes :
      {A B : Type 0} (o : Option A) (e : TemplateError) (k : A → Act B)
      → ((a : A) → o ≡ some a → Makes (k a))
      → Makes (found o e >>= k)
  found-Makes (some a) e k q = record { calls = λ w b w' h. (q a refl).calls w b w' h }
  found-Makes none e k q = record { calls = λ w b w' h. cc }

  -- An index that is in range, and what it holds.
  pub index-Makes_found :
      {A B : Type 0} (o : Option A) (k : A → Act B)
      → ((a : A) → o ≡ some a → Makes (k a))
      → Makes (index o >>= k)
  index-Makes_found (some a) k q = record { calls = λ w b w' h. (q a refl).calls w b w' h }
  index-Makes_found none k q = record { calls = λ w b w' h. cc }

  module _ {A : Type 0} where
    pub done-Makes : (a : A) → Makes (done a)
    done-Makes a = quiet-Makes (done a) (done-IsQuiet a)

    pub try-Makes : (r : Result TemplateError A) → Makes (try r)
    try-Makes r = quiet-Makes (try r) (try-IsQuiet r)

    pub index-Makes : (o : Option A) → Makes (index o)
    index-Makes o = quiet-Makes (index o) (index-IsQuiet o)

  pub need-Makes : (c : Bool) (e : TemplateError) → Makes (need c e)
  need-Makes c e = quiet-Makes (need c e) (need-IsQuiet c e)

  pub see-Makes : (handle : Handle) → Makes (see handle)
  see-Makes handle = quiet-Makes (see handle) (see-IsQuiet handle)

pub ruleset makes_rules = (
  found-Makes, if-Makes, if_lt-Makes, if_eq-Makes, if_not-Makes, call-Makes, chain-Makes,
  done-Makes, try-Makes, index-Makes, need-Makes, see-Makes,
)
