-- ===== src/Operator/Effects/Keeps.antt =====
-- Proof rules for the actions of Effects: what an action adds to the trace, and what it keeps of the
-- books, on every path, those that raise included. One rule for each way to build an action.
use kelpflux.Base.{ℕ, ◌≡◌, refl, Bool, true, false, List, [], ◌∷◌, ◌++◌, All, if◌then◌else◌, ap}
use kelpflux.Operator.Effects.{
  Effect, World, Books, App, Result, ok, raised, Action, after_effect, and_then, pure, raise_error,
  peek, ask, get, modify, note, call, time, suppress, ◌>>=◌, for_each,
}

-- The trace is `old` with allowed effects added, and the books satisfy `Fact`.
pub record Since (old : List Effect) (Allowed : Effect → Type 0) (Fact : Books → Type 0) (app : App)
    : Type 0 where
  pub added : List Effect
  pub split : app.trace ≡ added ++ old
  pub allowed : All Allowed added
  pub fact : Fact app.books

-- From a state that satisfies `P` the action ends in one that satisfies `Q`, also where it raises.
pub record Leads {A : Type 0} (P Q : App → Type 0) (m : Action A) : Type 0 where
  pub at : (app : App) → P app → Q (m app).1

abbrev pub Keeps : {A : Type 0} → (App → Type 0) → Action A → Type 0
Keeps P m = Leads P P m

module _ {A : Type 0} {P : App → Type 0} where
  pub Keeps-pure : (a : A) → Keeps P (pure a)
  unfolding pure
  Keeps-pure a = record { at = λ app h. h }

  pub Keeps-raise_error : Keeps P (raise_error {A = A})
  unfolding raise_error
  Keeps-raise_error = record { at = λ app h. h }

  pub Keeps-if :
      (test : Bool) (first second : Action A)
      → (test ≡ true → Keeps P first)
      → (test ≡ false → Keeps P second)
      → Keeps P (if test then first else second)
  Keeps-if true first second k_first k_second = k_first refl
  Keeps-if false first second k_first k_second = k_second refl

module _ {P : App → Type 0} where
  pub Keeps-get : Keeps P get
  unfolding get
  Keeps-get = record { at = λ app h. h }

  pub Keeps-suppress : (m : Action (Unit {0})) → Keeps P m → Keeps P (suppress m)
  unfolding suppress
  Keeps-suppress m k = record { at = λ app h. k.at app h }

module _ {A B : Type 0} {Q R : App → Type 0} where
  continue_leads :
      (r : Result A) (f : A → Action B) (app : App)
      → ((app : App) → Q app → R app)
      → ((a : A) → r ≡ ok a → Leads Q R (f a))
      → Q app
      → R (and_then r f app).1
  continue_leads (ok a) f app w k h = (k a refl).at app h
  continue_leads raised f app w k h = w app h

module _ {A B : Type 0} {P Q R : App → Type 0} where
  -- A state that an exception leaves is described by `Q`, so `Q` has to imply `R`.
  pub Leads-bind :
      (m : Action A) (f : A → Action B)
      → ((app : App) → Q app → R app)
      → Leads P Q m
      → ((a : A) → Leads Q R (f a))
      → Leads P R (m >>= f)
  unfolding ◌>>=◌
  Leads-bind m f w km kf = record {
    at = λ app h. continue_leads (m app).0 f (m app).1 w (λ a _. kf a) (km.at app h);
  }

module _ {A B : Type 0} {P : App → Type 0} where
  pub Keeps-bind :
      (m : Action A) (f : A → Action B) → Keeps P m → ((a : A) → Keeps P (f a)) → Keeps P (m >>= f)
  Keeps-bind m f km kf = Leads-bind m f (λ app h. h) km kf

pub Leads-weaken :
    {A : Type 0} {P P' Q Q' : App → Type 0} (m : Action A)
    → ((app : App) → P' app → P app)
    → ((app : App) → Q app → Q' app)
    → Leads P Q m
    → Leads P' Q' m
Leads-weaken m pre post k = record { at = λ app h. post (m app).1 (k.at app (pre app h)) }

pub Keeps-for_each :
    {A : Type 0} {P : App → Type 0} (body : A → Action (Unit {0})) (xs : List A)
    → ((x : A) → Keeps P (body x))
    → Keeps P (for_each body xs)
unfolding for_each
Keeps-for_each body [] k = Keeps-pure tt
Keeps-for_each body (x ∷ xs) k = Keeps-bind (body x) _ (k x) (λ _. Keeps-for_each body xs k)

module _ {old : List Effect} {Allowed : Effect → Type 0} {Fact : Books → Type 0} where
  pub Since-effect :
      (e : Effect) (app : App)
      → Allowed e
      → Since old Allowed Fact app
      → Since old Allowed Fact (after_effect e app)
  Since-effect e app p h = record {
    added = e ∷ h.added;
    split = ap (λ t. e ∷ t) h.split;
    allowed = (p, h.allowed);
    fact = h.fact;
  }

  pub Keeps-note : (e : Effect) → Allowed e → Keeps (Since old Allowed Fact) (note e)
  unfolding note
  Keeps-note e p = record { at = λ app h. Since-effect e app p h }

  pub Keeps-call :
      (world : World) (e : Effect) → Allowed e → Keeps (Since old Allowed Fact) (call world e)
  unfolding call
  Keeps-call world e p = record { at = λ app h. Since-effect e app p h }

  pub Keeps-time : (world : World) → Keeps (Since old Allowed Fact) (time world)
  unfolding time
  Keeps-time world = record {
    at = λ app h. record { added = h.added; split = h.split; allowed = h.allowed; fact = h.fact };
  }

  pub Keeps-modify :
      (f : Books → Books)
      → ((b : Books) → Fact b → Fact (f b))
      → Keeps (Since old Allowed Fact) (modify f)
  unfolding modify
  Keeps-modify f k = record {
    at = λ app h. record {
      added = h.added;
      split = h.split;
      allowed = h.allowed;
      fact = k app.books h.fact;
    };
  }

  pub Keeps-peek :
      {A : Type 0} (e : Effect) (answer : ℕ → A)
      → Allowed e
      → Keeps (Since old Allowed Fact) (peek e answer)
  unfolding peek
  Keeps-peek e answer p = record { at = λ app h. Since-effect e app p h }

  pub Keeps-ask :
      {A : Type 0} (world : World) (e : Effect) (answer : ℕ → A)
      → Allowed e
      → Keeps (Since old Allowed Fact) (ask world e answer)
  unfolding ask
  Keeps-ask world e answer p = record { at = λ app h. Since-effect e app p h }

pub Since-forget :
    {old : List Effect} {Allowed : Effect → Type 0} {Fact : Books → Type 0} (app : App)
    → Since old Allowed Fact app
    → Since old Allowed (λ b. Unit) app
Since-forget app h = record { added = h.added; split = h.split; allowed = h.allowed; fact = tt }

pub ruleset keeps_rules = (
  Keeps-pure, Keeps-raise_error, Keeps-if, Keeps-get, Keeps-suppress, Keeps-bind, Keeps-for_each,
  Keeps-note, Keeps-call, Keeps-time, Keeps-modify, Keeps-peek, Keeps-ask,
)
