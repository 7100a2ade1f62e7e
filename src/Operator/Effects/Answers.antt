-- ===== src/Operator/Effects/Answers.antt =====
-- Proof rules of Keeps, where a proof needs what an action returned: a value with a property, or a
-- reading of the clock or the books.
use kelpflux.Base.{ℕ, ◌≡◌, refl, subst, Bool, true, false, List, if◌then◌else◌}
use kelpflux.Operator.Models.{Time}
use kelpflux.Operator.Effects.{
  Effect, World, Books, App, Result, ok, raised, Action, after_effect, reply, and_then, pure, ask,
  get, time, ◌>>=◌,
}
use kelpflux.Operator.Effects.Keeps.{Since, Leads, Keeps, Since-effect, Keeps-time}

-- A value that the action returns satisfies `V`, from a state that satisfies `P`.
pub record Gives {A : Type 0} (P : App → Type 0) (V : A → Type 0) (m : Action A) : Type 0 where
  pub at : (app : App) → P app → (a : A) → (m app).0 ≡ ok a → V a

module _ {A B : Type 0} {Q R : App → Type 0} where
  value_leads :
      (r : Result A) (V : A → Type 0) (f : A → Action B) (app : App)
      → ((a : A) → r ≡ ok a → V a)
      → ((app : App) → Q app → R app)
      → ((a : A) → V a → Leads Q R (f a))
      → Q app
      → R (and_then r f app).1
  value_leads (ok a) V f app v w k h = (k a (v a refl)).at app h
  value_leads raised V f app v w k h = w app h

module _ {A B : Type 0} {Q : App → Type 0} where
  value_gives :
      {W : B → Type 0} (r : Result A) (V : A → Type 0) (f : A → Action B) (app : App)
      → ((a : A) → r ≡ ok a → V a)
      → ((a : A) → V a → Gives Q W (f a))
      → Q app
      → (b : B) → (and_then r f app).0 ≡ ok b
      → W b
  value_gives (ok a) V f app v k h b e = (k a (v a refl)).at app h b e
  value_gives raised V f app v k h b e = absurd (cc)

module _ {A B : Type 0} {P Q : App → Type 0} where
  pub Leads-bind-value :
      {R : App → Type 0} (m : Action A) (f : A → Action B) (V : A → Type 0)
      → Gives P V m
      → ((app : App) → Q app → R app)
      → Leads P Q m
      → ((a : A) → V a → Leads Q R (f a))
      → Leads P R (m >>= f)
  unfolding ◌>>=◌
  Leads-bind-value m f V g w km kf = record {
    at = λ app h. value_leads (m app).0 V f (m app).1 (g.at app h) w kf (km.at app h);
  }

  pub Gives-bind :
      {W : B → Type 0} (m : Action A) (f : A → Action B) (V : A → Type 0)
      → Gives P V m
      → Leads P Q m
      → ((a : A) → V a → Gives Q W (f a))
      → Gives P W (m >>= f)
  unfolding ◌>>=◌
  Gives-bind m f V g km kf = record {
    at = λ app h b e. value_gives (m app).0 V f (m app).1 (g.at app h) kf (km.at app h) b e;
  }

pub Gives-under :
    {A : Type 0} {P P' : App → Type 0} {V : A → Type 0} {m : Action A}
    → ((app : App) → P' app → P app)
    → Gives P V m
    → Gives P' V m
Gives-under w g = record { at = λ app h. g.at app (w app h) }

pub Leads-if :
    {A : Type 0} {P Q : App → Type 0} (b : Bool) (m n : Action A)
    → Leads P Q m
    → Leads P Q n
    → Leads P Q (if b then m else n)
Leads-if true m n km kn = km
Leads-if false m n km kn = kn

pub Gives-get-bind :
    {B : Type 0} {P : App → Type 0} {W : B → Type 0} (f : Books → Action B)
    → ((b : Books) → ((app : App) × P app × (app.books ≡ b)) → Gives (λ app. Unit) W (f b))
    → Gives P W (get >>= f)
unfolding ◌>>=◌
Gives-get-bind f k = record { at = λ app h b e. (k app.books (app, h, refl)).at app tt b e }

elim_ok : {A : Type 0} (V : A → Type 0) (a b : A) → V a → ok a ≡ ok b → V b
elim_ok V a b v e = subst V (cc) v

pub Gives-pure : {A : Type 0} {P : App → Type 0} {V : A → Type 0} (a : A) → V a → Gives P V (pure a)
unfolding pure
Gives-pure {V} a v = record { at = λ app h b e. elim_ok V a b v e }

-- Where the rest of a block uses what an action returned.
module _ {old : List Effect} {Allowed : Effect → Type 0} {Fact : Books → Type 0} {B : Type 0} where
  pub Leads-time-bind :
      {Q : App → Type 0} (world : World) (f : Time → Action B)
      → ((tick : ℕ) → Leads (Since old Allowed Fact) Q (f (world.clock tick)))
      → Leads (Since old Allowed Fact) Q (time world >>= f)
  unfolding ◌>>=◌
  Leads-time-bind world f k = record {
    at = λ app h. (k app.ticks).at (time world app).1 ((Keeps-time world).at app h);
  }

  -- The facts about the books may change at a read.
  pub Leads-get-bind :
      {Q : App → Type 0} (f : Books → Action B)
      → ((b : Books) → Fact b → Leads (Since old Allowed Fact) Q (f b))
      → Leads (Since old Allowed Fact) Q (get >>= f)
  unfolding ◌>>=◌
  Leads-get-bind f k = record { at = λ app h. (k app.books h.fact).at app h }

module _ {old : List Effect} {Allowed : Effect → Type 0} {Fact : Books → Type 0}
    {A B : Type 0} where
  answer-Keeps :
      (b : Bool) (a : A) (f : A → Action B) (app : App)
      → Keeps (Since old Allowed Fact) (f a)
      → Since old Allowed Fact app
      → Since old Allowed Fact (and_then (reply b a) f app).1
  answer-Keeps true a f app k h = h
  answer-Keeps false a f app k h = k.at app h

  pub Keeps-ask-bind :
      (world : World) (e : Effect) (answer : ℕ → A) (f : A → Action B)
      → Allowed e
      → ((tick : ℕ) → Keeps (Since old Allowed Fact) (f (answer tick)))
      → Keeps (Since old Allowed Fact) (ask world e answer >>= f)
  unfolding ◌>>=◌
  Keeps-ask-bind world e answer f p k = record {
    at = λ app h.
        answer-Keeps (world.raises app.ticks e) (answer app.ticks) f (after_effect e app)
          (k app.ticks) (Since-effect e app p h);
  }
