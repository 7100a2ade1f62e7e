-- ===== src/Scheduler/Calls/Timed.antt =====
-- Proof rules for the actions of Calls that keep account of the moment: what an action returns, from
-- some tick on, was answered not before that tick and not after the action's end.
use kelpflux.Base.{ℕ, suc, ◌≤◌, ◌≡◌, refl, Bool, Option, some, All, arith}
use kelpflux.Scheduler.Calls.{
  Call, Calls, Result, ok, raised, Action, pure, raise_error, request, observe, and_then, ◌>>=◌,
  raise_if,
}
use kelpflux.Scheduler.Calls.Only.{Only, Only-raise_if, ok_value, result_value}

-- Started at the tick `from` or later, the action adds allowed requests only, and what it returns
-- satisfies `V` at the tick at which it ends.
pub record Timed (Allowed : Call → Type 0) (from : ℕ) {A : Type 0} (V : ℕ → A → Type 0)
    (m : Action A) : Type 0 where
  pub trace : (s : Calls) → from ≤ s.ticks → All Allowed s.trace → All Allowed (m s).1.trace
  pub value : (s : Calls) (a : A) → from ≤ s.ticks → (m s).0 ≡ ok a → V (m s).1.ticks a
  pub grows : (s : Calls) → from ≤ s.ticks → s.ticks ≤ (m s).1.ticks

abbrev pub Anytime : {A : Type 0} → (A → Type 0) → ℕ → A → Type 0
Anytime V n a = V a

module _ {Allowed : Call → Type 0} (from : ℕ) where
  pub Timed-lift :
      {A : Type 0} {V : A → Type 0} {m : Action A}
      → Only Allowed V m
      → Timed Allowed from (Anytime V) m
  Timed-lift k = record {
    trace = λ s h t. k.trace s t;
    value = λ s a h e. k.value s a e;
    grows = λ s h. k.grows s;
  }

  module _ {A : Type 0} {V : ℕ → A → Type 0} where
    pub Timed-pure : (a : A) → ((n : ℕ) → from ≤ n → V n a) → Timed Allowed from V (pure a)
    unfolding pure
    Timed-pure a v = record {
      trace = λ s h t. t;
      value = λ s b h e. ok_value (V s.ticks) a b (v s.ticks h) e;
      grows = λ s h. omega arith;
    }

    pub Timed-raise_error : Timed Allowed from V raise_error
    unfolding raise_error
    Timed-raise_error = record {
      trace = λ s h t. t;
      value = λ s b h e. absurd (cc);
      grows = λ s h. omega arith;
    }

    pub Timed-request :
        (c : Call) (answer : ℕ → Option A)
        → Allowed c
        → ((tick : ℕ) (a : A) → from ≤ tick → answer tick ≡ some a → V (suc tick) a)
        → Timed Allowed from V (request c answer)
    unfolding request
    Timed-request c answer p v = record {
      trace = λ s h t. (p, t);
      value =
          λ s b h e. result_value (V (suc s.ticks)) (answer s.ticks) b (λ a at. v s.ticks a h at) e;
      grows = λ s h. omega arith;
    }

    pub Timed-observe :
        (f : ℕ → A)
        → ((tick : ℕ) → from ≤ tick → V (suc tick) (f tick))
        → Timed Allowed from V (observe f)
    unfolding observe
    Timed-observe f v = record {
      trace = λ s h t. t;
      value = λ s b h e. ok_value (V (suc s.ticks)) (f s.ticks) b (v s.ticks h) e;
      grows = λ s h. omega arith;
    }

  module _ {A B : Type 0} {V : ℕ → A → Type 0} {W : ℕ → B → Type 0} where
    then_trace :
        (r : Result A) (f : A → Action B) (s : Calls)
        → from ≤ s.ticks
        → ((a : A) → r ≡ ok a → V s.ticks a)
        → ((n : ℕ) (a : A) → from ≤ n → V n a → Timed Allowed n W (f a))
        → All Allowed s.trace
        → All Allowed (and_then r f s).1.trace
    then_trace (ok a) f s late v k h = (k s.ticks a late (v a refl)).trace s (omega arith) h
    then_trace raised f s late v k h = h

    then_value :
        (r : Result A) (f : A → Action B) (s : Calls) (b : B)
        → from ≤ s.ticks
        → ((a : A) → r ≡ ok a → V s.ticks a)
        → ((n : ℕ) (a : A) → from ≤ n → V n a → Timed Allowed n W (f a))
        → (and_then r f s).0 ≡ ok b
        → W (and_then r f s).1.ticks b
    then_value (ok a) f s b late v k e = (k s.ticks a late (v a refl)).value s b (omega arith) e
    then_value raised f s b late v k e = absurd (cc)

    then_grows :
        (r : Result A) (f : A → Action B) (s : Calls) (start : ℕ)
        → from ≤ s.ticks
        → start ≤ s.ticks
        → ((a : A) → r ≡ ok a → V s.ticks a)
        → ((n : ℕ) (a : A) → from ≤ n → V n a → Timed Allowed n W (f a))
        → start ≤ (and_then r f s).1.ticks
    then_grows (ok a) f s start late h v k =
        omega (arith, h, (k s.ticks a late (v a refl)).grows s (omega arith))
    then_grows raised f s start late h v k = h

    pub Timed-bind :
        (m : Action A) (f : A → Action B)
        → Timed Allowed from V m
        → ((n : ℕ) (a : A) → from ≤ n → V n a → Timed Allowed n W (f a))
        → Timed Allowed from W (m >>= f)
    unfolding ◌>>=◌
    Timed-bind m f km kf = record {
      trace = λ s h t.
          let late : from ≤ (m s).1.ticks = omega (arith, h, km.grows s h) in
          then_trace (m s).0 f (m s).1 late (λ a e. km.value s a h e) kf (km.trace s h t);
      value = λ s b h e.
          let late : from ≤ (m s).1.ticks = omega (arith, h, km.grows s h) in
          then_value (m s).0 f (m s).1 b late (λ a k. km.value s a h k) kf e;
      grows = λ s h.
          let later = km.grows s h in
          let late : from ≤ (m s).1.ticks = omega (arith, h, later) in
          then_grows (m s).0 f (m s).1 s.ticks late later (λ a k. km.value s a h k) kf;
    }

pub Timed-raise_if :
    {Allowed : Call → Type 0} {B : Type 0} {W : ℕ → B → Type 0} (from : ℕ) (test : Bool)
    (m : Action B)
    → ((n : ℕ) → from ≤ n → Timed Allowed n W m)
    → Timed Allowed from W (raise_if test >>= λ u. m)
Timed-raise_if from test m k =
    Timed-bind from _ _ (Timed-lift from (Only-raise_if test)) (λ n u late v. k n late)
