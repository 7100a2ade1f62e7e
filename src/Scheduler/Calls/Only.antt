-- ===== src/Scheduler/Calls/Only.antt =====
-- Proof rules for the actions of Calls: the requests that an action may add to the trace, on every
-- path, and what holds of the value that it returns. One rule for each way to build an action.
use kelpflux.Base.{
  ℕ, ◌≤◌, arith, ◌≡◌, refl, subst, Bool, true, false, Option, none, some, List, [], ◌∷◌, All,
  if◌then◌else◌,
}
use kelpflux.Scheduler.Calls.{
  Call, Calls, Result, ok, raised, Action, result_of, pure, raise_error, request, observe,
  after_failure, on_error, suppress, and_then, ◌>>=◌, for_each, raise_if,
}

-- From a trace of allowed requests the action leads to one, and what it returns satisfies `V`. The
-- ticks never fall.
pub record Only (Allowed : Call → Type 0) {A : Type 0} (V : A → Type 0) (m : Action A)
    : Type 0 where
  pub trace : (s : Calls) → All Allowed s.trace → All Allowed (m s).1.trace
  pub value : (s : Calls) (a : A) → (m s).0 ≡ ok a → V a
  pub grows : (s : Calls) → s.ticks ≤ (m s).1.ticks

abbrev pub Any : {A : Type 0} → A → Type 0
Any a = Unit

pub ok_value : {A : Type 0} (V : A → Type 0) (a b : A) → V a → ok a ≡ ok b → V b
ok_value V a b v e = subst V (cc) v

pub result_value :
    {A : Type 0} (V : A → Type 0) (o : Option A) (b : A)
    → ((a : A) → o ≡ some a → V a)
    → result_of o ≡ ok b
    → V b
result_value V none b v e = absurd (cc)
result_value V (some a) b v e = ok_value V a b (v a refl) e

failure_value :
    {A : Type 0} (handler : Action (Unit {0})) (r : Result A) (s : Calls) (a : A)
    → (after_failure handler (r, s)).0 ≡ ok a
    → r ≡ ok a
failure_value handler (ok b) s a e = e
failure_value handler raised s a e = absurd (cc)

module _ {Allowed : Call → Type 0} where
  failure_trace :
      {A : Type 0} (handler : Action (Unit {0})) (r : Result A) (s : Calls)
      → Only Allowed (Any {A = Unit {0}}) handler
      → All Allowed s.trace
      → All Allowed (after_failure handler (r, s)).1.trace
  failure_trace handler (ok a) s k h = h
  failure_trace handler raised s k h = k.trace s h

  failure_grows :
      {A : Type 0} (handler : Action (Unit {0})) (r : Result A) (s : Calls)
      → Only Allowed (Any {A = Unit {0}}) handler
      → (from : ℕ) → from ≤ s.ticks
      → from ≤ (after_failure handler (r, s)).1.ticks
  failure_grows handler (ok a) s k from h = h
  failure_grows handler raised s k from h = omega (arith, h, k.grows s)

  module _ {A : Type 0} {V : A → Type 0} where
    pub Only-pure : (a : A) → V a → Only Allowed V (pure a)
    unfolding pure
    Only-pure a v = record {
      trace = λ s h. h;
      value = λ s b e. ok_value V a b v e;
      grows = λ s. omega arith;
    }

    pub Only-raise_error : Only Allowed V raise_error
    unfolding raise_error
    Only-raise_error = record {
      trace = λ s h. h;
      value = λ s b e. absurd (cc);
      grows = λ s. omega arith;
    }

    pub Only-request :
        (c : Call) (answer : ℕ → Option A)
        → Allowed c
        → ((tick : ℕ) (a : A) → answer tick ≡ some a → V a)
        → Only Allowed V (request c answer)
    unfolding request
    Only-request c answer p v = record {
      trace = λ s h. (p, h);
      value = λ s b e. result_value V (answer s.ticks) b (v s.ticks) e;
      grows = λ s. omega arith;
    }

    pub Only-observe : (f : ℕ → A) → ((tick : ℕ) → V (f tick)) → Only Allowed V (observe f)
    unfolding observe
    Only-observe f v = record {
      trace = λ s h. h;
      value = λ s b e. ok_value V (f s.ticks) b (v s.ticks) e;
      grows = λ s. omega arith;
    }

    pub Only-if :
        (test : Bool) (m n : Action A)
        → (test ≡ true → Only Allowed V m)
        → (test ≡ false → Only Allowed V n)
        → Only Allowed V (if test then m else n)
    Only-if true m n h k = h refl
    Only-if false m n h k = k refl

    pub Only-on_error :
        (m : Action A) (handler : Action (Unit {0}))
        → Only Allowed V m
        → Only Allowed (Any {A = Unit {0}}) handler
        → Only Allowed V (on_error m handler)
    unfolding on_error
    Only-on_error m handler k kh = record {
      trace = λ s h. failure_trace handler (m s).0 (m s).1 kh (k.trace s h);
      value = λ s a e. k.value s a (failure_value handler (m s).0 (m s).1 a e);
      grows = λ s. failure_grows handler (m s).0 (m s).1 kh s.ticks (k.grows s);
    }

    pub Only-suppress :
        (m : Action A) → Only Allowed V m → Only Allowed (Any {A = Unit {0}}) (suppress m)
    unfolding suppress
    Only-suppress m k = record { trace = k.trace; value = λ s a e. tt; grows = k.grows }

  module _ {A B : Type 0} {V : A → Type 0} {W : B → Type 0} where
    then_trace :
        (r : Result A) (f : A → Action B) (s : Calls)
        → ((a : A) → r ≡ ok a → V a)
        → ((a : A) → V a → Only Allowed W (f a))
        → All Allowed s.trace
        → All Allowed (and_then r f s).1.trace
    then_trace (ok a) f s v k h = (k a (v a refl)).trace s h
    then_trace raised f s v k h = h

    then_grows :
        (r : Result A) (f : A → Action B) (s : Calls) (from : ℕ)
        → ((a : A) → r ≡ ok a → V a)
        → ((a : A) → V a → Only Allowed W (f a))
        → from ≤ s.ticks
        → from ≤ (and_then r f s).1.ticks
    then_grows (ok a) f s from v k h = omega (arith, h, (k a (v a refl)).grows s)
    then_grows raised f s from v k h = h

    then_value :
        (r : Result A) (f : A → Action B) (s : Calls) (b : B)
        → ((a : A) → r ≡ ok a → V a)
        → ((a : A) → V a → Only Allowed W (f a))
        → (and_then r f s).0 ≡ ok b
        → W b
    then_value (ok a) f s b v k e = (k a (v a refl)).value s b e
    then_value raised f s b v k e = absurd (cc)

    pub Only-bind :
        (m : Action A) (f : A → Action B)
        → Only Allowed V m
        → ((a : A) → V a → Only Allowed W (f a))
        → Only Allowed W (m >>= f)
    unfolding ◌>>=◌
    Only-bind m f km kf = record {
      trace = λ s h. then_trace (m s).0 f (m s).1 (km.value s) kf (km.trace s h);
      value = λ s b e. then_value (m s).0 f (m s).1 b (km.value s) kf e;
      grows = λ s. then_grows (m s).0 f (m s).1 s.ticks (km.value s) kf (km.grows s);
    }

  pub Only-raise_if : (test : Bool) → Only Allowed (λ u. test ≡ false) (raise_if test)
  Only-raise_if true = Only-raise_error
  Only-raise_if false = Only-pure tt refl

  pub Only-for_each :
      {A : Type 0} {P : A → Type 0} (body : A → Action (Unit {0})) (xs : List A)
      → All P xs
      → ((x : A) → P x → Only Allowed (Any {A = Unit {0}}) (body x))
      → Only Allowed (Any {A = Unit {0}}) (for_each body xs)
  unfolding for_each
  Only-for_each body [] h k = Only-pure tt tt
  Only-for_each body (x ∷ xs) h k =
      Only-bind (body x) _ (k x h.0) (λ u v. Only-for_each body xs h.1 k)

  pub Only-weaken :
      {A : Type 0} {V W : A → Type 0} {m : Action A}
      → Only Allowed V m
      → ((a : A) → V a → W a)
      → Only Allowed W m
  Only-weaken k f = record {
    trace = k.trace;
    value = λ s a e. f a (k.value s a e);
    grows = k.grows;
  }
