-- ===== src/Scheduler/Calls.antt =====
-- The requests of the reorder daemon (services/rl_scheduler/snapshot_agent.py, http_json) as a trace.
-- Each request takes one tick. What it answers is a parameter of the methods, and an exception is a
-- result that the state outlives.
pub mod Only
pub mod Timed
use kelpflux.Base.{ℕ, suc, ◌+◌, Bool, true, false, Option, none, some, List, [], ◌∷◌, Text}

pub data Call : Type 0 where
  get_jobs get_nodes get_healthz : Call
  -- POST /job/<id> with a priority.
  set_priority : Text → ℕ → Call

pub record Calls : Type 0 where
  pub trace : List Call
  pub ticks : ℕ

pub data Result (A : Type 0) : Type 0 where
  ok : A → Result A
  raised : Result A

abbrev pub Action : Type 0 → Type 0
Action A = Calls → Result A × Calls

abbrev pub result_of : {A : Type 0} → Option A → Result A
result_of none = raised
result_of (some a) = ok a

abbrev pub after_call : Call → Calls → Calls
after_call c s = record { trace = c ∷ s.trace; ticks = suc s.ticks }

module _ {A : Type 0} where
  unfoldable pub pure : A → Action A
  pure a s = (ok a, s)

  unfoldable pub raise_error : Action A
  raise_error s = (raised, s)

  -- A request, with its answer at each tick; `none` where it raises.
  unfoldable pub request : Call → (ℕ → Option A) → Action A
  request c answer s = (result_of (answer s.ticks), after_call c s)

  -- A value that depends on the moment, such as time.monotonic().
  unfoldable pub observe : (ℕ → A) → Action A
  observe f s = (ok (f s.ticks), record s { ticks = suc s.ticks })

  abbrev pub after_failure : Action (Unit {0}) → Result A × Calls → Result A × Calls
  after_failure handler (ok a, s) = (ok a, s)
  after_failure handler (raised, s) = (raised, (handler s).1)

  -- try: m / except Exception: handler; raise
  unfoldable pub on_error : Action A → Action (Unit {0}) → Action A
  on_error m handler s = after_failure handler (m s)

  -- try: m / except Exception: pass
  unfoldable pub suppress : Action A → Action (Unit {0})
  suppress m s = (ok tt, (m s).1)

module _ {A B : Type 0} where
  abbrev pub and_then : Result A → (A → Action B) → Action B
  and_then (ok a) f s = f a s
  and_then raised f s = (raised, s)

  infixl 5 ◌>>=◌ ◌>>◌
  unfoldable pub ◌>>=◌ : Action A → (A → Action B) → Action B
  unfolding pure raise_error request observe on_error suppress
  ◌>>=◌ m f s = let (result, after) = m s in and_then result f after

  abbrev pub ◌>>◌ : Action A → Action B → Action B
  m >> n = m >>= λ _. n

unfoldable pub for_each : {A : Type 0} → (A → Action (Unit {0})) → List A → Action (Unit {0})
for_each body [] = pure tt
for_each body (x ∷ xs) = body x >> for_each body xs

-- if test: raise
abbrev pub raise_if : Bool → Action (Unit {0})
raise_if true = raise_error
raise_if false = pure tt
