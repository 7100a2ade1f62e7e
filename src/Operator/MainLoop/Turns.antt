-- ===== src/Operator/MainLoop/Turns.antt =====
-- operator/app.py, OperatorApp.run: when slurmrestd is pinged over a run of turns.
use kelpflux.Base.{
  ◌≤◌, ◌≡◌, refl, true, Option, none, some, List, [], ◌∷◌, inl, inr, Text, Dict, Bool-cases, ◌+◌,
  if◌then◌else◌, arith,
}
use kelpflux.Operator.Models.{Time, seconds, PartitionConfig, PartitionState}
use kelpflux.Operator.MainLoop.{
  Setup, Loop, Turn, pings, after_collection, restore_rest_if_available, loop_turn,
}

-- Each time stands at the bound or later, and the next one 30 seconds after it or later.
abbrev pub IsSpacedFrom : Time → List Time → Type 0
IsSpacedFrom bound [] = Unit
IsSpacedFrom bound (t ∷ ts) = (bound ≤ t) × IsSpacedFrom (t + seconds 30) ts

module _ (setup : Setup) where
  -- The clock at each turn that pings slurmrestd.
  unfoldable pub ping_times : List Turn → Loop → List Time
  ping_times [] self = []
  ping_times (turn ∷ turns) self =
      let later = ping_times turns (loop_turn setup turn self).0 in
      if pings setup turn self then turn.monotonic ∷ later else later

  pings_late :
      (turn : Turn) (self : Loop)
      → pings setup turn self ≡ true
      → self.rest_retry_at ≤ turn.monotonic
  pings_late turn self h = ground (arith, h)

  after_collection-retry_at :
      (keys : List Text) (cfgs : Dict PartitionConfig) (states : Option (Dict PartitionState))
      (self : Loop)
      → (after_collection setup keys cfgs states self).0.rest_retry_at ≡ self.rest_retry_at
  unfolding after_collection
  after_collection-retry_at keys cfgs none self = refl
  after_collection-retry_at keys cfgs (some all_states) self = refl

  loop_turn-retry_at :
      (turn : Turn) (self : Loop)
      → (loop_turn setup turn self).0.rest_retry_at
        ≡ (if pings setup turn self then turn.monotonic + seconds 30 else self.rest_retry_at)
  unfolding loop_turn restore_rest_if_available
  loop_turn-retry_at turn self = elim (Bool-cases (pings setup turn self)) [
    | inl e ↦ rw (after_collection-retry_at, e) refl
    | inr e ↦ rw (after_collection-retry_at, e) refl
  ]

  -- Over any run of turns of the operator's loop, from any state of it, slurmrestd is pinged for the
  -- first time when the retry moment has come, and each further ping is at least 30 seconds after
  -- the one before, whatever the pings and the collections answer.
  pub run_turns-pings_spaced :
      (turns : List Turn) (self : Loop) → IsSpacedFrom self.rest_retry_at (ping_times turns self)
  unfolding ping_times
  run_turns-pings_spaced [] self = tt
  run_turns-pings_spaced (turn ∷ turns) self =
      let rest = run_turns-pings_spaced turns (loop_turn setup turn self).0 in
      elim (Bool-cases (pings setup turn self)) [
        | inl e ↦ rw e (pings_late turn self e, (rw (loop_turn-retry_at turn self, e) at rest))
        | inr e ↦ rw e (rw (loop_turn-retry_at turn self, e) at rest)
      ]
