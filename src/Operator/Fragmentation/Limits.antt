-- ===== src/Operator/Fragmentation/Limits.antt =====
-- operator/fragmentation.py, class RequeueDecider: what its rate limits promise over a run of calls.
use kelpflux.Base.{
  ℕ, ◌+◌, ◌≤◌, ◌<◌, ◌≡◌, refl, sym, ◌∙◌, ◌⊎◌, inl, inr, false, Option, none, some, List, [], ◌∷◌,
  Text, filter, length, All, All-map_impl, Bool-cases, arith,
}
use kelpflux.Operator.Models.{Time, seconds}
use kelpflux.Operator.Fragmentation.{
  JobView, RequeueCandidate, FragmentationSnapshot, RequeueDecision, has_actionable_fragmentation,
}
use kelpflux.Operator.Fragmentation.Decider.{
  RequeueDecider, is_recent, trim_history, too_soon, limit_reason, rate_limited, DecideReason,
  Outcome, conclude, act_on, unblock_head, decide_limited, decide,
}

-- The calls, first to last, and the clock at each.
abbrev Calls : Type 0
Calls = List (FragmentationSnapshot × Time)

-- The clock at the calls never goes back, from the time `t` on.
abbrev pub IsMonotone : Time → Calls → Type 0
IsMonotone t [] = Unit
IsMonotone t ((snap, now) ∷ rest) = (t ≤ now) × IsMonotone now rest

abbrev log_of : Option RequeueDecision → Time → List Time → List Time
log_of none now log = log
log_of (some d) now log = now ∷ log

-- The times of all the decisions that the calls have made, the latest first.
unfoldable pub decisions : RequeueDecider → List Time → Calls → List Time
decisions self log [] = log
decisions self log ((snap, now) ∷ rest) =
    let outcome = decide self snap now in
    decisions outcome.decider (log_of outcome.decision now log) rest

-- No two are closer than the interval, and no more than the cap are within the hour before any.
abbrev pub IsLimited : Time → ℕ → List Time → Type 0
IsLimited interval limit [] = Unit
IsLimited interval limit (t ∷ ts) =
    All (λ s. s + interval ≤ t) ts
    × (length (filter (is_recent t) (t ∷ ts)) ≤ limit)
    × IsLimited interval limit ts

-- What a call leaves: the decider as it was, trimmed, or trimmed with the decision noted.
abbrev Kept : RequeueDecider → Time → Outcome → Type 0
Kept self now o =
    ((o.decision ≡ none) × (o.decider ≡ self))
    ⊎ ((o.decision ≡ none) × (o.decider ≡ trim_history now self))
    ⊎ ((d : RequeueDecision) × (o.decision ≡ some d)
        × (o.decider ≡ record self { history = now ∷ (trim_history now self).history })
        × (limit_reason now (trim_history now self) ≡ none))

module _ (self : RequeueDecider) (snap : FragmentationSnapshot) (now : Time)
    (free : limit_reason now (trim_history now self) ≡ none) where
  conclude-Kept :
      (target : JobView) (nid : Text) (chosen : List RequeueCandidate) (freed : ℕ)
      → Kept self now (conclude (trim_history now self) target nid snap now chosen freed)
  unfolding conclude trim_history
  conclude-Kept target nid [] freed = inr (inl (refl, refl))
  conclude-Kept target nid (c ∷ cs) freed = inr (inr (_, refl, refl, free))

  act_on-Kept :
      (target : JobView) (per_target : List RequeueCandidate) (ids : List Text)
      → Kept self now (act_on (trim_history now self) target snap now per_target ids)
  unfolding act_on
  act_on-Kept target per_target [] = inr (inl (refl, refl))
  act_on-Kept target per_target (nid ∷ ids) = conclude-Kept target nid _ _

  unblock_head-Kept :
      (targets : List JobView)
      → Kept self now (unblock_head (trim_history now self) snap now targets)
  unfolding unblock_head
  unblock_head-Kept [] = inr (inl (refl, refl))
  unblock_head-Kept (target ∷ others) = act_on-Kept target _ _

decide_limited-Kept :
    (self : RequeueDecider) (snap : FragmentationSnapshot) (now : Time) (why : Option DecideReason)
    → limit_reason now (trim_history now self) ≡ why
    → Kept self now (decide_limited why (trim_history now self) snap now)
unfolding decide_limited
decide_limited-Kept self snap now none free =
    unblock_head-Kept self snap now free snap.pending_blocked
decide_limited-Kept self snap now (some why) limited = inr (inl (refl, refl))

decide-Kept :
    (self : RequeueDecider) (snap : FragmentationSnapshot) (now : Time)
    → Kept self now (decide self snap now)
unfolding decide rate_limited
decide-Kept self snap now = elim (Bool-cases (has_actionable_fragmentation snap)) [
  | inr e ↦ rw e (inl (refl, refl))
  | inl e ↦ rw e (decide_limited-Kept self snap now _ refl)
]

-- The history is what a log of all decisions still shows an hour's window, at the clock or later.
abbrev Shows : Time → List Time → List Time → Type 0
Shows t history log =
    (now : Time) → t ≤ now → filter (is_recent now) history ≡ filter (is_recent now) log

filter-filter :
    (now later : Time) (ts : List Time)
    → now ≤ later
    → filter (is_recent later) (filter (is_recent now) ts) ≡ filter (is_recent later) ts
unfolding is_recent
filter-filter now later [] h = refl
filter-filter now later (t ∷ ts) h = ground (arith, filter-filter now later ts h)

module _ (interval : Time) (limit : ℕ) (small : interval ≤ seconds 3600) where
  -- Where the latest decision in the window is not too close, none is.
  IsLimited-All :
      (now : Time) (log : List Time)
      → All (λ s. s ≤ now) log
      → IsLimited interval limit log
      → too_soon now interval (filter (is_recent now) log) ≡ false
      → All (λ s. s + interval ≤ now) log
  unfolding too_soon is_recent
  IsLimited-All now [] past h soon = tt
  IsLimited-All now (t ∷ ts) past h soon =
      let apart : t + interval ≤ now = ground (arith, small) in
      (apart, All-map_impl _ _ ts (λ s k. omega (arith, past.0, k)) h.0)

  IsLimited-log :
      (now : Time) (log : List Time)
      → All (λ s. s ≤ now) log
      → IsLimited interval limit log
      → too_soon now interval (filter (is_recent now) log) ≡ false
      → length (filter (is_recent now) log) < limit
      → IsLimited interval limit (now ∷ log)
  unfolding is_recent
  IsLimited-log now log past h soon few =
      (IsLimited-All now log past h soon, ground (arith, few), h)

  abbrev IsInStep : RequeueDecider → Time → List Time → Type 0
  IsInStep self t log =
      (self.min_interval_seconds ≡ interval)
      × (self.max_requeues_per_hour ≡ limit)
      × Shows t self.history log
      × All (λ s. s ≤ t) log
      × IsLimited interval limit log

  Shows-trim :
      (t now : Time) (history log : List Time)
      → t ≤ now
      → Shows t history log
      → Shows now (filter (is_recent now) history) log
  Shows-trim t now history log later shows n h =
      filter-filter now n history h ∙ shows n (omega (arith, later, h))

  Shows-decision :
      (now : Time) (history log : List Time)
      → Shows now history log
      → Shows now (now ∷ history) (now ∷ log)
  Shows-decision now history log shows n h = rw (shows n h) refl

  limit_reason-none :
      (now : Time) (self : RequeueDecider)
      → limit_reason now self ≡ none
      → (too_soon now self.min_interval_seconds self.history ≡ false)
        × (length self.history < self.max_requeues_per_hour)
  unfolding limit_reason
  limit_reason-none now self h = ground (arith, h)

  Kept-IsInStep :
      (self : RequeueDecider) (t now : Time) (log : List Time) (o : Outcome)
      → t ≤ now
      → IsInStep self t log
      → Kept self now o
      → IsInStep o.decider now (log_of o.decision now log)
  unfolding trim_history
  Kept-IsInStep self t now log o later (same, limit_same, shows, past, limited) kept =
      let past_now = All-map_impl _ (λ s. s ≤ now) log (λ s k. omega (arith, k, later)) past in
      let shows_now = Shows-trim t now self.history log later shows in
      elim kept [
        | inl (e, k) ↦
            rw (e, k)
              (same, limit_same, λ n h. shows n (omega (arith, later, h)), past_now, limited)
        | inr (inl (e, k)) ↦ rw (e, k) (same, limit_same, shows_now, past_now, limited)
        | inr (inr (d, e, k, free)) ↦
            let (soon, few) = limit_reason-none now (trim_history now self) free in
            let window = shows now later in
            let soon_now : too_soon now interval (filter (is_recent now) log) ≡ false = cc in
            let few_now : length (filter (is_recent now) log) < limit =
              rw (sym window, sym limit_same) few in
            rw (e, k)
              (
                same,
                limit_same,
                Shows-decision now _ log shows_now,
                (omega arith, past_now),
                IsLimited-log now log past_now limited soon_now few_now,
              )
      ]

  decisions-IsInStep :
      (self : RequeueDecider) (t : Time) (log : List Time) (calls : Calls)
      → IsInStep self t log
      → IsMonotone t calls
      → IsLimited interval limit (decisions self log calls)
  unfolding decisions
  decisions-IsInStep self t log [] (_, _, _, _, limited) mono = limited
  decisions-IsInStep self t log ((snap, now) ∷ rest) h (later, mono) =
      let o = decide self snap now in
      decisions-IsInStep o.decider now (log_of o.decision now log) rest
        (Kept-IsInStep self t now log o later h (decide-Kept self snap now)) mono

-- Over any run of calls with a clock that does not go back, from an empty history and with an
-- interval of at most an hour, every decision stands at least the interval after each earlier one,
-- and the hour that ends with it holds at most `max_requeues_per_hour` decisions, itself included.
pub decisions-IsLimited :
    (self : RequeueDecider) (calls : Calls)
    → self.history ≡ []
    → self.min_interval_seconds ≤ seconds 3600
    → IsMonotone 0 calls
    → IsLimited self.min_interval_seconds self.max_requeues_per_hour (decisions self [] calls)
decisions-IsLimited self calls fresh small mono =
    decisions-IsInStep self.min_interval_seconds self.max_requeues_per_hour small self 0 [] calls
      (refl, refl, λ n h. rw fresh refl, tt, tt) mono
