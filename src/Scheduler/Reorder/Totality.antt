-- ===== src/Scheduler/Reorder/Totality.antt =====
-- services/rl_scheduler/reorder_daemon.py: without strict mode and deadline, rank_pending always
-- returns an order, also where the policy fails or answers nonsense.
use kelpflux.Base.{
  ℕ, zero, suc, ◌≡◌, ◌≢◌, refl, sym, ap, subst, inl, inr, Bool, false, Option, none, some, List, [],
  ◌∷◌, Mem, Text, text_eq, length, All, All-map_impl, Bool-cases, Dict, lookup, insert, erase,
  lookup-insert,
}
use mathlib.Core.List.{not-mem-nil, mem-cons}
use mathlib.Core.Logic.Or
use kelpflux.Scheduler.Placement.{SlurmJob, SlurmNode}
use kelpflux.Scheduler.Placement.Payload.{Act}
use kelpflux.Scheduler.Reorder.Ranking.{
  RankWorld, Ranked, ranked, failed, Pick, Round, stop, took, values, jobs_by_id, coerce_nodes,
  is_noop, and_rank, rank_rest, take_from, settle, obey, answered, rank_round, left_free,
  rank_rounds, rank_pending, no_act,
}
use kelpflux.Scheduler.Reorder.Jobs.{IsKeyed, jobs_by_id-IsKeyed, erase-IsKeyed}
use kelpflux.Scheduler.Reorder.Picks.{round_pick-IsPick}
use kelpflux.Scheduler.Reorder.Dispatch.{Round-cases, IsDispatch, rank_pending-IsDispatch}

abbrev pub Has : Dict ℕ → SlurmNode → Type 0
Has free n = lookup n.name free ≢ none

mem-Has :
    (free : Dict ℕ) (n : SlurmNode) (nodes : List SlurmNode)
    → All (Has free) nodes
    → Mem n nodes
    → Has free n
mem-Has free n [] h m = absurd (not-mem-nil m)
mem-Has free n (k ∷ ks) h m =
    Or.elim (hlevel) (mem-cons.0 m) (λ same. subst (Has free) (sym same) h.0)
      (λ later. mem-Has free n ks h.1 later)

insert-Has :
    (on : Text) (v : ℕ) (free : Dict ℕ) (n : SlurmNode) → Has free n → Has (insert on v free) n
insert-Has on v free n h gone = elim (Bool-cases (text_eq on n.name)) [
  | inl e ↦ let found : some v ≡ none = rw (lookup-insert, e) at gone in cc
  | inr e ↦ h (rw (lookup-insert, e) at gone)
]

-- The round goes on, or ends with an order.
abbrev Proceeds : Round → Type 0
Proceeds (stop (ranked order)) = Unit
Proceeds (stop (failed why)) = ⊥
Proceeds (took pick k) = Unit

module _ (world : RankWorld) (mps_per_gpu : ℕ) (nodes : List SlurmNode)
    (in_time : (round : ℕ) → world.late round ≡ false) where
  take_from-Proceeds : (pick : Pick) (k : Option ℕ) → k ≢ none → Proceeds (take_from pick k)
  take_from-Proceeds pick none h = h refl
  take_from-Proceeds pick (some k) h = tt

  settle-Proceeds :
      (remaining : Dict SlurmJob) (free : Dict ℕ) (noop : Bool) (found : Option Pick)
      → ((pick : Pick) → found ≡ some pick → lookup pick.1.name free ≢ none)
      → Proceeds (settle world mps_per_gpu nodes false remaining free noop found)
  unfolding settle rank_rest
  settle-Proceeds remaining free noop none h = tt
  settle-Proceeds remaining free noop (some pick) h =
      take_from-Proceeds pick (lookup pick.1.name free) (h pick refl)

  obey-Proceeds :
      (round : ℕ) (remaining : Dict SlurmJob) (free : Dict ℕ) (act : Act)
      → IsKeyed remaining
      → All (Has free) nodes
      → Proceeds (obey world mps_per_gpu nodes false round remaining free act)
  unfolding obey
  obey-Proceeds round remaining free act keyed named =
      settle-Proceeds remaining free (is_noop (coerce_nodes nodes free) act) _ (λ pick e.
        let fair =
          round_pick-IsPick world mps_per_gpu nodes false round remaining free act pick keyed e in
        let (n, reported, same, passes) = fair.node_at in
        subst (λ name. lookup name free ≢ none) same (mem-Has free n nodes named reported))

  answered-Proceeds :
      (round : ℕ) (remaining : Dict SlurmJob) (free : Dict ℕ) (act : Option Act)
      → IsKeyed remaining
      → All (Has free) nodes
      → Proceeds (answered world mps_per_gpu nodes false round remaining free act)
  unfolding answered
  answered-Proceeds round remaining free none keyed named =
      obey-Proceeds round remaining free no_act keyed named
  answered-Proceeds round remaining free (some act) keyed named =
      obey-Proceeds round remaining free act keyed named

  rank_round-Proceeds :
      (round : ℕ) (remaining : Dict SlurmJob) (free : Dict ℕ)
      → IsKeyed remaining
      → All (Has free) nodes
      → Proceeds (rank_round world mps_per_gpu nodes false round remaining free)
  unfolding rank_round
  rank_round-Proceeds round remaining free keyed named =
      rw (in_time round) (answered-Proceeds round remaining free _ keyed named)

  stop-IsOrder : (r : Ranked) → Proceeds (stop r) → (order : List Text) × (r ≡ ranked order)
  stop-IsOrder (ranked order) h = (order, refl)
  stop-IsOrder (failed why) h = absurd h

  rank_rounds_total :
      (fuel round : ℕ) (remaining : Dict SlurmJob) (free : Dict ℕ)
      → IsKeyed remaining
      → All (Has free) nodes
      → (order : List Text) × (rank_rounds world mps_per_gpu nodes false fuel round remaining free
          ≡ ranked order)
  unfolding rank_rounds
  rank_rounds_total zero round remaining free keyed named = ([], refl)
  rank_rounds_total (suc fuel) round [] free keyed named = ([], refl)
  rank_rounds_total (suc fuel) round (entry ∷ others) free keyed named =
      let remaining : Dict SlurmJob = entry ∷ others in
      let goes_on = rank_round-Proceeds round remaining free keyed named in
      elim (Round-cases (rank_round world mps_per_gpu nodes false round remaining free)) [
        | inl (result, stops) ↦
            let (order, e) = stop-IsOrder result (subst Proceeds stops goes_on) in
            (order, rw (stops, rank_rounds) e)
        | inr (pick, k, takes) ↦
            let (rest, e) =
              rank_rounds_total fuel (suc round) (erase pick.0.job_id remaining)
                (left_free k pick free) (erase-IsKeyed pick.0.job_id remaining keyed)
                (All-map_impl _ _ nodes (insert-Has pick.1.name _ free) named) in
            (pick.0.job_id ∷ rest, rw (takes, rank_rounds) (ap (and_rank pick.0.job_id) e))
      ]

  -- Outside strict mode, with no deadline passed and an entry of free slots for every node, a ranking
  -- ends with an order of all jobs, whatever the policy answers and wherever its request raises: the
  -- jobs that are placed, with no node over its free slots, and then the rest by submission.
  pub rank_pending_total :
      (pending : List SlurmJob) (free : Dict ℕ)
      → All (Has free) nodes
      → (order : List Text) × (rank_pending world mps_per_gpu nodes false pending free
          ≡ ranked order)
        × IsDispatch nodes (values (jobs_by_id pending [])) free order
  unfolding rank_pending
  rank_pending_total pending free named =
      let (order, e) =
        rank_rounds_total (length (jobs_by_id pending [])) 0 (jobs_by_id pending []) free
          (jobs_by_id-IsKeyed pending [] tt) named in
      (order, e, rank_pending-IsDispatch world mps_per_gpu nodes false pending free order e)
