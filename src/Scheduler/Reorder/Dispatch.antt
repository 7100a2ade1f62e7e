-- ===== src/Scheduler/Reorder/Dispatch.antt =====
-- services/rl_scheduler/reorder_daemon.py: what an order of rank_pending is, whatever the policy
-- answers: jobs that fit on the nodes together, and then the rest by submission.
use kelpflux.Base.{
  ℕ, zero, suc, ◌+◌, ◌-◌, ◌≤◌, ◌≡◌, refl, sym, ap, subst, ◌∙◌, ◌⊎◌, inl, inr, Bool, true, false,
  not, ◌&&◌, Option, none, some, List, [], ◌∷◌, ◌++◌, map, Mem, Perm, Text, text_eq, text_eq_iff,
  length, sum_by, All, Bool-cases, IsSorted, sorted, sorted-perm, sorted-IsSorted, Dict, lookup,
  insert, erase, lookup-insert, if◌then◌else◌, arith,
}
use mathlib.Core.List.Perm
use kelpflux.Scheduler.Placement.{SlurmJob, SlurmNode}
use kelpflux.Scheduler.Placement.Payload.{submitted_before, by_submit, is_eligible, Act}
use kelpflux.Scheduler.Reorder.Ranking.{
  RankWorld, RankError, Ranked, ranked, failed, Pick, Round, stop, took, values, jobs_by_id, ids,
  coerce_nodes, is_noop, and_rank, no_feasible_action, rank_rest, take_from, settle, obey,
  rank_deadline, post_failed, no_act, answered, rank_round, left_free, rank_rounds, rank_pending,
}
use kelpflux.Scheduler.Reorder.Jobs.{
  IsKeyed, jobs_by_id-IsKeyed, erase-IsKeyed, values-perm, length-erase,
}
use kelpflux.Scheduler.Reorder.Picks.{IsPick, round_pick-IsPick}

-- The slots that the placed jobs take on the node.
abbrev pub slots_on : Text → List Pick → ℕ
slots_on name placed = sum_by (λ p. if text_eq p.1.name name then p.0.mps_req else 0) placed

abbrev pub placed_jobs : List Pick → List SlurmJob
placed_jobs placed = map (λ p. p.0) placed

-- An order of the jobs: those that are placed, each on a reported node that may run it, with no node
-- over its free slots, and then those that are left, by submission.
pub record IsDispatch (nodes : List SlurmNode) (jobs : List SlurmJob) (free : Dict ℕ)
    (order : List Text) : Type 0 where
  pub placed : List Pick
  pub left : List SlurmJob
  pub in_order : order ≡ ids (placed_jobs placed ++ left)
  pub everyone : Perm (placed_jobs placed ++ left) jobs
  pub allowed : All (λ p. Mem p.1 nodes × (is_eligible p.0 p.1 ≡ true)) placed
  pub within : (name : Text) (k : ℕ) → lookup name free ≡ some k → slots_on name placed ≤ k
  pub waiting : IsSorted submitted_before left

pub Round-cases :
    (r : Round) → ((x : Ranked) × (r ≡ stop x)) ⊎ ((p : Pick) × (k : ℕ) × (r ≡ took p k))
Round-cases (stop x) = inl (x, refl)
Round-cases (took p k) = inr (p, k, refl)

submitted_before_total :
    (a b : SlurmJob) → (submitted_before a b ≡ true) ⊎ (submitted_before b a ≡ true)
submitted_before_total a b = ground arith

submitted_before_trans :
    (a b c : SlurmJob)
    → submitted_before a b ≡ true
    → submitted_before b c ≡ true
    → submitted_before a c ≡ true
submitted_before_trans a b c h k = ground arith

-- Without a further pick, all jobs that remain follow by submission.
rest-IsDispatch :
    (nodes : List SlurmNode) (jobs : List SlurmJob) (free : Dict ℕ)
    → IsDispatch nodes jobs free (ids (by_submit jobs))
rest-IsDispatch nodes jobs free = record {
  placed = [];
  left = by_submit jobs;
  in_order = refl;
  everyone = sorted-perm submitted_before jobs;
  allowed = tt;
  within = λ name k e. omega arith;
  waiting = sorted-IsSorted submitted_before submitted_before_total submitted_before_trans jobs;
}

-- With a job placed on a node, no node is over its free slots.
next_within :
    (on name : Text) (req k m rest : ℕ) (free : Dict ℕ)
    → req ≤ k
    → lookup on free ≡ some k
    → lookup name free ≡ some m
    → ((j : ℕ) → lookup name (insert on (k - req) free) ≡ some j → rest ≤ j)
    → (if text_eq on name then req else 0) + rest ≤ m
next_within on name req k m rest free room at at_name within = elim (Bool-cases (text_eq on name)) [
  | inl same ↦
      let k_is_m : some k ≡ some m =
        sym at ∙ ap (λ n. lookup n free) ((text_eq_iff on name).0 same) ∙ at_name in
      let equal : k ≡ m = cc (k_is_m) in
      rw same (omega (arith, room, equal, within (k - req) (rw (lookup-insert, same) refl)))
  | inr other ↦ rw other (omega (arith, within m (rw (lookup-insert, other) at_name)))
]

next-IsDispatch :
    (nodes : List SlurmNode) (remaining : Dict SlurmJob) (free : Dict ℕ) (pick : Pick) (k : ℕ)
    (order : List Text)
    → IsKeyed remaining
    → IsPick nodes remaining free pick
    → lookup pick.1.name free ≡ some k
    → IsDispatch nodes
        (values (erase pick.0.job_id remaining))
        (insert pick.1.name (k - pick.0.mps_req) free)
        order
    → IsDispatch nodes (values remaining) free (pick.0.job_id ∷ order)
next-IsDispatch nodes remaining free pick k order keyed h at d =
    let (node, reported, same, passes) = h.node_at in
    record {
      placed = (pick.0, node) ∷ d.placed;
      left = d.left;
      in_order = ap (λ o. pick.0.job_id ∷ o) d.in_order;
      everyone =
          Perm.trans (Perm.cons pick.0 d.everyone)
            (Perm.symm (values-perm pick.0.job_id pick.0 remaining keyed h.job_at));
      allowed = ((reported, passes), d.allowed);
      within = λ name m e.
          subst (λ on. (if text_eq on name then pick.0.mps_req else 0) + slots_on name d.placed ≤ m)
            (sym same)
            (next_within pick.1.name name pick.0.mps_req k m (slots_on name d.placed) free
              (h.room k at) at e (d.within name));
      waiting = d.waiting;
    }

module _ (world : RankWorld) (mps_per_gpu : ℕ) (nodes : List SlurmNode) (strict : Bool) where
  rank_rest-ranked :
      (remaining : Dict SlurmJob) (why : RankError) (noop : Bool) (order : List Text)
      → rank_rest world mps_per_gpu nodes strict remaining why noop ≡ ranked order
      → order ≡ ids (by_submit (values remaining))
  unfolding rank_rest
  rank_rest-ranked remaining why noop order e = elim (Bool-cases (strict && not noop)) [
    | inl raises ↦ absurd (cc (rw raises at e))
    | inr goes_on ↦ sym (cc (rw goes_on at e))
  ]

  -- What a round is that ends with an order, or takes a job out.
  abbrev IsRound : Dict SlurmJob → Dict ℕ → Round → Type 0
  IsRound remaining free (stop (ranked order)) = order ≡ ids (by_submit (values remaining))
  IsRound remaining free (stop (failed e)) = Unit
  IsRound remaining free (took pick k) =
      IsPick nodes remaining free pick × (lookup pick.1.name free ≡ some k)

  rest-IsRound :
      (remaining : Dict SlurmJob) (free : Dict ℕ) (result : Ranked)
      → ((order : List Text) → result ≡ ranked order → order ≡ ids (by_submit (values remaining)))
      → IsRound remaining free (stop result)
  rest-IsRound remaining free (ranked order) h = h order refl
  rest-IsRound remaining free (failed e) h = tt

  take_from-IsRound :
      (remaining : Dict SlurmJob) (free : Dict ℕ) (pick : Pick) (k : Option ℕ)
      → IsPick nodes remaining free pick
      → lookup pick.1.name free ≡ k
      → IsRound remaining free (take_from pick k)
  take_from-IsRound remaining free pick none h e = tt
  take_from-IsRound remaining free pick (some k) h e = (h, e)

  settle-IsRound :
      (remaining : Dict SlurmJob) (free : Dict ℕ) (noop : Bool) (found : Option Pick)
      → ((pick : Pick) → found ≡ some pick → IsPick nodes remaining free pick)
      → IsRound remaining free (settle world mps_per_gpu nodes strict remaining free noop found)
  unfolding settle
  settle-IsRound remaining free noop none h =
      rest-IsRound remaining free _ (rank_rest-ranked remaining no_feasible_action noop)
  settle-IsRound remaining free noop (some pick) h =
      take_from-IsRound remaining free pick (lookup pick.1.name free) (h pick refl) refl

  obey-IsRound :
      (round : ℕ) (remaining : Dict SlurmJob) (free : Dict ℕ) (act : Act)
      → IsKeyed remaining
      → IsRound remaining free (obey world mps_per_gpu nodes strict round remaining free act)
  unfolding obey
  obey-IsRound round remaining free act keyed =
      settle-IsRound remaining free (is_noop (coerce_nodes nodes free) act) _ (λ pick.
        round_pick-IsPick world mps_per_gpu nodes strict round remaining free act pick keyed)

  if-IsRound :
      (test : Bool) (remaining : Dict SlurmJob) (free : Dict ℕ) (why : RankError) (r : Round)
      → IsRound remaining free r
      → IsRound remaining free (if test then stop (failed why) else r)
  if-IsRound true remaining free why r h = tt
  if-IsRound false remaining free why r h = h

  answered-IsRound :
      (round : ℕ) (remaining : Dict SlurmJob) (free : Dict ℕ) (act : Option Act)
      → IsKeyed remaining
      → IsRound remaining free (answered world mps_per_gpu nodes strict round remaining free act)
  unfolding answered
  answered-IsRound round remaining free none keyed =
      if-IsRound strict remaining free post_failed _
        (obey-IsRound round remaining free no_act keyed)
  answered-IsRound round remaining free (some act) keyed =
      obey-IsRound round remaining free act keyed

  rank_round-IsRound :
      (round : ℕ) (remaining : Dict SlurmJob) (free : Dict ℕ)
      → IsKeyed remaining
      → IsRound remaining free (rank_round world mps_per_gpu nodes strict round remaining free)
  unfolding rank_round
  rank_round-IsRound round remaining free keyed =
      if-IsRound (world.late round) remaining free rank_deadline _
        (answered-IsRound round remaining free _ keyed)

  and_rank-ranked :
      (jid : Text) (r : Ranked) (order : List Text)
      → and_rank jid r ≡ ranked order
      → (others : List Text) × (r ≡ ranked others) × (jid ∷ others ≡ order)
  and_rank-ranked jid (ranked others) order e = (others, refl, cc)
  and_rank-ranked jid (failed why) order e = absurd (cc)

  rank_rounds-IsDispatch :
      (fuel round : ℕ) (remaining : Dict SlurmJob) (free : Dict ℕ) (order : List Text)
      → IsKeyed remaining
      → length remaining ≤ fuel
      → rank_rounds world mps_per_gpu nodes strict fuel round remaining free ≡ ranked order
      → IsDispatch nodes (values remaining) free order
  unfolding rank_rounds sorted
  rank_rounds-IsDispatch zero round (entry ∷ others) free order keyed enough e =
      absurd (omega (arith, enough))
  rank_rounds-IsDispatch zero round [] free order keyed enough e =
      subst (IsDispatch nodes [] free) (cc (e)) (rest-IsDispatch nodes [] free)
  rank_rounds-IsDispatch (suc fuel) round [] free order keyed enough e =
      subst (IsDispatch nodes [] free) (cc (e)) (rest-IsDispatch nodes [] free)
  rank_rounds-IsDispatch (suc fuel) round (entry ∷ others) free order keyed enough e =
      let remaining : Dict SlurmJob = entry ∷ others in
      let fair = rank_round-IsRound round remaining free keyed in
      elim (Round-cases (rank_round world mps_per_gpu nodes strict round remaining free)) [
        | inl (result, stops) ↦
            let ends : result ≡ ranked order = rw (stops, rank_rounds) at e in
            let all : order ≡ ids (by_submit (values remaining)) =
              subst (IsRound remaining free) (stops ∙ ap stop ends) fair in
            subst (IsDispatch nodes (values remaining) free) (sym all)
              (rest-IsDispatch nodes (values remaining) free)
        | inr (pick, k, takes) ↦
            let (rest, ranks, whole) =
              and_rank-ranked pick.0.job_id _ order (rw (takes, rank_rounds) at e) in
            let (is_pick, at) = subst (IsRound remaining free) takes fair in
            let shorter = length-erase pick.0.job_id pick.0 remaining keyed is_pick.job_at in
            subst (IsDispatch nodes (values remaining) free) whole (
              next-IsDispatch nodes remaining free pick k rest keyed is_pick at (
                rank_rounds-IsDispatch fuel (suc round) (erase pick.0.job_id remaining)
                  (left_free k pick free) rest (erase-IsKeyed pick.0.job_id remaining keyed)
                  (omega (arith, shorter, enough)) ranks))
      ]

  -- Whatever the policy answers, an order that `rank_pending` returns lists every job once: first jobs
  -- that are placed, each on a reported node that takes jobs and may run it, so that no node has more
  -- slots taken than it had free, and then the jobs that are left, by submission.
  pub rank_pending-IsDispatch :
      (pending : List SlurmJob) (free : Dict ℕ) (order : List Text)
      → rank_pending world mps_per_gpu nodes strict pending free ≡ ranked order
      → IsDispatch nodes (values (jobs_by_id pending [])) free order
  unfolding rank_pending
  rank_pending-IsDispatch pending free order e =
      rank_rounds-IsDispatch (length (jobs_by_id pending [])) 0 (jobs_by_id pending []) free order
        (jobs_by_id-IsKeyed pending [] tt) (omega arith) e
