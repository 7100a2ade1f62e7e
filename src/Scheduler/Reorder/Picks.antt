-- ===== src/Scheduler/Reorder/Picks.antt =====
-- services/rl_scheduler/reorder_daemon.py: every pick of a round, the policy's or the fallback's, is a
-- job that remains, on a reported node that may run it and has the slots left.
use kelpflux.Base.{
  All-take, ℕ, zero, suc, ◌+◌, ◌≤◌, ◌≡◌, refl, sym, ap, subst, ◌∙◌, ◌⊎◌, inl, inr, Bool, true,
  false, ◌&&◌, ◌||◌, Option, none, some, ℤ, pos, negsuc, List, [], ◌∷◌, map, Mem, mem-cons_self,
  mem-cons_of_mem, Text, text_eq, text_eq_iff, get_elem?, any, take, All, Bool-cases, Option-cases,
  sorted-All, leb, ◌==◌, Dict, lookup, arith,
}
use kelpflux.Scheduler.Placement.{SlurmJob, SlurmNode}
use kelpflux.Scheduler.Placement.Payload.{
  top_k, submitted_before, by_submit, PendingEntry, Act, is_eligible, indices, entry_of,
  build_act_payload,
}
use kelpflux.Scheduler.Reorder.Ranking.{
  RankWorld, Pick, values, slots_or, coerce_node, coerce_nodes, mem_nat, indices_of, pick_on,
  policy_pick, first_node, first_fit, remaining_job, selected_job, round_pick, entries_of,
}
use kelpflux.Scheduler.Reorder.Jobs.{IsKeyed, lookup-job_id, values-lookup}

module _ (test : SlurmNode → Bool) where
  indices_above :
      (m o : ℕ) (nodes : List SlurmNode) → mem_nat m (indices test o nodes) ≡ true → o ≤ m
  unfolding indices mem_nat
  indices_above m o [] h = absurd (cc)
  indices_above m o (n ∷ ns) h = elim (Bool-cases (test n)) [
    | inr e ↦ omega (arith, indices_above m (suc o) ns (rw e at h))
    | inl e ↦ elim (Bool-cases (m == o)) [
      | inl same ↦ ground (arith, same)
      | inr other ↦ omega (
        arith,
        indices_above m (suc o) ns (
            let g : (m == o || mem_nat m (indices test (suc o) ns)) ≡ true = rw e at h in
            rw other at g),
      )
    ]
  ]

  -- The node at an index that is listed passes the test.
  indices-get_elem? :
      (o j : ℕ) (nodes : List SlurmNode) (n : SlurmNode)
      → mem_nat (o + j) (indices test o nodes) ≡ true
      → get_elem? nodes j ≡ some n
      → test n ≡ true
  unfolding indices mem_nat
  indices-get_elem? o j [] n h e = absurd (cc)
  indices-get_elem? o zero (m ∷ ns) n h e = elim (Bool-cases (test m)) [
    | inl passes ↦ let same : m ≡ n = cc in subst (λ k. test k ≡ true) same passes
    | inr fails ↦ absurd (omega (arith, indices_above (o + 0) (suc o) ns (rw fails at h)))
  ]
  indices-get_elem? o (suc j) (m ∷ ns) n h e =
      let shift : o + suc j ≡ suc o + j = omega arith in
      let differs : (o + suc j == o) ≡ false = ground arith in
      let later = λ (g : mem_nat (o + suc j) (indices test (suc o) ns) ≡ true).
        indices-get_elem? (suc o) j ns n
          (subst (λ k. mem_nat k (indices test (suc o) ns) ≡ true) shift g) e in
      elim (Bool-cases (test m)) [
        | inl passes ↦
            let g : (o + suc j == o || mem_nat (o + suc j) (indices test (suc o) ns)) ≡ true =
              rw passes at h in
            later (rw differs at g)
        | inr fails ↦ later (rw fails at h)
      ]

both_cases : (a b : Bool) → ((a ≡ true) × (b ≡ true)) ⊎ ((a && b) ≡ false)
both_cases true true = inl (refl, refl)
both_cases true false = inr refl
both_cases false b = inr refl

-- A coerced node is a reported one with other slots.
coerce_nodes-get_elem? :
    (free : Dict ℕ) (nodes : List SlurmNode) (i : ℕ) (node : SlurmNode)
    → get_elem? (coerce_nodes nodes free) i ≡ some node
    → (n : SlurmNode) × Mem n nodes × (coerce_node free n ≡ node)
unfolding coerce_nodes
coerce_nodes-get_elem? free [] i node e = absurd (cc)
coerce_nodes-get_elem? free (n ∷ ns) zero node e = (n, mem-cons_self, cc)
coerce_nodes-get_elem? free (n ∷ ns) (suc i) node e =
    let (m, at, same) = coerce_nodes-get_elem? free ns i node e in (m, mem-cons_of_mem n at, same)

module _ (nodes : List SlurmNode) (remaining : Dict SlurmJob) (localfree : Dict ℕ) where
  -- The job remains, and its node is reported, may run it, and has the slots that it asks for.
  pub record IsPick (pick : Pick) : Type 0 where
    pub job_at : lookup pick.0.job_id remaining ≡ some pick.0
    pub node_at :
        (n : SlurmNode) × Mem n nodes × (n.name ≡ pick.1.name) × (is_eligible pick.0 n ≡ true)
    pub room : (k : ℕ) → lookup pick.1.name localfree ≡ some k → pick.0.mps_req ≤ k

  abbrev fnodes : List SlurmNode
  fnodes = coerce_nodes nodes localfree

  -- The entries of jobs that remain.
  indices_of-entries :
      (jid : Text) (job : SlurmJob) (i : ℕ) (jobs : List SlurmJob)
      → All (λ j. lookup j.job_id remaining ≡ some j) jobs
      → lookup jid remaining ≡ some job
      → mem_nat i (indices_of jid (map (entry_of fnodes) jobs)) ≡ true
      → mem_nat i (indices (is_eligible job) 0 fnodes) ≡ true
  unfolding indices_of mem_nat entry_of
  indices_of-entries jid job i [] h at e = absurd (cc)
  indices_of-entries jid job i (j ∷ js) h at e =
      elim (Bool-cases (any (λ f. text_eq f.job_id jid) (map (entry_of fnodes) js))) [
        | inl later ↦ indices_of-entries jid job i js h.1 at (rw later at e)
        | inr last ↦ elim (Bool-cases (text_eq j.job_id jid)) [
          | inl same ↦
              let here : j ≡ job = cc (h.0, at, (text_eq_iff _ _).0 same) in
              subst (λ k. mem_nat i (indices (is_eligible k) 0 fnodes) ≡ true) here
                (rw (last, same) at e)
          | inr other ↦ absurd (cc (rw (last, other) at e))
        ]
      ]

  found-IsPick :
      (job : SlurmJob) (i : ℕ) (jobs : List SlurmJob) (node : SlurmNode)
      → All (λ j. lookup j.job_id remaining ≡ some j) jobs
      → lookup job.job_id remaining ≡ some job
      → mem_nat i (indices_of job.job_id (map (entry_of fnodes) jobs)) ≡ true
      → get_elem? fnodes i ≡ some node
      → ((k : ℕ) → lookup node.name localfree ≡ some k → job.mps_req ≤ k)
      → IsPick (job, node)
  unfolding is_eligible
  found-IsPick job i jobs node h at listed e room =
      let (n, reported, same) = coerce_nodes-get_elem? localfree nodes i node e in
      let passes : is_eligible job node ≡ true =
        indices-get_elem? (is_eligible job) 0 i fnodes node
          (subst (λ k. mem_nat k (indices (is_eligible job) 0 fnodes) ≡ true) (omega arith)
            (indices_of-entries job.job_id job i jobs h at listed))
          e in
      record {
        job_at = at;
        node_at = (
          n,
          reported,
          ap (λ (m : SlurmNode). m.name) same,
          subst (λ m. is_eligible job m ≡ true) (sym same) passes,
        );
        room = room;
      }

  -- Of a node of the list `fnodes`, the slots that the dictionary gives.
  slots :
      (i k : ℕ) (node : SlurmNode)
      → get_elem? fnodes i ≡ some node
      → lookup node.name localfree ≡ some k
      → node.free_mps ≡ k
  slots i k node e at =
      let (n, reported, same) = coerce_nodes-get_elem? localfree nodes i node e in
      let named : lookup n.name localfree ≡ some k =
        ap (λ (m : SlurmNode). lookup m.name localfree) same ∙ at in
      sym (ap (λ (m : SlurmNode). m.free_mps) same) ∙ ap (slots_or n.free_mps) named

  module _ (jobs : List SlurmJob) (under : All (λ j. lookup j.job_id remaining ≡ some j) jobs) where
    abbrev entries : List PendingEntry
    entries = map (entry_of fnodes) jobs

    pick_on-IsPick :
        (job : SlurmJob) (i : ℕ) (found : Option SlurmNode) (pick : Pick)
        → lookup job.job_id remaining ≡ some job
        → get_elem? fnodes i ≡ found
        → pick_on entries i job found ≡ some pick
        → IsPick pick
    unfolding pick_on
    pick_on-IsPick job i none pick at found e = absurd (cc)
    pick_on-IsPick job i (some node) pick at found e =
        elim (both_cases (mem_nat i (indices_of job.job_id entries))
          (node.available && leb job.mps_req node.free_mps)) [
            | inr fails ↦ absurd (cc (rw fails at e))
            | inl (listed, fits) ↦
                let enough : job.mps_req ≤ node.free_mps = ground (arith, fits) in
                let whole : (job, node) ≡ pick = cc (rw (listed, fits) at e) in
                subst IsPick whole (
                  found-IsPick job i jobs node under at listed found
                    (λ k free. omega (arith, enough, slots i k node found free)))
          ]

    policy_pick-IsPick :
        (job : Option SlurmJob) (index : Option ℤ) (pick : Pick)
        → ((j : SlurmJob) → job ≡ some j → lookup j.job_id remaining ≡ some j)
        → policy_pick entries fnodes job index ≡ some pick
        → IsPick pick
    unfolding policy_pick
    policy_pick-IsPick none index pick at e = absurd (cc)
    policy_pick-IsPick (some job) none pick at e = absurd (cc)
    policy_pick-IsPick (some job) (some (negsuc i)) pick at e = absurd (cc)
    policy_pick-IsPick (some job) (some (pos i)) pick at e =
        pick_on-IsPick job i (get_elem? fnodes i) pick (at job refl) refl e

    first_node-IsPick :
        (job : SlurmJob) (i : ℕ) (suffix : List SlurmNode) (pick : Pick)
        → lookup job.job_id remaining ≡ some job
        → ((j : ℕ) → get_elem? suffix j ≡ get_elem? fnodes (i + j))
        → first_node entries localfree job i suffix ≡ some pick
        → IsPick pick
    unfolding first_node
    first_node-IsPick job i [] pick at suffixes e = absurd (cc)
    first_node-IsPick job i (node ∷ rest) pick at suffixes e =
        elim (both_cases node.available (
          mem_nat i (indices_of job.job_id entries)
          && leb job.mps_req (slots_or 0 (lookup node.name localfree)))) [
            | inr fails ↦
                first_node-IsPick job (suc i) rest pick at
                  (λ j. suffixes (suc j) ∙ ap (get_elem? fnodes) (omega arith)) (rw fails at e)
            | inl (up, rest_holds) ↦
                let whole : (job, node) ≡ pick = cc (rw (up, rest_holds) at e) in
                let listed : mem_nat i (indices_of job.job_id entries) ≡ true =
                  ground (arith, rest_holds) in
                let enough : job.mps_req ≤ slots_or 0 (lookup node.name localfree) =
                  ground (arith, rest_holds) in
                let here : get_elem? fnodes i ≡ some node =
                  ap (get_elem? fnodes) (omega arith) ∙ sym (suffixes 0) in
                subst IsPick whole (
                  found-IsPick job i jobs node under at listed here
                    (λ k free. rw (← (ap (slots_or 0) free)) enough))
          ]

    first_fit-IsPick :
        (candidates : List SlurmJob) (pick : Pick)
        → All (λ j. lookup j.job_id remaining ≡ some j) candidates
        → first_fit entries localfree fnodes candidates ≡ some pick
        → IsPick pick
    unfolding first_fit
    first_fit-IsPick [] pick at e = absurd (cc)
    first_fit-IsPick (job ∷ candidates) pick at e =
        elim (Option-cases (first_node entries localfree job 0 fnodes)) [
          | inl fails ↦ first_fit-IsPick candidates pick at.1 (rw fails at e)
          | inr (p, found) ↦
              let same : p ≡ pick = cc (rw found at e) in
              subst IsPick same (
                first_node-IsPick job 0 fnodes p at.0 (λ j. ap (get_elem? fnodes) (omega arith))
                  found)
        ]

selected_job-at :
    (remaining : Dict SlurmJob) (selected : Option Text) (job : SlurmJob)
    → IsKeyed remaining
    → remaining_job remaining selected ≡ some job
    → lookup job.job_id remaining ≡ some job
selected_job-at remaining none job keyed e = absurd (cc)
selected_job-at remaining (some jid) job keyed e =
    ap (λ k. lookup k remaining) (lookup-job_id jid job remaining keyed e) ∙ e

-- The pick of a round, from whatever the policy answers.
pub round_pick-IsPick :
    (world : RankWorld) (mps_per_gpu : ℕ) (nodes : List SlurmNode) (strict : Bool) (round : ℕ)
    (remaining : Dict SlurmJob) (localfree : Dict ℕ) (act : Act) (pick : Pick)
    → IsKeyed remaining
    → round_pick world mps_per_gpu nodes strict remaining localfree
        (coerce_nodes nodes localfree)
        (entries_of world mps_per_gpu nodes strict round remaining localfree).pending_jobs
        act
      ≡ some pick
    → IsPick nodes remaining localfree pick
unfolding round_pick entries_of build_act_payload
round_pick-IsPick world mps_per_gpu nodes strict round remaining localfree act pick keyed e =
    let under = values-lookup remaining keyed in
    let all_under = sorted-All submitted_before _ (values remaining) under in
    let shown =
      All-take _ top_k _ (sorted-All submitted_before _ _ (All-take _ top_k _ all_under)) in
    let jobs : List SlurmJob = take top_k (by_submit (take top_k (by_submit (values remaining)))) in
    let chosen =
      policy_pick (map (entry_of (coerce_nodes nodes localfree)) jobs)
        (coerce_nodes nodes localfree) (selected_job remaining act) act.node_j in
    elim (Option-cases chosen) [
      | inr (p, found) ↦
          let same : p ≡ pick = cc (rw found at e) in
          subst (IsPick nodes remaining localfree) same (
            policy_pick-IsPick nodes remaining localfree jobs shown (selected_job remaining act)
              act.node_j p (λ j at. selected_job-at remaining act.selected_job_id j keyed at) found)
      | inl fails ↦ elim (Bool-cases strict) [
        | inl raises ↦ absurd (cc (rw (fails, raises) at e))
        | inr falls_back ↦
            first_fit-IsPick nodes remaining localfree jobs shown (by_submit (values remaining))
              pick all_under (rw (fails, falls_back) at e)
      ]
    ]
