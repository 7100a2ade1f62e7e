-- ===== src/Operator/FragmentationLoop/Cycles.antt =====
-- operator/fragmentation_loop.py: which jobs a cycle requeues.
use kelpflux.Base.{
  ℕ, ◌≡◌, refl, ◌⊎◌, ◌++◌, ◌||◌, map, codes, mem_text, Option-cases, inl, inr, ap, Bool, true, ◌&&◌,
  Option, none, some, List, [], ◌∷◌, Text, text_eq, text_eq_self, any, All, All-map_impl, Mem,
  Bool-cases, arith,
}
use mathlib.Core.Bool.{Bool-set}
use mathlib.Core.Logic.{∥∥₁_elim}
use mathlib.Core.List.{Memᴰ}
use kelpflux.Operator.Models.{Time}
use kelpflux.Operator.Fragmentation.{JobView}
use kelpflux.Operator.Fragmentation.Detector.{to_upper, is_state, running_text}
use kelpflux.Operator.Fragmentation.Adapters.{
  RestJob, RestNode, job_view, is_wanted, jobs_from_slurm_rest,
}
use kelpflux.Operator.Fragmentation.Requeue.{FragmentationReconciler}
use kelpflux.Operator.Fragmentation.Ticks.{reconcile-IsRequeueable}
use kelpflux.Operator.FragmentationLoop.{
  Rest, and_jobs, list_all, Cycle, run_cycle, with_nodes, with_jobs, fragmentation_tick,
}

any_found :
    (test : JobView → Bool) (v : JobView) (vs : List JobView)
    → Memᴰ v vs
    → test v ≡ true
    → any test vs ≡ true
any_found test v [] m h = elim m [ ]
any_found test v (x ∷ xs) (Memᴰ.head e) h = ground (arith, ap test e, h)
any_found test v (x ∷ xs) (Memᴰ.tail m) h = ground (arith, any_found test v xs m h)

any-Mem :
    (test : JobView → Bool) (v : JobView) (vs : List JobView)
    → Mem v vs
    → test v ≡ true
    → any test vs ≡ true
any-Mem test v vs m h = ∥∥₁_elim m (Bool-set (any test vs) true) (λ d. any_found test v vs d h)

any-jobs_from_slurm_rest :
    (test : JobView → Bool) (mps : ℕ) (rs : List RestJob)
    → any test (jobs_from_slurm_rest mps rs) ≡ true
    → any (λ r. test (job_view mps r)) rs ≡ true
unfolding jobs_from_slurm_rest
any-jobs_from_slurm_rest test mps [] h = h
any-jobs_from_slurm_rest test mps (r ∷ rs) h = elim (Bool-cases (is_wanted r)) [
  | inl e ↦ ground (arith, rw e at h, any-jobs_from_slurm_rest test mps rs)
  | inr e ↦ ground (arith, rw e at h, any-jobs_from_slurm_rest test mps rs)
]

any-append :
    {A : Type 0} (test : A → Bool) (xs ys : List A)
    → any test (xs ++ ys) ≡ (any test xs || any test ys)
any-append test [] ys = refl
any-append test (x ∷ xs) ys = ground (arith, any-append test xs ys)

module _ (list_jobs : Text → Option (List RestJob)) where
  -- The controller has answered for the partition.
  abbrev pub IsAnswered : Text → Type 0
  IsAnswered part = (docs : List RestJob) × (list_jobs part ≡ some docs)

  -- Some job of the answers for these partitions passes the test.
  abbrev pub Holds : List Text → (RestJob → Bool) → Type 0
  Holds parts test =
      (part : Text) × (docs : List RestJob) × (mem_text part parts ≡ true)
      × (list_jobs part ≡ some docs)
      × (any test docs ≡ true)

  holds_later :
      (part : Text) (parts : List Text) (test : RestJob → Bool)
      → Holds parts test
      → Holds (part ∷ parts) test
  unfolding mem_text
  holds_later part parts test (p, docs, m, at, found) = (p, docs, ground (arith, m), at, found)

  -- What is known of the jobs that `list_all` gives.
  abbrev AllFrom : List Text → List RestJob → Type 0
  AllFrom parts found =
      All IsAnswered parts × ((test : RestJob → Bool) → any test found ≡ true → Holds parts test)

  and_jobs-AllFrom :
      (part : Text) (parts : List Text) (first : List RestJob) (others : Option (List RestJob))
      (found : List RestJob)
      → list_jobs part ≡ some first
      → ((rest : List RestJob) → others ≡ some rest → AllFrom parts rest)
      → and_jobs first others ≡ some found
      → AllFrom (part ∷ parts) found
  unfolding and_jobs mem_text
  and_jobs-AllFrom part parts first none found at later e = absurd (cc)
  and_jobs-AllFrom part parts first (some rest) found at later e =
      let (answered, holds) = later rest refl in
      let same : first ++ rest ≡ found = cc in
      (
        ((first, at), answered),
        λ test h. elim (Bool-cases (any test first)) [
          | inl here ↦ (part, first, ground (arith, text_eq_self part), at, here)
          | inr not_here ↦ holds_later part parts test (
              holds test
                (ground (arith, h, ap (any test) same, any-append test first rest, not_here)))
        ],
      )

  list_all-AllFrom :
      (parts : List Text) (found : List RestJob)
      → list_all list_jobs parts ≡ some found
      → AllFrom parts found
  unfolding list_all
  list_all-AllFrom [] found e =
      let same : [] ≡ found = cc in (tt, λ test h. absurd (cc (ap (any test) same, h)))
  list_all-AllFrom (part ∷ parts) found e = elim (Option-cases (list_jobs part)) [
    | inl fails ↦ absurd (cc (rw (list_all, fails) at e))
    | inr (first, at) ↦
        and_jobs-AllFrom part parts first (list_all list_jobs parts) found at
          (λ rest k. list_all-AllFrom parts rest k) (rw (list_all, at) at e)
  ]

-- The configured partitions, or those of all pools where none are configured.
abbrev pub watched : List Text → List Text → List Text
watched [] pools = pools
watched (part ∷ parts) pools = part ∷ parts

-- The document is of a running job with the id.
abbrev pub is_running_job : Text → RestJob → Bool
is_running_job jid r =
    text_eq r.job_id jid && text_eq (map to_upper (map to_upper r.job_state)) (codes "RUNNING")

module _ (raises : Text → Bool) (self : FragmentationReconciler) (now : Time) where
  AllReported : List RestJob → Cycle → Type 0
  AllReported rest_jobs cycle = All (λ jid. any (is_running_job jid) rest_jobs ≡ true) cycle.calls

  run_cycle-AllReported :
      (rest_jobs : List RestJob) (rest_nodes : List RestNode)
      → AllReported rest_jobs (run_cycle raises self now rest_jobs rest_nodes)
  unfolding AllReported run_cycle job_view is_state
  run_cycle-AllReported rest_jobs rest_nodes =
      All-map_impl _ (λ jid. any (is_running_job jid) rest_jobs ≡ true) _
        (λ jid (v, _, same, inside, runs, _, _, _, _).
          any-jobs_from_slurm_rest (λ w. text_eq w.job_id jid && is_state running_text w)
            self.detector.mps_per_node rest_jobs
            (any-Mem (λ w. text_eq w.job_id jid && is_state running_text w) v _ inside
              (ground (arith, same, runs, text_eq_self jid))))
        (reconcile-IsRequeueable raises self _ _ now)

  -- The cycle requeues none, or the controller has answered for all of the partitions, and each job
  -- that the cycle requeues is in an answer, as running.
  abbrev pub IsCareful : (Text → Option (List RestJob)) → List Text → Cycle → Type 0
  IsCareful list_jobs parts cycle =
      (cycle.calls ≡ [])
      ⊎ (All (IsAnswered list_jobs) parts
          × All (λ jid. Holds list_jobs parts (is_running_job jid)) cycle.calls)

  with_jobs-IsCareful :
      (list_jobs : Text → Option (List RestJob)) (parts : List Text) (found : Option (List RestJob))
      (rest_nodes : Option (List RestNode))
      → list_all list_jobs parts ≡ found
      → IsCareful list_jobs parts (with_jobs raises self now found rest_nodes)
  unfolding with_jobs with_nodes AllReported
  with_jobs-IsCareful list_jobs parts none rest_nodes e = inl refl
  with_jobs-IsCareful list_jobs parts (some rest_jobs) none e = inl refl
  with_jobs-IsCareful list_jobs parts (some rest_jobs) (some rest_nodes) e =
      let (answered, holds) = list_all-AllFrom list_jobs parts rest_jobs e in
      inr (
        answered,
        All-map_impl _ _ _ (λ jid h. holds (is_running_job jid) h)
            (run_cycle-AllReported rest_jobs rest_nodes),
      )

  -- A cycle requeues no job, or the controller has answered for each of the configured partitions (of
  -- the pools' partitions where none are configured), and has reported each job that the cycle
  -- requeues as running, in one of them.
  pub fragmentation_tick-IsCareful :
      (rest : Rest) (configured pools : List Text)
      → IsCareful rest.list_jobs
          (watched configured pools)
          (fragmentation_tick raises self now (some rest) configured pools)
  unfolding fragmentation_tick
  fragmentation_tick-IsCareful rest [] pools =
      with_jobs-IsCareful rest.list_jobs pools _ rest.list_nodes refl
  fragmentation_tick-IsCareful rest (part ∷ parts) pools =
      with_jobs-IsCareful rest.list_jobs (part ∷ parts) _ rest.list_nodes refl
