-- ===== src/Scheduler/Reorder/Requests.antt =====
-- services/rl_scheduler/reorder_daemon.py: the three kinds of priority that the daemon writes, and the
-- requests that write, reset and restore priorities.
use kelpflux.Base.{
  ℕ, suc, ◌≤◌, ◌<◌, ◌≡◌, refl, subst, ◌⊎◌, inl, inr, Bool, true, false, some, List, [], ◌∷◌, Text,
  text_eq, text_eq_self, mem_text, All, All-map_impl, Bool-cases, Dict, IsDistinct,
  insert-IsDistinct, entries-lookup, lookup,
}
use kelpflux.Operator.Models.{Time}
use kelpflux.Scheduler.Snapshot.{JobItem, NodeItem}
use kelpflux.Scheduler.Placement.{SlurmJob, parse_nodes}
use kelpflux.Scheduler.Calls.{
  Call, get_jobs, get_nodes, get_healthz, set_priority, Action, raise_if, ◌>>=◌,
}
use kelpflux.Scheduler.Calls.Only.{
  Only, Any, Only-pure, Only-request, Only-observe, Only-if, Only-on_error, Only-suppress,
  Only-bind, Only-raise_if, Only-for_each, Only-weaken,
}
use kelpflux.Scheduler.Reorder.{
  release_base, min_owned_priority, release_priority, Priority, pending_job_priorities, nodes_for,
  discovered_nodes, priorities_from,
}
use kelpflux.Scheduler.Reorder.Ranking.{ranked, ids, rank_pending}
use kelpflux.Scheduler.Reorder.Orders.{Pairwise, SameJob, SameNode}
use kelpflux.Scheduler.Reorder.Cycle
use kelpflux.Scheduler.Reorder.Cycle.{
  CycleWorld, CycleOptions, State, reorder_cycle, reset_owned_priorities,
}

module _ (world : CycleWorld) where
  -- Slurm has answered with these documents.
  abbrev pub IsAnswer : List JobItem → Type 0
  IsAnswer doc = (tick : ℕ) × (world.jobs_doc tick ≡ some doc)

  -- The eligible jobs of an answer of Slurm.
  abbrev pub IsRead : CycleOptions → List SlurmJob → Type 0
  IsRead o jobs =
      (doc : List JobItem) × (tick : ℕ) × IsAnswer doc × (jobs ≡ Cycle.eligible_at world o tick doc)

  -- A job whose priority lies in the daemon's range goes back to Slurm's own priority.
  abbrev pub IsReset : Text → ℕ → Type 0
  IsReset jid priority =
      (doc : List JobItem) × IsAnswer doc
      × (priority ≡ release_priority)
      × (mem_text jid (Cycle.owned_ids world (pending_job_priorities doc [])) ≡ true)

  -- Slurm has answered both requests of a read of the state at ticks from `from` on and before
  -- `until`, the jobs first, and the state is made from these answers.
  pub record IsStateAt (o : CycleOptions) (from until : ℕ) (s : State) : Type 0 where
    pub jobs_tick : ℕ
    pub nodes_tick : ℕ
    pub clock_tick : ℕ
    pub jobs_doc : List JobItem
    pub nodes_doc : List NodeItem
    pub in_order : (from ≤ jobs_tick) × (jobs_tick < nodes_tick) × (nodes_tick < until)
    pub jobs_at : world.jobs_doc jobs_tick ≡ some jobs_doc
    pub nodes_at : world.nodes_doc nodes_tick ≡ some nodes_doc
    pub jobs_are : s.0 ≡ Cycle.eligible_at world o clock_tick jobs_doc
    pub nodes_are :
        s.1 ≡ nodes_for (discovered_nodes (parse_nodes o.mps_per_gpu nodes_doc) []) o.node_names

  -- The policy has ranked the job at the tick `ranking`, the state was read before and once more
  -- after, with no change of a job or a node, and the priority lies in the daemon's range.
  pub record IsRanked (o : CycleOptions) (jid : Text) (priority : ℕ) : Type 0 where
    pub before : State
    pub again : State
    pub order : List Text
    pub ranking : ℕ
    pub until : ℕ
    pub read_before : IsStateAt o 0 ranking before
    pub ranked_then :
        rank_pending
          (world.policy ranking)
          o.mps_per_gpu
          before.1
          true
          before.0
          (Cycle.free_of before.1 [])
        ≡ ranked order
    pub read_again : IsStateAt o (suc ranking) until again
    pub same_jobs : Pairwise SameJob before.0 again.0
    pub same_nodes : Pairwise SameNode before.1 again.1
    pub is_eligible : mem_text jid (ids again.0) ≡ true
    pub is_in_order : mem_text jid order ≡ true
    pub low : min_owned_priority ≤ priority
    pub high : priority ≤ release_base

  -- An eligible job gets back the priority that it was read with.
  abbrev pub IsRestored : CycleOptions → Text → ℕ → Type 0
  IsRestored o jid priority =
      (jobs : List SlurmJob) × IsRead o jobs
      × (lookup jid (Cycle.priorities_of jobs []) ≡ some priority)

  abbrev pub IsWrite : CycleOptions → Text → ℕ → Type 0
  IsWrite o jid priority =
      (o.shadow ≡ false)
      × (IsRanked o jid priority ⊎ (IsRestored o jid priority ⊎ IsReset jid priority))

  abbrev pub IsAllowed : CycleOptions → Call → Type 0
  IsAllowed o (set_priority jid priority) = IsWrite o jid priority
  IsAllowed o get_jobs = Unit
  IsAllowed o get_nodes = Unit
  IsAllowed o get_healthz = Unit

  module _ (o : CycleOptions) where
    abbrev pub Fine : {A : Type 0} → (A → Type 0) → Action A → Type 0
    Fine V m = Only (IsAllowed o) V m

    pub read_jobs-Fine : Fine IsAnswer (Cycle.read_jobs world)
    unfolding Cycle.read_jobs
    read_jobs-Fine = Only-request get_jobs world.jobs_doc tt (λ tick doc e. (tick, e))

    -- The priorities of an answer.
    abbrev IsPriorities : Dict Priority → Type 0
    IsPriorities pending =
        (doc : List JobItem) × IsAnswer doc × (pending ≡ pending_job_priorities doc [])

    read_priorities-Fine : Fine IsPriorities (Cycle.read_priorities world)
    unfolding Cycle.read_priorities
    read_priorities-Fine =
        Only-bind _ _ read_jobs-Fine (λ doc answer. Only-pure _ (doc, answer, refl))

    write_priority-Fine :
        (jid : Text) (priority : ℕ)
        → IsWrite o jid priority
        → Fine (Any {A = Unit {0}}) (Cycle.write_priority world jid priority)
    unfolding Cycle.write_priority
    write_priority-Fine jid priority w = Only-request _ _ w (λ tick u e. tt)

    pub any_raise :
        {B : Type 0} {W : B → Type 0} (test : Bool) (m : Action B)
        → Fine W m
        → Fine W (raise_if test >>= λ u. m)
    any_raise test m k = Only-bind _ _ (Only-raise_if test) (λ u e. k)

    pub members :
        (jids all : List Text)
        → ((j : Text) → mem_text j jids ≡ true → mem_text j all ≡ true)
        → All (λ j. mem_text j all ≡ true) jids
    unfolding mem_text
    members [] all h = tt
    members (j ∷ js) all h = (
      h j (rw (text_eq_self j) refl),
      members js all
          (λ k m. h k (elim (Bool-cases (text_eq k j)) [ inl e ↦ rw e refl | inr e ↦ rw e m ])),
    )

    verify_reset-Fine :
        (owned : List Text) → Fine (Any {A = List Text}) (Cycle.verify_reset world owned)
    verify_reset-Fine [] = Only-pure [] tt
    verify_reset-Fine (jid ∷ owned) =
        Only-bind _ _ read_priorities-Fine (λ pending p. any_raise _ _ (Only-pure _ tt))

    pub reset-Fine :
        o.shadow ≡ false → Fine (Any {A = List Text}) (Cycle.reset_owned_priorities world)
    unfolding Cycle.reset_owned_priorities
    reset-Fine live = Only-bind _ _ read_priorities-Fine λ pending (doc, answer, same).
        Only-bind _ _
          (Only-for_each _ _ (members _ _ (λ j m. m)) (λ jid owned.
            write_priority-Fine jid release_priority (
              live,
              inr (
                  inr (
                    doc,
                    answer,
                    refl,
                    subst (λ d. mem_text jid (Cycle.owned_ids world d) ≡ true) same owned,
                  )),
            )))
          (λ u v. verify_reset-Fine _)

    restore_one-Fine :
        (pending : Dict Priority) (jid : Text) (priority : ℕ)
        → IsWrite o jid priority
        → Fine (Any {A = Unit {0}}) (Cycle.restore_one world pending (jid, priority))
    unfolding Cycle.restore_one
    restore_one-Fine pending jid priority w =
        Only-if _ _ _ (λ e. write_priority-Fine jid priority w) (λ e. Only-pure tt tt)

    restore-Fine :
        (originals : Dict ℕ)
        → All (λ e. IsWrite o e.0 e.1) originals
        → Fine (Any {A = Unit {0}}) (Cycle.restore_cycle_priorities world originals)
    unfolding Cycle.restore_cycle_priorities
    restore-Fine [] h = Only-pure tt tt
    restore-Fine (e ∷ originals) h = Only-bind _ _ read_priorities-Fine λ pending p.
        Only-bind _ _
          (Only-for_each _ (e ∷ originals) h
            (λ (x : Text × ℕ) w. restore_one-Fine pending x.0 x.1 w))
          λ u v.
            Only-bind _ _ read_priorities-Fine
              λ verified q. Only-weaken (Only-raise_if _) (λ x y. tt)

    priorities_of-IsDistinct :
        (jobs : List SlurmJob) (d : Dict ℕ) → IsDistinct d → IsDistinct (Cycle.priorities_of jobs d)
    unfolding Cycle.priorities_of
    priorities_of-IsDistinct [] d h = h
    priorities_of-IsDistinct (job ∷ jobs) d h =
        priorities_of-IsDistinct jobs _ (insert-IsDistinct job.job_id job.priority d h)

    -- The priorities that the jobs were read with may be restored.
    originals-IsWrite :
        (jobs : List SlurmJob)
        → o.shadow ≡ false
        → IsRead o jobs
        → All (λ e. IsWrite o e.0 e.1) (Cycle.priorities_of jobs [])
    originals-IsWrite jobs live read =
        All-map_impl _ _ _ (λ e found. (live, inr (inl (jobs, read, found))))
          (entries-lookup (Cycle.priorities_of jobs []) (priorities_of-IsDistinct jobs [] tt))

    write_one-Fine :
        (deadline : Time) (current : Dict ℕ) (jid : Text) (priority : ℕ)
        → IsWrite o jid priority
        → Fine (Any {A = Unit {0}}) (Cycle.write_one world o deadline current (jid, priority))
    unfolding Cycle.write_one
    write_one-Fine deadline current jid priority w =
        Only-bind _ _ (Only-observe {V = Any} world.clock (λ tick. tt)) λ t v.
          any_raise _ _
            (Only-if _ _ _ (λ e. Only-pure tt tt) (λ e. write_priority-Fine jid priority w))

    pub write_order-Fine :
        (deadline : Time) (jobs : List SlurmJob) (order : List Text)
        → o.shadow ≡ false
        → IsRead o jobs
        → All (λ e. IsWrite o e.0 e.1) (priorities_from 0 order)
        → Fine (Any {A = List Text}) (Cycle.write_order world o deadline jobs order)
    unfolding Cycle.write_order Cycle.write_all
    write_order-Fine deadline jobs order live read writes =
        Only-bind _ _
          (Only-on_error _ _
            (Only-bind _ _
              (Only-for_each _ _ writes (λ (x : Text × ℕ) w. write_one-Fine deadline _ x.0 x.1 w))
              (λ u v.
                Only-bind _ _ read_priorities-Fine
                  (λ verified q. Only-weaken (Only-raise_if _) (λ x y. tt))))
            (Only-bind _ _ (Only-suppress _ (restore-Fine _ (originals-IsWrite jobs live read)))
              (λ u v. Only-suppress _ (reset-Fine live))))
          (λ u v. Only-pure order tt)
