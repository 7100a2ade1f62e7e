-- ===== src/Scheduler/Reorder/Writes.antt =====
-- services/rl_scheduler/reorder_daemon.py: every priority that a cycle writes is one of three kinds,
-- whatever Slurm and the policy answer and wherever a request raises.
use kelpflux.Base.{
  ℕ, suc, ◌≤◌, ◌<◌, ◌≡◌, refl, subst, inl, true, false, Option, some, List, [], ◌∷◌, Text, mem_text,
  length, All, All-both, All-map_impl, arith,
}
use kelpflux.Operator.Models.{Time}
use kelpflux.Scheduler.Placement.{SlurmJob}
use kelpflux.Scheduler.Calls.{get_jobs, get_nodes, get_healthz, Action}
use kelpflux.Scheduler.Calls.Only.{
  Any, Only-pure, Only-request, Only-observe, Only-if, Only-raise_if,
}
use kelpflux.Scheduler.Calls.Timed.{
  Timed, Anytime, Timed-lift, Timed-pure, Timed-raise_error, Timed-request, Timed-observe,
  Timed-bind, Timed-raise_if,
}
use kelpflux.Scheduler.Reorder.{max_pending_jobs, same_job, same_node, all_same, priorities_from}
use kelpflux.Scheduler.Reorder.Ranking.{Ranked, ranked, failed, ids, rank_pending}
use kelpflux.Scheduler.Reorder.Cycle
use kelpflux.Scheduler.Reorder.Cycle.{CycleWorld, CycleOptions, State, reorder_cycle}
use kelpflux.Scheduler.Reorder.Orders.{
  order_of_jobs, priorities_from-All, all_same-ids, all_same-jobs, all_same-nodes,
}
use kelpflux.Scheduler.Reorder.Requests.{IsStateAt, IsWrite, IsAllowed, members, write_order-Fine}

module _ (world : CycleWorld) (o : CycleOptions) where
  abbrev TimedFine : {A : Type 0} → ℕ → (ℕ → A → Type 0) → Action A → Type 0
  TimedFine from V m = Timed (IsAllowed world o) from V m

  IsStateAt-widen :
      (from earlier until later : ℕ) (s : State)
      → earlier ≤ from
      → until ≤ later
      → IsStateAt world o from until s
      → IsStateAt world o earlier later s
  IsStateAt-widen from earlier until later s first last h = record {
    jobs_tick = h.jobs_tick;
    nodes_tick = h.nodes_tick;
    clock_tick = h.clock_tick;
    jobs_doc = h.jobs_doc;
    nodes_doc = h.nodes_doc;
    in_order = (omega (arith, h.in_order), h.in_order.1, omega (arith, h.in_order));
    jobs_at = h.jobs_at;
    nodes_at = h.nodes_at;
    jobs_are = h.jobs_are;
    nodes_are = h.nodes_are;
  }

  -- An answer that came at a tick from `from` on and before `until`.
  IsAnsweredAt : {A : Type 0} → (ℕ → Option A) → ℕ → ℕ → A → Type 0
  IsAnsweredAt answer from until a =
      (tick : ℕ) × (from ≤ tick) × (tick < until) × (answer tick ≡ some a)

  read_state-Timed :
      (from : ℕ) → TimedFine from (λ n s. IsStateAt world o from n s) (Cycle.read_state world o)
  unfolding Cycle.read_state Cycle.read_jobs IsAnsweredAt
  read_state-Timed from =
      Timed-bind from {V = IsAnsweredAt world.jobs_doc from} _ _
        (Timed-request from get_jobs world.jobs_doc tt
          (λ tick doc late at. (tick, late, omega arith, at)))
        λ n jobs_doc late (t, after, before, jobs_at).
          Timed-bind n {V = IsAnsweredAt world.nodes_doc n} _ _
            (Timed-request n get_nodes world.nodes_doc tt
              (λ tick doc later at. (tick, later, omega arith, at)))
            λ k nodes_doc later (u, not_before, under, nodes_at).
              Timed-bind k {V = λ l jobs. (c : ℕ) × (jobs ≡ Cycle.eligible_at world o c jobs_doc)} _
                _
                (Timed-observe k (λ tick. Cycle.eligible_at world o tick jobs_doc)
                  (λ tick h. (tick, refl)))
                λ l jobs last (c, same). Timed-pure l _ λ e tail. record {
                  jobs_tick = t;
                  nodes_tick = u;
                  clock_tick = c;
                  jobs_doc = jobs_doc;
                  nodes_doc = nodes_doc;
                  in_order = (after, omega arith, omega arith);
                  jobs_at = jobs_at;
                  nodes_at = nodes_at;
                  jobs_are = same;
                  nodes_are = refl;
                }

  -- An order of ids of the jobs, at most as many.
  abbrev IsOrderOf : List SlurmJob → List Text → Type 0
  IsOrderOf jobs order =
      All (λ jid. mem_text jid (ids jobs) ≡ true) order × (length order ≤ length jobs)

  -- The policy has ranked the jobs at a tick from `from` on and before `until`.
  abbrev IsRankedAt : ℕ → ℕ → State → List Text → Type 0
  IsRankedAt from until s order =
      IsOrderOf s.0 order
      × ((ranking : ℕ) × (from ≤ ranking)
          × (ranking < until)
          × (rank_pending (world.policy ranking) o.mps_per_gpu s.1 true s.0 (Cycle.free_of s.1 [])
              ≡ ranked order))

  order_or_raise-Timed :
      (from until : ℕ) (s : State) (r : Ranked)
      → ((order : List Text) → r ≡ ranked order → IsRankedAt from until s order)
      → TimedFine until (λ n order. IsRankedAt from n s order) (Cycle.order_or_raise world o r)
  order_or_raise-Timed from until s (ranked order) h =
      let (known, (ranking, after, before, e)) = h order refl in
      Timed-pure until order (λ n late. (known, (ranking, after, omega arith, e)))
  order_or_raise-Timed from until s (failed why) h = Timed-raise_error until

  rank_state-Timed :
      (from : ℕ) (s : State)
      → TimedFine from (λ n order. IsRankedAt from n s order) (Cycle.rank_state world o s)
  unfolding Cycle.rank_state
  rank_state-Timed from (jobs, nodes) =
      Timed-bind from
        {V = λ n r. (order : List Text) → r ≡ ranked order → IsRankedAt from n (jobs, nodes) order}
        _ _
        (Timed-observe from _ λ tick late order e. (
          order_of_jobs (world.policy tick) o.mps_per_gpu nodes true jobs _ order e,
          (tick, late, omega arith, e),
        ))
        (λ n r late h. order_or_raise-Timed from n (jobs, nodes) r h)

  -- What a read of the state, a ranking and a second read allow to be written.
  ranked-IsWrite :
      (s current : State) (until : ℕ) (order : List Text)
      → o.shadow ≡ false
      → ((ranking : ℕ) × IsStateAt world o 0 ranking s
          × (rank_pending (world.policy ranking) o.mps_per_gpu s.1 true s.0 (Cycle.free_of s.1 [])
              ≡ ranked order)
          × IsStateAt world o (suc ranking) until current)
      → all_same same_job s.0 current.0 ≡ true
      → all_same same_node s.1 current.1 ≡ true
      → IsOrderOf s.0 order
      → length s.0 ≤ max_pending_jobs
      → All (λ e. IsWrite world o e.0 e.1) (priorities_from 0 order)
  ranked-IsWrite s current until order live (ranking, first, policy, second) jobs nodes h few =
      All-map_impl _ _ _
        (λ e ((m, placed), low, high). (
          live,
          inl (record {
            before = s;
            again = current;
            order = order;
            ranking = ranking;
            until = until;
            read_before = first;
            ranked_then = policy;
            read_again = second;
            same_jobs = all_same-jobs s.0 current.0 jobs;
            same_nodes = all_same-nodes s.1 current.1 nodes;
            is_eligible = subst (λ l. mem_text e.0 l ≡ true) (all_same-ids s.0 current.0 jobs) m;
            is_in_order = placed;
            low = low;
            high = high;
          }),
        ))
        (priorities_from-All _ 0 order
          (All-both _ _ order h.0 (members world o order order (λ j m. m)))
          (omega (arith, h.1, few)))

  rank_and_write-Timed :
      (from : ℕ) (deadline : Time) (s : State)
      → o.max_jobs ≤ max_pending_jobs
      → IsStateAt world o 0 from s
      → TimedFine from (Anytime (Any {A = List Text})) (Cycle.rank_and_write world o deadline s)
  unfolding Cycle.rank_and_write Cycle.same_state
  rank_and_write-Timed from deadline s cap first =
      Timed-bind from _ _ (Timed-lift from (Only-raise_if _)) λ a u late few.
        Timed-bind a _ _
          (Timed-lift a (Only-request {V = Any} get_healthz world.healthz tt (λ tick x e. tt)))
          λ b health later v. Timed-raise_if b _ _ λ c after_health.
            Timed-bind c _ _ (rank_state-Timed c s) λ d order ended (h, (ranking, from_c, to_d, e)).
              Timed-bind d _ _ (Timed-lift d (Only-observe {V = Any} world.clock (λ tick. tt)))
                λ e' t next v. Timed-raise_if e' _ _ λ f after_clock.
                  Timed-bind f _ _ (read_state-Timed f) λ g current read second.
                    Timed-bind g _ _ (Timed-lift g (Only-raise_if _)) λ i u end same. Timed-lift i (
                      Only-if _ _ _ (λ is_shadow. Only-pure order tt)
                        λ live.
                          write_order-Fine world o deadline current.0 order live
                            (
                              second.jobs_doc,
                              second.clock_tick,
                              (second.jobs_tick, second.jobs_at),
                              second.jobs_are,
                            )
                            (ranked-IsWrite s current g order live
                              (
                                ranking,
                                IsStateAt-widen 0 0 from ranking s (omega arith) (omega arith)
                                    first,
                                e,
                                IsStateAt-widen f (suc ranking) g g current (omega arith)
                                    (omega arith) second,
                              )
                              (ground (arith, same)) (ground (arith, same)) h
                              (ground (arith, few, cap))))

  unless_empty-Timed :
      (from : ℕ) (deadline : Time) (s : State)
      → o.max_jobs ≤ max_pending_jobs
      → IsStateAt world o 0 from s
      → TimedFine from (Anytime (Any {A = List Text})) (Cycle.unless_empty world o deadline s)
  unless_empty-Timed from deadline ([], nodes) cap read = Timed-lift from (Only-pure [] tt)
  unless_empty-Timed from deadline (job ∷ jobs, nodes) cap read =
      rank_and_write-Timed from deadline (job ∷ jobs, nodes) cap read

  reorder_cycle-Timed : TimedFine 0 (Anytime (Any {A = List Text})) (reorder_cycle world o)
  unfolding reorder_cycle
  reorder_cycle-Timed = Timed-bind 0 _ _ (Timed-lift 0 (Only-raise_if _)) λ a u late cap.
      Timed-bind a _ _ (Timed-lift a (Only-observe {V = Any} world.clock (λ tick. tt)))
        λ b t later v. Timed-bind b _ _ (read_state-Timed b) λ c s ended read.
          unless_empty-Timed c _ s (ground (arith, cap))
            (IsStateAt-widen b 0 c c s (omega arith) (omega arith) read)

  -- Whatever Slurm and the policy answer, and wherever a request raises, a cycle in shadow mode writes
  -- no priority, and any other cycle only these: a priority of the daemon's range for a job that the
  -- policy has ranked, on a state that Slurm answered before the ranking and, in later answers to new
  -- requests, once more after it, with the same jobs and nodes; for an eligible job the priority that
  -- it was read with; and Slurm's own for a pending job that was seen with a priority of the daemon's
  -- range.
  pub reorder_cycle-IsAllowed :
      (start : ℕ)
      → All
          (IsAllowed world o)
          (reorder_cycle world o (record { trace = []; ticks = start })).1.trace
  reorder_cycle-IsAllowed start =
      reorder_cycle-Timed.trace (record { trace = []; ticks = start }) (omega arith) tt
