-- ===== src/Sim/Runner/Heap.antt =====
-- sim/runner.py, run: what is taken from the heap, and what is left when a job leaves the pending list.
use kelpflux.Base.{
  ◌≤◌, ◌≡◌, subst, inl, inr, true, false, List, [], ◌∷◌, sum_by, All, Bool-cases, arith,
}
use kelpflux.Sim.Latency.{TraceJob}
use kelpflux.Sim.Runner.{Event, before, earlier, other, heappop, job_eq, remove}
use kelpflux.Sim.Runner.Weights.{is_job, job_eq→≡}

module _ (P : TraceJob → Type 0) where
  pub remove-All : (j : TraceJob) (xs : List TraceJob) → All P xs → All P (remove j xs)
  unfolding remove
  remove-All j [] h = tt
  remove-All j (x ∷ xs) h = elim (Bool-cases (job_eq x j)) [
    | inl e ↦ rw e h.1
    | inr e ↦ rw e (h.0, remove-All j xs h.1)
  ]

  -- What holds of all jobs holds of one that stands among them.
  pub found-All : (j : TraceJob) (xs : List TraceJob) → 1 ≤ sum_by (is_job j) xs → All P xs → P j
  found-All j [] n h = absurd (omega (arith, n))
  found-All j (x ∷ xs) n h = elim (Bool-cases (job_eq x j)) [
    | inl e ↦ subst P (job_eq→≡ x j e) h.0
    | inr e ↦ found-All j xs (omega (arith, (rw e at n))) h.1
  ]

earlier-other_all : (P : Event → Type 0) (d e : Event) → P d → P e → P (earlier d e) × P (other d e)
unfolding earlier other
earlier-other_all P d e p q = elim (Bool-cases (before d e)) [
  | inl b ↦ rw b (p, q)
  | inr b ↦ rw b (q, p)
]

pub heappop-All :
    (P : Event → Type 0) (best : Event) (es : List Event)
    → P best
    → All P es
    → P (heappop best es).0 × All P (heappop best es).1
unfolding heappop
heappop-All P best [] p h = (p, tt)
heappop-All P best (e ∷ es) p h =
    let two = earlier-other_all P e best h.0 p in
    let later = heappop-All P (earlier e best) es two.0 h.1 in (later.0, (two.1, later.1))

before→le : (d e : Event) → before d e ≡ true → d.t ≤ e.t
unfolding before
before→le d e h = ground (arith, h)

not_before→le : (d e : Event) → before d e ≡ false → e.t ≤ d.t
unfolding before
not_before→le d e h = ground (arith, h)

earlier_first : (d e : Event) → ((earlier d e).t ≤ e.t) × ((earlier d e).t ≤ (other d e).t)
unfolding earlier other
earlier_first d e = elim (Bool-cases (before d e)) [
  | inl b ↦ rw b (before→le d e b, before→le d e b)
  | inr b ↦ rw b (omega arith, not_before→le d e b)
]

-- heappop takes an event that no other is earlier than.
pub heappop-first :
    (best : Event) (es : List Event)
    → ((heappop best es).0.t ≤ best.t) × All (λ e. (heappop best es).0.t ≤ e.t) (heappop best es).1
unfolding heappop
heappop-first best [] = (omega arith, tt)
heappop-first best (e ∷ es) =
    let two = earlier_first e best in
    let later = heappop-first (earlier e best) es in
    (omega (arith, later.0, two.0), (omega (arith, later.0, two.1), later.1))
