-- ===== src/Scheduler/Reorder/Orders.antt =====
-- services/rl_scheduler/reorder_daemon.py: what the ids and the priorities of an order are.
use kelpflux.Base.{
  not, false, ==_iff, if◌then◌else◌, ℕ, suc, ◌+◌, ◌≤◌, ◌≡◌, refl, sym, ap, subst, ◌∙◌, inl, inr,
  Bool, true, List, [], ◌∷◌, ◌++◌, Mem, Perm, Text, text_eq, text_eq_iff, text_eq_self, mem_text,
  length, All, All-Mem, All-map, All-map_impl, Bool-cases, Dict, insert, arith,
}
use mathlib.Core.Bool.{Bool-set}
use mathlib.Core.Logic.Or
use mathlib.Core.List.{not-mem-nil, mem-cons, foldr}
use mathlib.Core.List.Perm
use native.Mathlib.Nat.{ℕ_set}
use kelpflux.Scheduler.Placement.{SlurmJob, SlurmNode}
use kelpflux.Scheduler.Reorder.{
  release_base, max_pending_jobs, min_owned_priority, same_job, same_node, all_same,
  priorities_from,
}
use kelpflux.Scheduler.Reorder.Ranking.{RankWorld, ranked, values, jobs_by_id, ids, rank_pending}
use kelpflux.Scheduler.Reorder.Dispatch.{placed_jobs, rank_pending-IsDispatch}

length-foldr : (xs : List SlurmJob) → length xs ≡ foldr (λ x n. suc n) 0 xs
length-foldr [] = refl
length-foldr (x ∷ xs) = ap suc (length-foldr xs)

length-perm : (xs ys : List SlurmJob) → Perm xs ys → length xs ≡ length ys
length-perm xs ys h =
    length-foldr xs ∙ Perm.foldr-eq ℕ_set (λ x n. suc n) (λ x y n. refl) h 0 ∙ sym (length-foldr ys)

-- A test that holds of all elements holds of a member.
mem-test :
    (test : SlurmJob → Bool) (job : SlurmJob) (jobs : List SlurmJob)
    → All (λ j. test j ≡ true) jobs
    → Mem job jobs
    → test job ≡ true
mem-test test job [] h m = absurd (not-mem-nil m)
mem-test test job (j ∷ js) h m =
    Or.elim (Bool-set _ _) (mem-cons.0 m) (λ e. subst (λ k. test k ≡ true) (sym e) h.0)
      (mem-test test job js h.1)

length-insert-le :
    (job : SlurmJob) (d : Dict SlurmJob) → length (insert job.job_id job d) ≤ suc (length d)
unfolding insert
length-insert-le job [] = omega arith
length-insert-le job ((jid, other) ∷ d) = elim (Bool-cases (text_eq jid job.job_id)) [
  | inl e ↦ rw e (omega arith)
  | inr e ↦ rw e (omega (arith, length-insert-le job d))
]

length-jobs_by_id-le :
    (jobs : List SlurmJob) (d : Dict SlurmJob) → length (jobs_by_id jobs d) ≤ length jobs + length d
unfolding jobs_by_id
length-jobs_by_id-le [] d = omega arith
length-jobs_by_id-le (job ∷ jobs) d =
    omega (arith, length-insert-le job d, length-jobs_by_id-le jobs (insert job.job_id job d))

length-values : (d : Dict SlurmJob) → length (values d) ≡ length d
length-values [] = refl
length-values (e ∷ d) = ap suc (length-values d)

insert-All :
    (P : SlurmJob → Type 0) (job : SlurmJob) (d : Dict SlurmJob)
    → P job
    → All P (values d)
    → All P (values (insert job.job_id job d))
unfolding insert
insert-All P job [] p h = (p, tt)
insert-All P job ((jid, other) ∷ d) p h = elim (Bool-cases (text_eq jid job.job_id)) [
  | inl e ↦ rw e (p, h.1)
  | inr e ↦ rw e (h.0, insert-All P job d p h.1)
]

jobs_by_id-All :
    (P : SlurmJob → Type 0) (jobs : List SlurmJob) (d : Dict SlurmJob)
    → All P jobs
    → All P (values d)
    → All P (values (jobs_by_id jobs d))
unfolding jobs_by_id
jobs_by_id-All P [] d h k = k
jobs_by_id-All P (job ∷ jobs) d h k = jobs_by_id-All P jobs _ h.1 (insert-All P job d h.0 k)

ids-All :
    (jobs : List SlurmJob) (all : List Text)
    → ((jid : Text) → mem_text jid (ids jobs) ≡ true → mem_text jid all ≡ true)
    → All (λ j. mem_text j.job_id all ≡ true) jobs
unfolding mem_text
ids-All [] all h = tt
ids-All (job ∷ jobs) all h = (
  h job.job_id (rw (text_eq_self job.job_id) refl),
  ids-All jobs all (λ jid m.
      h jid (elim (Bool-cases (text_eq jid job.job_id)) [ inl e ↦ rw e refl | inr e ↦ rw e m ])),
)

length-ids : (jobs : List SlurmJob) → length (ids jobs) ≡ length jobs
length-ids [] = refl
length-ids (job ∷ jobs) = ap suc (length-ids jobs)

-- An order of rank_pending has ids of the given jobs, and no more of them than there are jobs.
pub order_of_jobs :
    (world : RankWorld) (mps : ℕ) (nodes : List SlurmNode) (strict : Bool) (jobs : List SlurmJob)
    (free : Dict ℕ) (order : List Text)
    → rank_pending world mps nodes strict jobs free ≡ ranked order
    → All (λ jid. mem_text jid (ids jobs) ≡ true) order × (length order ≤ length jobs)
order_of_jobs world mps nodes strict jobs free order e =
    let d = rank_pending-IsDispatch world mps nodes strict jobs free order e in
    let known : All (λ j. mem_text j.job_id (ids jobs) ≡ true) (values (jobs_by_id jobs [])) =
      jobs_by_id-All _ jobs [] (ids-All jobs (ids jobs) (λ jid m. m)) tt in
    let whole : List SlurmJob = placed_jobs d.placed ++ d.left in
    let members : All (λ j. mem_text j.job_id (ids jobs) ≡ true) whole =
      All-map_impl _ _ whole
        (λ j m.
          mem-test (λ k. mem_text k.job_id (ids jobs)) j _ known ((Perm.mem_iff d.everyone).0 m))
        (All-Mem whole) in
    (
      subst (All (λ jid. mem_text jid (ids jobs) ≡ true)) (sym d.in_order)
          (All-map _ _ whole members),
      omega (
        arith,
        ap length d.in_order,
        length-ids whole,
        length-perm whole (values (jobs_by_id jobs [])) d.everyone,
        length-values (jobs_by_id jobs []),
        length-jobs_by_id-le jobs [],
      ),
    )

-- The priorities of an order of at most as many jobs as the daemon takes on lie in its range.
pub priorities_from-All :
    (P : Text → Type 0) (i : ℕ) (order : List Text)
    → All P order
    → i + length order ≤ max_pending_jobs
    → All (λ e. P e.0 × (min_owned_priority ≤ e.1) × (e.1 ≤ release_base)) (priorities_from i order)
unfolding priorities_from
priorities_from-All P i [] h room = tt
priorities_from-All P i (jid ∷ order) h room =
    ((h.0, omega arith, omega arith), priorities_from-All P (suc i) order h.1 (omega arith))

pub all_same-ids :
    (jobs later : List SlurmJob) → all_same same_job jobs later ≡ true → ids jobs ≡ ids later
unfolding all_same same_job
all_same-ids [] [] e = refl
all_same-ids [] (k ∷ ks) e = absurd (cc)
all_same-ids (j ∷ js) [] e = absurd (cc)
all_same-ids (j ∷ js) (k ∷ ks) e =
    let first : text_eq j.job_id k.job_id ≡ true = ground (arith, e) in
    let others : all_same same_job js ks ≡ true = ground (arith, e) in
    let same : j.job_id ≡ k.job_id = (text_eq_iff _ _).0 first in
    let rest : ids js ≡ ids ks = all_same-ids js ks others in cc

-- The lists have the same length, and the relation holds between the entries at each place.
abbrev pub Pairwise : {A : Type 0} → (A → A → Type 0) → List A → List A → Type 0
Pairwise R [] [] = Unit
Pairwise R (x ∷ xs) (y ∷ ys) = R x y × Pairwise R xs ys
Pairwise R _ _ = ⊥

all_same-Pairwise :
    {A : Type 0} (R : A → A → Type 0) (same : A → A → Bool)
    → ((a b : A) → same a b ≡ true → R a b)
    → (xs ys : List A) → all_same same xs ys ≡ true
    → Pairwise R xs ys
unfolding all_same
all_same-Pairwise R same h [] [] e = tt
all_same-Pairwise R same h [] (y ∷ ys) e = absurd (cc)
all_same-Pairwise R same h (x ∷ xs) [] e = absurd (cc)
all_same-Pairwise R same h (x ∷ xs) (y ∷ ys) e =
    (h x y (ground (arith, e)), all_same-Pairwise R same h xs ys (ground (arith, e)))

-- What a cycle compares of a job and of a node.
pub record SameJob (a b : SlurmJob) : Type 0 where
  pub job_id : a.job_id ≡ b.job_id
  pub mps_req : a.mps_req ≡ b.mps_req
  pub gpu_count : a.gpu_count ≡ b.gpu_count
  pub partition : a.partition ≡ b.partition
  pub required_nodes : a.required_nodes ≡ b.required_nodes
  pub submit_ts : a.submit_ts ≡ b.submit_ts
  pub priority : a.priority ≡ b.priority

pub record SameNode (a b : SlurmNode) : Type 0 where
  pub name : a.name ≡ b.name
  pub gpu_type : a.gpu_type ≡ b.gpu_type
  pub free_mps : a.free_mps ≡ b.free_mps
  pub available : a.available ≡ b.available

both_or_neither : (a b : Bool) → (if a then b else not b) ≡ true → a ≡ b
both_or_neither true b h = cc
both_or_neither false b h = ground (arith, h)

pub all_same-jobs :
    (jobs later : List SlurmJob) → all_same same_job jobs later ≡ true → Pairwise SameJob jobs later
unfolding same_job
all_same-jobs = all_same-Pairwise SameJob same_job λ a b h. record {
  job_id = (text_eq_iff _ _).0 (ground (arith, h));
  mps_req = (==_iff _ _).0 (ground (arith, h));
  gpu_count = (==_iff _ _).0 (ground (arith, h));
  partition = (text_eq_iff _ _).0 (ground (arith, h));
  required_nodes = (text_eq_iff _ _).0 (ground (arith, h));
  submit_ts = (==_iff _ _).0 (ground (arith, h));
  priority = (==_iff _ _).0 (ground (arith, h));
}

pub all_same-nodes :
    (nodes later : List SlurmNode)
    → all_same same_node nodes later ≡ true
    → Pairwise SameNode nodes later
unfolding same_node
all_same-nodes = all_same-Pairwise SameNode same_node λ a b h. record {
  name = (text_eq_iff _ _).0 (ground (arith, h));
  gpu_type = (text_eq_iff _ _).0 (ground (arith, h));
  free_mps = (==_iff _ _).0 (ground (arith, h));
  available = both_or_neither a.available b.available (ground (arith, h));
}
