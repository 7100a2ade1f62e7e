-- ===== src/Sim/Cluster/Balance.antt =====
-- sim/cluster.py: the slots of one GPU over any sequence of allocations and releases.
use kelpflux.Base.{
  ℕ, ◌+◌, ◌-◌, ◌≡◌, refl, sym, ap, ◌∙◌, subst, Option, none, some, List, [], Text, Dict, lookup,
  IsDistinct, insert-IsDistinct, insert-All, insert-sum, erase-All, erase-IsDistinct, erase-sum,
  lookup-All, sum_by, All, arith,
}
use kelpflux.Sim.Cluster.{
  Job, Allocation, Cluster, commit, reserve_ram, hosts, change_nodes, release, release_plan,
}
use kelpflux.Sim.Cluster.Planner.{plan, plan_on, carry_out, try_allocate, try_allocate_on}
use kelpflux.Sim.Cluster.Placing.{IsPlan, plan-IsPlan, plan_on-IsPlan}
use kelpflux.Sim.Cluster.Requested.{plan_on-IsSpreadResult}
use kelpflux.Sim.Cluster.Undo.{IsSpread, takes, gives}
use kelpflux.Sim.Cluster.Roundtrip.{IsSpreadResult, plan-IsSpreadResult, allocs-IsHeld}
use kelpflux.Sim.Cluster.Cells.{
  cell, changed, held_by, held_by-le, cell-takes, cell-gives, cell-change_ram,
}

-- What a cluster can become by allocations, each for a job that is not active, and by releases of any
-- ids.
pub data Reach (start : Cluster) : Cluster → Type 0 where
  here : Reach start start
  allocated :
      (c : Cluster) (job : Job)
      → Reach start c
      → lookup job.job_id c.active ≡ none
      → Reach start (try_allocate c job).1
  allocated_on :
      (c : Cluster) (job : Job) (node_i gpu_i : ℕ)
      → Reach start c
      → lookup job.job_id c.active ≡ none
      → Reach start (try_allocate_on c job node_i gpu_i).1
  released : (c : Cluster) (job_id : Text) → Reach start c → Reach start (release job_id c)

-- The slots of GPU `g` of node `i` that the active jobs hold.
abbrev pub in_use : ℕ → ℕ → Cluster → ℕ
in_use i g c = sum_by (λ e. held_by i g e.1) c.active

module _ (i g capacity : ℕ) where
  -- The free slots and those in use are the capacity; the plans of the active jobs list no GPU twice.
  record IsBalanced (c : Cluster) : Type 0 where
    distinct : IsDistinct c.active
    spread : All (λ e. All (λ a. IsSpread a.gpu_indices) e.1) c.active
    free : ℕ
    at : cell i g c.nodes ≡ some free
    total : free + in_use i g c ≡ capacity

  carry_out-IsBalanced :
      (c : Cluster) (job : Job) (result : Option (List Allocation))
      → IsPlan c job result
      → IsSpreadResult result
      → lookup job.job_id c.active ≡ none
      → IsBalanced c
      → IsBalanced (carry_out c job result).1
  unfolding carry_out commit reserve_ram
  carry_out-IsBalanced c job none placed spread fresh b = b
  carry_out-IsBalanced c job (some plan) placed spread fresh b =
      let enough =
        held_by-le i g plan c.nodes b.free spread.1 (allocs-IsHeld c job plan placed.0 spread.0)
          b.at in
      record {
        distinct = insert-IsDistinct job.job_id plan c.active b.distinct;
        spread =
            insert-All (λ p. All (λ a. IsSpread a.gpu_indices) p) job.job_id plan c.active spread.0
              b.spread;
        free = b.free - held_by i g plan;
        at =
            cell-change_ram i g _ (hosts plan) (change_nodes takes plan c.nodes)
            ∙ (cell-takes i g plan c.nodes spread.0
                ∙ ap (changed (λ free. free - held_by i g plan)) b.at);
        total =
            omega (arith, enough, insert-sum (held_by i g) job.job_id plan c.active fresh, b.total);
      }

  release-IsBalanced :
      (job_id : Text) (found : Option (List Allocation)) (c : Cluster)
      → lookup job_id c.active ≡ found
      → IsBalanced c
      → IsBalanced (release_plan job_id found c)
  unfolding release_plan
  release-IsBalanced job_id none c e b = b
  release-IsBalanced job_id (some plan) c e b =
      let spread = lookup-All _ job_id plan c.active e b.spread in
      record {
        distinct = erase-IsDistinct job_id c.active b.distinct;
        spread = erase-All (λ p. All (λ a. IsSpread a.gpu_indices) p) job_id c.active b.spread;
        free = b.free + held_by i g plan;
        at =
            cell-change_ram i g _ (hosts plan) (change_nodes gives plan c.nodes)
            ∙ (cell-gives i g plan c.nodes spread
                ∙ ap (changed (λ free. free + held_by i g plan)) b.at);
        total = omega (arith, erase-sum (held_by i g) job_id plan c.active b.distinct e, b.total);
      }

  Reach-IsBalanced : (start c : Cluster) → IsBalanced start → Reach start c → IsBalanced c
  unfolding try_allocate try_allocate_on release
  Reach-IsBalanced start _ b here = b
  Reach-IsBalanced start _ b (allocated c job reach fresh) =
      carry_out-IsBalanced c job (plan c job) (plan-IsPlan c job) (plan-IsSpreadResult c job) fresh
        (Reach-IsBalanced start c b reach)
  Reach-IsBalanced start _ b (allocated_on c job node_i gpu_i reach fresh) =
      carry_out-IsBalanced c job (plan_on c job node_i gpu_i) (plan_on-IsPlan c job node_i gpu_i)
        (plan_on-IsSpreadResult c job node_i gpu_i) fresh (Reach-IsBalanced start c b reach)
  Reach-IsBalanced start _ b (released c job_id reach) =
      release-IsBalanced job_id (lookup job_id c.active) c refl (Reach-IsBalanced start c b reach)

-- From a cluster without active jobs, over any sequence of allocations by `try_allocate` or
-- `try_allocate_on`, each for a
-- job that is not active then, and of releases of any ids: on every GPU the free slots and those
-- that the active jobs hold are together the slots that were free at the start. So no GPU is
-- overcommitted, and none of its slots is lost.
pub Reach-slots :
    (start c : Cluster) (i g capacity : ℕ)
    → start.active ≡ []
    → cell i g start.nodes ≡ some capacity
    → Reach start c
    → (free : ℕ) × (cell i g c.nodes ≡ some free) × (free + in_use i g c ≡ capacity)
Reach-slots start c i g capacity idle at reach =
    let b =
      Reach-IsBalanced i g capacity start c
        (record {
          distinct = subst (λ (d : Dict (List Allocation)). IsDistinct d) (sym idle) tt;
          spread =
              subst
                (λ (d : Dict (List Allocation)). All (λ e. All (λ a. IsSpread a.gpu_indices) e.1) d)
                (sym idle) tt;
          free = capacity;
          at = at;
          total =
              omega
                (arith, ap (λ (d : Dict (List Allocation)). sum_by (λ e. held_by i g e.1) d) idle);
        })
        reach in
    (b.free, b.at, b.total)
