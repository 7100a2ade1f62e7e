-- ===== src/Operator/ScaleActions/Safety.antt =====
-- operator/scale_actions.py, _do_scale_down: a scale-down never takes a node that has work, unless
-- its drain has timed out.
use kelpflux.Base.{
  ℕ, ◌+◌, ◌<◌, ◌≡◌, refl, sym, subst, ◌⊎◌, inl, inr, true, Option, none, some, List, [], ◌∷◌, Text,
  text_eq, text_eq_iff, mem_text, All, All-append, All-split, All-map_impl, filter, lookup, Dict,
  ltb, Bool-cases, arith, ltb→lt,
}
use kelpflux.Operator.Models.{Time, seconds, PartitionConfig}
use kelpflux.Operator.Effects.{get_node_cpu_alloc, World, App, Action, after_effect, ok, ◌>>=◌}
use kelpflux.Operator.Effects.Keeps.{Leads}
use kelpflux.Operator.Effects.Answers.{Gives, Gives-bind, Gives-pure}
use kelpflux.Operator.ScaleActions.{
  difference, union, force_kill, check_timeout, kill_timed_out, kill_overdue, all_idle,
}

-- The node was seen with no CPU allocated, or it has been draining for longer than the timeout.
abbrev pub MayGo : World → PartitionConfig → Dict Time → Text → Type 0
MayGo world cfg started node =
    ((tick : ℕ) × (world.cpu_alloc tick node ≡ 0))
    ⊎ ((tick : ℕ) × (t : Time) × (0 < cfg.drain_timeout_seconds)
        × (lookup node started ≡ some t)
        × (t + seconds cfg.drain_timeout_seconds < world.clock tick))

module _ (world : World) where
  idle_step :
      (killed rest : List Text) (n : Text) (app : App)
      → (all_idle world killed (n ∷ rest) app).0 ≡ ok true
      → ((mem_text n killed ≡ true) × ((all_idle world killed rest app).0 ≡ ok true))
        ⊎ ((world.cpu_alloc app.ticks n ≡ 0)
            × ((all_idle world killed rest (after_effect (get_node_cpu_alloc n) app)).0 ≡ ok true))
  unfolding all_idle ◌>>=◌
  idle_step killed rest n app e = ground arith

  abbrev pub KilledOrIdle : List Text → Text → Type 0
  KilledOrIdle killed n = (mem_text n killed ≡ true) ⊎ ((tick : ℕ) × (world.cpu_alloc tick n ≡ 0))

  pub idle_seen :
      (killed nodes : List Text) (app : App)
      → (all_idle world killed nodes app).0 ≡ ok true
      → All (KilledOrIdle killed) nodes
  idle_seen killed [] app e = tt
  idle_seen killed (n ∷ rest) app e = elim (idle_step killed rest n app e) [
    | inl (gone, later) ↦ (inl gone, idle_seen killed rest app later)
    | inr (idle, later) ↦ (
      inr (app.ticks, idle),
      idle_seen killed rest (after_effect (get_node_cpu_alloc n) app) later,
    )
  ]

  -- The force-killed nodes have a recorded start, and their time is over.
  abbrev pub IsOverdue : Time → Time → Dict Time → Text → Type 0
  IsOverdue timeout now started n = (t : Time) × (lookup n started ≡ some t) × (t + timeout < now)

  check_timeout_cases :
      (timeout now : Time) (n : Text) (t : Time) (app : App) (killed : List Text)
      → (check_timeout world timeout now n (some t) app).0 ≡ ok killed
      → (killed ≡ []) ⊎ ((killed ≡ n ∷ []) × (t + timeout < now))
  unfolding check_timeout force_kill ◌>>=◌
  check_timeout_cases timeout now n t app killed r = ground arith

  check_timeout-IsOverdue :
      (timeout now : Time) (started : Dict Time) (n : Text) (o : Option Time)
      → lookup n started ≡ o
      → Gives
          (λ app. Unit)
          (All (IsOverdue timeout now started))
          (check_timeout world timeout now n o)
  unfolding check_timeout
  check_timeout-IsOverdue timeout now started n none e = Gives-pure [] tt
  check_timeout-IsOverdue timeout now started n (some t) e = record {
    at = λ app h a r. elim (check_timeout_cases timeout now n t app a r) [
      | inl empty ↦ rw empty tt
      | inr (one, late) ↦ rw one ((t, e, late), tt)
    ];
  }

  pub anything : {A : Type 0} (m : Action A) → Leads (λ app. Unit) (λ app. Unit) m
  anything m = record { at = λ app h. tt }

  kill_timed_out-IsOverdue :
      (timeout now : Time) (started : Dict Time) (nodes : List Text)
      → Gives
          (λ app. Unit)
          (All (IsOverdue timeout now started))
          (kill_timed_out world timeout now started nodes)
  unfolding kill_timed_out
  kill_timed_out-IsOverdue timeout now started [] = Gives-pure [] tt
  kill_timed_out-IsOverdue timeout now started (n ∷ rest) =
      Gives-bind _ _ (All (IsOverdue timeout now started))
        (check_timeout-IsOverdue timeout now started n (lookup n started) refl) (anything _)
        λ first h.
          Gives-bind _ _ (All (IsOverdue timeout now started))
            (kill_timed_out-IsOverdue timeout now started rest) (anything _)
            λ others k. Gives-pure _ (All-append _ first others h k)

  abbrev pub Overdue : PartitionConfig → Time → Dict Time → Text → Type 0
  Overdue cfg now started n =
      (0 < cfg.drain_timeout_seconds) × IsOverdue (seconds cfg.drain_timeout_seconds) now started n

  pub kill_overdue-Overdue :
      (cfg : PartitionConfig) (now : Time) (started : Dict Time) (nodes : List Text)
      → Gives
          (λ app. Unit)
          (All (Overdue cfg now started))
          (kill_overdue world cfg.drain_timeout_seconds now started nodes)
  unfolding kill_overdue
  kill_overdue-Overdue cfg now started nodes = elim (Bool-cases (ltb 0 cfg.drain_timeout_seconds)) [
    | inl on ↦ rw on record {
      at = λ app h killed e.
          All-map_impl _ _ killed (λ n o. (ltb→lt _ _ on, o))
            ((kill_timed_out-IsOverdue (seconds cfg.drain_timeout_seconds) now started nodes).at app
              h killed e);
    }
    | inr off ↦ rw off (Gives-pure [] tt)
  ]

pub member_All :
    (V : Text → Type 0) (n : Text) (xs : List Text) → All V xs → mem_text n xs ≡ true → V n
unfolding mem_text
member_All V n [] h e = absurd (cc)
member_All V n (x ∷ xs) h e = elim (Bool-cases (text_eq n x)) [
  | inl same ↦ subst V (sym ((text_eq_iff n x).0 same)) h.0
  | inr other ↦ member_All V n xs h.1 (ground arith)
]

difference-All :
    (V : Text → Type 0) (d ns : List Text)
    → All V d
    → All V (difference (difference ns d) d)
    → All V ns
unfolding difference
difference-All V d [] h k = tt
difference-All V d (n ∷ ns) h k = elim (Bool-cases (mem_text n d)) [
  | inl old ↦ (member_All V n d h old, difference-All V d ns h (rw old at k))
  | inr new ↦
      let k' : All V (n ∷ difference (difference ns d) d) = rw (new, filter, new) at k in
      (k'.0, difference-All V d ns h k'.1)
]

pub union-All :
    (V : Text → Type 0) (d ns : List Text) → All V (union d (difference ns d)) → All V d × All V ns
unfolding union
union-All V d ns h =
    let (hd, hn) = All-split V d (difference (difference ns d) d) h in
    (hd, difference-All V d ns hd hn)
