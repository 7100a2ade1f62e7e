-- ===== src/Operator/ScaleActions/Reads.antt =====
-- operator/scale_actions.py: the parts of a scale-down that only read and force-kill. They leave the
-- books as they are and the replica counts alone.
use kelpflux.Base.{
  ℕ, ◌≡◌, false, Option, none, some, List, [], ◌∷◌, Text, Dict, lookup, mem_text, ◌==◌,
}
use kelpflux.Operator.Models.{Time}
use kelpflux.Operator.Effects.{Effect, is_patch, World, Books, ask, pure, get_node_cpu_alloc}
use kelpflux.Operator.Effects.Keeps.{Since, Keeps, Keeps-pure, Keeps-bind, Keeps-if, keeps_rules}
use kelpflux.Operator.ScaleActions.{
  force_kill, check_timeout, kill_timed_out, kill_overdue, all_idle,
}

module _ (old : List Effect) {Allowed : Effect → Type 0} (Fact : Books → Type 0)
    (quiet : (e : Effect) → is_patch e ≡ false → Allowed e) (world : World) where
  pub force_kill-quiet : (node : Text) → Keeps (Since old Allowed Fact) (force_kill world node)
  unfolding force_kill
  force_kill-quiet node = search (keeps_rules, quiet) depth 12

  check_timeout-quiet :
      (timeout now : Time) (node : Text) (started : Option Time)
      → Keeps (Since old Allowed Fact) (check_timeout world timeout now node started)
  unfolding check_timeout
  check_timeout-quiet timeout now node none = search keeps_rules
  check_timeout-quiet timeout now node (some t) =
      search (keeps_rules, quiet, force_kill-quiet) depth 12

  kill_timed_out-quiet :
      (timeout now : Time) (started : Dict Time) (nodes : List Text)
      → Keeps (Since old Allowed Fact) (kill_timed_out world timeout now started nodes)
  unfolding kill_timed_out
  kill_timed_out-quiet timeout now started [] = search keeps_rules
  kill_timed_out-quiet timeout now started (node ∷ rest) =
      Keeps-bind _ _ (check_timeout-quiet timeout now node (lookup node started)) λ first.
        Keeps-bind _ _ (kill_timed_out-quiet timeout now started rest) λ others. Keeps-pure _

  pub kill_overdue-quiet :
      (timeout : ℕ)
      → (now : Time) → (started : Dict Time) → (nodes : List Text)
      → Keeps (Since old Allowed Fact) (kill_overdue world timeout now started nodes)
  unfolding kill_overdue
  kill_overdue-quiet timeout now started nodes =
      search (keeps_rules, quiet, kill_timed_out-quiet) depth 12

  pub all_idle-quiet :
      (killed nodes : List Text) → Keeps (Since old Allowed Fact) (all_idle world killed nodes)
  unfolding all_idle
  all_idle-quiet killed [] = search keeps_rules
  all_idle-quiet killed (node ∷ rest) =
      Keeps-if (mem_text node killed) _ _ (λ _. all_idle-quiet killed rest)
        λ _.
          Keeps-bind (ask world (get_node_cpu_alloc node) (λ tick. world.cpu_alloc tick node)) _
            (search (keeps_rules, quiet))
            λ alloc.
              Keeps-if (alloc == 0) (all_idle world killed rest) (pure false)
                (λ _. all_idle-quiet killed rest) (λ _. Keeps-pure false)
