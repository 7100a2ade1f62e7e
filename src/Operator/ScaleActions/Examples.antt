-- ===== src/Operator/ScaleActions/Examples.antt =====
-- operator/scale_actions.py: the theorems on scale-downs of the sample pool.
use kelpflux.Base.{◌≡◌, true, []}
use kelpflux.Operator.Models.{seconds}
use kelpflux.Operator.Effects.{is_patch}
use kelpflux.Operator.Effects.Keeps.{Since}
use kelpflux.Operator.Samples.{
  pool_name, sample_cfg, sample_world, idle_state, down_decision, sample_app,
}
use kelpflux.Operator.ScaleActions.{do_scale_down}
use kelpflux.Operator.ScaleActions.Drains.{AllMayGo, do_scale_down-patch_is_safe}

do_scale_down-patch_is_safe_example :
    Since []
      (λ e.
        is_patch e ≡ true
        → AllMayGo sample_world sample_cfg idle_state down_decision pool_name sample_app)
      (λ b. Unit)
      (do_scale_down sample_world sample_cfg idle_state down_decision pool_name 0
        (seconds 90)
        sample_app).1
do_scale_down-patch_is_safe_example =
    do_scale_down-patch_is_safe sample_world sample_cfg idle_state down_decision pool_name 0
      (seconds 90) sample_app
