-- ===== src/Core/Samples.antt =====
-- Tests of the status machines.
use sd_wan_plus.Base.{◌≡◌, refl, true, false}
use sd_wan_plus.Core.Rollout
use sd_wan_plus.Core.Rollout.{RolloutStatus, RolloutPhase}
use sd_wan_plus.Core.Update
use sd_wan_plus.Core.Update.{UpdateStatus, UpdatePhase}

signature_refused :
    Update.next_update_status UpdateStatus.verifying false UpdatePhase.verify
    ≡ UpdateStatus.signature_invalid
unfolding Update.next_update_status
signature_refused = refl

health_checked :
    Update.next_update_status UpdateStatus.health_checking true UpdatePhase.fetch
    ≡ UpdateStatus.completed
unfolding Update.next_update_status
health_checked = refl

activated :
    Rollout.next_rollout_status RolloutStatus.activating true RolloutPhase.activate
    ≡ RolloutStatus.active
unfolding Rollout.next_rollout_status
activated = refl
