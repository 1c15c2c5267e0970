-- ===== src/Core/Rollout.antt =====
-- internal/core/state.go, `NextRolloutStatus`, with the status and phase constants of types.go and
-- state.go. A status is a Go string: `other` stands for the strings that are none of the constants.
use sd_wan_plus.Base.{String, Bool, true, false}

pub data RolloutStatus : Type 0 where
  pending dispatched preparing prepared activating active : RolloutStatus
  prepare_failed activate_failed verify_failed rolling_back rolled_back : RolloutStatus
  other : String → RolloutStatus

pub data RolloutPhase : Type 0 where
  idle prepare activate verify rollback done failed : RolloutPhase

-- The first `switch`: the phase decides what a failure is called.
failure_status : RolloutPhase → RolloutStatus
failure_status prepare = prepare_failed
failure_status activate = activate_failed
failure_status verify = verify_failed
failure_status rollback = rolled_back
failure_status _ = prepare_failed

-- The second `switch`: what a success leads to.
success_status : RolloutStatus → RolloutStatus
success_status pending = dispatched
success_status dispatched = preparing
success_status preparing = prepared
success_status prepared = activating
success_status activating = active
success_status prepare_failed = rolling_back
success_status activate_failed = rolling_back
success_status verify_failed = rolling_back
success_status rolling_back = rolled_back
success_status s = s

unfoldable pub next_rollout_status : RolloutStatus → Bool → RolloutPhase → RolloutStatus
unfolding failure_status success_status
next_rollout_status s false p = failure_status p
next_rollout_status s true p = success_status s
