-- ===== src/Core/Update.antt =====
-- internal/core/state.go, `NextUpdateStatus`, with the status and phase constants of types.go and
-- state.go. A status is a Go string: `other` stands for the strings that are none of the constants.
use sd_wan_plus.Base.{String, Bool, true, false}

pub data UpdateStatus : Type 0 where
  waiting prefetching verifying staged installing restarting : UpdateStatus
  health_checking completed : UpdateStatus
  download_failed signature_invalid install_failed health_failed : UpdateStatus
  rolling_back rolled_back : UpdateStatus
  other : String → UpdateStatus

pub data UpdatePhase : Type 0 where
  wait fetch verify stage install restart health done : UpdatePhase

-- The first `switch`: the phase decides what a failure is called.
failure_status : UpdatePhase → UpdateStatus
failure_status fetch = download_failed
failure_status verify = signature_invalid
failure_status install = install_failed
failure_status restart = install_failed
failure_status health = health_failed
failure_status _ = install_failed

-- The second `switch`: what a success leads to.
success_status : UpdateStatus → UpdateStatus
success_status waiting = prefetching
success_status prefetching = verifying
success_status verifying = staged
success_status staged = installing
success_status installing = restarting
success_status restarting = health_checking
success_status health_checking = completed
success_status download_failed = rolling_back
success_status signature_invalid = rolling_back
success_status install_failed = rolling_back
success_status health_failed = rolling_back
success_status rolling_back = rolled_back
success_status s = s

unfoldable pub next_update_status : UpdateStatus → Bool → UpdatePhase → UpdateStatus
unfolding failure_status success_status
next_update_status s false p = failure_status p
next_update_status s true p = success_status s
