-- ===== src/Workload.antt =====
-- src/workload.c: the workload threads of a class. `running` holds the flag `workload_running` of
-- each thread; the mutex of a thread makes each access to it one step. Waiting and the workload
-- functions themselves, which are loaded libraries, are left out.
use rtc_testbench.Base.{
  ℕ, ◌+◌, Bool, true, false, not, ◌||◌, List, [], ◌∷◌, map, set, ◌==◌, if◌then◌else◌,
}
use rtc_testbench.Types.{FrameType, AppConfig, ClassConfig, Build}
use rtc_testbench.Stat.State.{DoubleOps, State}
use rtc_testbench.Stat.Period.{stat_frame_workload, stat_inc_workload_outlier}

-- workload_signal: the flags after `received` frames, and whether the threads are woken.
unfoldable pub workload_signal : ClassConfig → ℕ → List Bool → List Bool × Bool
workload_signal conf received running =
    if not conf.rx_workload_enabled
    then (running, false)
    else if not (received == 0) || conf.rx_workload_prewarm
    then (map (λ r. true) running, true)
    else (running, false)

module _ {D : Type 0} (o : DoubleOps D) (app : AppConfig) where
  -- The loop of workload_check_finished, from the thread `i` on.
  unfoldable pub check_running : State D → FrameType → ℕ → List Bool → State D
  check_running s t i [] = s
  check_running s t i (r ∷ rs) =
      check_running (if r then stat_inc_workload_outlier o app s i t else s) t (i + 1) rs

  -- workload_check_finished
  unfoldable pub workload_check_finished : State D → FrameType → List Bool → State D
  workload_check_finished s t running =
      if not (app.classes t).rx_workload_enabled then s else check_running s t 0 running

  -- One round of workload_thread_routine on the thread `i` that was not a timeout: the flag, and
  -- the time that the workload took.
  unfoldable pub workload_round :
      Build → State D → FrameType → ℕ → List Bool → (start_time curr_time : ℕ) → State D × List Bool
  workload_round build s t i running start_time curr_time =
      (stat_frame_workload o app build s i t start_time curr_time, set running i false)
