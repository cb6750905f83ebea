-- ===== src/Tc.antt =====
-- src/tc.c: the threads of a traffic class. What the environment of a cycle does is in `Events`:
-- the result of a wait, the clock, how many frames the socket took.

pub mod Cycle
pub mod Rounds
pub mod Burst
pub mod Stream
pub mod Delivered
pub mod InOrder
pub mod Returns
pub mod Ends
use rtc_testbench.Base.{
  ℕ, zero, suc, ◌+◌, ◌*◌, Bool, true, false, not, ◌&&◌, ◌||◌, Option, none, some, List, [], ◌∷◌,
  ◌==◌, if◌then◌else◌,
}
use rtc_testbench.Types.{AppConfig, ClassConfig}
use rtc_testbench.Packet.{Reply}
use rtc_testbench.Time.{Timespec, increment_period}

-- enum tc_tx_model
pub data TxModel : Type 0 where
  tx_cyclic tx_burst tx_standalone : TxModel

unfoldable pub is_burst : TxModel → Bool
is_burst tx_burst = true
is_burst _ = false

unfoldable pub is_standalone : TxModel → Bool
is_standalone tx_standalone = true
is_standalone _ = false

-- enum tc_tx_wait_result
pub data WaitResult : Type 0 where
  wait_send wait_stop wait_error : WaitResult

-- struct thread_context, the members of a Tx thread, with the variables of its routine
pub record TxThread : Type 0 where
  pub tx_model : TxModel
  pub is_first : Bool
  pub is_last : Bool
  pub has_next : Bool
  pub num_frames_available : ℕ
  pub sequence_counter : ℕ
  pub wakeup_time : Timespec

-- What a thread meets in one cycle: whether pthread_cond_timedwait timed out, the results of the
-- calls of clock_nanosleep, the clock at preparation and for the launch times, the answers of
-- sendmmsg, the clock at the statistics of the frames and at stat_update.
pub record Events : Type 0 where
  pub timed_out : Bool
  pub nanosleep : List ℕ
  pub tx_now : ℕ
  pub launch_now : ℕ
  pub replies : List Reply
  pub sent_now : ℕ
  pub stat_now : ℕ

abbrev pub eintr : ℕ
eintr = 4

-- `do { ret = clock_nanosleep(...) } while (ret == EINTR)`; `none` if it never returns anything else
unfoldable pub sleep : List ℕ → Option ℕ
sleep [] = none
sleep (ret ∷ rets) = let rest = sleep rets in if ret == eintr then rest else some ret

-- tc_sleep_until: what it returns, and the wake-up time
unfoldable pub tc_sleep_until : ℕ → Timespec → ℕ → List ℕ → Option (ℕ × Timespec)
tc_sleep_until fuel wakeup cycle_time rets = elim (increment_period fuel wakeup cycle_time) [
  | some t ↦ elim (sleep rets) [ some ret ↦ some (ret, t) | none ↦ none ]
  | none ↦ none
]

-- tc_wait_for_tx_burst: the frames that were available, and the thread with none
unfoldable pub tc_wait_for_tx_burst : TxThread → ℕ × TxThread
tc_wait_for_tx_burst ctx = (ctx.num_frames_available, record ctx { num_frames_available = 0 })

-- tc_wait_for_tx_cycle: the result, `*num_frames` and the thread
unfoldable pub tc_wait_for_tx_cycle :
    ℕ → AppConfig → ClassConfig → TxThread → Events → Option (WaitResult × ℕ × TxThread)
tc_wait_for_tx_cycle fuel app conf ctx ev =
    let waited : WaitResult = if ev.timed_out then wait_stop else wait_send in
    let (burst, emptied) = tc_wait_for_tx_burst ctx in
    if is_burst ctx.tx_model
    then some (waited, burst, emptied)
    else if not (is_standalone ctx.tx_model) && not ctx.is_first
    then some (waited, conf.num_frames_per_cycle, ctx)
    else elim (tc_sleep_until fuel ctx.wakeup_time app.base_cycle_time_ns ev.nanosleep) [
      | some (ret, t) ↦ some (
        if ret == 0 then wait_send else wait_error,
        conf.num_frames_per_cycle,
        record ctx { wakeup_time = t },
      )
      | none ↦ none
    ]

-- One round of tc_tx_gen_thread behind its sleep.
unfoldable pub tc_tx_gen_round : ClassConfig → TxThread → TxThread
tc_tx_gen_round conf ctx = record ctx { num_frames_available = conf.num_frames_per_cycle }
