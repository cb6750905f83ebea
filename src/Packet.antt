-- ===== src/Packet.antt =====
-- src/packet.c: how frames are handed to a packet socket. Each call of sendmmsg is answered by a
-- `Reply`; it takes at most the messages that it is given, so that `inner_sent` ends as
-- `to_be_sent`.
pub mod Sends
pub mod Concludes
use rtc_testbench.Base.{
  ℕ, zero, suc, ◌+◌, ◌-◌, ◌%◌, Bool, not, ◌&&◌, ◌||◌, Option, none, some, List, [], ◌∷◌, ◌++◌, ◌==◌,
  if◌then◌else◌, take, drop,
}
use rtc_testbench.Types.{AppConfig, ClassConfig, FrameType, Build, class_tx_timestamp_enabled}
use rtc_testbench.Frame.{meta_data_to_sequence_counter}
use rtc_testbench.Time.{get_frame_tx_time}

-- struct mmsghdr: the frame, its launch time and whether it asks for a hardware time stamp, as the
-- control messages say
pub record Message : Type 0 where
  pub frame : List ℕ
  pub tx_time : Option ℕ
  pub hwtstamp : Bool

-- The first and the last frame of a cycle
unfoldable pub is_stamped : ℕ → ℕ → Bool
is_stamped n seq = (seq % n == 0) || (seq % n == n - 1)

-- The message of a frame; `now` is the application's clock.
unfoldable pub message_of :
    AppConfig → Build → FrameType → (meta_data_offset duration now : ℕ) → List ℕ → Message
message_of app build t meta_data_offset duration now f =
    let conf = app.classes t in
    let n = conf.num_frames_per_cycle in
    let seq = meta_data_to_sequence_counter f meta_data_offset n in
    record {
      frame = f;
      tx_time =
          if conf.tx_time_enabled
          then some ((get_frame_tx_time app now seq duration n conf.tx_time_offset_ns).0)
          else none;
      hwtstamp = class_tx_timestamp_enabled build app t && is_stamped n seq;
    }

-- What sendmmsg returns: -1 with an errno, or how many messages it took
pub data Reply : Type 0 where
  refused : ℕ → Reply
  accepted : ℕ → Reply

-- How a run of the loops ends: all is sent and these replies are left, it returns `-errno`, or it
-- is still at it. `wire` is what the socket has taken.
pub data End : Type 0 where
  finished : List Reply → End
  failed : ℕ → End
  unfinished : End

pub record Sending : Type 0 where
  pub wire : List Message
  pub end : End

unfoldable pub behind : List Message → Sending → Sending
behind ms s = record s { wire = ms ++ s.wire }

-- The loop over `inner_sent`, on the messages that are left of the batch
unfoldable pub send_batch : List Message → List Reply → Sending
send_batch [] rs = record { wire = []; end = finished rs }
send_batch (m ∷ ms) [] = record { wire = []; end = unfinished }
send_batch (m ∷ ms) (refused errno ∷ rs) = record { wire = []; end = failed errno }
send_batch (m ∷ ms) (accepted len ∷ rs) =
    behind (take len (m ∷ ms)) (send_batch (drop len (m ∷ ms)) rs)

-- Behind a batch: `go` are the batches to come.
unfoldable pub onward : List Message → (List Reply → Sending) → End → Sending
onward wire go (finished rs) = behind wire (go rs)
onward wire go e = record { wire = wire; end = e }

-- packet_send_messages, on the messages from `sent` on, in batches of `num_frames_per_cycle`
unfoldable pub packet_send_messages : ℕ → ℕ → List Message → List Reply → Sending
packet_send_messages fuel n [] rs = record { wire = []; end = finished rs }
packet_send_messages zero n (m ∷ ms) rs = record { wire = []; end = unfinished }
packet_send_messages (suc fuel) n (m ∷ ms) rs =
    let batch = send_batch (take n (m ∷ ms)) rs in
    onward (batch.wire) (packet_send_messages fuel n (drop n (m ∷ ms))) (batch.end)
