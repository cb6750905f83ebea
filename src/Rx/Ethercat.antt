-- ===== src/Rx/Ethercat.antt =====
-- src/ethercat.c: the frame with one no-operation datagram, and the handler of a returned frame.
-- The machine is little-endian, since the time stamp is copied as it lies in memory.
use rtc_testbench.Base.{
  ℕ, zero, suc, ◌+◌, ◌*◌, false, not, Option, none, some, List, [], ◌∷◌, length, take, get_or,
  memcpy, ltb, ◌==◌, if◌then◌else◌, replicate,
}
use rtc_testbench.Bytes.{load, store}
use rtc_testbench.Types.{FrameType, AppConfig, Build}
use rtc_testbench.Frame.{eth_p_ethercat, sizeof_ethhdr, eth_alen}
use rtc_testbench.Stat.State.{DoubleOps, State}
use rtc_testbench.Stat.Common.{inc}
use rtc_testbench.Stat.Received.{FrameReport, stat_frame_received}
use rtc_testbench.Rx.{
  RxContext, RxTimes, too_small, wrong_ether_type, not_processed, RxError, RxResult,
}

abbrev pub sizeof_ethercat_header : ℕ
sizeof_ethercat_header = 2

abbrev pub ecat_tx_timestamp_off : ℕ
ecat_tx_timestamp_off = 26

-- initialize_ethercat_frame; `old` is what the buffer of `frame_length` bytes held.
unfoldable pub initialize_ethercat_frame : List ℕ → (source destination : List ℕ) → List ℕ
initialize_ethercat_frame old source destination =
    let ethercat_header = 0x16 ∷ 0x10 ∷ [] in
    let ethercat_nop_cmd =
      0 ∷ 0 ∷ 0 ∷ 0 ∷ 0 ∷ 0 ∷ 8 ∷ 0 ∷ 0 ∷ 0 ∷ 0 ∷ 0 ∷ 0 ∷ 0 ∷ 0 ∷ 0 ∷ 0 ∷ 0 ∷ 0 ∷ 0 ∷ [] in
    let zeroed = replicate (length old) 0 in
    let addressed = memcpy 6 (take eth_alen source) (memcpy 0 (take eth_alen destination) zeroed) in
    let typed = store 2 addressed 12 eth_p_ethercat in
    memcpy (sizeof_ethhdr + sizeof_ethercat_header) ethercat_nop_cmd
      (memcpy sizeof_ethhdr ethercat_header typed)

-- A number of `n` bytes in the machine's order.
unfoldable pub load_le : ℕ → List ℕ → ℕ → ℕ
load_le zero f off = 0
load_le (suc n) f off = get_or f off 0 + 256 * load_le n f (off + 1)

-- The checks of the handler.
unfoldable pub ethercat_check : RxContext → List ℕ → ℕ → Option RxError
ethercat_check ctx f len =
    if ltb len (sizeof_ethhdr + sizeof_ethercat_header + 20)
    then some too_small
    else if not (load 2 f 12 == eth_p_ethercat)
    then some wrong_ether_type
    else if get_or f 6 0 == get_or ctx.source 0 0
    then some not_processed
    else none

-- receive_ethercat_frame; `mirror_now` stands for the clock read at its start.
unfoldable pub receive_ethercat_frame :
    {D : Type 0}
    → DoubleOps D
    → AppConfig
    → Build
    → FrameType
    → State D
    → RxContext
    → List ℕ
    → ℕ
    → RxTimes
    → RxResult D
receive_ethercat_frame o app build frame_type s ctx f len times =
    let report : FrameReport = record {
      cycle_number = ctx.rx_sequence_counter;
      out_of_order = false;
      payload_mismatch = false;
      frame_id_mismatch = false;
      tx_timestamp = load_le 8 f ecat_tx_timestamp_off;
      rx_hw_timestamp = 0;
      rx_sw_timestamp = times.mirror_now;
    } in
    let (s', stopped) = stat_frame_received o app build s frame_type report times.stat_now in
    elim (ethercat_check ctx f len) [
      | some e ↦ record { error = some e; state = s; stopped = false; context = ctx; frame = f }
      | none ↦ record {
        error = none;
        state = s';
        stopped = stopped;
        context = record ctx { rx_sequence_counter = inc ctx.rx_sequence_counter };
        frame = f;
      }
    ]
