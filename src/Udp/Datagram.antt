-- ===== src/Udp/Datagram.antt =====
-- A datagram as the Tx thread of src/udp_thread.c builds it, and what a receiver reads in it.
use rtc_testbench.Base.{
  ℕ, zero, suc, ◌+◌, ◌≤◌, ◌≡◌, refl, sym, ap, ◌∙◌, inr, false, not, List, [], arith, length, take,
  slice, memcpy, replicate, length-memcpy, length-take, list_ext, get_or-take, u64, sub64, ◌==◌,
}
use rtc_testbench.Bytes.{load}
use rtc_testbench.Bytes.Region.{store-Keeps, slice-Keeps, slice-memcpy, length-slice, get_or-slice}
use rtc_testbench.Types.{AppConfig, ClassConfig, FrameType}
use rtc_testbench.Frame.{
  sequence_counter_to_meta_data, tx_timestamp_to_meta_data, meta_data_to_sequence_counter,
  meta_data_to_tx_timestamp,
}
use rtc_testbench.Rx.{RxContext, set_mirror_tx_timestamp_est}
use rtc_testbench.Rx.Sent.{equal_bytes_refl}
use rtc_testbench.Tx.Prepare.{frame_config_of, set_meta_data}
use rtc_testbench.Tx.Meta.{Says, Holds, set_meta_data-Says, set_meta_data-Keeps}
use rtc_testbench.Udp.{udp_initialize_frame, udp_report}

-- A buffer whose payload is the pattern.
pub record HasPattern (conf : ClassConfig) (f : List ℕ) : Type 0 where
  pub fits : 16 + length conf.payload_pattern ≤ length f
  pub payload : slice 16 (length conf.payload_pattern) f ≡ conf.payload_pattern

load-take : (n k : ℕ) (f : List ℕ) (off : ℕ) → off + n ≤ k → load n (take k f) off ≡ load n f off
unfolding load
load-take zero k f off h = refl
load-take (suc n) k f off h =
    ground (
      arith,
      get_or-take k f off 0 (omega (arith, h)),
      load-take n k f (off + 1) (omega (arith, h)),
    )

take-HasPattern :
    (conf : ClassConfig) (k : ℕ) (f : List ℕ)
    → HasPattern conf f
    → 16 + length conf.payload_pattern ≤ k
    → HasPattern conf (take k f)
take-HasPattern conf k f w h =
    let n = length conf.payload_pattern in
    let l = length-take k f in
    let fits : 16 + n ≤ length (take k f) = omega (arith, w.fits, h, l) in
    record {
      fits = fits;
      payload =
          list_ext 0 _ _ (length-slice 16 n (take k f) fits ∙ sym (length-slice 16 n f w.fits))
            (λ i hi. ground (
              arith,
              length-slice 16 n (take k f) fits,
              get_or-slice 16 n (take k f) i,
              get_or-slice 16 n f i,
              get_or-take k f (16 + i) 0,
            ))
          ∙ w.payload;
    }

take-Says : (n k q ts : ℕ) (f : List ℕ) → 16 ≤ k → Says n 0 q ts f → Says n 0 q ts (take k f)
unfolding meta_data_to_sequence_counter meta_data_to_tx_timestamp
take-Says n k q ts f h v = record {
  counter = rw (load-take 4 k f 0 (omega arith), load-take 4 k f 4 (omega arith)) v.counter;
  stamp = load-take 8 k f 8 (omega arith) ∙ v.stamp;
}

module _ (app : AppConfig) (t : FrameType) where
  -- A datagram of the right length with a counter, a time stamp and the pattern.
  pub record IsDatagram (q ts : ℕ) (g : List ℕ) : Type 0 where
    pub size : length g ≡ (app.classes t).frame_length
    pub says : Says (app.classes t).num_frames_per_cycle 0 q ts g
    pub pattern : HasPattern (app.classes t) g

  abbrev pub built : List ℕ → ℕ → ℕ → List ℕ
  built f q now =
      tx_timestamp_to_meta_data
        (sequence_counter_to_meta_data f 0 q (app.classes t).num_frames_per_cycle) 0 now

  pub built-HasPattern :
      (f : List ℕ) (q now : ℕ)
      → HasPattern (app.classes t) f
      → HasPattern (app.classes t) (built f q now)
  unfolding set_meta_data frame_config_of
  built-HasPattern f q now w =
      let c = frame_config_of (app.classes t) t [] q now in
      let n = length (app.classes t).payload_pattern in
      let k = set_meta_data-Keeps c f 0 16 (16 + n) (omega (arith, w.fits)) (inr (omega arith)) in
      record {
        fits = omega (arith, w.fits, k.length_kept);
        payload = slice-Keeps 16 n k (omega arith) (omega arith) w.fits ∙ w.payload;
      }

  pub length-built : (f : List ℕ) (q now : ℕ) → 16 ≤ length f → length (built f q now) ≡ length f
  unfolding set_meta_data frame_config_of
  length-built f q now h =
      (set_meta_data-Keeps (frame_config_of (app.classes t) t [] q now) f 0 16 16 h
        (inr (omega arith))).length_kept

  pub built-IsDatagram :
      (f : List ℕ) (q ts : ℕ)
      → HasPattern (app.classes t) f
      → Holds (app.classes t).num_frames_per_cycle q ts
      → 16 + length (app.classes t).payload_pattern ≤ (app.classes t).frame_length
      → (app.classes t).frame_length ≤ length f
      → IsDatagram q ts (take (app.classes t).frame_length (built f q ts))
  unfolding set_meta_data frame_config_of
  built-IsDatagram f q ts w v fits room =
      let c = frame_config_of (app.classes t) t [] q ts in
      let k = (app.classes t).frame_length in
      let kept = set_meta_data-Keeps c f 0 16 16 (omega (arith, w.fits)) (inr (omega arith)) in
      record {
        size = omega (arith, length-take k (built f q ts), kept.length_kept, room);
        says =
            take-Says (app.classes t).num_frames_per_cycle k q ts (built f q ts)
              (omega (arith, fits)) (set_meta_data-Says c f 0 v (omega (arith, w.fits)));
        pattern = take-HasPattern (app.classes t) k (built f q ts) (built-HasPattern f q ts w) fits;
      }

  pub report_lem :
      (g : List ℕ) (q ts : ℕ) (ctx : RxContext) (now : ℕ)
      → IsDatagram q ts g
      → let r = udp_report (app.classes t) ctx g (set_mirror_tx_timestamp_est app g 0 now) in
        (r.cycle_number ≡ q)
        × (r.out_of_order ≡ not (ctx.rx_sequence_counter == q))
        × (r.payload_mismatch ≡ false)
        × (r.tx_timestamp ≡ ts)
  unfolding udp_report set_mirror_tx_timestamp_est tx_timestamp_to_meta_data
  report_lem g q ts ctx now w =
      let n = length (app.classes t).payload_pattern in
      let u = w.pattern in
      let kept =
        slice-Keeps 16 n
          (store-Keeps 16 (16 + n) 8 8
            (u64 (now + sub64 app.tx_base_offset_ns app.rx_base_offset_ns)) g
            (omega (arith, u.fits)) (inr (omega arith)))
          (omega arith) (omega arith) u.fits
        ∙ u.payload in
      (
        w.says.counter,
        ap (λ (x : ℕ). not (ctx.rx_sequence_counter == x)) w.says.counter,
        rw (kept, equal_bytes_refl (app.classes t).payload_pattern) refl,
        w.says.stamp,
      )

pub initialize-HasPattern :
    (conf : ClassConfig) (buffer : List ℕ)
    → 16 + length conf.payload_pattern ≤ length buffer
    → HasPattern conf (udp_initialize_frame conf buffer)
unfolding udp_initialize_frame
initialize-HasPattern conf buffer h =
    let zeros = memcpy 0 (replicate 16 0) buffer in
    let l : length zeros ≡ length buffer = length-memcpy 0 (replicate 16 0) buffer in
    record {
      fits = omega (arith, h, l, length-memcpy 16 conf.payload_pattern zeros);
      payload = slice-memcpy 16 conf.payload_pattern zeros (omega (arith, h, l));
    }

pub length-initialize :
    (conf : ClassConfig) (buffer : List ℕ)
    → 16 + length conf.payload_pattern ≤ length buffer
    → length (udp_initialize_frame conf buffer) ≡ length buffer
unfolding udp_initialize_frame
length-initialize conf buffer h =
    length-memcpy 16 conf.payload_pattern (memcpy 0 (replicate 16 0) buffer)
    ∙ length-memcpy 0 (replicate 16 0) buffer
