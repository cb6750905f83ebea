-- ===== src/Rx/Sent.antt =====
-- A frame on its way from the generator of src/layer2_thread.c, which fills and stamps it, to the
-- checks and the report of the handler at the other end.
use rtc_testbench.Base.{
  ℕ, ◌+◌, ◌/◌, ◌%◌, ◌^◌, ◌≤◌, ◌<◌, ◌≡◌, refl, sym, ◌∙◌, ap, true, false, inl, inr, List, [], ◌∷◌,
  arith, length, take, replicate, memcpy, slice, u16, u32, u64, sub64, length-memcpy,
  length-replicate,
}
use rtc_testbench.Bytes.{
  load, store, length-store, load-store_self, load-store_apart, load-memcpy_apart,
}
use rtc_testbench.Types.{ClassConfig, AppConfig, Build}
use rtc_testbench.Frame.{
  sequence_counter_to_meta_data, tx_timestamp_to_meta_data, vlan_tci_of, eth_p_8021q,
}
use rtc_testbench.Frame.Meta.{sequence_counter_roundtrip, tx_timestamp_roundtrip}
use rtc_testbench.Bytes.Region.{slice-memcpy, slice-Keeps, store-Keeps}
use rtc_testbench.Rx.{RxContext, RxTimes, equal_bytes, set_mirror_tx_timestamp_est}
use rtc_testbench.Rx.Layer2.{generic_l2_initialize_frame, generic_l2_check, generic_l2_report}

pub equal_bytes_refl : (xs : List ℕ) → equal_bytes xs xs ≡ true
unfolding equal_bytes
equal_bytes_refl [] = refl
equal_bytes_refl (x ∷ xs) = ground (arith, equal_bytes_refl xs)

-- The header and the payload of a frame of the class.
pub record Filled (conf : ClassConfig) (f : List ℕ) : Type 0 where
  pub long : 34 + length conf.payload_pattern ≤ length f
  pub proto : load 2 f 12 ≡ eth_p_8021q
  pub encapsulated : load 2 f 16 ≡ u16 conf.ether_type
  pub payload : slice 34 (length conf.payload_pattern) f ≡ conf.payload_pattern

-- A store into the meta data keeps what is filled in.
store-Filled :
    (k to v : ℕ) (conf : ClassConfig) (f : List ℕ)
    → 18 ≤ to
    → to + k ≤ 34
    → Filled conf f
    → Filled conf (store k f to v)
store-Filled k to v conf f a b w = record {
  long = omega (arith, w.long, length-store k f to v);
  proto = load-store_apart 2 k f 12 to v (omega (arith, w.long)) (inl (omega arith)) ∙ w.proto;
  encapsulated =
      load-store_apart 2 k f 16 to v (omega (arith, w.long)) (inl (omega arith)) ∙ w.encapsulated;
  payload =
      slice-Keeps 34 (length conf.payload_pattern)
        (store-Keeps 34 (34 + length conf.payload_pattern) k to v f (omega (arith, w.long)) (inr b))
        (omega arith) (omega arith) w.long
      ∙ w.payload;
}

memcpy-Filled :
    (conf : ClassConfig) (f : List ℕ)
    → 34 + length conf.payload_pattern ≤ length f
    → load 2 f 12 ≡ eth_p_8021q
    → load 2 f 16 ≡ u16 conf.ether_type
    → Filled conf (memcpy 34 conf.payload_pattern f)
memcpy-Filled conf f h p e = record {
  long = omega (arith, length-memcpy 34 conf.payload_pattern f);
  proto = load-memcpy_apart 2 f conf.payload_pattern 12 34 h (inl (omega arith)) ∙ p;
  encapsulated = load-memcpy_apart 2 f conf.payload_pattern 16 34 h (inl (omega arith)) ∙ e;
  payload = slice-memcpy 34 conf.payload_pattern f h;
}

-- The three members of the VLAN header, and the meta data behind it.
header-loads :
    (f : List ℕ) (tci e : ℕ)
    → 34 ≤ length f
    → let g = store 2 (store 2 (store 2 f 12 eth_p_8021q) 14 tci) 16 e in
      let h = store 4 (store 4 g 18 0) 22 0 in
      (length h ≡ length f) × (load 2 h 12 ≡ eth_p_8021q) × (load 2 h 16 ≡ u16 e)
header-loads f tci e l =
    let a = store 2 f 12 eth_p_8021q in
    let b = store 2 a 14 tci in
    let c = store 2 b 16 e in
    let d = store 4 c 18 0 in
    let la = length-store 2 f 12 eth_p_8021q in
    let lb = length-store 2 a 14 tci in
    let lc = length-store 2 b 16 e in
    let ld = length-store 4 c 18 0 in
    (
      omega (arith, la, lb, lc, ld, length-store 4 d 22 0),
      ground (
        arith,
        la,
        lb,
        lc,
        ld,
        load-store_apart 2 4 d 12 22 0,
        load-store_apart 2 4 c 12 18 0,
        load-store_apart 2 2 b 12 16 e,
        load-store_apart 2 2 a 12 14 tci,
        load-store_self 2 f 12 eth_p_8021q,
      ),
      ground (
        arith,
        la,
        lb,
        lc,
        ld,
        load-store_apart 2 4 d 16 22 0,
        load-store_apart 2 4 c 16 18 0,
        load-store_self 2 b 16 e,
      ),
    )

pub initialize-Filled :
    (conf : ClassConfig) (old source destination : List ℕ)
    → 34 + length conf.payload_pattern ≤ length old
    → Filled conf (generic_l2_initialize_frame conf old source destination)
      × (length (generic_l2_initialize_frame conf old source destination) ≡ length old)
unfolding generic_l2_initialize_frame
initialize-Filled conf old source destination h =
    let zeroed = replicate (length old) 0 in
    let start = memcpy 6 (take 6 source) (memcpy 0 (take 6 destination) zeroed) in
    let len : length start ≡ length old =
      length-memcpy 6 (take 6 source) (memcpy 0 (take 6 destination) zeroed)
      ∙ length-memcpy 0 (take 6 destination) zeroed
      ∙ length-replicate (length old) 0 in
    let (l, p, e) = header-loads start (vlan_tci_of conf) conf.ether_type (omega (arith, len)) in
    (
      memcpy-Filled conf _ (omega (arith, l, len)) p e,
      length-memcpy 34 conf.payload_pattern _ ∙ l ∙ len,
    )

pub meta-Filled :
    (conf : ClassConfig) (f : List ℕ) (seq n ts : ℕ)
    → Filled conf f
    → Filled conf (tx_timestamp_to_meta_data (sequence_counter_to_meta_data f 18 seq n) 18 ts)
      × (length (tx_timestamp_to_meta_data (sequence_counter_to_meta_data f 18 seq n) 18 ts)
          ≡ length f)
      × Filled conf (sequence_counter_to_meta_data f 18 seq n)
      × (length (sequence_counter_to_meta_data f 18 seq n) ≡ length f)
unfolding tx_timestamp_to_meta_data sequence_counter_to_meta_data
meta-Filled conf f seq n ts w =
    let a = store 4 f 18 (u32 (seq % n)) in
    let b = store 4 a 22 (u32 (seq / n)) in
    let fa = store-Filled 4 18 (u32 (seq % n)) conf f (omega arith) (omega arith) w in
    let fb = store-Filled 4 22 (u32 (seq / n)) conf a (omega arith) (omega arith) fa in
    let lb = length-store 4 a 22 (u32 (seq / n)) ∙ length-store 4 f 18 (u32 (seq % n)) in
    (
      store-Filled 8 26 ts conf b (omega arith) (omega arith) fb,
      length-store 8 b 26 ts ∙ lb,
      fb,
      lb,
    )

-- The frame of the class with a sequence counter and a Tx time stamp, as it is sent.
unfoldable pub sent_frame : ClassConfig → List ℕ → (source destination : List ℕ) → ℕ → ℕ → List ℕ
sent_frame conf old source destination seq ts =
    tx_timestamp_to_meta_data
      (sequence_counter_to_meta_data (generic_l2_initialize_frame conf old source destination) 18
        seq conf.num_frames_per_cycle)
      18 ts

Filled-check :
    (conf : ClassConfig) (f : List ℕ)
    → Filled conf f
    → length f ≡ conf.frame_length
    → generic_l2_check conf f (length f) ≡ inr (18, false)
unfolding generic_l2_check
Filled-check conf f w l = ground (arith, w.proto, w.encapsulated, w.long)

-- A frame that generic_l2_initialize_frame fills and that carries a sequence counter and a Tx time
-- stamp passes the checks of generic_l2_rx_frame under the same configuration. If the receiver
-- expects that counter, the statistics hear of a frame in order with the pattern as configured, and
-- of that counter and that time stamp. The pattern must fit the frame, the number of frames per
-- cycle and the cycle number 32 bits, the counter and the time stamp 64 bits.
pub sent_frame-received :
    (app : AppConfig) (build : Build) (conf : ClassConfig) (old source destination : List ℕ)
    (seq ts : ℕ) (ctx : RxContext) (times : RxTimes)
    → 34 + length conf.payload_pattern ≤ conf.frame_length
    → length old ≡ conf.frame_length
    → 0 < conf.num_frames_per_cycle
    → conf.num_frames_per_cycle < 2 ^ 32
    → seq / conf.num_frames_per_cycle < 2 ^ 32
    → seq < 2 ^ 64
    → ts < 2 ^ 64
    → ctx.rx_sequence_counter ≡ seq
    → let f = sent_frame conf old source destination seq ts in
      let stamped = set_mirror_tx_timestamp_est app f 18 times.mirror_now in
      let report = generic_l2_report conf build ctx f stamped 18 times in
      (generic_l2_check conf f conf.frame_length ≡ inr (18, false))
      × (report.cycle_number ≡ seq)
      × (report.out_of_order ≡ false)
      × (report.payload_mismatch ≡ false)
      × (report.tx_timestamp ≡ ts)
unfolding sent_frame generic_l2_report set_mirror_tx_timestamp_est tx_timestamp_to_meta_data
sent_frame-received app build conf old source destination seq ts ctx times fits l k n' c s t e =
    let n = conf.num_frames_per_cycle in
    let base = generic_l2_initialize_frame conf old source destination in
    let (w, lw) = initialize-Filled conf old source destination (omega (arith, fits, l)) in
    let (v, lv, u, lu) = meta-Filled conf base seq n ts w in
    let (ts_back, seq_kept) =
      tx_timestamp_roundtrip (sequence_counter_to_meta_data base 18 seq n) 18 ts n
        (omega (arith, u.long)) t in
    let seq_back = sequence_counter_roundtrip base 18 seq n (omega (arith, w.long)) k n' c s in
    let f = sent_frame conf old source destination seq ts in
    let lf : length f ≡ conf.frame_length = lv ∙ lw ∙ l in
    let stamped =
      store-Filled 8 26 (u64 (times.mirror_now + sub64 app.tx_base_offset_ns app.rx_base_offset_ns))
        conf f (omega arith) (omega arith) v in
    (
      ap (λ (i : ℕ). generic_l2_check conf f i) (sym lf) ∙ Filled-check conf f v lf,
      seq_kept ∙ seq_back,
      ground (arith, seq_kept, seq_back, e),
      rw (stamped.payload, equal_bytes_refl conf.payload_pattern) refl,
      ts_back,
    )
