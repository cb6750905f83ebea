-- ===== src/Tx/Received.antt =====
-- The way of a PROFINET frame from initialize_profinet_frame of src/profinet.c over
-- prepare_frame_for_tx of src/utils.c to the checks and the report of receive_profinet_frame.
use rtc_testbench.Base.{
  ℕ, ◌+◌, ◌≤◌, ◌≡◌, refl, sym, ap, ◌∙◌, ◌⊎◌, inl, inr, Bool, true, false, List, arith, length, take,
  slice, ◌==◌,
}
use mathlib.Core.Path.{subst}
use rtc_testbench.Bytes.{load}
use rtc_testbench.Bytes.Region.{Keeps, load-Keeps}
use rtc_testbench.Types.{
  FrameType, tsn_high, tsn_low, rtc, rta, dcp, generic_l2, SecurityMode, mode_none, mode_ao,
  mode_ae, is_mode_none, ClassConfig, AppConfig, Build, frame_index,
}
use rtc_testbench.Frame.{eth_p_8021q, eth_p_profinet_rt, get_meta_data_offset}
use rtc_testbench.Rx.{RxContext, RxTimes}
use rtc_testbench.Rx.Sent.{equal_bytes_refl}
use rtc_testbench.Rx.Profinet.{
  Cipher, PnThreadConf, profinet_check, profinet_meta_data, decrypt_ao, decrypt_ae, profinet_secure,
  profinet_report,
}
use rtc_testbench.Rx.Profinet.Reseal.{IsAead}
use rtc_testbench.Tx.Prepare.{
  frame_config_of, set_meta_data, prepare_ao, prepare_ae, prepare_by_mode, prepare_frame_for_tx,
}
use rtc_testbench.Tx.Meta.{Holds}
use rtc_testbench.Tx.Facts.{Facts, Facts-none, Facts-ao, Facts-ae}

-- The classes that use PROFINET frames.
unfoldable pub is_profinet : FrameType → Bool
is_profinet tsn_high = true
is_profinet tsn_low = true
is_profinet rtc = true
is_profinet rta = true
is_profinet dcp = true
is_profinet _ = false

-- The length of the headers of a frame, and of its checksum.
abbrev pub headers_of : SecurityMode → ℕ
headers_of mode_none = 36
headers_of mode_ao = 44
headers_of mode_ae = 44

abbrev pub checksum_of : SecurityMode → ℕ
checksum_of mode_none = 0
checksum_of mode_ao = 16
checksum_of mode_ae = 16

-- A frame as initialize_profinet_frame leaves it, for a class and a frame identifier.
pub record Initialized (conf : ClassConfig) (frame_id : ℕ) (f : List ℕ) : Type 0 where
  pub fits :
      headers_of conf.security_mode + length conf.payload_pattern + checksum_of conf.security_mode
      ≤ conf.frame_length
  pub buffer : conf.frame_length ≤ length f
  pub proto : load 2 f 12 ≡ eth_p_8021q
  pub encapsulated : load 2 f 16 ≡ eth_p_profinet_rt
  pub identified : load 2 f 18 ≡ frame_id
  pub payload :
      slice (headers_of conf.security_mode) (length conf.payload_pattern) f ≡ conf.payload_pattern

meta_data_offset :
    (t : FrameType) (mode : SecurityMode)
    → is_profinet t ≡ true
    → get_meta_data_offset t mode ≡ profinet_meta_data mode 18
unfolding is_profinet get_meta_data_offset profinet_meta_data is_mode_none
meta_data_offset t mode h = ground arith

no_ethercat :
    (t : FrameType) → is_profinet t ≡ true → (frame_index t == frame_index generic_l2) ≡ false
unfolding is_profinet frame_index
no_ethercat t h = ground arith

-- The text that a thread encrypts: it fills the frame between the headers and the checksum, fits
-- the receiver's array, and begins with the pattern.
pub record IsText (conf : ClassConfig) (text plaintext : List ℕ) : Type 0 where
  pub fills : 60 + length text ≡ conf.frame_length
  pub room : length text ≤ length plaintext
  pub longer : length conf.payload_pattern ≤ length text
  pub begins : take (length conf.payload_pattern) text ≡ conf.payload_pattern

mode_cases : (m : SecurityMode) → (m ≡ mode_none) ⊎ ((m ≡ mode_ao) ⊎ (m ≡ mode_ae))
mode_cases mode_none = inl refl
mode_cases mode_ao = inr (inl refl)
mode_cases mode_ae = inr (inr refl)

module _ (cipher : Cipher) (aead : IsAead cipher) (app : AppConfig) (build : Build)
    (conf : ClassConfig) (t : FrameType) (thread : PnThreadConf) (f plaintext : List ℕ) (seq ts : ℕ)
    (times : RxTimes) where
  -- The frame as it is sent.
  unfoldable pub sent_profinet_frame : List ℕ
  sent_profinet_frame =
      prepare_frame_for_tx cipher (frame_config_of conf t thread.payload_pattern seq ts) f

  abbrev Known : List ℕ → Type 0
  Known = Facts cipher aead app conf t thread f plaintext seq ts times.mirror_now

  by_mode :
      is_profinet t ≡ true
      → sent_profinet_frame
        ≡ prepare_by_mode cipher conf.security_mode
            (frame_config_of conf t thread.payload_pattern seq ts)
            f
  unfolding sent_profinet_frame prepare_frame_for_tx frame_config_of
  by_mode h = rw (no_ethercat t h) refl

  -- A secured frame is authentic to a receiver with the same keys.
  abbrev pub Sealed : List ℕ → Type 0
  Sealed g =
      (conf.security_mode ≡ mode_ao → (decrypt_ao cipher app conf g conf.frame_length 18).0 ≡ true)
      × (conf.security_mode ≡ mode_ae
          → (decrypt_ae cipher app conf g conf.frame_length 18).0 ≡ true)

  known :
      is_profinet t ≡ true
      → Initialized conf thread.frame_id f
      → Holds conf.num_frames_per_cycle seq ts
      → (conf.security_mode ≡ mode_ae → IsText conf thread.payload_pattern plaintext)
      → Known sent_profinet_frame × Sealed sent_profinet_frame
  unfolding prepare_by_mode frame_config_of profinet_meta_data is_mode_none
  known h w v text =
      let c = frame_config_of conf t thread.payload_pattern seq ts in
      let m = conf.security_mode in
      let both : (g : List ℕ)
          → prepare_by_mode cipher m c f ≡ g
          → Known g × Sealed g
          → Known sent_profinet_frame × Sealed sent_profinet_frame =
        λ g e r. subst (λ (x : List ℕ). Known x × Sealed x) (sym (by_mode h ∙ e)) r in
      elim (mode_cases m) [
        | inl e ↦
            let offset : get_meta_data_offset t m ≡ 20 =
              meta_data_offset t m h ∙ ap (λ (x : SecurityMode). profinet_meta_data x 18) e in
            both (set_meta_data c f 20)
              (ap (λ (x : SecurityMode). prepare_by_mode cipher x c f) e
                ∙ ap (set_meta_data c f) offset)
              (
                Facts-none cipher aead app conf t thread f plaintext seq ts times.mirror_now e v
                    (omega (arith, w.fits, w.buffer, ap headers_of e)) (payload_at e),
                ((λ e'. cc), (λ e'. cc)),
              )
        | inr (inl e) ↦
            let (k, ok) =
              Facts-ao cipher aead app conf t thread f plaintext seq ts times.mirror_now e v
                (omega (arith, w.fits, ap headers_of e, ap checksum_of e)) w.buffer
                (payload_at e) in
            both (prepare_ao cipher c f) (ap (λ (x : SecurityMode). prepare_by_mode cipher x c f) e)
              (k, ((λ e'. ap (λ (x : Bool × List ℕ). x.0) ok), (λ e'. cc)))
        | inr (inr e) ↦
            let b = text e in
            let (k, ok) =
              Facts-ae cipher aead app conf t thread f plaintext seq ts times.mirror_now e v b.fills
                w.buffer b.room b.longer b.begins in
            both (prepare_ae cipher c f) (ap (λ (x : SecurityMode). prepare_by_mode cipher x c f) e)
              (k, ((λ e'. cc), (λ e'. ap (λ (x : Bool × List ℕ). x.0) ok)))
      ]
    where
      payload_at :
          {x : SecurityMode}
          → conf.security_mode ≡ x
          → slice (headers_of x) (length conf.payload_pattern) f ≡ conf.payload_pattern
      payload_at e =
          ap (λ (i : ℕ). slice i (length conf.payload_pattern) f) (sym (ap headers_of e))
          ∙ w.payload

  header-check :
      (g : List ℕ)
      → Initialized conf thread.frame_id f
      → Keeps 12 20 f g
      → (profinet_check conf g conf.frame_length ≡ inr (18, false))
        × (load 2 g 18 ≡ thread.frame_id)
  unfolding profinet_check
  header-check g w k =
      let proto = load-Keeps 2 12 k (omega arith) (omega arith) ∙ w.proto in
      let typed = load-Keeps 2 16 k (omega arith) (omega arith) ∙ w.encapsulated in
      (
        ground (arith, proto, typed, w.fits, long),
        load-Keeps 2 18 k (omega arith) (omega arith) ∙ w.identified,
      )
    where
      long : 36 ≤ headers_of conf.security_mode
      long = ground arith

  -- A frame that is initialized for a PROFINET class and prepared with a counter and a time stamp
  -- passes the checks of receive_profinet_frame under the same configuration, in each of the three
  -- modes, and a secured one is authentic. If the receiver expects that counter, the statistics
  -- hear of a frame in order, with its identifier and the pattern as configured, and of that
  -- counter and that time stamp. The cipher must be one of authenticated encryption, the counter
  -- and the time stamp must fit the meta data, and in mode AE the text must fill the frame and
  -- begin with the pattern.
  pub sent_profinet_frame-received :
      (ctx : RxContext)
      → is_profinet t ≡ true
      → Initialized conf thread.frame_id f
      → Holds conf.num_frames_per_cycle seq ts
      → (conf.security_mode ≡ mode_ae → IsText conf thread.payload_pattern plaintext)
      → ctx.rx_sequence_counter ≡ seq
      → let g = sent_profinet_frame in
        let payload =
          (profinet_secure cipher app conf thread plaintext g conf.frame_length 18
            times.mirror_now).1 in
        let report = profinet_report conf build thread ctx g payload 18 times in
        (profinet_check conf g conf.frame_length ≡ inr (18, false))
        × Sealed g
        × (report.cycle_number ≡ seq)
        × (report.out_of_order ≡ false)
        × (report.payload_mismatch ≡ false)
        × (report.frame_id_mismatch ≡ false)
        × (report.tx_timestamp ≡ ts)
  unfolding profinet_report
  sent_profinet_frame-received ctx h w v text e =
      let (k, seal) = known h w v text in
      let (taken, identified) = header-check sent_profinet_frame w k.header in
      let says = k.says in
      (
        taken,
        seal,
        says.counter,
        ground (arith, says.counter, e),
        rw (k.compared, equal_bytes_refl conf.payload_pattern) refl,
        ground (arith, identified),
        says.stamp,
      )
