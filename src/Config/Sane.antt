-- ===== src/Config/Sane.antt =====
-- What config_sanity_check of src/config.c accepts, as a specification.
use rtc_testbench.Base.{
  ℕ, ◌+◌, ◌≤◌, ◌<◌, ◌≡◌, ◌↔◌, ◌≢◌, refl, true, false, length, arith, Bool-cases, inl, inr,
  if◌then◌else◌,
}
use mathlib.Core.Path.{subst}
use rtc_testbench.Types.{
  tsn_high, tsn_low, rtc, rta, dcp, lldp, udp_high, udp_low, generic_l2, ClassConfig, AppConfig,
  Build, is_mode_none, is_ethercat, is_tai, is_tc_active, SecurityMode, mode_none, mode_ao, mode_ae,
  SecurityAlgorithm, aes128_gcm, aes256_gcm, chacha20_poly1305, ProtocolType, ethercat_protocol,
  generic_l2_protocol, ClockId, clock_tai, clock_monotonic, clock_realtime, clock_aux,
}
use rtc_testbench.Config.{
  expected_key_len, config_check_keys, min_frame_size, any_profinet_active, application_valid,
  length_invalid, lengths_valid, any_tx_hwtstamp, any_busy_poll, xdp_tx_time, features_valid,
  keys_valid, rest_valid, config_sanity_check,
}

-- The headers of `size` bytes and the pattern fit the frame, and the frame its buffer.
abbrev pub Fits : ℕ → ClassConfig → ℕ → Type 0
Fits max_frame_size c size =
    (size + length c.payload_pattern ≤ c.frame_length) × (c.frame_length ≤ max_frame_size)

-- Key and prefix of the initial vector have the algorithm's lengths, if the class is secured.
abbrev pub key_size : SecurityAlgorithm → ℕ
key_size aes128_gcm = 16
key_size aes256_gcm = 32
key_size chacha20_poly1305 = 32

abbrev pub Keyed : ClassConfig → Type 0
Keyed c =
    c.security_mode ≢ mode_none
    → (length c.security_iv_prefix ≡ 6) × (length c.security_key ≡ key_size c.security_algorithm)

-- The headers and the checksum of a PROFINET frame.
abbrev pub profinet_size : SecurityMode → ℕ
profinet_size mode_none = 36
profinet_size mode_ao = 60
profinet_size mode_ae = 60

-- No class but GenericL2 is active.
abbrev pub OnlyGeneric : AppConfig → Type 0
OnlyGeneric app =
    (is_tc_active app tsn_high ≡ false)
    × (is_tc_active app tsn_low ≡ false)
    × (is_tc_active app rtc ≡ false)
    × (is_tc_active app rta ≡ false)
    × (is_tc_active app dcp ≡ false)
    × (is_tc_active app lldp ≡ false)
    × (is_tc_active app udp_high ≡ false)
    × (is_tc_active app udp_low ≡ false)

-- No class asks for hardware time stamps on transmission.
abbrev pub NoTxHwtstamp : AppConfig → Type 0
NoTxHwtstamp app =
    ((app.classes generic_l2).tx_hwtstamp_enabled ≡ false)
    × ((app.classes rtc).tx_hwtstamp_enabled ≡ false)
    × ((app.classes rta).tx_hwtstamp_enabled ≡ false)
    × ((app.classes tsn_high).tx_hwtstamp_enabled ≡ false)
    × ((app.classes tsn_low).tx_hwtstamp_enabled ≡ false)

-- No class asks for busy polling.
abbrev pub NoBusyPoll : AppConfig → Type 0
NoBusyPoll app =
    ((app.classes tsn_high).xdp_busy_poll_mode ≡ false)
    × ((app.classes tsn_low).xdp_busy_poll_mode ≡ false)
    × ((app.classes rtc).xdp_busy_poll_mode ≡ false)
    × ((app.classes rta).xdp_busy_poll_mode ≡ false)
    × ((app.classes generic_l2).xdp_busy_poll_mode ≡ false)

-- A class does not combine a launch time with XDP.
abbrev pub NoXdpTxTime : ClassConfig → Type 0
NoXdpTxTime c = c.tx_time_enabled ≡ true → c.xdp_enabled ≡ false

pub record ApplicationSane (app : AppConfig) : Type 0 where
  pub exclusive : is_tc_active app generic_l2 ≡ true → OnlyGeneric app
  pub rx_before_tx : app.rx_base_offset_ns < app.tx_base_offset_ns
  pub tx_in_cycle : app.tx_base_offset_ns ≤ app.base_cycle_time_ns

pub record LengthsSane (m : ℕ) (app : AppConfig) : Type 0 where
  pub generic_l2_fits : Fits m (app.classes generic_l2) 34
  pub tsn_high_fits :
      Fits m (app.classes tsn_high) (profinet_size (app.classes tsn_high).security_mode)
  pub tsn_low_fits :
      Fits m (app.classes tsn_low) (profinet_size (app.classes tsn_low).security_mode)
  pub rtc_fits : Fits m (app.classes rtc) (profinet_size (app.classes rtc).security_mode)
  pub rta_fits : Fits m (app.classes rta) (profinet_size (app.classes rta).security_mode)
  pub dcp_fits : Fits m (app.classes dcp) 36
  pub lldp_fits : Fits m (app.classes lldp) 30
  pub udp_high_fits : Fits m (app.classes udp_high) 16
  pub udp_low_fits : Fits m (app.classes udp_low) 16

pub record FeaturesSane (build : Build) (app : AppConfig) : Type 0 where
  pub launch_time :
      build.xdp_tx_time ≡ false
      → NoXdpTxTime (app.classes generic_l2)
        × NoXdpTxTime (app.classes tsn_high)
        × NoXdpTxTime (app.classes tsn_low)
  pub clock : app.clock_id ≢ clock_tai → (build.rx_timestamp ≡ false) × NoTxHwtstamp app
  pub tx_timestamp : build.tx_timestamp ≡ false → NoTxHwtstamp app
  pub busy_poll : build.busy_poll ≡ false → NoBusyPoll app
  pub mosquitto : build.mosquitto ≡ false → app.log_mqtt ≡ false

pub record RestSane (app : AppConfig) : Type 0 where
  pub keys :
      Keyed (app.classes tsn_high)
      × Keyed (app.classes tsn_low)
      × Keyed (app.classes rtc)
      × Keyed (app.classes rta)
  pub histogram : app.stats_histogram_minimum_ns ≤ app.stats_histogram_maximum_ns
  pub ethercat :
      is_tc_active app generic_l2 ≡ true
      → (app.classes generic_l2).protocol_type ≡ ethercat_protocol
      → 36 ≤ (app.classes generic_l2).frame_length

-- The tests of an enumeration.
tai_iff : (c : ClockId) → (is_tai c ≡ true) ↔ (c ≡ clock_tai)
unfolding is_tai
tai_iff clock_tai = (λ h. refl, λ h. refl)
tai_iff clock_monotonic = (λ h. cc, λ h. cc)
tai_iff clock_realtime = (λ h. cc, λ h. cc)
tai_iff (clock_aux i) = (λ h. cc, λ h. cc)

none_iff : (m : SecurityMode) → (is_mode_none m ≡ true) ↔ (m ≡ mode_none)
unfolding is_mode_none
none_iff mode_none = (λ h. refl, λ h. refl)
none_iff mode_ao = (λ h. cc, λ h. cc)
none_iff mode_ae = (λ h. cc, λ h. cc)

ethercat_iff : (p : ProtocolType) → (is_ethercat p ≡ true) ↔ (p ≡ ethercat_protocol)
unfolding is_ethercat
ethercat_iff ethercat_protocol = (λ h. refl, λ h. refl)
ethercat_iff generic_l2_protocol = (λ h. cc, λ h. cc)

key_size_lem : (a : SecurityAlgorithm) → expected_key_len a ≡ key_size a
unfolding expected_key_len
key_size_lem aes128_gcm = refl
key_size_lem aes256_gcm = refl
key_size_lem chacha20_poly1305 = refl

profinet_size_lem : (c : ClassConfig) → min_frame_size c ≡ profinet_size c.security_mode
unfolding min_frame_size is_mode_none
profinet_size_lem c = by_mode c.security_mode
  where
    by_mode : (m : SecurityMode) → (if is_mode_none m then 36 else 60) ≡ profinet_size m
    by_mode mode_none = refl
    by_mode mode_ao = refl
    by_mode mode_ae = refl

application_iff : (app : AppConfig) → (application_valid app ≡ true) ↔ ApplicationSane app
unfolding application_valid any_profinet_active
application_iff app = (
  λ h. record {
    exclusive = λ on. (
      ground arith,
      ground arith,
      ground arith,
      ground arith,
      ground arith,
      ground arith,
      ground arith,
      ground arith,
    );
    rx_before_tx = ground arith;
    tx_in_cycle = ground arith;
  },
  λ w. ground (arith, w.exclusive, w.rx_before_tx, w.tx_in_cycle),
)

Fits-iff : (m : ℕ) (c : ClassConfig) (size : ℕ) → (length_invalid m c size ≡ false) ↔ Fits m c size
unfolding length_invalid
Fits-iff m c size = ground arith

Keyed-iff : (c : ClassConfig) → (config_check_keys c ≡ true) ↔ Keyed c
unfolding config_check_keys
Keyed-iff c =
    let none = none_iff c.security_mode in
    let size = key_size_lem c.security_algorithm in
    (
      λ h n.
          let secured : is_mode_none c.security_mode ≡ false = ground (arith, none.0, n) in
          (ground (arith, h, secured), ground (arith, h, secured, size)),
      λ k. elim (Bool-cases (is_mode_none c.security_mode)) [
        | inl z ↦ rw z refl
        | inr z ↦
            let w = k (λ e. absurd (ground (arith, none.1 e, z))) in
            rw (z, w.0, w.1, size) (ground arith)
      ],
    )

Fits-profinet :
    (m : ℕ) (c : ClassConfig)
    → (length_invalid m c (min_frame_size c) ≡ false) ↔ Fits m c (profinet_size c.security_mode)
Fits-profinet m c =
    subst (λ (n : ℕ). (length_invalid m c (min_frame_size c) ≡ false) ↔ Fits m c n)
      (profinet_size_lem c) (Fits-iff m c (min_frame_size c))

lengths_iff : (m : ℕ) (app : AppConfig) → (lengths_valid m app ≡ true) ↔ LengthsSane m app
unfolding lengths_valid
lengths_iff m app =
    let l = Fits-iff m (app.classes generic_l2) 34 in
    let th = Fits-profinet m (app.classes tsn_high) in
    let tl = Fits-profinet m (app.classes tsn_low) in
    let rc = Fits-profinet m (app.classes rtc) in
    let ra = Fits-profinet m (app.classes rta) in
    let d = Fits-iff m (app.classes dcp) 36 in
    let ll = Fits-iff m (app.classes lldp) 30 in
    let uh = Fits-iff m (app.classes udp_high) 16 in
    let ul = Fits-iff m (app.classes udp_low) 16 in
    (
      λ h. record {
        generic_l2_fits = l.0 (ground (arith, h));
        tsn_high_fits = th.0 (ground (arith, h));
        tsn_low_fits = tl.0 (ground (arith, h));
        rtc_fits = rc.0 (ground (arith, h));
        rta_fits = ra.0 (ground (arith, h));
        dcp_fits = d.0 (ground (arith, h));
        lldp_fits = ll.0 (ground (arith, h));
        udp_high_fits = uh.0 (ground (arith, h));
        udp_low_fits = ul.0 (ground (arith, h));
      },
      λ w.
          rw
            (
              l.1 w.generic_l2_fits,
              th.1 w.tsn_high_fits,
              tl.1 w.tsn_low_fits,
              rc.1 w.rtc_fits,
              ra.1 w.rta_fits,
              d.1 w.dcp_fits,
              ll.1 w.lldp_fits,
              uh.1 w.udp_high_fits,
              ul.1 w.udp_low_fits,
            )
            refl,
    )

features_iff :
    (build : Build) (app : AppConfig) → (features_valid build app ≡ true) ↔ FeaturesSane build app
unfolding features_valid any_tx_hwtstamp any_busy_poll xdp_tx_time
features_iff build app =
    let tai = tai_iff app.clock_id in
    (
      λ h. record {
        launch_time = λ off. (λ on. ground arith, λ on. ground arith, λ on. ground arith);
        clock = λ n.
            let other : is_tai app.clock_id ≡ false = ground (arith, tai.0, n) in
            (ground arith, (ground arith, ground arith, ground arith, ground arith, ground arith));
        tx_timestamp =
            λ off. (ground arith, ground arith, ground arith, ground arith, ground arith);
        busy_poll = λ off. (ground arith, ground arith, ground arith, ground arith, ground arith);
        mosquitto = λ off. ground arith;
      },
      λ w.
          let clock : is_tai app.clock_id ≡ false
              → (build.rx_timestamp ≡ false) × NoTxHwtstamp app =
            λ off. w.clock (λ e. absurd (ground (arith, tai.1 e, off))) in
          ground (arith, w.launch_time, clock, w.tx_timestamp, w.busy_poll, w.mosquitto),
    )

keys_iff :
    (app : AppConfig)
    → (keys_valid app ≡ true) ↔ (
        Keyed (app.classes tsn_high)
        × Keyed (app.classes tsn_low)
        × Keyed (app.classes rtc)
        × Keyed (app.classes rta))
unfolding keys_valid
keys_iff app =
    let th = Keyed-iff (app.classes tsn_high) in
    let tl = Keyed-iff (app.classes tsn_low) in
    let rc = Keyed-iff (app.classes rtc) in
    let ra = Keyed-iff (app.classes rta) in
    (
      λ h. (th.0 (ground arith), tl.0 (ground arith), rc.0 (ground arith), ra.0 (ground arith)),
      λ w. rw (th.1 w.0, tl.1 w.1, rc.1 w.2, ra.1 w.3) refl,
    )

rest_iff : (app : AppConfig) → ((keys_valid app ≡ true) × (rest_valid app ≡ true)) ↔ RestSane app
unfolding rest_valid
rest_iff app = (
  λ h. record {
    keys = (keys_iff app).0 h.0;
    histogram = ground (arith, h.1);
    ethercat = λ on ecat.
        ground (arith, h.1, (ethercat_iff (app.classes generic_l2).protocol_type).1 ecat);
  },
  λ w.
      let holds : is_tc_active app generic_l2 ≡ true
          → is_ethercat (app.classes generic_l2).protocol_type ≡ true
          → 36 ≤ (app.classes generic_l2).frame_length =
        λ on e. w.ethercat on ((ethercat_iff (app.classes generic_l2).protocol_type).0 e) in
      ((keys_iff app).1 w.keys, ground (arith, w.histogram, holds)),
)

-- config_sanity_check accepts a configuration just if: GenericL2 and PROFINET are not both active;
-- reception comes before transmission within a cycle; in every class the headers and the pattern
-- fit the frame and the frame its buffer; launch times, time stamps, busy polling and MQTT are
-- asked for only where the build and the clock (CLOCK_TAI) allow; the keys of secured classes have
-- their lengths; the histogram's bounds are in order; and an EtherCAT frame holds its datagram.
pub config_sanity_check_iff :
    (max_frame_size : ℕ) (build : Build) (app : AppConfig)
    → (config_sanity_check max_frame_size build app ≡ true) ↔ (
        ApplicationSane app
        × LengthsSane max_frame_size app
        × FeaturesSane build app
        × RestSane app)
unfolding config_sanity_check
config_sanity_check_iff m build app = (
  λ h. (
    (application_iff app).0 (ground arith),
    (lengths_iff m app).0 (ground arith),
    (features_iff build app).0 (ground arith),
    (rest_iff app).0 (ground arith, ground arith),
  ),
  λ w.
      rw
        (
          (application_iff app).1 w.0,
          (lengths_iff m app).1 w.1,
          (features_iff build app).1 w.2,
          ((rest_iff app).1 w.3).0,
        )
        ((rest_iff app).1 w.3).1,
)
