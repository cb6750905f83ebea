-- ===== src/Rx/Profinet/Forwarded.antt =====
-- What the mirror sends on of a secured frame: receive_profinet_frame of src/profinet.c from its
-- security to its end.
use rtc_testbench.Base.{
  ℕ, ◌+◌, ◌-◌, ◌≤◌, ◌≡◌, ap, ◌∙◌, Bool, true, false, List, [], arith, length, length-memcpy,
  if◌then◌else◌,
}
use rtc_testbench.Bytes.{length-store}
use rtc_testbench.Types.{ClassConfig, AppConfig}
use rtc_testbench.Frame.{meta_data_to_tx_timestamp, tx_timestamp_to_meta_data}
use rtc_testbench.Rx.{RxContext, set_mirror_tx_timestamp_est}
use rtc_testbench.Rx.Profinet.{
  Cipher, decrypt_ao, reseal_ao, decrypt_ae, reseal_ae, profinet_mirror,
}
use rtc_testbench.Rx.Profinet.Reseal.{
  IsAead, mirror_timestamp, reseal_ao-authentic, reseal_ae-authentic,
}
use rtc_testbench.Rx.Profinet.Moved.{
  Moved, stamp-Moved, handed, mirror-Moved, decrypt_ao-Moved, decrypt_ae-Moved,
}

-- How the mirror's answer is received: the two keys and the rest of the configuration agree.
module _ (cipher : Cipher) (app : AppConfig) (conf : ClassConfig) (aead : IsAead cipher) where
  length-reseal_ao :
      (f : List ℕ) (len p now : ℕ)
      → p + 42 ≤ len
      → len ≤ length f
      → length (reseal_ao cipher app conf f len p now) ≡ length f
  unfolding reseal_ao set_mirror_tx_timestamp_est tx_timestamp_to_meta_data
  length-reseal_ao f len p now h l = length-memcpy (len - 16) _ _ ∙ length-store 8 f (p + 10 + 8) _

  length-reseal_ae :
      (pattern f : List ℕ) (len p now : ℕ)
      → length (reseal_ae cipher app conf pattern f len p now) ≡ length f
  unfolding reseal_ae set_mirror_tx_timestamp_est tx_timestamp_to_meta_data
  length-reseal_ae pattern f len p now =
      length-memcpy (len - 16) _ _ ∙ length-memcpy (p + 26) _ _ ∙ length-store 8 f (p + 10 + 8) _

  -- A frame as the mirror hands it over, for one that was received with `len` bytes, without its
  -- VLAN tag if `missing`: authentic to a receiver with the same keys, which finds the header behind
  -- a VLAN header and decrypts to this, and with the mirror's time stamp.
  pub record IsAnswer (decrypt : List ℕ → ℕ → ℕ → Bool × List ℕ) (text : List ℕ) (missing : Bool)
      (len now : ℕ) (g : List ℕ) : Type 0 where
    pub authentic : decrypt g (if missing then len + 4 else len) 18 ≡ (true, text)
    pub stamped : meta_data_to_tx_timestamp g 28 ≡ mirror_timestamp app now

  answer_lem :
      (decrypt : List ℕ → ℕ → ℕ → Bool × List ℕ) (text : List ℕ) (missing : Bool) (len now : ℕ)
      (f g : List ℕ)
      → ((p d : ℕ)
          → Moved p d len f g
          → p + 42 ≤ len
          → decrypt g (len + d) (p + d) ≡ decrypt f len p)
      → Moved (if missing then 14 else 18) (if missing then 4 else 0) len f g
      → (if missing then 14 else 18) + 42 ≤ len
      → decrypt f len (if missing then 14 else 18) ≡ (true, text)
      → meta_data_to_tx_timestamp f ((if missing then 14 else 18) + 10) ≡ mirror_timestamp app now
      → IsAnswer decrypt text missing len now g
  answer_lem decrypt text true len now f g k m h e s = record {
    authentic = k 14 4 m h ∙ e;
    stamped = stamp-Moved m h ∙ s;
  }
  answer_lem decrypt text false len now f g k m h e s = record {
    authentic =
        ap (λ (n : ℕ). decrypt g n 18) {x = len} {y = len + 0} (omega arith) ∙ k 18 0 m h ∙ e;
    stamped = stamp-Moved m h ∙ s;
  }

  -- In mode AO, whatever the mirror received, and whether or not that was authentic, the frame that
  -- it hands over is authentic to a receiver with the same keys and carries the mirror's time stamp,
  -- with XDP in the received buffer, with or without its VLAN tag, and else as a new frame in the
  -- ring buffer, whose header is found behind the VLAN header that is built. A packet socket must
  -- deliver the frames without their tag, the headers and the checksum fit the length, the frame
  -- with its tag the buffers, and the cipher be one of authenticated encryption.
  pub profinet_mirror-reseal_ao :
      (max_frame_size : ℕ) (new_frame : List ℕ) (ctx : RxContext) (missing : Bool) (f : List ℕ)
      (len now : ℕ)
      → conf.rx_mirror_enabled ≡ true
      → (conf.xdp_enabled ≡ false → missing ≡ true)
      → (if missing then 14 else 18) + 42 ≤ len
      → len + 4 ≤ max_frame_size
      → max_frame_size ≤ length f
      → max_frame_size ≤ length new_frame
      → let f' = reseal_ao cipher app conf f len (if missing then 14 else 18) now in
        (g : List ℕ) × (profinet_mirror max_frame_size conf missing new_frame ctx f' len
          ≡ handed max_frame_size conf new_frame ctx f' g)
        × IsAnswer (decrypt_ao cipher app conf) [] missing len now g
  profinet_mirror-reseal_ao mx new_frame ctx missing f len now m strip h b c d =
      let p : ℕ = if missing then 14 else 18 in
      let big : 14 ≤ p = ground arith in
      let f' = reseal_ao cipher app conf f len p now in
      let size = length-reseal_ao f len p now h (omega (arith, b, c)) in
      let (e, s) = reseal_ao-authentic cipher app conf aead f len p now h (omega (arith, b, c)) in
      let (g, handed_over, moved) =
        mirror-Moved mx conf new_frame ctx missing f' len m strip (omega (arith, h, big)) b
          (omega (arith, size, c)) d in
      (
        g,
        handed_over,
        answer_lem (decrypt_ao cipher app conf) [] missing len now f' g
            (λ q k w r. decrypt_ao-Moved cipher app conf w r) moved (omega (arith, h)) e s,
      )

  -- In mode AE, whatever the mirror received, the frame that it hands over is authentic to a receiver
  -- with the same keys, its text is the pattern of the mirror's thread, and it carries the mirror's
  -- time stamp, on each of the three ways that mode AO has. The pattern must fill the frame between
  -- the header and the checksum, a packet socket deliver the frames without their tag, the frame
  -- with its tag fit the buffers, and the cipher be one of authenticated encryption.
  pub profinet_mirror-reseal_ae :
      (max_frame_size : ℕ) (pattern new_frame : List ℕ) (ctx : RxContext) (missing : Bool)
      (f : List ℕ) (len now : ℕ)
      → conf.rx_mirror_enabled ≡ true
      → (conf.xdp_enabled ≡ false → missing ≡ true)
      → (if missing then 14 else 18) + 42 + length pattern ≡ len
      → len + 4 ≤ max_frame_size
      → max_frame_size ≤ length f
      → max_frame_size ≤ length new_frame
      → let f' = reseal_ae cipher app conf pattern f len (if missing then 14 else 18) now in
        (g : List ℕ) × (profinet_mirror max_frame_size conf missing new_frame ctx f' len
          ≡ handed max_frame_size conf new_frame ctx f' g)
        × IsAnswer (decrypt_ae cipher app conf) pattern missing len now g
  profinet_mirror-reseal_ae mx pattern new_frame ctx missing f len now m strip h b c d =
      let p : ℕ = if missing then 14 else 18 in
      let big : 14 ≤ p = ground arith in
      let f' = reseal_ae cipher app conf pattern f len p now in
      let size = length-reseal_ae pattern f len p now in
      let (e, s) =
        reseal_ae-authentic cipher app conf aead pattern f len p now h (omega (arith, b, c)) in
      let (g, handed_over, moved) =
        mirror-Moved mx conf new_frame ctx missing f' len m strip (omega (arith, h, big)) b
          (omega (arith, size, c)) d in
      (
        g,
        handed_over,
        answer_lem (decrypt_ae cipher app conf) pattern missing len now f' g
            (λ q k w r. decrypt_ae-Moved cipher app conf w r) moved (omega (arith, h)) e s,
      )
