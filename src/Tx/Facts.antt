-- ===== src/Tx/Facts.antt =====
-- The prepared frame at the other end, in each of the three modes: its meta data, its header, and
-- what receive_profinet_frame of src/profinet.c compares with the pattern.
use rtc_testbench.Base.{
  ℕ, ◌+◌, ◌-◌, ◌≤◌, ◌≡◌, refl, ap, ◌∙◌, inl, inr, Bool, true, List, [], arith, length, take, slice,
  memcpy, length-memcpy, length-take, list_ext, get_or-take, get_or-memcpy,
}
use rtc_testbench.Bytes.Region.{Keeps, Keeps-trans, memcpy-Keeps, store-Keeps, slice-Keeps}
use rtc_testbench.Types.{
  FrameType, mode_none, mode_ao, mode_ae, is_mode_none, ClassConfig, AppConfig,
}
use rtc_testbench.Frame.{tx_timestamp_to_meta_data}
use rtc_testbench.Rx.{set_mirror_tx_timestamp_est}
use rtc_testbench.Rx.Profinet.{
  Cipher, PnThreadConf, profinet_meta_data, iv_of_frame, decrypt_ao, reseal_ao, decrypt_ae,
  profinet_secure,
}
use rtc_testbench.Rx.Profinet.Reseal.{IsAead}
use rtc_testbench.Tx.Prepare.{
  PrepareFrameConfig, frame_config_of, set_meta_data, prepare_ao, prepare_ae,
}
use rtc_testbench.Tx.Meta.{Says, Holds, set_meta_data-Says, set_meta_data-Keeps}
use rtc_testbench.Tx.Prepared.{prepare_ao-sealed, prepare_ae-sealed}

stamp-Keeps :
    (app : AppConfig) (f : List ℕ) (m lo hi now : ℕ)
    → m + 16 ≤ length f
    → m + 16 ≤ lo
    → Keeps lo hi f (set_mirror_tx_timestamp_est app f m now)
unfolding set_mirror_tx_timestamp_est tx_timestamp_to_meta_data
stamp-Keeps app f m lo hi now h l =
    store-Keeps lo hi 8 (m + 8) _ f (omega arith) (inr (omega arith))

slice_prefix :
    (xs buffer : List ℕ) (n : ℕ)
    → length xs ≤ length buffer
    → n ≤ length xs
    → slice 0 n (memcpy 0 xs buffer) ≡ take n xs
slice_prefix xs buffer n h l =
    list_ext 0 _ _
      (omega
        (arith, length-take n (memcpy 0 xs buffer), length-take n xs, length-memcpy 0 xs buffer))
      (λ i hi. ground (
        arith,
        length-take n (memcpy 0 xs buffer),
        length-memcpy 0 xs buffer,
        get_or-take n (memcpy 0 xs buffer) i 0,
        get_or-take n xs i 0,
        get_or-memcpy 0 xs buffer i 0,
      ))

module _ (cipher : Cipher) (aead : IsAead cipher) (app : AppConfig) (conf : ClassConfig)
    (t : FrameType) (thread : PnThreadConf) (f plaintext : List ℕ) (seq ts now : ℕ) where
  abbrev pub config : PrepareFrameConfig
  unfolding frame_config_of
  config = frame_config_of conf t thread.payload_pattern seq ts

  -- What preparation makes of the frame, and what the receiver compares with the pattern.
  pub record Facts (f' : List ℕ) : Type 0 where
    pub says : Says conf.num_frames_per_cycle (profinet_meta_data conf.security_mode 18) seq ts f'
    pub header : Keeps 12 20 f f'
    pub compared :
        (profinet_secure cipher app conf thread plaintext f' conf.frame_length 18 now).1
        ≡ conf.payload_pattern

  -- The three cases of the receiver.
  payload_none :
      (g : List ℕ)
      → conf.security_mode ≡ mode_none
      → (profinet_secure cipher app conf thread plaintext g conf.frame_length 18 now).1
        ≡ slice 36 (length conf.payload_pattern) (set_mirror_tx_timestamp_est app g 20 now)
  unfolding profinet_secure
  payload_none g e = rw (profinet_secure, e) refl

  payload_ao :
      (g : List ℕ)
      → conf.security_mode ≡ mode_ao
      → (profinet_secure cipher app conf thread plaintext g conf.frame_length 18 now).1
        ≡ slice 44
            (length conf.payload_pattern)
            (reseal_ao cipher app conf g conf.frame_length 18 now)
  unfolding profinet_secure reseal_ao iv_of_frame
  payload_ao g e = rw (profinet_secure, e) refl

  payload_ae :
      (g : List ℕ)
      → conf.security_mode ≡ mode_ae
      → (profinet_secure cipher app conf thread plaintext g conf.frame_length 18 now).1
        ≡ slice 0
            (length conf.payload_pattern)
            (memcpy 0 ((decrypt_ae cipher app conf g conf.frame_length 18).1) plaintext)
  unfolding profinet_secure decrypt_ae iv_of_frame
  payload_ae g e = rw (profinet_secure, e) refl

  reseal-Keeps :
      (g : List ℕ)
      → 60 ≤ conf.frame_length
      → conf.frame_length ≤ length g
      → Keeps 44 (conf.frame_length - 16) g (reseal_ao cipher app conf g conf.frame_length 18 now)
  unfolding reseal_ao
  reseal-Keeps g h l =
      let len = conf.frame_length in
      let stamped = set_mirror_tx_timestamp_est app g 28 now in
      let k = stamp-Keeps app g 28 44 (len - 16) now (omega arith) (omega arith) in
      let aad = slice 18 (len - 18 - 16) stamped in
      let out = cipher.encrypt [] aad (iv_of_frame conf g 18) in
      let lc = aead.checksum_length [] aad (iv_of_frame conf g 18) in
      Keeps-trans k (
        memcpy-Keeps 44 (len - 16) (len - 16) (out.1) stamped (omega (arith, lc, k.length_kept))
          (inl (omega arith)))

  at_offset :
      (g : List ℕ) (i : ℕ)
      → profinet_meta_data conf.security_mode 18 ≡ i
      → Says conf.num_frames_per_cycle i seq ts g
      → Says conf.num_frames_per_cycle (profinet_meta_data conf.security_mode 18) seq ts g
  at_offset g i e w = rw e w

  pub Facts-none :
      conf.security_mode ≡ mode_none
      → Holds conf.num_frames_per_cycle seq ts
      → 36 + length conf.payload_pattern ≤ length f
      → slice 36 (length conf.payload_pattern) f ≡ conf.payload_pattern
      → Facts (set_meta_data config f 20)
  unfolding profinet_meta_data is_mode_none frame_config_of
  Facts-none e w h p =
      let n = length conf.payload_pattern in
      let g = set_meta_data config f 20 in
      let k = set_meta_data-Keeps config f 20 36 (36 + n) (omega arith) (inr (omega arith)) in
      let kept =
        Keeps-trans k
          (stamp-Keeps app g 20 36 (36 + n) now (omega (arith, k.length_kept)) (omega arith)) in
      record {
        says =
            at_offset g 20 (rw (profinet_meta_data, e) refl)
              (set_meta_data-Says config f 20 w (omega arith));
        header = set_meta_data-Keeps config f 20 12 20 (omega arith) (inl (omega arith));
        compared = payload_none g e ∙ slice-Keeps 36 n kept (omega arith) (omega arith) h ∙ p;
      }

  pub Facts-ao :
      conf.security_mode ≡ mode_ao
      → Holds conf.num_frames_per_cycle seq ts
      → 60 + length conf.payload_pattern ≤ conf.frame_length
      → conf.frame_length ≤ length f
      → slice 44 (length conf.payload_pattern) f ≡ conf.payload_pattern
      → Facts (prepare_ao cipher config f)
        × (decrypt_ao cipher app conf (prepare_ao cipher config f) conf.frame_length 18
            ≡ (true, []))
  unfolding profinet_meta_data is_mode_none frame_config_of
  Facts-ao e w h l p =
      let n = length conf.payload_pattern in
      let g = prepare_ao cipher config f in
      let (ok, says, header, middle) =
        prepare_ao-sealed cipher aead app conf config f (refl, refl, w, l) (omega arith) in
      let kept =
        Keeps-trans middle (reseal-Keeps g (omega arith) (omega (arith, header.length_kept))) in
      (
        record {
          says = at_offset g 28 (rw (profinet_meta_data, e) refl) says;
          header = header;
          compared =
              payload_ao g e ∙ slice-Keeps 44 n kept (omega arith) (omega arith) (omega arith) ∙ p;
        },
        ok,
      )

  pub Facts-ae :
      conf.security_mode ≡ mode_ae
      → Holds conf.num_frames_per_cycle seq ts
      → 60 + length thread.payload_pattern ≡ conf.frame_length
      → conf.frame_length ≤ length f
      → length thread.payload_pattern ≤ length plaintext
      → length conf.payload_pattern ≤ length thread.payload_pattern
      → take (length conf.payload_pattern) thread.payload_pattern ≡ conf.payload_pattern
      → Facts (prepare_ae cipher config f)
        × (decrypt_ae cipher app conf (prepare_ae cipher config f) conf.frame_length 18
            ≡ (true, thread.payload_pattern))
  unfolding profinet_meta_data is_mode_none frame_config_of
  Facts-ae e w h l room shorter p =
      let n = length conf.payload_pattern in
      let g = prepare_ae cipher config f in
      let (ok, says, header) =
        prepare_ae-sealed cipher aead app conf config f (refl, refl, w, l) h in
      (
        record {
          says = at_offset g 28 (rw (profinet_meta_data, e) refl) says;
          header = header;
          compared =
              payload_ae g e
              ∙ ap (λ (x : Bool × List ℕ). slice 0 n (memcpy 0 (x.1) plaintext)) ok
              ∙ slice_prefix thread.payload_pattern plaintext n room shorter
              ∙ p;
        },
        ok,
      )
