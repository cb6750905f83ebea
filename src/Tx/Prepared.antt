-- ===== src/Tx/Prepared.antt =====
-- A PROFINET frame on its way from prepare_frame_for_tx of src/utils.c to receive_profinet_frame of
-- src/profinet.c at the other end, in each of the three modes.
use rtc_testbench.Base.{
  ℕ, ◌+◌, ◌-◌, ◌≤◌, ◌≡◌, refl, sym, ap, ◌∙◌, inl, inr, true, List, [], arith, length, slice, memcpy,
  length-memcpy,
}
use rtc_testbench.Bytes.Region.{Keeps, Keeps-trans, memcpy-Keeps, slice-Keeps, slice-memcpy}
use rtc_testbench.Types.{ClassConfig, AppConfig}
use rtc_testbench.Frame.{prepare_iv}
use rtc_testbench.Rx.Profinet.{Cipher, iv_of_frame, decrypt_ao, decrypt_ae}
use rtc_testbench.Rx.Profinet.Reseal.{IsAead, decrypt_ext, no_text}
use rtc_testbench.Tx.Prepare.{PrepareFrameConfig, set_meta_data, prepare_ao, prepare_ae}
use rtc_testbench.Tx.Meta.{Says, Says-Keeps, Holds, set_meta_data-Says, set_meta_data-Keeps}

-- A frame that holds the headers and the checksum, and its prepared meta data.
module _ (cipher : Cipher) (aead : IsAead cipher) (app : AppConfig) (conf : ClassConfig) where
  -- The initial vector that the receiver computes.
  iv-Says :
      (f : List ℕ) (seq ts : ℕ)
      → Says conf.num_frames_per_cycle 28 seq ts f
      → iv_of_frame conf f 18 ≡ prepare_iv conf.security_iv_prefix seq
  unfolding iv_of_frame
  iv-Says f seq ts w = rw w.counter refl

  module _ (c : PrepareFrameConfig) (f : List ℕ) where
    abbrev Fitting : Type 0
    Fitting =
        (c.iv_prefix ≡ conf.security_iv_prefix)
        × (c.num_frames_per_cycle ≡ conf.num_frames_per_cycle)
        × Holds c.num_frames_per_cycle c.sequence_counter c.tx_timestamp
        × (c.frame_length ≤ length f)

    -- Mode AO.
    pub prepare_ao-sealed :
        Fitting
        → 60 ≤ c.frame_length
        → let f' = prepare_ao cipher c f in
          (decrypt_ao cipher app conf f' c.frame_length 18 ≡ (true, []))
          × Says conf.num_frames_per_cycle 28 c.sequence_counter c.tx_timestamp f'
          × Keeps 12 20 f f'
          × Keeps 44 (c.frame_length - 16) f f'
    unfolding prepare_ao decrypt_ao
    prepare_ao-sealed (e, n, w, l) h =
        let g = set_meta_data c f 28 in
        let k = set_meta_data-Keeps c f 28 12 20 (omega arith) (inl (omega arith)) in
        let aad = slice 18 (c.frame_length - 18 - 16) g in
        let iv = prepare_iv c.iv_prefix c.sequence_counter in
        let out = cipher.encrypt [] aad iv in
        let lc = aead.checksum_length [] aad iv in
        let f' = memcpy (c.frame_length - 16) (out.1) g in
        let lg = k.length_kept in
        let fits : c.frame_length - 16 + length (out.1) ≤ length g = omega (arith, lc, lg) in
        let before : Keeps 0 (c.frame_length - 16) g f' =
          memcpy-Keeps 0 (c.frame_length - 16) (c.frame_length - 16) (out.1) g fits
            (inl (omega arith)) in
        let said : Says conf.num_frames_per_cycle 28 c.sequence_counter c.tx_timestamp f' =
          rw (← n) (
            Says-Keeps c.num_frames_per_cycle 28 c.sequence_counter c.tx_timestamp
              (memcpy-Keeps 28 44 (c.frame_length - 16) (out.1) g fits (inl (omega arith)))
              (set_meta_data-Says c f 28 w (omega arith))) in
        let same_aad : slice 18 (c.frame_length - 18 - 16) f' ≡ aad =
          slice-Keeps 18 (c.frame_length - 18 - 16) before (omega arith) (omega arith)
            (omega (arith, lg)) in
        let same_sum : slice (c.frame_length - 16) 16 f' ≡ out.1 =
          ap (λ (i : ℕ). slice (c.frame_length - 16) i f') (sym lc)
          ∙ slice-memcpy (c.frame_length - 16) (out.1) g fits in
        let same_iv : iv_of_frame conf f' 18 ≡ iv =
          iv-Says f' c.sequence_counter c.tx_timestamp said
          ∙ ap (λ (x : List ℕ). prepare_iv x c.sequence_counter) (sym e) in
        let empty : out.0 ≡ [] = no_text (out.0) (aead.ciphertext_length [] aad iv) in
        let result : cipher.decrypt [] aad (out.1) iv ≡ (true, []) =
          rw empty at (aead.authentic [] aad iv) in
        (
          decrypt_ext cipher [] same_aad same_sum same_iv ∙ result,
          said,
          Keeps-trans k
              (memcpy-Keeps 12 20 (c.frame_length - 16) (out.1) g fits (inl (omega arith))),
          Keeps-trans
              (set_meta_data-Keeps c f 28 44 (c.frame_length - 16) (omega arith)
                (inr (omega arith)))
              (memcpy-Keeps 44 (c.frame_length - 16) (c.frame_length - 16) (out.1) g fits
                (inl (omega arith))),
        )

    -- Mode AE, with a text that fills the frame between the header and the checksum.
    pub prepare_ae-sealed :
        Fitting
        → 60 + length c.payload_pattern ≡ c.frame_length
        → let f' = prepare_ae cipher c f in
          (decrypt_ae cipher app conf f' c.frame_length 18 ≡ (true, c.payload_pattern))
          × Says conf.num_frames_per_cycle 28 c.sequence_counter c.tx_timestamp f'
          × Keeps 12 20 f f'
    unfolding prepare_ae decrypt_ae
    prepare_ae-sealed (e, n, w, l) h =
        let len = c.frame_length in
        let g = set_meta_data c f 28 in
        let k = set_meta_data-Keeps c f 28 12 20 (omega arith) (inl (omega arith)) in
        let aad = slice 18 26 g in
        let iv = prepare_iv c.iv_prefix c.sequence_counter in
        let out = cipher.encrypt c.payload_pattern aad iv in
        let lc = aead.checksum_length c.payload_pattern aad iv in
        let lt = aead.ciphertext_length c.payload_pattern aad iv in
        let lg = k.length_kept in
        let fits_text : 44 + length (out.0) ≤ length g = omega (arith, lt, lg) in
        let t = memcpy 44 (out.0) g in
        let ltx = length-memcpy 44 (out.0) g in
        let f' = memcpy (len - 16) (out.1) t in
        let fits : len - 16 + length (out.1) ≤ length t = omega (arith, lc, lg, ltx) in
        let header : (lo : ℕ) (hi : ℕ) → hi ≤ 44 → Keeps lo hi g f' = λ lo hi u.
          Keeps-trans (memcpy-Keeps lo hi 44 (out.0) g fits_text (inl u))
            (memcpy-Keeps lo hi (len - 16) (out.1) t fits (inl (omega arith))) in
        let said : Says conf.num_frames_per_cycle 28 c.sequence_counter c.tx_timestamp f' =
          rw (← n) (
            Says-Keeps c.num_frames_per_cycle 28 c.sequence_counter c.tx_timestamp
              (header 28 44 (omega arith)) (set_meta_data-Says c f 28 w (omega arith))) in
        let text_len : len - 18 - 26 - 16 ≡ length (out.0) = omega (arith, lt) in
        let same_text : slice 44 (len - 18 - 26 - 16) f' ≡ out.0 =
          slice-Keeps 44 (len - 18 - 26 - 16)
            (memcpy-Keeps 44 (len - 16) (len - 16) (out.1) t fits (inl (omega arith))) (omega arith)
            (omega arith) (omega (arith, lg, ltx))
          ∙ ap (λ (i : ℕ). slice 44 i t) text_len
          ∙ slice-memcpy 44 (out.0) g fits_text in
        let same_aad : slice 18 26 f' ≡ aad =
          slice-Keeps 18 26 (header 18 44 (omega arith)) (omega arith) (omega arith)
            (omega (arith, lg)) in
        let same_sum : slice (len - 16) 16 f' ≡ out.1 =
          ap (λ (i : ℕ). slice (len - 16) i f') (sym lc) ∙ slice-memcpy (len - 16) (out.1) t fits in
        let same_iv : iv_of_frame conf f' 18 ≡ iv =
          iv-Says f' c.sequence_counter c.tx_timestamp said
          ∙ ap (λ (x : List ℕ). prepare_iv x c.sequence_counter) (sym e) in
        (
          ap
                (λ (x : List ℕ).
                  cipher.decrypt x (slice 18 26 f') (slice (len - 16) 16 f')
                    (iv_of_frame conf f' 18))
                same_text
              ∙ decrypt_ext cipher (out.0) same_aad same_sum same_iv
              ∙ aead.authentic c.payload_pattern aad iv,
          said,
          Keeps-trans k (header 12 20 (omega arith)),
        )
