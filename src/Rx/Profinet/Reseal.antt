-- ===== src/Rx/Profinet/Reseal.antt =====
-- What the mirror does to a secured frame in receive_profinet_frame of src/profinet.c, before it
-- sends it on.
use rtc_testbench.Base.{
  ℕ, ◌+◌, ◌-◌, ◌≤◌, ◌≡◌, refl, sym, ap, ◌∙◌, ◌⊎◌, inl, true, List, [], ◌∷◌, arith, length, slice,
  memcpy, u64, sub64, length-memcpy,
}
use rtc_testbench.Bytes.{store, length-store, load-store_self, load-store_apart, load-memcpy_apart}
use rtc_testbench.Types.{ClassConfig, AppConfig}
use rtc_testbench.Frame.{
  meta_data_to_sequence_counter, meta_data_to_tx_timestamp, tx_timestamp_to_meta_data,
}
use rtc_testbench.Bytes.Region.{slice-memcpy, slice-Keeps, memcpy-Keeps}
use rtc_testbench.Rx.{set_mirror_tx_timestamp_est}
use rtc_testbench.Rx.Profinet.{Cipher, iv_of_frame, decrypt_ao, reseal_ao, decrypt_ae, reseal_ae}

-- Authenticated encryption, as OpenSSL documents it: what was encrypted is decrypted and found
-- authentic under the same data and initial vector, the cipher text is as long as the text, and
-- the checksum has 16 bytes.
pub record IsAead (c : Cipher) : Type 0 where
  pub authentic :
      (text aad iv : List ℕ)
      → c.decrypt ((c.encrypt text aad iv).0) aad ((c.encrypt text aad iv).1) iv ≡ (true, text)
  pub ciphertext_length : (text aad iv : List ℕ) → length ((c.encrypt text aad iv).0) ≡ length text
  pub checksum_length : (text aad iv : List ℕ) → length ((c.encrypt text aad iv).1) ≡ 16

pub slice-memcpy_apart :
    (to off n : ℕ) (xs f : List ℕ)
    → to + length xs ≤ length f
    → (off + n ≤ to) ⊎ (to + length xs ≤ off)
    → off + n ≤ length f
    → slice off n (memcpy to xs f) ≡ slice off n f
slice-memcpy_apart to off n xs f h d l =
    slice-Keeps off n (memcpy-Keeps off (off + n) to xs f h d) (omega arith) (omega arith) l

pub no_text : (xs : List ℕ) → length xs ≡ 0 → xs ≡ []
no_text [] h = refl
no_text (x ∷ xs) h = absurd (omega arith)

-- A copy behind the meta data leaves the counter, and so the initial vector, as it was.
pub iv-memcpy :
    (conf : ClassConfig) (f xs : List ℕ) (p to : ℕ)
    → p + 26 ≤ to
    → to + length xs ≤ length f
    → iv_of_frame conf (memcpy to xs f) p ≡ iv_of_frame conf f p
unfolding iv_of_frame meta_data_to_sequence_counter
iv-memcpy conf f xs p to a h =
    let c = load-memcpy_apart 4 f xs (p + 10) to h (inl (omega arith)) in
    let d = load-memcpy_apart 4 f xs (p + 10 + 4) to h (inl (omega arith)) in rw (c, d) refl

iv-stamp :
    (conf : ClassConfig) (f : List ℕ) (p ts : ℕ)
    → p + 26 ≤ length f
    → iv_of_frame conf (store 8 f (p + 10 + 8) ts) p ≡ iv_of_frame conf f p
unfolding iv_of_frame meta_data_to_sequence_counter
iv-stamp conf f p ts h =
    let c = load-store_apart 4 8 f (p + 10) (p + 10 + 8) ts (omega arith) (inl (omega arith)) in
    let d = load-store_apart 4 8 f (p + 10 + 4) (p + 10 + 8) ts (omega arith) (inl (omega arith)) in
    rw (c, d) refl

pub decrypt_ext :
    (c : Cipher) (text : List ℕ) {a a' s s' v v' : List ℕ}
    → a ≡ a'
    → s ≡ s'
    → v ≡ v'
    → c.decrypt text a s v ≡ c.decrypt text a' s' v'
decrypt_ext c text {a} {a'} {s} {s'} {v} {v'} ea es ev =
    ap (λ (x : List ℕ). c.decrypt text x s v) ea
    ∙ ap (λ (x : List ℕ). c.decrypt text a' x v) es
    ∙ ap (λ (x : List ℕ). c.decrypt text a' s' x) ev

-- The Tx time stamp of a mirror's answer.
unfoldable pub mirror_timestamp : AppConfig → ℕ → ℕ
mirror_timestamp app now = u64 (now + sub64 app.tx_base_offset_ns app.rx_base_offset_ns)

module _ (cipher : Cipher) (app : AppConfig) (conf : ClassConfig) (aead : IsAead cipher) where
  -- In mode AO, whatever the mirror received, and whether or not that was authentic, the frame is
  -- authentic to a receiver with the same keys once the mirror has stamped and sealed it in its
  -- buffer, at the offset where it was received, and carries the mirror's time stamp.
  -- The headers and the checksum must fit the length, and the cipher be one of authenticated
  -- encryption.
  pub reseal_ao-authentic :
      (f : List ℕ) (len p now : ℕ)
      → p + 42 ≤ len
      → len ≤ length f
      → let f' = reseal_ao cipher app conf f len p now in
        (decrypt_ao cipher app conf f' len p ≡ (true, []))
        × (meta_data_to_tx_timestamp f' (p + 10) ≡ mirror_timestamp app now)
  unfolding reseal_ao decrypt_ao set_mirror_tx_timestamp_est tx_timestamp_to_meta_data
      meta_data_to_tx_timestamp mirror_timestamp
  reseal_ao-authentic f len p now h l =
      let ts : ℕ = u64 (now + sub64 app.tx_base_offset_ns app.rx_base_offset_ns) in
      let stamped = store 8 f (p + 10 + 8) ts in
      let ls = length-store 8 f (p + 10 + 8) ts in
      let aad = slice p (len - p - 16) stamped in
      let iv = iv_of_frame conf f p in
      let out = cipher.encrypt [] aad iv in
      let lc = aead.checksum_length [] aad iv in
      let f' = memcpy (len - 16) (out.1) stamped in
      let fits : len - 16 + length (out.1) ≤ length stamped = omega (arith, lc, ls) in
      let same_aad : slice p (len - p - 16) f' ≡ aad =
        slice-memcpy_apart (len - 16) p (len - p - 16) (out.1) stamped fits (inl (omega arith))
          (omega (arith, ls)) in
      let same_sum : slice (len - 16) 16 f' ≡ out.1 =
        ap (λ (n : ℕ). slice (len - 16) n f') (sym lc)
        ∙ slice-memcpy (len - 16) (out.1) stamped fits in
      let same_iv : iv_of_frame conf f' p ≡ iv =
        iv-memcpy conf stamped (out.1) p (len - 16) (omega arith) fits
        ∙ iv-stamp conf f p ts (omega arith) in
      let empty : out.0 ≡ [] = no_text (out.0) (aead.ciphertext_length [] aad iv) in
      let result : cipher.decrypt [] aad (out.1) iv ≡ (true, []) =
        rw empty at (aead.authentic [] aad iv) in
      (
        decrypt_ext cipher [] same_aad same_sum same_iv ∙ result,
        load-memcpy_apart 8 stamped (out.1) (p + 10 + 8) (len - 16) fits (inl (omega arith))
            ∙ load-store_self 8 f (p + 10 + 8) ts (omega arith)
            ∙ omega arith,
      )

  -- The same in mode AE: the frame is authentic, its text is the pattern of the mirror's thread,
  -- and it carries the mirror's time stamp. The pattern must fill the frame between the header and
  -- the checksum, as the thread's does.
  pub reseal_ae-authentic :
      (pattern f : List ℕ) (len p now : ℕ)
      → p + 42 + length pattern ≡ len
      → len ≤ length f
      → let f' = reseal_ae cipher app conf pattern f len p now in
        (decrypt_ae cipher app conf f' len p ≡ (true, pattern))
        × (meta_data_to_tx_timestamp f' (p + 10) ≡ mirror_timestamp app now)
  unfolding reseal_ae decrypt_ae set_mirror_tx_timestamp_est tx_timestamp_to_meta_data
      meta_data_to_tx_timestamp mirror_timestamp
  reseal_ae-authentic pattern f len p now h l =
      let ts : ℕ = u64 (now + sub64 app.tx_base_offset_ns app.rx_base_offset_ns) in
      let stamped = store 8 f (p + 10 + 8) ts in
      let ls = length-store 8 f (p + 10 + 8) ts in
      let aad = slice p 26 stamped in
      let iv = iv_of_frame conf f p in
      let out = cipher.encrypt pattern aad iv in
      let lc = aead.checksum_length pattern aad iv in
      let lt = aead.ciphertext_length pattern aad iv in
      let g = memcpy (p + 26) (out.0) stamped in
      let lg = length-memcpy (p + 26) (out.0) stamped in
      let f' = memcpy (len - 16) (out.1) g in
      let fits_text : p + 26 + length (out.0) ≤ length stamped = omega (arith, lt, ls) in
      let fits : len - 16 + length (out.1) ≤ length g = omega (arith, lc, ls, lg) in
      let text_len : len - p - 26 - 16 ≡ length (out.0) = omega (arith, lt) in
      let same_text : slice (p + 26) (len - p - 26 - 16) f' ≡ out.0 =
        slice-memcpy_apart (len - 16) (p + 26) (len - p - 26 - 16) (out.1) g fits
          (inl (omega arith)) (omega (arith, ls, lg))
        ∙ ap (λ (n : ℕ). slice (p + 26) n g) text_len
        ∙ slice-memcpy (p + 26) (out.0) stamped fits_text in
      let same_aad : slice p 26 f' ≡ aad =
        slice-memcpy_apart (len - 16) p 26 (out.1) g fits (inl (omega arith))
          (omega (arith, ls, lg))
        ∙ slice-memcpy_apart (p + 26) p 26 (out.0) stamped fits_text (inl (omega arith))
            (omega (arith, ls)) in
      let same_sum : slice (len - 16) 16 f' ≡ out.1 =
        ap (λ (n : ℕ). slice (len - 16) n f') (sym lc) ∙ slice-memcpy (len - 16) (out.1) g fits in
      let same_iv : iv_of_frame conf f' p ≡ iv =
        iv-memcpy conf g (out.1) p (len - 16) (omega arith) fits
        ∙ iv-memcpy conf stamped (out.0) p (p + 26) (omega arith) fits_text
        ∙ iv-stamp conf f p ts (omega arith) in
      (
        ap
              (λ (x : List ℕ).
                cipher.decrypt x (slice p 26 f') (slice (len - 16) 16 f') (iv_of_frame conf f' p))
              same_text
            ∙ decrypt_ext cipher (out.0) same_aad same_sum same_iv
            ∙ aead.authentic pattern aad iv,
        load-memcpy_apart 8 g (out.1) (p + 10 + 8) (len - 16) fits (inl (omega arith))
            ∙ load-memcpy_apart 8 stamped (out.0) (p + 10 + 8) (p + 26) fits_text
                (inl (omega arith))
            ∙ load-store_self 8 f (p + 10 + 8) ts (omega arith)
            ∙ omega arith,
      )
