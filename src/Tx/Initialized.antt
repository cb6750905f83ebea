-- ===== src/Tx/Initialized.antt =====
-- What initialize_profinet_frame of src/profinet.c leaves in the buffer.
use rtc_testbench.Base.{
  ℕ, ◌+◌, ◌≤◌, ◌<◌, ◌^◌, ◌≡◌, refl, sym, ap, ◌∙◌, inl, List, arith, length, take, slice, memcpy,
  replicate, u16, sub64, length-memcpy, length-replicate, length-take, ◌-◌, ◌%◌, ◌≢◌,
}
use mathlib.Core.Path.{subst}
use rtc_testbench.Bytes.{load, store, length-store, load-store_self}
use rtc_testbench.Bytes.Region.{
  Keeps, Keeps-trans, memcpy-Keeps, store-Keeps, load-Keeps, slice-Keeps, slice-memcpy,
}
use rtc_testbench.Types.{SecurityMode, mode_none, mode_ao, mode_ae, ClassConfig}
use rtc_testbench.Frame.{eth_p_8021q, eth_p_profinet_rt}
use rtc_testbench.Rx.Profinet.{
  profinet_header, initialize_secure_profinet_frame, initialize_rt_profinet_frame,
  initialize_profinet_frame,
}
use rtc_testbench.Tx.Received.{Initialized, headers_of, checksum_of}

-- `security_information` of a secured header
abbrev pub information : SecurityMode → ℕ
information mode_ae = 1
information _ = 0

-- The members of the secured header: its information, and the length of what is secured in a frame
-- of `n` bytes.
abbrev pub HasSecurity : SecurityMode → ℕ → List ℕ → Type 0
HasSecurity m n f = (load 1 f 20 ≡ information m) × (load 2 f 26 ≡ n - 34)

module _ (source destination : List ℕ) (tci : ℕ) where
  -- A buffer of `n` bytes with the Ethernet and the VLAN header: the addresses, the tag, the types.
  pub record HasHeader (n : ℕ) (f : List ℕ) : Type 0 where
    pub size : length f ≡ n
    pub to : slice 0 6 f ≡ take 6 destination
    pub from : slice 6 6 f ≡ take 6 source
    pub proto : load 2 f 12 ≡ eth_p_8021q
    pub tag : load 2 f 14 ≡ tci
    pub encapsulated : load 2 f 16 ≡ eth_p_profinet_rt

  HasHeader-Keeps : {f g : List ℕ} (n : ℕ) → 18 ≤ n → HasHeader n f → Keeps 0 18 f g → HasHeader n g
  HasHeader-Keeps n big h k = record {
    size = k.length_kept ∙ h.size;
    to = slice-Keeps 0 6 k (omega arith) (omega arith) (omega (arith, h.size)) ∙ h.to;
    from = slice-Keeps 6 6 k (omega arith) (omega arith) (omega (arith, h.size)) ∙ h.from;
    proto = load-Keeps 2 12 k (omega arith) (omega arith) ∙ h.proto;
    tag = load-Keeps 2 14 k (omega arith) (omega arith) ∙ h.tag;
    encapsulated = load-Keeps 2 16 k (omega arith) (omega arith) ∙ h.encapsulated;
  }

  header-HasHeader :
      (old : List ℕ)
      → 18 ≤ length old
      → 6 ≤ length source
      → 6 ≤ length destination
      → tci < 2 ^ 16
      → HasHeader (length old) (profinet_header old source destination tci)
  unfolding profinet_header
  header-HasHeader old h ls ld lt =
      let zeroed : List ℕ = replicate (length old) 0 in
      let lz : length zeroed ≡ length old = length-replicate (length old) 0 in
      let six : length (take 6 source) ≡ 6 = omega (arith, length-take 6 source, ls) in
      let seis : length (take 6 destination) ≡ 6 = omega (arith, length-take 6 destination, ld) in
      let z = memcpy 0 (take 6 destination) zeroed in
      let lzz = length-memcpy 0 (take 6 destination) zeroed in
      let a = memcpy 6 (take 6 source) z in
      let la : length a ≡ length old = length-memcpy 6 (take 6 source) z ∙ lzz ∙ lz in
      let b = store 2 a 12 eth_p_8021q in
      let lb = length-store 2 a 12 eth_p_8021q in
      let c = store 2 b 14 tci in
      let lc = length-store 2 b 14 tci in
      let behind_c = λ (lo hi : ℕ) (u : hi ≤ 16).
        store-Keeps lo hi 2 16 eth_p_profinet_rt c (omega (arith, la, lb, lc)) (inl u) in
      let behind_b = λ (lo hi : ℕ) (u : hi ≤ 14).
        Keeps-trans (store-Keeps lo hi 2 14 tci b (omega (arith, la, lb)) (inl u))
          (behind_c lo hi (omega (arith, u))) in
      let behind_a =
        Keeps-trans (store-Keeps 0 12 2 12 eth_p_8021q a (omega (arith, la)) (inl (omega arith)))
          (behind_b 0 12 (omega arith)) in
      record {
        size = length-store 2 c 16 eth_p_profinet_rt ∙ lc ∙ lb ∙ la;
        to =
            slice-Keeps 0 6 behind_a (omega arith) (omega arith) (omega (arith, la))
            ∙ slice-Keeps 0 6
                (memcpy-Keeps 0 6 6 (take 6 source) z (omega (arith, six, lzz, lz))
                  (inl (omega arith)))
                (omega arith) (omega arith) (omega (arith, lzz, lz))
            ∙ ap (λ (n : ℕ). slice 0 n z) (sym seis)
            ∙ slice-memcpy 0 (take 6 destination) zeroed (omega (arith, seis, lz));
        from =
            slice-Keeps 6 6 behind_a (omega arith) (omega arith) (omega (arith, la))
            ∙ ap (λ (n : ℕ). slice 6 n a) (sym six)
            ∙ slice-memcpy 6 (take 6 source) z (omega (arith, six, lzz, lz));
        proto =
            load-Keeps 2 12 (behind_b 12 14 (omega arith)) (omega arith) (omega arith)
            ∙ load-store_self 2 a 12 eth_p_8021q (omega (arith, la));
        tag =
            load-Keeps 2 14 (behind_c 14 16 (omega arith)) (omega arith) (omega arith)
            ∙ load-store_self 2 b 14 tci (omega (arith, la, lb))
            ∙ omega (arith, lt);
        encapsulated = load-store_self 2 c 16 eth_p_profinet_rt (omega (arith, la, lb, lc));
      }

  -- The header, with an identifier behind it.
  record HasId (n frame_id : ℕ) (f : List ℕ) : Type 0 where
    pub header : HasHeader n f
    pub identified : load 2 f 18 ≡ frame_id

  HasId-Keeps :
      {f g : List ℕ} (n frame_id : ℕ)
      → 20 ≤ n
      → HasId n frame_id f
      → Keeps 0 20 f g
      → HasId n frame_id g
  HasId-Keeps n frame_id big w k = record {
    header = HasHeader-Keeps n (omega arith) w.header (record {
      length_kept = k.length_kept;
      byte_kept = λ i l u. k.byte_kept i l (omega arith);
    });
    identified = load-Keeps 2 18 k (omega arith) (omega arith) ∙ w.identified;
  }

  header-HasId :
      (n frame_id : ℕ) (f : List ℕ)
      → HasHeader n f
      → 20 ≤ n
      → frame_id < 2 ^ 16
      → HasId n frame_id (store 2 f 18 frame_id)
  header-HasId n frame_id f w h i = record {
    header =
        HasHeader-Keeps n (omega arith) w
          (store-Keeps 0 18 2 18 frame_id f (omega (arith, w.size)) (inl (omega arith)));
    identified = load-store_self 2 f 18 frame_id (omega (arith, w.size)) ∙ omega arith;
  }

  store-HasId :
      (n frame_id k to v : ℕ) (f : List ℕ)
      → HasId n frame_id f
      → 20 ≤ to
      → to + k ≤ n
      → HasId n frame_id (store k f to v)
  store-HasId n frame_id k to v f w a b =
      let h = w.header in
      HasId-Keeps n frame_id (omega arith) w
        (store-Keeps 0 20 k to v f (omega (arith, h.size)) (inl a))

  -- The pattern comes last.
  pattern-Initialized :
      (conf : ClassConfig) (frame_id n off : ℕ) (f : List ℕ)
      → HasId n frame_id f
      → headers_of conf.security_mode ≡ off
      → headers_of conf.security_mode + length conf.payload_pattern + checksum_of conf.security_mode
        ≤ conf.frame_length
      → conf.frame_length ≤ n
      → 20 ≤ off
      → Initialized conf frame_id (memcpy off conf.payload_pattern f)
        × HasHeader n (memcpy off conf.payload_pattern f)
  pattern-Initialized conf frame_id n off f w e fits room low =
      let h = w.header in
      let inside : off + length conf.payload_pattern ≤ length f = omega (arith, h.size, e) in
      let v =
        HasId-Keeps n frame_id (omega arith) w
          (memcpy-Keeps 0 20 off conf.payload_pattern f inside (inl low)) in
      let u = v.header in
      (
        record {
          fits = fits;
          buffer = omega (arith, u.size);
          proto = u.proto;
          encapsulated = u.encapsulated;
          identified = v.identified;
          payload =
              ap
                (λ (i : ℕ).
                  slice i (length conf.payload_pattern) (memcpy off conf.payload_pattern f))
                e
              ∙ slice-memcpy off conf.payload_pattern f inside;
        },
        u,
      )

  rt-frame :
      (old : List ℕ) (frame_id : ℕ)
      → 36 ≤ length old
      → frame_id < 2 ^ 16
      → HasHeader (length old) (profinet_header old source destination tci)
      → HasId (length old) frame_id (
          store 4
            (store 4 (store 2 (profinet_header old source destination tci) 18 frame_id) 20 0)
            24
            0)
  rt-frame old frame_id h i x =
      let n = length old in
      let a = profinet_header old source destination tci in
      let w = header-HasId n frame_id a x (omega arith) i in
      store-HasId n frame_id 4 24 0 _
        (store-HasId n frame_id 4 20 0 _ w (omega arith) (omega arith)) (omega arith) (omega arith)

  secure-frame :
      (mode : SecurityMode) (old pattern : List ℕ) (frame_id : ℕ)
      → 44 + length pattern ≤ length old
      → length old < 2 ^ 16
      → frame_id < 2 ^ 16
      → HasHeader (length old) (profinet_header old source destination tci)
      → let f = initialize_secure_profinet_frame mode old source destination pattern tci frame_id in
        (g : List ℕ) × HasId (length old) frame_id g
        × (f ≡ memcpy 44 pattern g)
        × (mode ≢ mode_none → HasSecurity mode (length old) f)
  unfolding initialize_secure_profinet_frame
  secure-frame mode old pattern frame_id h few i x =
      let n = length old in
      let v : ℕ = elim mode [ mode_ao ↦ 0 | _ ↦ 1 ] in
      let a = store 2 (profinet_header old source destination tci) 18 frame_id in
      let w = header-HasId n frame_id _ x (omega arith) i in
      let info = store-HasId n frame_id 1 20 v a w (omega arith) (omega arith) in
      let b = store 1 a 20 v in
      let size =
        store-HasId n frame_id 2 26 (u16 (sub64 n 34)) b info (omega arith) (omega arith) in
      let c = store 2 b 26 (u16 (sub64 n 34)) in
      let frame = store-HasId n frame_id 4 28 0 c size (omega arith) (omega arith) in
      let d = store 4 c 28 0 in
      let last = store-HasId n frame_id 4 32 0 d frame (omega arith) (omega arith) in
      let e = store 4 d 32 0 in
      let kept =
        Keeps-trans
          (store-Keeps 20 28 4 28 0 c (omega (arith, size.header.size)) (inl (omega arith)))
          (Keeps-trans
            (store-Keeps 20 28 4 32 0 d (omega (arith, frame.header.size)) (inl (omega arith)))
            (memcpy-Keeps 20 28 44 pattern e (omega (arith, last.header.size))
              (inl (omega arith)))) in
      let first =
        load-Keeps 1 20 kept (omega arith) (omega arith)
        ∙ load-Keeps 1 20
            (store-Keeps 20 21 2 26 (u16 (sub64 n 34)) b (omega (arith, info.header.size))
              (inl (omega arith)))
            (omega arith) (omega arith)
        ∙ load-store_self 1 a 20 v (omega (arith, w.header.size)) in
      (
        e,
        last,
        refl,
        λ secured. (
          first ∙ value mode secured,
          load-Keeps 2 26 kept (omega arith) (omega arith)
              ∙ load-store_self 2 b 26 (u16 (sub64 n 34)) (omega (arith, info.header.size))
              ∙ omega arith,
        ),
      )
    where
      value :
          (m : SecurityMode)
          → m ≢ mode_none
          → (elim m as (λ _. ℕ) [ mode_ao ↦ 0 | _ ↦ 1 ]) % 2 ^ 8 ≡ information m
      value mode_none s = absurd (s refl)
      value mode_ao s = omega arith
      value mode_ae s = omega arith

pub initialize_profinet_frame-Initialized :
    (conf : ClassConfig) (old source destination : List ℕ) (tci frame_id : ℕ)
    → headers_of conf.security_mode + length conf.payload_pattern + checksum_of conf.security_mode
      ≤ conf.frame_length
    → conf.frame_length ≤ length old
    → length old < 2 ^ 16
    → frame_id < 2 ^ 16
    → tci < 2 ^ 16
    → 6 ≤ length source
    → 6 ≤ length destination
    → let f =
        initialize_profinet_frame conf.security_mode old source destination conf.payload_pattern tci
          frame_id in
      Initialized conf frame_id f
      × HasHeader source destination tci (length old) f
      × (conf.security_mode ≢ mode_none → HasSecurity conf.security_mode (length old) f)
unfolding initialize_profinet_frame initialize_rt_profinet_frame initialize_secure_profinet_frame
initialize_profinet_frame-Initialized conf old source destination tci frame_id fits room few small
      tagged ls ld =
    by_mode conf.security_mode refl
  where
    Filled : SecurityMode → List ℕ → Type 0
    Filled m f =
        Initialized conf frame_id f
        × HasHeader source destination tci (length old) f
        × (m ≢ mode_none → HasSecurity m (length old) f)

    header :
        18 ≤ length old
        → HasHeader source destination tci (length old) (profinet_header old source destination tci)
    header h = header-HasHeader source destination tci old h ls ld tagged

    secure :
        (m : SecurityMode)
        → headers_of conf.security_mode ≡ 44
        → Filled m (
            initialize_secure_profinet_frame m old source destination conf.payload_pattern tci
              frame_id)
    secure m e =
        let (g, w, same, security) =
          secure-frame source destination tci m old conf.payload_pattern frame_id
            (omega (arith, fits, room, e)) few small (header (omega (arith, fits, room, e))) in
        let (v, h) =
          pattern-Initialized source destination tci conf frame_id (length old) 44 g w e fits room
            (omega arith) in
        (
          subst (Initialized conf frame_id) (sym same) v,
          subst (HasHeader source destination tci (length old)) (sym same) h,
          security,
        )

    by_mode :
        (m : SecurityMode)
        → conf.security_mode ≡ m
        → Filled m
            (initialize_profinet_frame m old source destination conf.payload_pattern tci frame_id)
    by_mode mode_none e =
        let size : headers_of conf.security_mode ≡ 36 = ap headers_of e in
        let (v, h) =
          pattern-Initialized source destination tci conf frame_id (length old) 36 _
            (rt-frame source destination tci old frame_id (omega (arith, fits, room, size)) small
              (header (omega (arith, fits, room, size))))
            size fits room (omega arith) in
        (v, h, λ n. absurd (n refl))
    by_mode mode_ao e = secure mode_ao (ap headers_of e)
    by_mode mode_ae e = secure mode_ae (ap headers_of e)
