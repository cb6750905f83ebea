-- ===== src/Rx/Profinet/Moved.antt =====
-- A secured frame that stands further on in another buffer, as behind profinet_mirror, the end of
-- receive_profinet_frame of src/profinet.c.
use rtc_testbench.Base.{
  ℕ, zero, suc, ◌+◌, ◌-◌, ◌≤◌, ◌<◌, ◌≡◌, refl, sym, ap, ◌∙◌, inl, inr, Bool, true, false, List, [],
  arith, length, slice, take, memcpy, get_or, length-memcpy, length-take, get_or-take, list_ext,
  Bool-cases, if◌then◌else◌,
}
use rtc_testbench.Bytes.{load, length-store}
use rtc_testbench.Bytes.Region.{length-slice, get_or-slice}
use rtc_testbench.Types.{ClassConfig, AppConfig}
use rtc_testbench.RingBuffer.{add}
use rtc_testbench.Frame.{
  eth_p_profinet_rt, vlan_tci_of, swap_mac_addresses, insert_vlan_tag, store_vlan,
  build_vlan_frame_from_rx, meta_data_to_sequence_counter, meta_data_to_tx_timestamp,
}
use rtc_testbench.Frame.Vlan.{swap-byte, length-swap, build_vlan_frame-Answers, insert_swap-Answers}
use rtc_testbench.Rx.{RxContext}
use rtc_testbench.Rx.Profinet.{Cipher, iv_of_frame, decrypt_ao, decrypt_ae, profinet_mirror}
use rtc_testbench.Rx.Profinet.Reseal.{decrypt_ext}

-- The bytes of `f` from `p` up to `len` stand `d` further on in `g`.
pub record Moved (p d len : ℕ) (f g : List ℕ) : Type 0 where
  pub old_room : len ≤ length f
  pub new_room : len + d ≤ length g
  pub byte : (i : ℕ) → p ≤ i → i < len → get_or g (i + d) 0 ≡ get_or f i 0

load-Moved :
    {p d len : ℕ} {f g : List ℕ} (n off : ℕ)
    → Moved p d len f g
    → p ≤ off
    → off + n ≤ len
    → load n g (off + d) ≡ load n f off
unfolding load
load-Moved zero off m a b = refl
load-Moved {p} {d} {len} {f} {g} (suc n) off m a b =
    let later = load-Moved n (off + 1) m (omega (arith, a)) (omega (arith, b)) in
    let same : load n g (off + d + 1) ≡ load n f (off + 1) =
      ap (λ (i : ℕ). load n g i) (omega arith) ∙ later in
    ground (arith, m.byte off a (omega (arith, b)), same)

slice-Moved :
    {p d len : ℕ} {f g : List ℕ} (off n : ℕ)
    → Moved p d len f g
    → p ≤ off
    → off + n ≤ len
    → slice (off + d) n g ≡ slice off n f
slice-Moved {p} {d} {len} {f} {g} off n m a b =
    let new : off + d + n ≤ length g = omega (arith, m.new_room, b) in
    let old : off + n ≤ length f = omega (arith, m.old_room, b) in
    list_ext 0 _ _ (length-slice (off + d) n g new ∙ sym (length-slice off n f old)) (λ i hi.
      let small : i < n = omega (arith, hi, length-slice (off + d) n g new) in
      get_or-slice (off + d) n g i small
      ∙ ap (λ (k : ℕ). get_or g k 0) (omega arith)
      ∙ m.byte (off + i) (omega (arith, a)) (omega (arith, b, small))
      ∙ sym (get_or-slice off n f i small))

slice_at : (f : List ℕ) {a b m n : ℕ} → a ≡ b → m ≡ n → slice a m f ≡ slice b n f
slice_at f {a} {b} {m} {n} e h = ap (λ (x : ℕ). slice x m f) e ∙ ap (λ (x : ℕ). slice b x f) h

iv-Moved :
    {p d len : ℕ} {f g : List ℕ} (conf : ClassConfig)
    → Moved p d len f g
    → p + 42 ≤ len
    → iv_of_frame conf g (p + d) ≡ iv_of_frame conf f p
unfolding iv_of_frame meta_data_to_sequence_counter
iv-Moved {p} {d} {len} {f} {g} conf m h =
    let c : load 4 g (p + d + 10) ≡ load 4 f (p + 10) =
      ap (λ (i : ℕ). load 4 g i) (omega arith)
      ∙ load-Moved 4 (p + 10) m (omega arith) (omega (arith, h)) in
    let e : load 4 g (p + d + 10 + 4) ≡ load 4 f (p + 10 + 4) =
      ap (λ (i : ℕ). load 4 g i) (omega arith)
      ∙ load-Moved 4 (p + 10 + 4) m (omega arith) (omega (arith, h)) in
    rw (c, e) refl

pub stamp-Moved :
    {p d len : ℕ} {f g : List ℕ}
    → Moved p d len f g
    → p + 42 ≤ len
    → meta_data_to_tx_timestamp g (p + d + 10) ≡ meta_data_to_tx_timestamp f (p + 10)
unfolding meta_data_to_tx_timestamp
stamp-Moved {p} {d} {len} {f} {g} m h =
    ap (λ (i : ℕ). load 8 g i) (omega arith)
    ∙ load-Moved 8 (p + 10 + 8) m (omega arith) (omega (arith, h))

store_vlan-length : (f : List ℕ) (e t : ℕ) → length (store_vlan f e t) ≡ length f
unfolding store_vlan
store_vlan-length f e t = length-store 2 _ 16 _ ∙ length-store 2 _ 14 _ ∙ length-store 2 f 12 _

length-insert :
    (mx : ℕ) (f : List ℕ) (len e t : ℕ) → length (insert_vlan_tag mx f len e t) ≡ length f
unfolding insert_vlan_tag
length-insert mx f len e t =
    let a = memcpy 16 (slice 12 (len - 12) f) f in
    ground (arith, length-memcpy 16 (slice 12 (len - 12) f) f, store_vlan-length a e t)

module _ (max_frame_size : ℕ) (conf : ClassConfig) (new_frame : List ℕ) (ctx : RxContext) where
  -- What profinet_mirror hands over: in the buffer with XDP, else to the ring buffer.
  abbrev pub handed : List ℕ → List ℕ → List ℕ × RxContext
  handed f g =
      if conf.xdp_enabled
      then (g, ctx)
      else (f, record ctx { mirror_buffer = add ctx.mirror_buffer g })

  pub mirror-Moved :
      (missing : Bool) (f : List ℕ) (len : ℕ)
      → conf.rx_mirror_enabled ≡ true
      → (conf.xdp_enabled ≡ false → missing ≡ true)
      → 18 ≤ len
      → len + 4 ≤ max_frame_size
      → max_frame_size ≤ length f
      → max_frame_size ≤ length new_frame
      → (g : List ℕ) × (profinet_mirror max_frame_size conf missing new_frame ctx f len
          ≡ handed f g)
        × Moved (if missing then 14 else 18) (if missing then 4 else 0) len f g
  unfolding profinet_mirror
  mirror-Moved true f len m strip a b c d =
      let t = vlan_tci_of conf in
      elim (Bool-cases conf.xdp_enabled) [
        | inl x ↦
            let tagged = insert_vlan_tag max_frame_size f len eth_p_profinet_rt t in
            let answers = insert_swap-Answers max_frame_size f len eth_p_profinet_rt t a b c in
            (
              swap_mac_addresses tagged len,
              rw (m, x) refl,
              record {
                old_room = omega (arith, b, c);
                new_room = omega (
                  arith,
                  length-swap tagged len,
                  length-insert max_frame_size f len eth_p_profinet_rt t,
                  b,
                  c,
                );
                byte = answers.payload;
              },
            )
        | inr x ↦
            let built = build_vlan_frame_from_rx f len new_frame eth_p_profinet_rt t in
            let (answers, size) =
              build_vlan_frame-Answers f new_frame len eth_p_profinet_rt t a (omega (arith, b, c))
                (omega (arith, b, d)) in
            (
              take (len + 4) built,
              rw (m, x) refl,
              record {
                old_room = omega (arith, b, c);
                new_room = omega (arith, length-take (len + 4) built, size, b, d);
                byte = λ i l h.
                    get_or-take (len + 4) built (i + 4) 0 (omega (arith, h))
                    ∙ answers.payload i l h;
              },
            )
      ]
  mirror-Moved false f len m strip a b c d =
      let x : conf.xdp_enabled ≡ true = elim (Bool-cases conf.xdp_enabled) [
        | inl y ↦ y
        | inr y ↦ absurd (ground (arith, strip y))
      ] in
      (
        swap_mac_addresses f len,
        rw (m, x) refl,
        record {
          old_room = omega (arith, b, c);
          new_room = omega (arith, length-swap f len, b, c);
          byte = λ i l h.
              ap (λ (k : ℕ). get_or (swap_mac_addresses f len) k 0) {x = i + 0} {y = i}
                (omega arith)
              ∙ ground (arith, swap-byte f len i, l, h, a, b, c);
        },
      )

module _ (cipher : Cipher) (app : AppConfig) (conf : ClassConfig) where
  pub decrypt_ao-Moved :
      {p d len : ℕ} {f g : List ℕ}
      → Moved p d len f g
      → p + 42 ≤ len
      → decrypt_ao cipher app conf g (len + d) (p + d) ≡ decrypt_ao cipher app conf f len p
  unfolding decrypt_ao
  decrypt_ao-Moved {p} {d} {len} {f} {g} m h =
      decrypt_ext cipher []
        (slice_at g refl (omega (arith, h))
          ∙ slice-Moved p (len - p - 16) m (omega arith) (omega (arith, h)))
        (slice_at g {a = len + d - 16} {b = len - 16 + d} {m = 16} (omega (arith, h)) refl
          ∙ slice-Moved (len - 16) 16 m (omega (arith, h)) (omega (arith, h)))
        (iv-Moved conf m h)

  pub decrypt_ae-Moved :
      {p d len : ℕ} {f g : List ℕ}
      → Moved p d len f g
      → p + 42 ≤ len
      → decrypt_ae cipher app conf g (len + d) (p + d) ≡ decrypt_ae cipher app conf f len p
  unfolding decrypt_ae
  decrypt_ae-Moved {p} {d} {len} {f} {g} m h =
      ap
        (λ (x : List ℕ).
          cipher.decrypt x (slice (p + d) 26 g) (slice (len + d - 16) 16 g)
            (iv_of_frame conf g (p + d)))
        (slice_at g (omega arith) (omega (arith, h))
          ∙ slice-Moved (p + 26) (len - p - 26 - 16) m (omega arith) (omega (arith, h)))
      ∙ decrypt_ext cipher (slice (p + 26) (len - p - 26 - 16) f)
          (slice-Moved p 26 m (omega arith) (omega (arith, h)))
          (slice_at g {a = len + d - 16} {b = len - 16 + d} {m = 16} (omega (arith, h)) refl
            ∙ slice-Moved (len - 16) 16 m (omega (arith, h)) (omega (arith, h)))
          (iv-Moved conf m h)
