-- ===== src/Frame/Vlan.antt =====
-- How a mirror turns a received frame into the one that it sends: the tag goes in, the addresses
-- swap, the payload moves behind the tag.
use rtc_testbench.Base.{
  ℕ, ◌+◌, ◌-◌, ◌≤◌, ◌<◌, ◌≡◌, ◌∙◌, ◌⊎◌, inl, inr, true, List, length, get_or, slice, memcpy, arith,
  u16, ltb, leb, if◌then◌else◌, length-memcpy, get_or-memcpy, le→ltb,
}
use rtc_testbench.Bytes.{
  load, store, length-store, load-store_self, load-store_apart, get_or-store_apart,
}
use rtc_testbench.Bytes.Region.{length-slice, get_or-slice}
use rtc_testbench.Frame.{
  eth_p_8021q, store_vlan, swap_mac_addresses, insert_vlan_tag, build_vlan_frame_from_rx,
}

-- A copy of a slice, byte by byte.
get_or-copy :
    (to off n : ℕ) (src dst : List ℕ) (i : ℕ)
    → off + n ≤ length src
    → to + n ≤ length dst
    → get_or (memcpy to (slice off n src) dst) i 0 ≡ (
        if leb to i
        then if ltb i (to + n) then get_or src (off + (i - to)) 0 else get_or dst i 0
        else get_or dst i 0)
get_or-copy to off n src dst i h k = ground (
  arith,
  get_or-memcpy to (slice off n src) dst i 0,
  length-slice off n src,
  get_or-slice off n src (i - to),
)

pub swap-byte :
    (f : List ℕ) (len i : ℕ)
    → 14 ≤ len
    → len ≤ length f
    → get_or (swap_mac_addresses f len) i 0 ≡ (
        if ltb i 6
        then get_or f (6 + i) 0
        else if ltb i 12
        then get_or f (i - 6) 0
        else get_or f i 0)
unfolding swap_mac_addresses
swap-byte f len i p q = ground (
  arith,
  length-memcpy 6 (slice 0 6 f) f,
  get_or-copy 0 6 6 f (memcpy 6 (slice 0 6 f) f) i,
  get_or-copy 6 0 6 f f i,
)

pub length-swap : (f : List ℕ) (len : ℕ) → length (swap_mac_addresses f len) ≡ length f
unfolding swap_mac_addresses
length-swap f len = ground (
  arith,
  length-memcpy 6 (slice 0 6 f) f,
  length-memcpy 0 (slice 6 6 f) (memcpy 6 (slice 0 6 f) f),
)

swap_short : (f : List ℕ) (len : ℕ) → ltb len 14 ≡ true → swap_mac_addresses f len ≡ f
unfolding swap_mac_addresses
swap_short f len e = rw e

-- The header written, and what stays.
record Tagged (before after : List ℕ) (ether_type vlan_tci : ℕ) : Type 0 where
  pub length_kept : length after ≡ length before
  pub vlan_proto : load 2 after 12 ≡ eth_p_8021q
  pub vlan_tag : load 2 after 14 ≡ u16 vlan_tci
  pub encapsulated : load 2 after 16 ≡ u16 ether_type
  pub apart : (i : ℕ) → (i < 12) ⊎ (18 ≤ i) → get_or after i 0 ≡ get_or before i 0

store_vlan-Tagged : (f : List ℕ) (e t : ℕ) → 18 ≤ length f → Tagged f (store_vlan f e t) e t
unfolding store_vlan
store_vlan-Tagged f e t h = record {
  length_kept = omega (
    arith,
    length-store 2 one 14 (u16 t),
    length-store 2 two 16 (u16 e),
    length-store 2 f 12 eth_p_8021q,
  );
  vlan_proto =
      load-store_apart 2 2 two 12 16 (u16 e) (omega (arith, len)) (inl (omega arith))
      ∙ load-store_apart 2 2 one 12 14 (u16 t) (omega (arith, len)) (inl (omega arith))
      ∙ load-store_self 2 f 12 eth_p_8021q (omega arith);
  vlan_tag =
      load-store_apart 2 2 two 14 16 (u16 e) (omega (arith, len)) (inl (omega arith))
      ∙ load-store_self 2 one 14 (u16 t) (omega (arith, len))
      ∙ omega arith;
  encapsulated = load-store_self 2 two 16 (u16 e) (omega (arith, len)) ∙ omega arith;
  apart = λ i d. ground (
    arith,
    len,
    get_or-store_apart 2 two 16 (u16 e) i,
    get_or-store_apart 2 one 14 (u16 t) i,
    get_or-store_apart 2 f 12 eth_p_8021q i,
  );
}
  where
    one : List ℕ
    one = store 2 f 12 eth_p_8021q

    two : List ℕ
    two = store 2 one 14 (u16 t)

    len : (length one ≡ length f) × (length two ≡ length f)
    len = (
      length-store 2 f 12 eth_p_8021q,
      length-store 2 one 14 (u16 t) ∙ length-store 2 f 12 eth_p_8021q,
    )

-- An outgoing frame: tagged, sent back to where the received one came from, with its bytes from
-- behind the Ether type on moved behind the tag.
pub record Answers (old : List ℕ) (len : ℕ) (new : List ℕ) (ether_type vlan_tci : ℕ) : Type 0 where
  pub vlan_proto : load 2 new 12 ≡ eth_p_8021q
  pub vlan_tag : load 2 new 14 ≡ u16 vlan_tci
  pub encapsulated : load 2 new 16 ≡ u16 ether_type
  pub to_sender : (i : ℕ) → i < 6 → get_or new i 0 ≡ get_or old (6 + i) 0
  pub from_receiver : (i : ℕ) → i < 6 → get_or new (6 + i) 0 ≡ get_or old i 0
  pub payload : (i : ℕ) → 14 ≤ i → i < len → get_or new (i + 4) 0 ≡ get_or old i 0

-- `build_vlan_frame_from_rx`, for a received frame of at least 18 bytes and room for 4 more, keeps
-- the length of the new buffer and fills it with the answer: 802.1Q with the given tag and Ether
-- type, the addresses swapped, each byte from offset 14 on moved by 4.
pub build_vlan_frame-Answers :
    (old new : List ℕ) (len ether_type vlan_tci : ℕ)
    → 18 ≤ len
    → len ≤ length old
    → len + 4 ≤ length new
    → Answers old len (build_vlan_frame_from_rx old len new ether_type vlan_tci) ether_type vlan_tci
      × (length (build_vlan_frame_from_rx old len new ether_type vlan_tci) ≡ length new)
unfolding build_vlan_frame_from_rx
build_vlan_frame-Answers old new len e t p q r =
    rw (le→ltb (length new) (len + 4) r) (answers, omega (arith, lengths, tagged.length_kept))
  where
    one : List ℕ
    one = memcpy 16 (slice 12 (len - 12) old) new

    two : List ℕ
    two = memcpy 0 (slice 6 6 old) one

    three : List ℕ
    three = memcpy 6 (slice 0 6 old) two

    lengths : (length one ≡ length new) × (length two ≡ length new) × (length three ≡ length new)
    lengths = omega (
      arith,
      length-memcpy 16 (slice 12 (len - 12) old) new,
      length-memcpy 0 (slice 6 6 old) one,
      length-memcpy 6 (slice 0 6 old) two,
    )

    tagged : Tagged three (store_vlan three e t) e t
    tagged = store_vlan-Tagged three e t (omega (arith, lengths))

    byte :
        (i : ℕ)
        → get_or three i 0 ≡ (
            if leb 6 i
            then if ltb i 12 then get_or old (i - 6) 0 else get_or two i 0
            else get_or two i 0)
    byte i = ground (arith, get_or-copy 6 0 6 old two i, lengths)

    byte_two :
        (i : ℕ)
        → get_or two i 0 ≡ (
            if leb 0 i
            then if ltb i 6 then get_or old (6 + i) 0 else get_or one i 0
            else get_or one i 0)
    byte_two i = ground (arith, get_or-copy 0 6 6 old one i, lengths)

    byte_one :
        (i : ℕ)
        → get_or one i 0 ≡ (
            if leb 16 i
            then if ltb i (len + 4) then get_or old (12 + (i - 16)) 0 else get_or new i 0
            else get_or new i 0)
    byte_one i = ground (arith, get_or-copy 16 12 (len - 12) old new i)

    answers : Answers old len (store_vlan three e t) e t
    answers = record {
      vlan_proto = tagged.vlan_proto;
      vlan_tag = tagged.vlan_tag;
      encapsulated = tagged.encapsulated;
      to_sender = λ i h. tagged.apart i (inl (omega arith)) ∙ ground (arith, byte i, byte_two i);
      from_receiver =
          λ i h. tagged.apart (6 + i) (inl (omega arith)) ∙ ground (arith, byte (6 + i));
      payload = λ i a b.
          tagged.apart (i + 4) (inr (omega arith))
          ∙ ground (arith, byte (i + 4), byte_two (i + 4), byte_one (i + 4));
    }

-- The address swap leaves a member behind the addresses alone.
load-swap :
    (f : List ℕ) (len off : ℕ)
    → 14 ≤ len
    → len ≤ length f
    → 12 ≤ off
    → load 2 (swap_mac_addresses f len) off ≡ load 2 f off
unfolding load
load-swap f len off p q r = ground (arith, swap-byte f len off p q, swap-byte f len (off + 1) p q)

-- The AF_XDP path, `insert_vlan_tag` and then `swap_mac_addresses` in the received buffer, answers
-- the frame as the AF_PACKET path does, if the frame has at least 18 bytes and 4 more fit
-- XDP_FRAME_SIZE, which the buffer has.
pub insert_swap-Answers :
    (max_frame_size : ℕ) (f : List ℕ) (len ether_type vlan_tci : ℕ)
    → 18 ≤ len
    → len + 4 ≤ max_frame_size
    → max_frame_size ≤ length f
    → Answers f len
        (swap_mac_addresses (insert_vlan_tag max_frame_size f len ether_type vlan_tci) len)
        ether_type
        vlan_tci
unfolding insert_vlan_tag
insert_swap-Answers mx f len e t p q r = rw (le→ltb mx (len + 4) q) answers
  where
    moved : List ℕ
    moved = memcpy 16 (slice 12 (len - 12) f) f

    tagged : Tagged moved (store_vlan moved e t) e t
    tagged = store_vlan-Tagged moved e t (omega (arith, length-memcpy 16 (slice 12 (len - 12) f) f))

    new : List ℕ
    new = store_vlan moved e t

    room : len ≤ length new
    room = omega (arith, tagged.length_kept, length-memcpy 16 (slice 12 (len - 12) f) f)

    byte :
        (i : ℕ)
        → get_or moved i 0 ≡ (
            if leb 16 i
            then if ltb i (len + 4) then get_or f (12 + (i - 16)) 0 else get_or f i 0
            else get_or f i 0)
    byte i = ground (arith, get_or-copy 16 12 (len - 12) f f i)

    answers : Answers f len (swap_mac_addresses new len) e t
    answers = record {
      vlan_proto = load-swap new len 12 (omega arith) room (omega arith) ∙ tagged.vlan_proto;
      vlan_tag = load-swap new len 14 (omega arith) room (omega arith) ∙ tagged.vlan_tag;
      encapsulated = load-swap new len 16 (omega arith) room (omega arith) ∙ tagged.encapsulated;
      to_sender =
          λ i h. ground (arith, room, swap-byte new len i, tagged.apart (6 + i), byte (6 + i));
      from_receiver =
          λ i h. ground (arith, room, swap-byte new len (6 + i), tagged.apart i, byte i);
      payload = λ i a b.
          ground (arith, room, swap-byte new len (i + 4), tagged.apart (i + 4), byte (i + 4));
    }
