-- ===== src/Frame.antt =====
-- The frames of src/net_def.h and the functions of src/utils.c and src/utils.h that read and change
-- them. A frame is the list of its bytes. XDP_FRAME_SIZE is a macro of libxdp, which is not part of
-- the repository: it is the argument `max_frame_size`.
pub mod Meta
pub mod Vlan
pub mod Iv
use Prim.Native.Nat.{bit_or}
use rtc_testbench.Base.{
  ℕ, zero, suc, ◌+◌, ◌-◌, ◌*◌, ◌/◌, ◌%◌, ◌^◌, Bool, true, false, List, [], ◌∷◌, ◌++◌, length, take,
  drop, slice, memcpy, ltb, if◌then◌else◌, u16, u32, u64,
}
use rtc_testbench.Bytes.{load, store}
use rtc_testbench.Types.{
  FrameType, tsn_high, tsn_low, rtc, rta, dcp, lldp, udp_high, udp_low, generic_l2, SecurityMode,
  mode_none, mode_ao, mode_ae, ClassConfig,
}

abbrev pub eth_alen : ℕ
eth_alen = 6

abbrev pub eth_p_8021q : ℕ
eth_p_8021q = 0x8100

abbrev pub eth_p_profinet_rt : ℕ
eth_p_profinet_rt = 0x8892

abbrev pub eth_p_lldp : ℕ
eth_p_lldp = 0x88cc

abbrev pub eth_p_ethercat : ℕ
eth_p_ethercat = 0x88a4

abbrev pub vlan_id_mask : ℕ
vlan_id_mask = 0x0fff

-- The sizes of the packed structs.
abbrev pub sizeof_ethhdr : ℕ
sizeof_ethhdr = 14

abbrev pub sizeof_vlan_ethernet_header : ℕ
sizeof_vlan_ethernet_header = 18

abbrev pub sizeof_vlan_header : ℕ
sizeof_vlan_header = 4

abbrev pub sizeof_reference_meta_data : ℕ
sizeof_reference_meta_data = 16

abbrev pub sizeof_profinet_rt_header : ℕ
sizeof_profinet_rt_header = 2 + sizeof_reference_meta_data

abbrev pub sizeof_security_meta_data : ℕ
sizeof_security_meta_data = 8

abbrev pub sizeof_profinet_secure_header : ℕ
sizeof_profinet_secure_header = 2 + sizeof_security_meta_data + sizeof_reference_meta_data

abbrev pub sizeof_security_checksum : ℕ
sizeof_security_checksum = 16

-- meta_data_to_sequence_counter, of the `struct reference_meta_data` at offset `m`
unfoldable pub meta_data_to_sequence_counter : List ℕ → ℕ → ℕ → ℕ
meta_data_to_sequence_counter f m num_frames_per_cycle =
    let frame_counter = load 4 f m in
    let cycle_counter = load 4 f (m + 4) in
    u64 (cycle_counter * num_frames_per_cycle + frame_counter)

-- sequence_counter_to_meta_data
unfoldable pub sequence_counter_to_meta_data : List ℕ → ℕ → ℕ → ℕ → List ℕ
sequence_counter_to_meta_data f m sequence_counter num_frames_per_cycle =
    store 4 (store 4 f m (u32 (sequence_counter % num_frames_per_cycle))) (m + 4)
      (u32 (sequence_counter / num_frames_per_cycle))

-- tx_timestamp_to_meta_data
unfoldable pub tx_timestamp_to_meta_data : List ℕ → ℕ → ℕ → List ℕ
tx_timestamp_to_meta_data f m timestamp = store 8 f (m + 8) timestamp

-- meta_data_to_tx_timestamp
unfoldable pub meta_data_to_tx_timestamp : List ℕ → ℕ → ℕ
meta_data_to_tx_timestamp f m = load 8 f (m + 8)

-- get_meta_data_offset
unfoldable pub get_meta_data_offset : FrameType → SecurityMode → ℕ
get_meta_data_offset lldp mode = sizeof_ethhdr
get_meta_data_offset udp_high mode = 0
get_meta_data_offset udp_low mode = 0
get_meta_data_offset generic_l2 mode = sizeof_vlan_ethernet_header + 0
get_meta_data_offset t mode_none = sizeof_vlan_ethernet_header + 2
get_meta_data_offset t mode_ao = sizeof_vlan_ethernet_header + (2 + sizeof_security_meta_data)
get_meta_data_offset t mode_ae = sizeof_vlan_ethernet_header + (2 + sizeof_security_meta_data)

-- swap_mac_addresses; `len` is the length that the caller passes, at most that of the buffer.
unfoldable pub swap_mac_addresses : List ℕ → ℕ → List ℕ
swap_mac_addresses f len =
    if ltb len sizeof_ethhdr
    then f
    else memcpy 0 (slice 6 eth_alen f) (memcpy 6 (slice 0 eth_alen f) f)

-- The three fields of a VLAN header: the protocol, the tag and the encapsulated protocol.
unfoldable pub store_vlan : List ℕ → ℕ → ℕ → List ℕ
store_vlan f ether_type vlan_tci =
    store 2 (store 2 (store 2 f 12 eth_p_8021q) 14 (u16 vlan_tci)) 16 (u16 ether_type)

-- insert_vlan_tag
unfoldable pub insert_vlan_tag : ℕ → List ℕ → ℕ → ℕ → ℕ → List ℕ
insert_vlan_tag max_frame_size f len ether_type vlan_tci =
    if ltb max_frame_size (len + sizeof_vlan_header)
    then f
    else store_vlan (memcpy 16 (slice 12 (len - 12) f) f) ether_type vlan_tci

-- build_vlan_frame_from_rx
unfoldable pub build_vlan_frame_from_rx : List ℕ → ℕ → List ℕ → ℕ → ℕ → List ℕ
build_vlan_frame_from_rx old_frame old_frame_len new_frame ether_type vlan_tci =
    if ltb (length new_frame) (old_frame_len + sizeof_vlan_header)
    then new_frame
    else let payload = memcpy 16 (slice 12 (old_frame_len - 12) old_frame) new_frame in
      let swapped =
        memcpy 6 (slice 0 eth_alen old_frame) (memcpy 0 (slice 6 eth_alen old_frame) payload) in
      store_vlan swapped ether_type vlan_tci

-- `vid | pcp << VLAN_PCP_SHIFT`, as the `uint16_t` that the functions above take
unfoldable pub vlan_tci_of : ClassConfig → ℕ
vlan_tci_of c = u16 (bit_or c.vid (c.pcp * 2 ^ 13))

-- htole64: the `n` low bytes of `v`, the lowest first
unfoldable pub le : ℕ → ℕ → List ℕ
le zero v = []
le (suc n) v = v % 256 ∷ le n (v / 256)

-- prepare_iv: `struct security_iv`, of which the cipher reads the first SECURITY_IV_LEN bytes
unfoldable pub prepare_iv : List ℕ → ℕ → List ℕ
prepare_iv iv_prefix sequence_counter = take 6 iv_prefix ++ le 8 sequence_counter
