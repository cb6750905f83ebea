-- ===== src/Xdp.antt =====
-- The XDP programs of src/xdp_kern_tb.c, src/xdp_kern_ethercat.c and
-- src/xdp_kern_profinet_veth_dispatch.c, which divert frames on reception. `data` to `data_end` is
-- the list of the frame's bytes. The maps are the kernel's: what a lookup in one says is a
-- parameter. populate_rx_timestamp writes in front of the frame and changes no verdict.
pub mod Verdicts
use rtc_testbench.Base.{
  ℕ, ◌+◌, ◌%◌, ◌^◌, Bool, true, false, not, ◌&&◌, ◌||◌, List, length, ltb, ◌==◌, if◌then◌else◌,
  Option, some, none,
}
use rtc_testbench.Bytes.{load}
use rtc_testbench.Frame.{
  eth_p_8021q, eth_p_profinet_rt, eth_p_ethercat, sizeof_ethhdr, sizeof_vlan_ethernet_header,
  sizeof_profinet_rt_header,
}

-- What a program returns: XDP_PASS, or a redirect to the entry of its map.
pub data Verdict : Type 0 where
  xdp_pass : Verdict
  redirect : ℕ → Verdict

-- The macros that the compilation of xdp_kern_tb.c sets.
pub record Filter : Type 0 where
  pub ebpf_vid : ℕ
  pub ebpf_eth_type : ℕ
  pub ebpf_check_frameid : Bool

abbrev pub tsn_high_frameid : ℕ
tsn_high_frameid = 0x0100

abbrev pub tsn_high_sec_frameid : ℕ
tsn_high_sec_frameid = 0x0101

abbrev pub tsn_low_frameid : ℕ
tsn_low_frameid = 0x0200

abbrev pub tsn_low_sec_frameid : ℕ
tsn_low_sec_frameid = 0x0201

abbrev pub rtc_frameid : ℕ
rtc_frameid = 0x8000

abbrev pub rtc_sec_frameid : ℕ
rtc_sec_frameid = 0x8001

abbrev pub rta_frameid : ℕ
rta_frameid = 0xfc01

abbrev pub rta_sec_frameid : ℕ
rta_sec_frameid = 0xfc02

-- `vlantci & VLAN_ID_MASK` of the tag of a frame
unfoldable pub vlan_id_of : List ℕ → ℕ
vlan_id_of f = load 2 f 14 % 2 ^ 12

-- check_frame_id, of the header at `p`
unfoldable pub check_frame_id : List ℕ → ℕ → Bool
check_frame_id f p =
    let frame_id = load 2 f p in
    frame_id == tsn_high_frameid
    || (frame_id == tsn_high_sec_frameid
        || (frame_id == tsn_low_frameid
            || (frame_id == tsn_low_sec_frameid
                || (frame_id == rtc_frameid
                    || (frame_id == rtc_sec_frameid
                        || (frame_id == rta_frameid || frame_id == rta_sec_frameid))))))

-- The redirect to the socket of the queue, if one is bound to it.
unfoldable pub to_socket : (ℕ → Bool) → ℕ → Verdict
to_socket xsks_map idx = if xsks_map idx then redirect idx else xdp_pass

-- xdp_sock_prog of xdp_kern_tb.c
unfoldable pub xdp_tb_prog : Filter → (ℕ → Bool) → ℕ → List ℕ → Verdict
xdp_tb_prog c xsks_map idx f =
    if ltb (length f) sizeof_vlan_ethernet_header
    then xdp_pass
    else if not (load 2 f 12 == eth_p_8021q)
    then xdp_pass
    else if not (load 2 f 16 == c.ebpf_eth_type)
    then xdp_pass
    else if not (vlan_id_of f == c.ebpf_vid)
    then xdp_pass
    else if c.ebpf_check_frameid
    then if ltb (length f) (sizeof_vlan_ethernet_header + sizeof_profinet_rt_header)
      then xdp_pass
      else if not (check_frame_id f sizeof_vlan_ethernet_header)
      then xdp_pass
      else to_socket xsks_map idx
    else to_socket xsks_map idx

-- xdp_sock_prog of xdp_kern_ethercat.c
unfoldable pub xdp_ethercat_prog : (ℕ → Bool) → ℕ → List ℕ → Verdict
xdp_ethercat_prog xsks_map idx f =
    if ltb (length f) sizeof_ethhdr
    then xdp_pass
    else if not (load 2 f 12 == eth_p_ethercat)
    then xdp_pass
    else to_socket xsks_map idx

-- The two tests of the dispatcher, in its order: the key, once one of them has set `redirect`.
unfoldable pub veth_key : ℕ → Option ℕ
veth_key vid =
    let first = if vid == 100 then some 0 else none in if vid == 200 then some 1 else first

-- xdp_sock_prog of xdp_kern_profinet_veth_dispatch.c
unfoldable pub xdp_veth_prog : (ℕ → Bool) → List ℕ → Verdict
xdp_veth_prog veth_map f =
    if ltb (length f) sizeof_vlan_ethernet_header
    then xdp_pass
    else if not (load 2 f 12 == eth_p_8021q)
    then xdp_pass
    else if not (load 2 f 16 == eth_p_profinet_rt)
    then xdp_pass
    else elim (veth_key (vlan_id_of f)) [
      | some if_key ↦ if veth_map if_key then redirect if_key else xdp_pass
      | none ↦ xdp_pass
    ]
