-- ===== src/Xdp/Verdicts.antt =====
-- Which frames the XDP programs divert.
use rtc_testbench.Base.{ℕ, ◌%◌, ◌≤◌, ◌≡◌, ◌↔◌, ◌⊎◌, Bool, true, List, length, arith}
use rtc_testbench.Bytes.{load}
use rtc_testbench.Frame.{eth_p_8021q, eth_p_profinet_rt}
use rtc_testbench.Xdp.{
  redirect, Filter, vlan_id_of, check_frame_id, to_socket, xdp_tb_prog, veth_key, xdp_veth_prog,
}

-- The frame identifiers of the real-time classes of PROFINET: TSN high and low, RTC and RTA, each
-- in the clear and secured.
abbrev pub IsRealTime : ℕ → Type 0
IsRealTime id =
    (id ≡ 0x0100)
    ⊎ ((id ≡ 0x0101)
        ⊎ ((id ≡ 0x0200)
            ⊎ ((id ≡ 0x0201)
                ⊎ ((id ≡ 0x8000) ⊎ ((id ≡ 0x8001) ⊎ ((id ≡ 0xfc01) ⊎ (id ≡ 0xfc02)))))))

check_frame_id_iff : (f : List ℕ) (p : ℕ) → (check_frame_id f p ≡ true) ↔ IsRealTime (load 2 f p)
unfolding check_frame_id
check_frame_id_iff f p = (λ h. ground arith, λ h. ground arith)

-- The frame of a stream that the program is compiled for.
pub record Matches (c : Filter) (f : List ℕ) : Type 0 where
  pub long : 18 ≤ length f
  pub tagged : load 2 f 12 ≡ 0x8100
  pub typed : load 2 f 16 ≡ c.ebpf_eth_type
  pub vid : load 2 f 14 % 4096 ≡ c.ebpf_vid
  pub cyclic : c.ebpf_check_frameid ≡ true → (36 ≤ length f) × IsRealTime (load 2 f 18)

-- The program of xdp_kern_tb.c takes a frame from the kernel just if a socket is bound to the queue
-- and the frame has a VLAN tag with the identifier and the Ether type that it is compiled for; if
-- it checks the frame identifier too, then that is one of the eight of TSN high, TSN low, RTC and
-- RTA, and the header is whole.
pub xdp_tb_prog_iff :
    (c : Filter) (xsks_map : ℕ → Bool) (idx : ℕ) (f : List ℕ)
    → (xdp_tb_prog c xsks_map idx f ≡ redirect idx) ↔ (Matches c f × (xsks_map idx ≡ true))
unfolding xdp_tb_prog to_socket vlan_id_of
xdp_tb_prog_iff c xsks_map idx f = (
  λ h. (
    record {
      long = ground arith;
      tagged = ground arith;
      typed = ground arith;
      vid = ground arith;
      cyclic = λ on. (ground arith, (check_frame_id_iff f 18).0 (ground arith));
    },
    ground arith,
  ),
  λ (w, bound). ground (
    arith,
    w.long,
    w.tagged,
    w.typed,
    w.vid,
    λ (on : c.ebpf_check_frameid ≡ true). (w.cyclic on).0,
    λ (on : c.ebpf_check_frameid ≡ true). (check_frame_id_iff f 18).1 (w.cyclic on).1,
    bound,
  ),
)

-- The dispatcher sends a frame into a container just if it has a VLAN tag and the Ether type of
-- PROFINET, the identifier is 100 or 200, and the map has the entry, 0 or 1, that belongs to it.
pub xdp_veth_prog_iff :
    (veth_map : ℕ → Bool) (f : List ℕ) (key : ℕ)
    → (xdp_veth_prog veth_map f ≡ redirect key) ↔ (
        (18 ≤ length f)
        × (load 2 f 12 ≡ eth_p_8021q)
        × (load 2 f 16 ≡ eth_p_profinet_rt)
        × (((vlan_id_of f ≡ 100) × (key ≡ 0)) ⊎ ((vlan_id_of f ≡ 200) × (key ≡ 1)))
        × (veth_map key ≡ true))
unfolding xdp_veth_prog veth_key
xdp_veth_prog_iff veth_map f key = (
  λ h. (ground arith, ground arith, ground arith, ground arith, ground arith),
  λ w. ground (arith, w),
)
