-- ===== src/Tests/Frames.antt =====
-- The frame functions at concrete inputs.
use rtc_testbench.Base.{ℕ, ◌+◌, ◌≡◌, ◌↔◌, ◌%◌, ◌^◌, refl, List, [], ◌∷◌, arith, replicate, length}
use rtc_testbench.Bytes.{be, store}
use rtc_testbench.Frame.{
  meta_data_to_sequence_counter, sequence_counter_to_meta_data, tx_timestamp_to_meta_data,
  meta_data_to_tx_timestamp, swap_mac_addresses, insert_vlan_tag, build_vlan_frame_from_rx,
  store_vlan,
}
use rtc_testbench.Frame.Meta.{sequence_counter_roundtrip, tx_timestamp_roundtrip}
use rtc_testbench.Frame.Vlan.{Answers, build_vlan_frame-Answers, insert_swap-Answers}
use rtc_testbench.Frame.Iv.{iv_of, iv_of-eq_iff}

-- 24 bytes: the addresses 1.. and 7.., an Ether type and a payload of ten bytes
abbrev frame : List ℕ
frame =
    1 ∷ 2 ∷ 3 ∷ 4 ∷ 5 ∷ 6 ∷ 7 ∷ 8 ∷ 9 ∷ 10 ∷ 11 ∷ 12 ∷ 0x88 ∷ 0x92 ∷ 20 ∷ 21 ∷ 22 ∷ 23 ∷ 24 ∷ 25
    ∷ 26 ∷ 27 ∷ 28 ∷ 29 ∷ []

built :
    build_vlan_frame_from_rx frame 18 (replicate 22 0) 0x8892 0x0101
    ≡ 7 ∷ 8 ∷ 9 ∷ 10 ∷ 11 ∷ 12 ∷ 1 ∷ 2 ∷ 3 ∷ 4 ∷ 5 ∷ 6 ∷ 0x81 ∷ 0 ∷ 1 ∷ 1 ∷ 0x88 ∷ 0x92 ∷ 20 ∷ 21
      ∷ 22 ∷ 23 ∷ []
unfolding build_vlan_frame_from_rx store_vlan store be
built = refl

sequence_counter_roundtrip_example :
    meta_data_to_sequence_counter (sequence_counter_to_meta_data frame 4 1000003 8) 4 8 ≡ 1000003
sequence_counter_roundtrip_example =
    sequence_counter_roundtrip frame 4 1000003 8 (omega arith) (omega arith) (omega arith)
      (omega arith) (omega arith)

tx_timestamp_roundtrip_example :
    (meta_data_to_tx_timestamp (tx_timestamp_to_meta_data frame 4 1234567890123) 4 ≡ 1234567890123)
    × (meta_data_to_sequence_counter (tx_timestamp_to_meta_data frame 4 1234567890123) 4 8
        ≡ meta_data_to_sequence_counter frame 4 8)
tx_timestamp_roundtrip_example =
    tx_timestamp_roundtrip frame 4 1234567890123 8 (omega arith) (omega arith)

build_vlan_frame-Answers_example :
    Answers frame 24
      (build_vlan_frame_from_rx frame 24 (replicate 30 0) 0x8892 0x0101)
      0x8892
      0x0101
    × (length (build_vlan_frame_from_rx frame 24 (replicate 30 0) 0x8892 0x0101) ≡ 30)
build_vlan_frame-Answers_example =
    build_vlan_frame-Answers frame (replicate 30 0) 24 0x8892 0x0101 (omega arith) (omega arith)
      (omega arith)

insert_swap-Answers_example :
    Answers frame 20
      (swap_mac_addresses (insert_vlan_tag 24 frame 20 0x8892 0x0101) 20)
      0x8892
      0x0101
insert_swap-Answers_example =
    insert_swap-Answers 24 frame 20 0x8892 0x0101 (omega arith) (omega arith) (omega arith)

iv_of-eq_iff_example :
    (iv_of (1 ∷ 2 ∷ 3 ∷ 4 ∷ 5 ∷ 6 ∷ []) 7 ≡ iv_of (1 ∷ 2 ∷ 3 ∷ 4 ∷ 5 ∷ 6 ∷ []) (7 + 2 ^ 48))
    ↔ (7 % 2 ^ 48 ≡ (7 + 2 ^ 48) % 2 ^ 48)
iv_of-eq_iff_example = iv_of-eq_iff (1 ∷ 2 ∷ 3 ∷ 4 ∷ 5 ∷ 6 ∷ []) 7 (7 + 2 ^ 48) refl
