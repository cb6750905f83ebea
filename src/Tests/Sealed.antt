-- ===== src/Tests/Sealed.antt =====
-- The security of PROFINET frames at concrete inputs, with a toy cipher: the text in the clear and
-- the first bytes of the additional data as the checksum.
use rtc_testbench.Base.{
  ℕ, ◌≡◌, refl, ap, Bool, true, false, List, [], ◌∷◌, ◌++◌, arith, replicate, take, length-take,
  length-append, length-replicate,
}
use rtc_testbench.Rx.{equal_bytes}
use rtc_testbench.Rx.Sent.{equal_bytes_refl}
use rtc_testbench.Rx.Profinet.{
  Cipher, decrypt_ao, reseal_ao, decrypt_ae, reseal_ae, profinet_mirror,
}
use rtc_testbench.Rx.Profinet.Moved.{handed}
use rtc_testbench.Rx.Profinet.Forwarded.{
  IsAnswer, profinet_mirror-reseal_ao, profinet_mirror-reseal_ae,
}
use rtc_testbench.Types.{ClassConfig}
use rtc_testbench.Tests.Arrivals.{context}
use rtc_testbench.Rx.Profinet.Reseal.{IsAead}
use rtc_testbench.Tests.Data.{app_config, class_config}

abbrev sum_of : List ℕ → List ℕ
sum_of aad = take 16 (aad ++ replicate 16 0)

abbrev pub toy : Cipher
toy = record {
  encrypt = λ text aad iv. (text, sum_of aad);
  decrypt = λ text aad checksum iv. (equal_bytes checksum (sum_of aad), text);
}

pub toy-IsAead : IsAead toy
toy-IsAead = record {
  authentic = λ text aad iv. ap (λ (b : Bool). (b, text)) (equal_bytes_refl (sum_of aad));
  ciphertext_length = λ text aad iv. refl;
  checksum_length = λ text aad iv. omega (
    arith,
    length-take 16 (aad ++ replicate 16 0),
    length-append aad (replicate 16 0),
    length-replicate {A = ℕ} 16 0,
  );
}

abbrev received : List ℕ
received = replicate 70 9

-- A class whose mirror is on, on packet sockets.
abbrev mirror_config : ClassConfig
mirror_config = record class_config { rx_mirror_enabled = true; xdp_enabled = false }

profinet_mirror-reseal_ao_example :
    let f' = reseal_ao toy app_config mirror_config received 64 14 1000000 in
    (g : List ℕ) × (profinet_mirror 70 mirror_config true (replicate 70 0) (context 0) f' 64
      ≡ handed 70 mirror_config (replicate 70 0) (context 0) f' g)
    × IsAnswer toy app_config mirror_config toy-IsAead
        (decrypt_ao toy app_config mirror_config)
        []
        true
        64
        1000000
        g
profinet_mirror-reseal_ao_example =
    profinet_mirror-reseal_ao toy app_config mirror_config toy-IsAead 70 (replicate 70 0)
      (context 0) true received 64 1000000 refl (λ e. refl) (omega arith) (omega arith)
      (omega arith) (omega arith)

-- Eight bytes, which fill 64 behind the headers of a frame without its tag.
abbrev text : List ℕ
text = 1 ∷ 2 ∷ 3 ∷ 4 ∷ 5 ∷ 6 ∷ 7 ∷ 8 ∷ []

profinet_mirror-reseal_ae_example :
    let f' = reseal_ae toy app_config mirror_config text received 64 14 1000000 in
    (g : List ℕ) × (profinet_mirror 70 mirror_config true (replicate 70 0) (context 0) f' 64
      ≡ handed 70 mirror_config (replicate 70 0) (context 0) f' g)
    × IsAnswer toy app_config mirror_config toy-IsAead
        (decrypt_ae toy app_config mirror_config)
        text
        true
        64
        1000000
        g
profinet_mirror-reseal_ae_example =
    profinet_mirror-reseal_ae toy app_config mirror_config toy-IsAead 70 text (replicate 70 0)
      (context 0) true received 64 1000000 refl (λ e. refl) (omega arith) (omega arith)
      (omega arith) (omega arith)
