-- ===== src/Tc/Stream.antt =====
-- The stream of GenericL2 frames of tc_tx_thread of src/tc.c, over all its cycles, at the handler of
-- src/layer2_thread.c.
use rtc_testbench.Base.{
  ℕ, suc, ◌+◌, ◌*◌, ◌≤◌, ◌<◌, ◌^◌, ◌≡◌, refl, sym, ap, ◌∙◌, false, List, [], ◌∷◌, ◌++◌, map, arith,
  length, u64,
}
use mathlib.Core.Path.{subst}
use rtc_testbench.Types.{
  AppConfig, ClassConfig, generic_l2, mode_none, is_ethercat, SecurityMode, frame_index,
}
use rtc_testbench.Frame.{get_meta_data_offset, meta_data_to_sequence_counter}
use rtc_testbench.Rx.{RxTimes}
use rtc_testbench.Rx.Layer2.{generic_l2_check}
use rtc_testbench.Rx.Profinet.{Cipher}
use rtc_testbench.Rx.Sent.{Filled, meta-Filled}
use rtc_testbench.Rx.Track.{Arrival, Carries, Consecutive}
use rtc_testbench.Tx.Prepare.{frame_config_of, set_meta_data, prepare_by_mode, prepare_frame_for_tx}
use rtc_testbench.Tx.Meta.{Holds, fit, set_meta_data-Says}
use rtc_testbench.Tc.Cycle.{gen_frames}

-- A class whose frames are those of layer2_thread.c, in the clear.
pub record IsPlain (conf : ClassConfig) : Type 0 where
  pub protocol : is_ethercat conf.protocol_type ≡ false
  pub mode : conf.security_mode ≡ mode_none
  pub long : 18 ≤ conf.frame_length

-- Frames that are filled in.
abbrev pub AllFilled : ClassConfig → List (List ℕ) → Type 0
AllFilled conf [] = Unit {0}
AllFilled conf (f ∷ fs) = Filled conf f × AllFilled conf fs

abbrev pub conf : AppConfig → ClassConfig
conf app = app.classes generic_l2

-- A frame, as the receiver gets it.
abbrev pub arrive : AppConfig → RxTimes → List ℕ → Arrival
arrive app times f = record { frame = f; len = (conf app).frame_length; times = times }

module _ (cipher : Cipher) (app : AppConfig) (pattern : List ℕ) where
  abbrev prepared : ℕ → ℕ → List ℕ → List ℕ
  prepared seq ts f =
      prepare_frame_for_tx cipher (frame_config_of (conf app) generic_l2 pattern seq ts) f

  prepared-set_meta_data :
      (seq ts : ℕ) (f : List ℕ)
      → IsPlain (conf app)
      → prepared seq ts f
        ≡ set_meta_data (frame_config_of (conf app) generic_l2 pattern seq ts) f 18
  unfolding prepare_frame_for_tx frame_config_of prepare_by_mode get_meta_data_offset frame_index
  prepared-set_meta_data seq ts f p =
      let c = frame_config_of (conf app) generic_l2 pattern seq ts in
      rw p.protocol (ap (λ (m : SecurityMode). prepare_by_mode cipher m c f) p.mode)

  prepared-Filled :
      (seq ts : ℕ) (f : List ℕ)
      → IsPlain (conf app)
      → Filled (conf app) f
      → Filled (conf app) (prepared seq ts f)
  unfolding set_meta_data frame_config_of
  prepared-Filled seq ts f p w =
      subst (Filled (conf app)) (sym (prepared-set_meta_data seq ts f p))
        ((meta-Filled (conf app) f seq (conf app).num_frames_per_cycle ts w).0)

  prepared-Carries :
      (seq ts : ℕ) (f : List ℕ) (times : RxTimes)
      → IsPlain (conf app)
      → Filled (conf app) f
      → Holds (conf app).num_frames_per_cycle seq ts
      → Carries app seq (arrive app times (prepared seq ts f))
  unfolding generic_l2_check frame_config_of
  prepared-Carries seq ts f times p w v =
      let c = frame_config_of (conf app) generic_l2 pattern seq ts in
      let g = prepared-Filled seq ts f p w in
      (
        18,
        false,
        ground (arith, g.proto, g.encapsulated, p.long),
        ap (λ (h : List ℕ). meta_data_to_sequence_counter h 18 (conf app).num_frames_per_cycle)
              (prepared-set_meta_data seq ts f p)
            ∙ (set_meta_data-Says c f 18 v (omega (arith, w.long))).counter,
      )

  pub gen_frames-Consecutive :
      (fs : List (List ℕ)) (begin ts i : ℕ) (times : RxTimes)
      → IsPlain (conf app)
      → AllFilled (conf app) fs
      → 0 < (conf app).num_frames_per_cycle
      → (conf app).num_frames_per_cycle < 2 ^ 32
      → begin + i + length fs ≤ (conf app).num_frames_per_cycle * 2 ^ 32
      → ts < 2 ^ 64
      → let gs = gen_frames cipher app generic_l2 pattern begin ts i fs in
        AllFilled (conf app) gs
        × Consecutive app (begin + i) (map (arrive app times) gs)
        × (length gs ≡ length fs)
  unfolding gen_frames
  gen_frames-Consecutive [] begin ts i times p w a b s t = (_, _, refl)
  gen_frames-Consecutive (f ∷ fs) begin ts i times p w a b s t =
      let same : u64 (begin + i) ≡ begin + i = grind (arith) in
      let (g, c, l) =
        gen_frames-Consecutive fs begin ts (i + 1) times p w.1 a b (omega (arith, s)) t in
      let q = begin + i in
      let later : begin + (i + 1) ≡ suc q = omega arith in
      rw same (
        (prepared-Filled q ts f p w.0, g),
        (
          prepared-Carries q ts f times p w.0
              (fit (conf app).num_frames_per_cycle q ts a b (omega (arith, s)) t),
          subst
              (λ (k : ℕ). Consecutive app k (
                map (arrive app times)
                  (gen_frames cipher app generic_l2 pattern begin ts (i + 1) fs)))
              later c,
        ),
        ap suc l,
      )

  pub Consecutive-append :
      (q : ℕ) (xs ys : List Arrival)
      → Consecutive app q xs
      → Consecutive app (q + length xs) ys
      → Consecutive app q (xs ++ ys)
  Consecutive-append q [] ys a b = subst (λ (k : ℕ). Consecutive app k ys) (omega arith) b
  Consecutive-append q (x ∷ xs) ys a b =
      let later : q + length (x ∷ xs) ≡ suc q + length xs = omega arith in
      (a.0, Consecutive-append (suc q) xs ys a.1 (subst (λ (k : ℕ). Consecutive app k ys) later b))
