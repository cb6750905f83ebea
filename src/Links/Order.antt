-- ===== src/Links/Order.antt =====
-- The order in which the links of src/thread.c visit the classes, against that of the enumeration.
use rtc_testbench.Base.{
  ℕ, zero, suc, ◌<◌, ◌≡◌, refl, ◌∙◌, ap, inl, inr, ◌||◌, Bool, true, Bool-cases, Option, none, some,
  List, [], ◌∷◌, arith, length, if◌then◌else◌,
}
use mathlib.Core.Option.{some-injective, none-ne-some}
use mathlib.Core.Path.{subst}
use rtc_testbench.Types.{
  FrameType, tsn_high, tsn_low, rtc, rta, dcp, lldp, udp_high, udp_low, AppConfig, is_tc_active,
}
use rtc_testbench.Links.{
  PnThread, tsn_high_thread, tsn_low_thread, rtc_thread, rta_thread, dcp_thread, lldp_thread,
  udp_high_thread, udp_low_thread, same_thread, find_next_pn_thread, PnLinks, find_last, mark,
  linked, link_pn_threads, after_tsn_high, after_tsn_low, after_rtc, after_rta, after_dcp,
  after_lldp, after_udp_high,
}

-- The threads behind one in the enumeration.
unfoldable pub behind : PnThread → List PnThread
behind tsn_high_thread =
    tsn_low_thread ∷ rtc_thread ∷ rta_thread ∷ dcp_thread ∷ lldp_thread ∷ udp_high_thread
    ∷ udp_low_thread ∷ []
behind tsn_low_thread =
    rtc_thread ∷ rta_thread ∷ dcp_thread ∷ lldp_thread ∷ udp_high_thread ∷ udp_low_thread ∷ []
behind rtc_thread = rta_thread ∷ dcp_thread ∷ lldp_thread ∷ udp_high_thread ∷ udp_low_thread ∷ []
behind rta_thread = dcp_thread ∷ lldp_thread ∷ udp_high_thread ∷ udp_low_thread ∷ []
behind dcp_thread = lldp_thread ∷ udp_high_thread ∷ udp_low_thread ∷ []
behind lldp_thread = udp_high_thread ∷ udp_low_thread ∷ []
behind udp_high_thread = udp_low_thread ∷ []
behind udp_low_thread = []

unfoldable pub frame_type_of : PnThread → FrameType
frame_type_of tsn_high_thread = tsn_high
frame_type_of tsn_low_thread = tsn_low
frame_type_of rtc_thread = rtc
frame_type_of rta_thread = rta
frame_type_of dcp_thread = dcp
frame_type_of lldp_thread = lldp
frame_type_of udp_high_thread = udp_high
frame_type_of udp_low_thread = udp_low

abbrev pub active : AppConfig → PnThread → Bool
active app t = is_tc_active app (frame_type_of t)

unfoldable pub actives : AppConfig → List PnThread → List PnThread
actives app [] = []
actives app (t ∷ ts) = if active app t then t ∷ actives app ts else actives app ts

first_active : AppConfig → List PnThread → Option PnThread
first_active app [] = none
first_active app (t ∷ ts) = if active app t then some t else first_active app ts

unfoldable pub last_of : PnThread → List PnThread → PnThread
last_of t [] = t
last_of t (u ∷ us) = last_of u us

-- The threads that the links visit from one on, in order.
unfoldable pub visit : ℕ → (PnThread → Option PnThread) → Option PnThread → List PnThread
visit zero next o = []
visit (suc n) next none = []
visit (suc n) next (some t) = t ∷ visit n next (next t)

-- Lists in which `behind` gives the tail.
Chain : List PnThread → Type 0
Chain [] = Unit {0}
Chain (t ∷ ts) = (behind t ≡ ts) × Chain ts

behind-Chain : (t : PnThread) → Chain (behind t)
unfolding behind Chain
behind-Chain tsn_high_thread = (refl, (refl, (refl, (refl, (refl, (refl, (refl, _)))))))
behind-Chain tsn_low_thread = (refl, (refl, (refl, (refl, (refl, (refl, _))))))
behind-Chain rtc_thread = (refl, (refl, (refl, (refl, (refl, _)))))
behind-Chain rta_thread = (refl, (refl, (refl, (refl, _))))
behind-Chain dcp_thread = (refl, (refl, (refl, _)))
behind-Chain lldp_thread = (refl, (refl, _))
behind-Chain udp_high_thread = (refl, _)
behind-Chain udp_low_thread = _

-- The switch finds the first active thread behind its label.
find_next_lem :
    (app : AppConfig) (t : PnThread) → find_next_pn_thread app t ≡ first_active app (behind t)
unfolding find_next_pn_thread first_active behind after_tsn_high after_tsn_low after_rtc after_rta
    after_dcp after_lldp after_udp_high frame_type_of
find_next_lem app tsn_high_thread = refl
find_next_lem app tsn_low_thread = refl
find_next_lem app rtc_thread = refl
find_next_lem app rta_thread = refl
find_next_lem app dcp_thread = refl
find_next_lem app lldp_thread = refl
find_next_lem app udp_high_thread = refl
find_next_lem app udp_low_thread = refl

visit-actives :
    (app : AppConfig) (ts : List PnThread) (n : ℕ)
    → Chain ts
    → length ts < n
    → visit n (find_next_pn_thread app) (first_active app ts) ≡ actives app ts
unfolding visit Chain actives first_active
visit-actives app [] (suc n) c h = refl
visit-actives app [] zero c h = absurd (omega arith)
visit-actives app (t ∷ ts) zero c h = absurd (omega arith)
visit-actives app (t ∷ ts) (suc n) c h = elim (Bool-cases (active app t)) [
  | inl on ↦
      let step : find_next_pn_thread app t ≡ first_active app ts =
        find_next_lem app t ∙ ap (first_active app) c.0 in
      rw (on, step) (ap (λ (l : List PnThread). t ∷ l) (visit-actives app ts n c.1 (omega arith)))
  | inr off ↦ rw off (visit-actives app ts (suc n) c.1 (omega arith))
]

find_last-actives :
    (app : AppConfig) (ts : List PnThread) (t : PnThread) (n : ℕ)
    → Chain ts
    → find_next_pn_thread app t ≡ first_active app ts
    → length ts < n
    → find_last n (find_next_pn_thread app) t ≡ some (last_of t (actives app ts))
unfolding find_last Chain actives first_active last_of
find_last-actives app ts t zero c e h = absurd (omega arith)
find_last-actives app [] t (suc n) c e h = rw (find_last, e) refl
find_last-actives app (u ∷ us) t (suc n) c e h = elim (Bool-cases (active app u)) [
  | inl on ↦
      let next : find_next_pn_thread app t ≡ some u = e ∙ (rw on refl) in
      let step : find_next_pn_thread app u ≡ first_active app us =
        find_next_lem app u ∙ ap (first_active app) c.0 in
      rw (on, find_last, next) (find_last-actives app us u n c.1 step (omega arith))
  | inr off ↦
      let step : find_next_pn_thread app t ≡ first_active app us = e ∙ (rw off refl) in
      rw off (find_last-actives app us t (suc n) c.1 step (omega arith))
]

-- What links say if `t` is the first class and `old` held before: the classes visited, and the
-- threads marked as the first and the last.
pub record Orders (app : AppConfig) (old l : PnLinks) (t : PnThread) : Type 0 where
  pub visited : visit 9 l.next (some t) ≡ t ∷ actives app (behind t)
  pub first_marked : (u : PnThread) → l.is_first u ≡ same_thread u t || old.is_first u
  pub last_marked :
      (u : PnThread)
      → l.is_last u ≡ same_thread u (last_of t (actives app (behind t))) || old.is_last u

behind-short : (t : PnThread) → length (behind t) < 8
unfolding behind
behind-short t = ground arith

mark-Orders :
    (app : AppConfig) (old : PnLinks) (t : PnThread)
    → (l : PnLinks) × (mark 8 (record old { next = find_next_pn_thread app }) t ≡ some l)
      × Orders app old l t
unfolding mark visit
mark-Orders app old t =
    let ts = behind t in
    let found =
      find_last-actives app ts t 8 (behind-Chain t) (find_next_lem app t) (behind-short t) in
    let l : PnLinks = record {
      next = find_next_pn_thread app;
      is_first = λ u. if same_thread u t then true else old.is_first u;
      is_last = λ u. if same_thread u (last_of t (actives app ts)) then true else old.is_last u;
    } in
    (
      l,
      rw (mark, found) refl,
      record {
        visited =
            ap (λ (l : List PnThread). t ∷ l)
              (ap (visit 8 (find_next_pn_thread app)) (find_next_lem app t)
                ∙ visit-actives app ts 8 (behind-Chain t) (behind-short t));
        first_marked = λ u. ground arith;
        last_marked = λ u. ground arith;
      },
    )

-- The class that starts: TSN High, or RTC if that is not active.
unfoldable pub first_thread : AppConfig → Option PnThread
first_thread app =
    if is_tc_active app tsn_high
    then some tsn_high_thread
    else if is_tc_active app rtc
    then some rtc_thread
    else none

-- If TSN High or RTC is active, link_pn_threads returns 0 within fuel 8. Following the links from
-- the class that starts then visits it and, in the order of the enumeration, the active classes
-- behind it, each once. It is marked as the first and the last one visited as the last; other marks
-- stay as they were.
pub link_pn_threads-Orders :
    (app : AppConfig) (old : PnLinks) (t : PnThread)
    → first_thread app ≡ some t
    → (l : PnLinks) × (link_pn_threads 8 app old ≡ some (linked l)) × Orders app old l t
unfolding link_pn_threads first_thread
link_pn_threads-Orders app old t h = elim (Bool-cases (is_tc_active app tsn_high)) [
  | inl on ↦
      let same : tsn_high_thread ≡ t = some-injective _ _ (rw on at h) in
      let (l, e, w) = mark-Orders app old tsn_high_thread in
      (l, rw (link_pn_threads, on, e) refl, subst (λ u. Orders app old l u) same w)
  | inr off ↦ elim (Bool-cases (is_tc_active app rtc)) [
    | inl on ↦
        let same : rtc_thread ≡ t = some-injective _ _ (rw (off, on) at h) in
        let (l, e, w) = mark-Orders app old rtc_thread in
        (l, rw (link_pn_threads, off, on, e) refl, subst (λ u. Orders app old l u) same w)
    | inr neither ↦ absurd (none-ne-some _ (rw (off, neither) at h))
  ]
]
