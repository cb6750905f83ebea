-- ===== src/Udp/Generated.antt =====
-- The loop of udp_tx_thread_routine of src/udp_thread.c that generates.
use rtc_testbench.Base.{
  ℕ, suc, ◌+◌, ◌*◌, ◌≤◌, ◌<◌, ◌^◌, ◌≡◌, refl, sym, ap, ◌∙◌, inl, inr, Option, none, some, List, [],
  ◌∷◌, ◌++◌, arith, length, take, u64, Bool-cases, if◌then◌else◌,
}
use mathlib.Core.Path.{subst}
use rtc_testbench.Types.{AppConfig, ClassConfig, FrameType, Build}
use rtc_testbench.Stat.State.{State}
use rtc_testbench.Tx.Meta.{fit}
use rtc_testbench.Tc.Returns.{Returns, HasBacklog, batch-Returns}
use rtc_testbench.Udp.{
  UdpTx, SendTo, count_datagram, datagrams, udp_gen_and_send_frame, udp_generate,
}
use rtc_testbench.Udp.Datagram.{
  HasPattern, IsDatagram, built, built-HasPattern, length-built, built-IsDatagram,
}

-- Clocks that fit the meta data.
abbrev pub AllFit : List SendTo → Type 0
AllFit [] = Unit {0}
AllFit (call ∷ calls) = (call.tx_now < 2 ^ 64) × AllFit calls

module _ (app : AppConfig) (t : FrameType) where
  -- What the calls put on the wire, from the counter `q` on.
  abbrev pub Carried : ℕ → List SendTo → List (List ℕ) → Type 0
  Carried q [] wire = wire ≡ []
  Carried q (call ∷ calls) wire =
      (g : List ℕ) × (rest : List (List ℕ)) × (wire ≡ (if call.taken then g ∷ rest else rest))
      × IsDatagram app t q call.tx_now g
      × Carried (suc q) calls rest

  -- A run of the loop that generates, from the counter `q`.
  abbrev pub Generated : {D : Type 0} → ℕ → List SendTo → UdpTx D × List (List ℕ) → Type 0
  Generated q calls r = Carried q calls r.1 × (r.0.sequence_counter ≡ q + length calls)

datagrams_append :
    (conf : ClassConfig) (call : SendTo) (f : List ℕ) (rest : List (List ℕ))
    → datagrams conf call f ++ rest ≡ (if call.taken then take conf.frame_length f ∷ rest else rest)
unfolding datagrams
datagrams_append conf call f rest = elim (Bool-cases call.taken) [
  | inl z ↦ rw z refl
  | inr z ↦ rw z refl
]

module _ {D : Type 0} (app : AppConfig) (build : Build) (t : FrameType) (fuel : ℕ) where
  sent-Returns :
      (call : SendTo) (s : State D) (q : ℕ)
      → HasBacklog app build t s
      → 0 < (app.classes t).num_frames_per_cycle
      → q + 1 + (app.classes t).num_frames_per_cycle < 2 ^ 64
      → 1 + (app.classes t).num_frames_per_cycle < fuel
      → Returns (HasBacklog app build t) (count_datagram app build t fuel call s q)
  unfolding count_datagram
  sent-Returns call s q v p c f = elim (Bool-cases call.taken) [
    | inl z ↦ rw z (batch-Returns app build t fuel s q 1 call.sent_now v p (c, f))
    | inr z ↦ rw z v
  ]

  -- The result of udp_gen_and_send_frame.
  abbrev Sent : UdpTx D → SendTo → List ℕ × List (List ℕ) × State D → Type 0
  Sent tx call r =
      let f = built app t tx.frame tx.sequence_counter call.tx_now in
      (r.0 ≡ f) × (r.1 ≡ datagrams (app.classes t) call f) × HasBacklog app build t r.2

  one-Returns :
      (tx : UdpTx D) (call : SendTo)
      → HasBacklog app build t tx.stat
      → 0 < (app.classes t).num_frames_per_cycle
      → tx.sequence_counter + 1 + (app.classes t).num_frames_per_cycle < 2 ^ 64
      → 1 + (app.classes t).num_frames_per_cycle < fuel
      → Returns
          (Sent tx call)
          (udp_gen_and_send_frame app build t fuel tx.stat tx.frame tx.sequence_counter call)
  unfolding udp_gen_and_send_frame
  one-Returns tx call v p c f =
      paired (count_datagram app build t fuel call tx.stat tx.sequence_counter)
        (sent-Returns call tx.stat tx.sequence_counter v p c f)
    where
      g : List ℕ
      g = built app t tx.frame tx.sequence_counter call.tx_now

      paired :
          (x : Option (State D))
          → Returns (HasBacklog app build t) x
          → Returns
              (Sent tx call)
              (elim x [ some s' ↦ some (g, datagrams (app.classes t) call g, s') | none ↦ none ])
      paired none h = h
      paired (some s) h = (refl, refl, h)

  -- The thread behind one datagram.
  abbrev next : UdpTx D → List ℕ → State D → UdpTx D
  next tx f s = record tx { frame = f; sequence_counter = u64 (tx.sequence_counter + 1); stat = s }

  after_one :
      (q : ℕ) (call : SendTo) (calls : List SendTo) (f : List ℕ) (sent : List (List ℕ))
      (y : Option (UdpTx D × List (List ℕ)))
      → sent ≡ datagrams (app.classes t) call f
      → IsDatagram app t q call.tx_now (take (app.classes t).frame_length f)
      → Returns (Generated app t (suc q) calls) y
      → Returns
          (Generated app t q (call ∷ calls))
          (elim y [ some (tx', wire) ↦ some (tx', sent ++ wire) | none ↦ none ])
  after_one q call calls f sent none e r h = h
  after_one q call calls f sent (some (tx', wire)) e r (o, l) = (
    (
      take (app.classes t).frame_length f,
      wire,
      ap (λ (x : List (List ℕ)). x ++ wire) e ∙ datagrams_append (app.classes t) call f wire,
      r,
      o,
    ),
    omega (arith, l),
  )

  after_sent :
      (tx : UdpTx D) (call : SendTo) (calls : List SendTo)
      (y : Option (List ℕ × List (List ℕ) × State D))
      → Returns (Sent tx call) y
      → IsDatagram app t tx.sequence_counter call.tx_now
          (take (app.classes t).frame_length (built app t tx.frame tx.sequence_counter call.tx_now))
      → ((g : List ℕ) (s : State D)
          → g ≡ built app t tx.frame tx.sequence_counter call.tx_now
          → HasBacklog app build t s
          → Returns
              (Generated app t (suc tx.sequence_counter) calls)
              (udp_generate app build t fuel (next tx g s) calls))
      → Returns (Generated app t tx.sequence_counter (call ∷ calls)) (elim y [
        | some (g, sent, s) ↦ elim (udp_generate app build t fuel (next tx g s) calls) [
          | some (tx', wire) ↦ some (tx', sent ++ wire)
          | none ↦ none
        ]
        | none ↦ none
      ])
  after_sent tx call calls none h r k = h
  after_sent tx call calls (some (g, sent, s)) (e, d, h) r k =
      after_one tx.sequence_counter call calls
        (built app t tx.frame tx.sequence_counter call.tx_now) sent
        (udp_generate app build t fuel (next tx g s) calls) d r (k g s e h)

  pub generate-Returns :
      (calls : List SendTo) (tx : UdpTx D) (q : ℕ)
      → tx.sequence_counter ≡ q
      → HasBacklog app build t tx.stat
      → HasPattern (app.classes t) tx.frame
      → (app.classes t).frame_length ≤ length tx.frame
      → 16 + length (app.classes t).payload_pattern ≤ (app.classes t).frame_length
      → 0 < (app.classes t).num_frames_per_cycle
      → (app.classes t).num_frames_per_cycle < 2 ^ 32
      → 1 + (app.classes t).num_frames_per_cycle < fuel
      → q + length calls ≤ (app.classes t).num_frames_per_cycle * 2 ^ 32
      → q + length calls + (app.classes t).num_frames_per_cycle < 2 ^ 64
      → AllFit calls
      → Returns (Generated app t q calls) (udp_generate app build t fuel tx calls)
  unfolding udp_generate
  generate-Returns [] tx q e v w room fits p n f a b h = (refl, omega (arith, e))
  generate-Returns (call ∷ calls) tx q e v w room fits p n f a b (h, hs) =
      let sq = tx.sequence_counter in
      let holds =
        fit (app.classes t).num_frames_per_cycle sq call.tx_now p n (omega (arith, a, e)) h in
      subst
        (λ (i : ℕ).
          Returns (Generated app t i (call ∷ calls))
            (udp_generate app build t fuel tx (call ∷ calls)))
        e
        (after_sent tx call calls (udp_gen_and_send_frame app build t fuel tx.stat tx.frame sq call)
          (one-Returns tx call v p (omega (arith, b, e)) f)
          (built-IsDatagram app t tx.frame sq call.tx_now w holds fits room)
          (λ (g : List ℕ) (s : State D) same k.
            generate-Returns calls (next tx g s) (suc sq) (grind (arith, b, e)) k
              (subst (HasPattern (app.classes t)) (sym same)
                (built-HasPattern app t tx.frame sq call.tx_now w))
              (omega (
                arith,
                room,
                ap (λ (x : List ℕ). length x) same,
                length-built app t tx.frame sq call.tx_now (omega (arith, w.fits)),
              ))
              fits p n f (omega (arith, a, e)) (omega (arith, b, e)) hs))
