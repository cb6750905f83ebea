-- ===== src/Packet/Concludes.antt =====
-- When the loops of packet_send_messages of src/packet.c end, with all sent or with an error.
use rtc_testbench.Base.{
  ℕ, zero, suc, ◌+◌, ◌≤◌, ◌<◌, ◌≡◌, ◌⊎◌, inl, inr, List, [], ◌∷◌, arith, length, take, drop,
  length-take,
}
use mathlib.Core.Path.{subst}
use rtc_testbench.Packet.{
  Message, Reply, refused, accepted, End, finished, failed, unfinished, Sending, behind, send_batch,
  onward, packet_send_messages,
}
use rtc_testbench.Packet.Sends.{length-drop_lem}

-- At each call up to the first that fails, sendmmsg takes at least one message.
abbrev pub Moves : List Reply → Type 0
Moves [] = Unit {0}
Moves (refused e ∷ rs) = Unit {0}
Moves (accepted len ∷ rs) = (0 < len) × Moves rs

-- There is a call that fails.
abbrev pub Refuses : List Reply → Type 0
Refuses [] = ⊥
Refuses (refused e ∷ rs) = Unit {0}
Refuses (accepted len ∷ rs) = Refuses rs

-- sendmmsg moves on, and answers for `n` messages or until it fails.
abbrev pub Responds : ℕ → List Reply → Type 0
Responds n rs = Moves rs × ((n ≤ length rs) ⊎ Refuses rs)

-- A run that has ended; if all was sent, what is left of the replies is for `n` more messages.
abbrev pub Concludes : ℕ → End → Type 0
Concludes n (finished rs) = Responds n rs
Concludes n (failed e) = Unit {0}
Concludes n unfinished = ⊥

send_batch-Concludes :
    (ms : List Message) (rs : List Reply) (n : ℕ)
    → Responds (length ms + n) rs
    → Concludes n ((send_batch ms rs).end)
unfolding send_batch behind
send_batch-Concludes [] rs n h = subst (λ (k : ℕ). Responds k rs) (omega arith) h
send_batch-Concludes (m ∷ ms) [] n (w, inl h) = absurd (omega arith)
send_batch-Concludes (m ∷ ms) [] n (w, inr h) = absurd h
send_batch-Concludes (m ∷ ms) (refused e ∷ rs) n h = _
send_batch-Concludes (m ∷ ms) (accepted len ∷ rs) n ((p, w), inl h) =
    send_batch-Concludes (drop len (m ∷ ms)) rs n
      (w, inl (omega (arith, p, length-drop_lem len (m ∷ ms))))
send_batch-Concludes (m ∷ ms) (accepted len ∷ rs) n ((p, w), inr h) =
    send_batch-Concludes (drop len (m ∷ ms)) rs n (w, inr h)

onward-Concludes :
    (wire : List Message) (go : List Reply → Sending) (n : ℕ) (e : End)
    → Concludes n e
    → ((rs : List Reply) → Responds n rs → Concludes 0 ((go rs).end))
    → Concludes 0 ((onward wire go e).end)
unfolding onward behind
onward-Concludes wire go n (finished rs) h k = k rs h
onward-Concludes wire go n (failed e) h k = h
onward-Concludes wire go n unfinished h k = h

split_lem : (n : ℕ) (ms : List Message) → length ms ≡ length (take n ms) + length (drop n ms)
split_lem n ms = omega (arith, length-take n ms, length-drop_lem n ms)

-- Enough answers end the loops.
pub packet_send_messages-Concludes :
    (fuel n : ℕ) (ms : List Message) (rs : List Reply)
    → 0 < n
    → length ms ≤ fuel
    → Responds (length ms) rs
    → Concludes 0 ((packet_send_messages fuel n ms rs).end)
unfolding packet_send_messages
packet_send_messages-Concludes fuel n [] rs p f h = h
packet_send_messages-Concludes zero n (m ∷ ms) rs p f h = absurd (omega arith)
packet_send_messages-Concludes (suc fuel) n (m ∷ ms) rs p f h =
    let batch = send_batch (take n (m ∷ ms)) rs in
    onward-Concludes (batch.wire) (packet_send_messages fuel n (drop n (m ∷ ms)))
      (length (drop n (m ∷ ms))) (batch.end)
      (send_batch-Concludes (take n (m ∷ ms)) rs (length (drop n (m ∷ ms)))
        (subst (λ (k : ℕ). Responds k rs) (split_lem n (m ∷ ms)) h))
      (λ rs' r.
        packet_send_messages-Concludes fuel n (drop n (m ∷ ms)) rs' p
          (omega (arith, length-drop_lem n (m ∷ ms))) r)
