-- ===== src/Packet/Sends.antt =====
-- What packet_send_messages of src/packet.c hands to the socket.
use rtc_testbench.Base.{
  ℕ, zero, suc, ◌+◌, ◌≤◌, ◌<◌, ◌≡◌, refl, sym, ap, ◌∙◌, List, [], ◌∷◌, ◌++◌, arith, length, take,
  drop, min, length-take, ◌-◌,
}
use mathlib.Core.Path.{subst}
use rtc_testbench.Packet.{
  Message, Reply, refused, accepted, End, finished, failed, unfinished, Sending, behind, send_batch,
  onward, packet_send_messages,
}

take-drop_lem : (n : ℕ) (ms : List Message) → take n ms ++ drop n ms ≡ ms
take-drop_lem zero ms = refl
take-drop_lem (suc n) [] = refl
take-drop_lem (suc n) (m ∷ ms) = ap (λ (x : List Message). m ∷ x) (take-drop_lem n ms)

append_assoc : (xs ys zs : List Message) → (xs ++ ys) ++ zs ≡ xs ++ (ys ++ zs)
append_assoc [] ys zs = refl
append_assoc (x ∷ xs) ys zs = ap (λ (l : List Message). x ∷ l) (append_assoc xs ys zs)

append_nil : (xs : List Message) → xs ++ [] ≡ xs
append_nil [] = refl
append_nil (x ∷ xs) = ap (λ (l : List Message). x ∷ l) (append_nil xs)

-- What is left behind the wire; nothing at the end of a run that finished.
abbrev pub Left : End → List Message → Type 0
Left (finished rs) rest = rest ≡ []
Left _ rest = Unit {0}

-- The wire is a beginning of the messages, and all of them if the run finished.
pub record IsPrefix (ms : List Message) (s : Sending) : Type 0 where
  pub rest : List Message
  pub split : (s.wire) ++ rest ≡ ms
  pub left : Left (s.end) rest

behind-IsPrefix :
    (n : ℕ) (ms : List Message) (s : Sending)
    → IsPrefix (drop n ms) s
    → IsPrefix ms (behind (take n ms) s)
unfolding behind
behind-IsPrefix n ms s p = record {
  rest = p.rest;
  split =
      append_assoc (take n ms) (s.wire) p.rest
      ∙ ap (λ (x : List Message). take n ms ++ x) p.split
      ∙ take-drop_lem n ms;
  left = p.left;
}

send_batch-IsPrefix : (ms : List Message) (rs : List Reply) → IsPrefix ms (send_batch ms rs)
unfolding send_batch
send_batch-IsPrefix [] rs = record { rest = []; split = refl; left = refl }
send_batch-IsPrefix (m ∷ ms) [] = record { rest = m ∷ ms; split = refl; left = _ }
send_batch-IsPrefix (m ∷ ms) (refused e ∷ rs) = record { rest = m ∷ ms; split = refl; left = _ }
send_batch-IsPrefix (m ∷ ms) (accepted len ∷ rs) =
    behind-IsPrefix len (m ∷ ms) (send_batch (drop len (m ∷ ms)) rs)
      (send_batch-IsPrefix (drop len (m ∷ ms)) rs)

stays :
    (n : ℕ) (ms wire rest : List Message)
    → wire ++ rest ≡ take n ms
    → (e : End) → ((r : List Message) → Left e r)
    → IsPrefix ms (record { wire = wire; end = e })
stays n ms wire rest p e l = record {
  rest = rest ++ drop n ms;
  split =
      sym (append_assoc wire rest (drop n ms))
      ∙ ap (λ (x : List Message). x ++ drop n ms) p
      ∙ take-drop_lem n ms;
  left = l (rest ++ drop n ms);
}

onward-IsPrefix :
    (n : ℕ) (ms : List Message) (e : End) (wire : List Message) (go : List Reply → Sending)
    → IsPrefix (take n ms) (record { wire = wire; end = e })
    → ((rs : List Reply) → IsPrefix (drop n ms) (go rs))
    → IsPrefix ms (onward wire go e)
unfolding onward behind
onward-IsPrefix n ms (finished rs) wire go p q =
    let r = q rs in
    let all : wire ≡ take n ms =
      sym (append_nil wire) ∙ ap (λ (x : List Message). wire ++ x) (sym p.left) ∙ p.split in
    record {
      rest = r.rest;
      split =
          append_assoc wire ((go rs).wire) r.rest
          ∙ ap (λ (x : List Message). wire ++ x) r.split
          ∙ ap (λ (x : List Message). x ++ drop n ms) all
          ∙ take-drop_lem n ms;
      left = r.left;
    }
onward-IsPrefix n ms (failed e) wire go p q = stays n ms wire p.rest p.split (failed e) (λ r. _)
onward-IsPrefix n ms unfinished wire go p q = stays n ms wire p.rest p.split unfinished (λ r. _)

pub packet_send_messages-IsPrefix :
    (fuel n : ℕ) (ms : List Message) (rs : List Reply)
    → IsPrefix ms (packet_send_messages fuel n ms rs)
unfolding packet_send_messages
packet_send_messages-IsPrefix fuel n [] rs = record { rest = []; split = refl; left = refl }
packet_send_messages-IsPrefix zero n (m ∷ ms) rs = record { rest = m ∷ ms; split = refl; left = _ }
packet_send_messages-IsPrefix (suc fuel) n (m ∷ ms) rs =
    let b = send_batch (take n (m ∷ ms)) rs in
    onward-IsPrefix n (m ∷ ms) (b.end) (b.wire) (packet_send_messages fuel n (drop n (m ∷ ms)))
      (send_batch-IsPrefix (take n (m ∷ ms)) rs)
      (packet_send_messages-IsPrefix fuel n (drop n (m ∷ ms)))

-- sendmmsg takes at least one message at each call.
abbrev pub Willing : List Reply → Type 0
Willing [] = Unit {0}
Willing (refused e ∷ rs) = ⊥
Willing (accepted len ∷ rs) = (0 < len) × Willing rs

-- The end of a run that sent `n` messages on `rs`.
record Finishes (n : ℕ) (rs : List Reply) (s : Sending) : Type 0 where
  replies : List Reply
  at_end : s.end ≡ finished replies
  enough : length rs ≤ n + length replies
  willing : Willing replies

pub length-drop_lem : (n : ℕ) (ms : List Message) → length (drop n ms) ≡ length ms - n
length-drop_lem zero ms = omega arith
length-drop_lem (suc n) [] = omega arith
length-drop_lem (suc n) (m ∷ ms) = omega (arith, length-drop_lem n ms)

send_batch-Finishes :
    (ms : List Message) (rs : List Reply)
    → Willing rs
    → length ms ≤ length rs
    → Finishes (length ms) rs (send_batch ms rs)
unfolding send_batch behind
send_batch-Finishes [] rs w h = record {
  replies = rs;
  at_end = refl;
  enough = omega arith;
  willing = w;
}
send_batch-Finishes (m ∷ ms) [] w h = absurd (omega arith)
send_batch-Finishes (m ∷ ms) (refused e ∷ rs) w h = absurd w
send_batch-Finishes (m ∷ ms) (accepted len ∷ rs) w h =
    let l = length-drop_lem len (m ∷ ms) in
    let r = send_batch-Finishes (drop len (m ∷ ms)) rs w.1 (omega (arith, l, w.0)) in
    record {
      replies = r.replies;
      at_end = r.at_end;
      enough = omega (arith, r.enough, l, w.0);
      willing = r.willing;
    }

packet_send_messages-Finishes :
    (fuel n : ℕ) (ms : List Message) (rs : List Reply)
    → 0 < n
    → length ms ≤ fuel
    → Willing rs
    → length ms ≤ length rs
    → Finishes (length ms) rs (packet_send_messages fuel n ms rs)
unfolding packet_send_messages onward behind
packet_send_messages-Finishes fuel n [] rs p f w h = record {
  replies = rs;
  at_end = refl;
  enough = omega arith;
  willing = w;
}
packet_send_messages-Finishes zero n (m ∷ ms) rs p f w h = absurd (omega arith)
packet_send_messages-Finishes (suc fuel) n (m ∷ ms) rs p f w h =
    let b = send_batch-Finishes (take n (m ∷ ms)) rs w (omega (arith, lt)) in
    let l = length-drop_lem n (m ∷ ms) in
    let r =
      packet_send_messages-Finishes fuel n (drop n (m ∷ ms)) b.replies p (omega (arith, l))
        b.willing (omega (arith, l, lt, b.enough)) in
    record {
      replies = r.replies;
      at_end = rw b.at_end r.at_end;
      enough = omega (arith, r.enough, b.enough, l, lt);
      willing = r.willing;
    }
  where
    lt : length (take n (m ∷ ms)) ≡ min n (length (m ∷ ms))
    lt = length-take n (m ∷ ms)

-- However sendmmsg answers, what packet_send_messages hands to the socket is a beginning of the
-- frames, each once and in their order, and all of them if it returns a count. If sendmmsg takes at
-- least one message at each call and answers for as many calls as there are frames, it returns.
-- There must be a frame per cycle, and as much fuel as there are frames.
pub packet_send_messages_complete :
    (fuel n : ℕ) (ms : List Message) (rs : List Reply)
    → 0 < n
    → length ms ≤ fuel
    → let s = packet_send_messages fuel n ms rs in
      IsPrefix ms s
      × (Willing rs
          → length ms ≤ length rs
          → (rs' : List Reply) × (s.end ≡ finished rs') × (s.wire ≡ ms))
packet_send_messages_complete fuel n ms rs p f =
    let s = packet_send_messages fuel n ms rs in
    let whole = packet_send_messages-IsPrefix fuel n ms rs in
    (
      whole,
      λ w h.
          let r = packet_send_messages-Finishes fuel n ms rs p f w h in
          let left = subst (λ (e : End). Left e whole.rest) r.at_end whole.left in
          (
            r.replies,
            r.at_end,
            sym (append_nil (s.wire))
                ∙ ap (λ (x : List Message). (s.wire) ++ x) (sym left)
                ∙ whole.split,
          ),
    )
