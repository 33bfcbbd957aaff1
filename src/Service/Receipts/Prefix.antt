-- ===== src/Service/Receipts/Prefix.antt =====
-- How much of the undelivered messages a visitor who returns gets.
use custom_service.Common.{
  str_eq_refl, if_cases, zero, suc, subst, ap, sym, ◌∙◌, length-append, arith, suc, ◌-◌, true, ap,
  take, ℕ, ◌≡◌, refl, inl, inr, false, some, List, [], ◌∷◌, ◌++◌, length, map, Bool-cases, Str,
  lookup, ltb,
}
use custom_service.Ws.Protocol.{Envelope}
use custom_service.Ws.Client.{
  mark_closed, receive, Client, Net, OutboundFrame, send, enqueue, has_room, frame_of,
  send_buf_high,
}
use custom_service.Ws.Client.Sending.{lookup-send, receive_room, receive_full}
use custom_service.Service.{Message}
use custom_service.Service.Receipts.{replay_all, replayed}

abbrev pub envelopes : List OutboundFrame → List Envelope
envelopes fs = map (λ f. f.env) fs

send-accepted :
    (conn : Str) (e : Envelope) (n : Net) (c : Client)
    → lookup conn n.clients ≡ some c
    → c.closed ≡ false
    → (send conn e n).1 ≡ has_room e c
unfolding send
send-accepted conn e n c h live = elim (Bool-cases (has_room e c)) [
  | inl room ↦ rw (h, send) (simp (live, room) refl)
  | inr full ↦ rw (h, send) (simp (live, full) refl)
]

replayed-room :
    (m : Message) (c : Client) → has_room (replayed m) c ≡ ltb (length c.high) send_buf_high
unfolding has_room replayed
replayed-room m c = refl

replayed-high :
    (m : Message) (c : Client)
    → (enqueue (replayed m) c).high ≡ c.high ++ frame_of (replayed m) c ∷ []
unfolding enqueue replayed
replayed-high m c = refl

-- What the connection has in the end.
pub record Replayed (conn : Str) (ms : List Message) (c : Client) (r : Net × ℕ) : Type 0 where
  pub client : Client
  pub here : lookup conn r.0.clients ≡ some client
  pub queue :
      envelopes client.high
      ≡ envelopes c.high ++ map replayed (take (send_buf_high - length c.high) ms)
  pub count : r.1 ≡ length (take (send_buf_high - length c.high) ms)

envelopes-last :
    (fs : List OutboundFrame) (f : OutboundFrame) (es : List Envelope)
    → envelopes (fs ++ f ∷ []) ++ es ≡ envelopes fs ++ f.env ∷ es
envelopes-last [] f es = refl
envelopes-last (g ∷ fs) f es = ap (λ l. g.env ∷ l) (envelopes-last fs f es)

append_nil : (es : List Envelope) → es ≡ es ++ []
append_nil [] = refl
append_nil (e ∷ es) = ap (λ l. e ∷ l) (append_nil es)

full-take :
    (high : List OutboundFrame) (ms : List Message)
    → ltb (length high) send_buf_high ≡ false
    → take (send_buf_high - length high) ms ≡ []
full-take high ms full =
    let none_left : send_buf_high - length high ≡ 0 = ground arith in rw none_left refl

room-take :
    (high : List OutboundFrame) (f : OutboundFrame) (m : Message) (ms : List Message)
    → ltb (length high) send_buf_high ≡ true
    → take (send_buf_high - length high) (m ∷ ms)
      ≡ m ∷ take (send_buf_high - length (high ++ f ∷ [])) ms
room-take high f m ms room =
    let more : send_buf_high - length high ≡ suc (send_buf_high - length (high ++ f ∷ [])) =
      ground (arith, room, length-append high (f ∷ [])) in
    rw more refl

take-nothing : (k : ℕ) → take {A = Message} k [] ≡ []
take-nothing zero = refl
take-nothing (suc k) = refl

-- One message more, taken or not.
took :
    (conn : Str) (m : Message) (ms : List Message) (c : Client) (r : Net × ℕ)
    → ltb (length c.high) send_buf_high ≡ true
    → Replayed conn ms (enqueue (replayed m) c) r
    → Replayed conn (m ∷ ms) c (r.0, suc r.1)
unfolding frame_of
took conn m ms c r room v =
    let f = frame_of (replayed m) c in
    let t = room-take c.high f m ms room in
    let q : envelopes v.client.high
        ≡ envelopes (c.high ++ f ∷ [])
          ++ map replayed (take (send_buf_high - length (c.high ++ f ∷ [])) ms) =
      subst
        (λ (high : List OutboundFrame).
          envelopes v.client.high
          ≡ envelopes high ++ map replayed (take (send_buf_high - length high) ms))
        (replayed-high m c) v.queue in
    let k : r.1 ≡ length (take (send_buf_high - length (c.high ++ f ∷ [])) ms) =
      subst (λ (high : List OutboundFrame). r.1 ≡ length (take (send_buf_high - length high) ms))
        (replayed-high m c) v.count in
    record {
      client = v.client;
      here = v.here;
      queue = rw t (q ∙ envelopes-last c.high f _);
      count = rw t (ap suc k);
    }

refused :
    (conn : Str) (m : Message) (ms : List Message) (n : Net) (c : Client)
    → ltb (length c.high) send_buf_high ≡ false
    → lookup conn n.clients ≡ some (mark_closed c)
    → Replayed conn (m ∷ ms) c (n, 0)
unfolding mark_closed
refused conn m ms n c full h =
    let t = full-take c.high (m ∷ ms) full in
    record {
      client = mark_closed c;
      here = h;
      queue = rw t (append_nil (envelopes c.high));
      count = rw t refl;
    }

received :
    (conn : Str) (e : Envelope) (n : Net) (c : Client)
    → lookup conn n.clients ≡ some c
    → lookup conn (send conn e n).0.clients ≡ some (receive e c)
received conn e n c h = rw (lookup-send conn conn e n, str_eq_refl conn, h) refl

enqueue-live : (m : Message) (c : Client) → (enqueue (replayed m) c).closed ≡ c.closed
unfolding enqueue replayed
enqueue-live m c = refl

-- The replay puts behind what waits in the first queue of an open connection as many of the
-- messages, in their order, as there is room for up to 256 frames, and counts them: no message is
-- passed over for a later one.
pub replay_all-Replayed :
    (conn : Str) (ms : List Message) (n : Net) (c : Client)
    → lookup conn n.clients ≡ some c
    → c.closed ≡ false
    → Replayed conn ms c (replay_all conn ms n)
unfolding replay_all
replay_all-Replayed conn [] n c h live =
    let t = take-nothing (send_buf_high - length c.high) in
    record { client = c; here = h; queue = rw t (append_nil (envelopes c.high)); count = rw t refl }
replay_all-Replayed conn (m ∷ ms) n c h live =
    let accepted = send-accepted conn (replayed m) n c h live ∙ replayed-room m c in
    let got = received conn (replayed m) n c h in
    if_cases (Replayed conn (m ∷ ms) c) (send conn (replayed m) n).1
      (λ yes_taken.
        let room = sym accepted ∙ yes_taken in
        let fits = replayed-room m c ∙ room in
        took conn m ms c _ room (
          replay_all-Replayed conn ms (send conn (replayed m) n).0 (enqueue (replayed m) c)
            (got ∙ ap some (receive_room (replayed m) c live fits)) (enqueue-live m c ∙ live)))
      (λ not_taken.
        let full = sym accepted ∙ not_taken in
        refused conn m ms (send conn (replayed m) n).0 c full
          (got ∙ ap some (receive_full (replayed m) c live (replayed-room m c ∙ full))))
