-- ===== src/Service/Pipeline/Queue.antt =====
-- The queue of one connection: how it goes on.
use custom_service.Common.{
  ◌≡◌, ◌<◌, ◌∙◌, refl, ap, ◌++◌, ◌⊎◌, inl, inr, true, false, some, List, [], ◌∷◌, length,
  Bool-cases, Str, codes, str_eq, str_eq_refl, lookup, modify, lookup-modify, lt→ltb,
}
use custom_service.Ws.Protocol.{Envelope}
use custom_service.Ws.Client.{
  Client, Net, OutboundFrame, send, receive, enqueue, has_room, is_low, frame_of, mark_closed,
  send_buf_high,
}
use custom_service.Ws.Client.Sending.{receive_full, receive_room, receive_closed, lookup-send}

-- The connection is open and has room, and `high` waits in its queue.
abbrev pub IsOpen : Str → List OutboundFrame → Net → Type 0
IsOpen conn high n =
    (c : Client) × (lookup conn n.clients ≡ some c)
    × (c.closed ≡ false)
    × (c.high ≡ high)
    × (length high < send_buf_high)

-- An acknowledgement, or an error, about the message `id`.
abbrev pub IsAnswer : Str → Envelope → Type 0
IsAnswer id e = (e.id ≡ id) × ((e.type ≡ codes "ack") ⊎ (e.type ≡ codes "error"))

-- The queue has gone on with an answer, and perhaps with more.
abbrev pub IsAnswered : Str → Str → List OutboundFrame → Net → Type 0
IsAnswered conn id high n =
    (c : Client) × (f : OutboundFrame) × (more : List OutboundFrame) × (lookup conn n.clients
      ≡ some c)
    × (c.high ≡ high ++ f ∷ more)
    × IsAnswer id f.env

append_assoc_one :
    (xs : List OutboundFrame) (f g : OutboundFrame) (ys : List OutboundFrame)
    → (xs ++ f ∷ ys) ++ g ∷ [] ≡ xs ++ f ∷ (ys ++ g ∷ [])
append_assoc_one [] f g ys = refl
append_assoc_one (x ∷ xs) f g ys = ap (λ l. x ∷ l) (append_assoc_one xs f g ys)

mark_closed-high : (c : Client) → (mark_closed c).high ≡ c.high
unfolding mark_closed
mark_closed-high c = refl

enqueue-low : (e : Envelope) (c : Client) → is_low e ≡ true → (enqueue e c).high ≡ c.high
unfolding enqueue
enqueue-low e c low = simp low refl

enqueue-high :
    (e : Envelope) (c : Client)
    → is_low e ≡ false
    → (enqueue e c).high ≡ c.high ++ frame_of e c ∷ []
unfolding enqueue
enqueue-high e c urgent = simp urgent refl

-- A queue that has gone on goes on.
receive-grows :
    (e : Envelope) (c : Client) (high : List OutboundFrame) (f : OutboundFrame)
    (more : List OutboundFrame)
    → c.high ≡ high ++ f ∷ more
    → (rest : List OutboundFrame) × ((receive e c).high ≡ high ++ f ∷ rest)
receive-grows e c high f more h = elim (Bool-cases c.closed) [
  | inl closed ↦ (more, ap (λ d. d.high) (receive_closed e c closed) ∙ h)
  | inr live ↦ elim (Bool-cases (has_room e c)) [
    | inr full ↦ (more, ap (λ d. d.high) (receive_full e c live full) ∙ marked)
    | inl room ↦ elim (Bool-cases (is_low e)) [
      | inl low ↦ (more, ap (λ d. d.high) (receive_room e c live room) ∙ enqueue-low e c low ∙ h)
      | inr urgent ↦ (
        more ++ frame_of e c ∷ [],
        ap (λ d. d.high) (receive_room e c live room)
            ∙ enqueue-high e c urgent
            ∙ ap (λ l. l ++ frame_of e c ∷ []) h
            ∙ append_assoc_one high f (frame_of e c) more,
      )
    ]
  ]
]
  where
    marked : (mark_closed c).high ≡ high ++ f ∷ more
    marked = mark_closed-high c ∙ h

pub send-IsAnswered :
    (conn id : Str) (high : List OutboundFrame) (k : Str) (e : Envelope) (n : Net)
    → IsAnswered conn id high n
    → IsAnswered conn id high (send k e n).0
send-IsAnswered conn id high k e n (c, f, more, h, q, a) = elim (Bool-cases (str_eq k conn)) [
  | inl same ↦
      let (rest, r) = receive-grows e c high f more q in
      (receive e c, f, rest, rw (lookup-send k conn e n, same, h) refl, r, a)
  | inr other ↦ (c, f, more, rw (lookup-send k conn e n, other) h, q, a)
]

fits :
    (e : Envelope) (c : Client)
    → is_low e ≡ false
    → length c.high < send_buf_high
    → has_room e c ≡ true
unfolding has_room
fits e c urgent room = simp urgent (lt→ltb (length c.high) send_buf_high room)

-- The answer itself.
pub open-send :
    (conn : Str) (high : List OutboundFrame) (e : Envelope) (id : Str) (n : Net)
    → is_low e ≡ false
    → IsAnswer id e
    → IsOpen conn high n
    → IsAnswered conn id high (send conn e n).0
unfolding frame_of
open-send conn high e id n urgent a (c, h, live, q, room) =
    let got : (receive e c).high ≡ high ++ frame_of e c ∷ [] =
      ap (λ d. d.high) (receive_room e c live (fits e c urgent (rw q room)))
      ∙ enqueue-high e c urgent
      ∙ ap (λ l. l ++ frame_of e c ∷ []) q in
    (
      receive e c,
      frame_of e c,
      [],
      rw (lookup-send conn conn e n, str_eq_refl conn, h) refl,
      got,
      a,
    )

-- Writes of the conversation and of the block leave the queues alone.
pub modify-IsOpen :
    (conn : Str) (g : Client → Client) (high : List OutboundFrame) (n : Net)
    → ((c : Client) → ((g c).closed ≡ c.closed) × ((g c).high ≡ c.high))
    → IsOpen conn high n
    → IsOpen conn high (record n { clients = modify conn g n.clients })
modify-IsOpen conn g high n same (c, h, live, q, room) = (
  g c,
  rw (lookup-modify conn conn g n.clients, str_eq_refl conn, h) refl,
  (same c).0 ∙ live,
  (same c).1 ∙ q,
  room,
)
