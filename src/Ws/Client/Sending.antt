-- ===== src/Ws/Client/Sending.antt =====
-- What `send` and `close` leave alone, and the bounds of the queues.
use mathlib.Core.Option
use custom_service.Common.{
  sym, ◌≤◌, ◌≡◌, refl, ap, ◌∙◌, inl, inr, Bool, true, false, Option, none, some, List, [], ◌∷◌,
  ◌++◌, arith, if◌then◌else◌, Bool-cases, Option-cases, length, length-append, Str, str_eq, Map,
  lookup, modify, lookup-modify, Every, modify-Every, str_eq_refl, str_eq_iff, subst,
}
use custom_service.Ws.Protocol.{Envelope}
use custom_service.Ws.Client.{
  Kind, visitor, agent, is_visitor, Client, Net, send_buf_high, send_buf_low, mark_closed, close,
  has_room, frame_of, enqueue, send, send_all, receive,
}

pub visitor-of : (c : Client) → is_visitor c ≡ true → c.kind ≡ visitor
unfolding is_visitor
visitor-of c e = go c.kind refl
  where
    go : (k : Kind) → c.kind ≡ k → c.kind ≡ visitor
    go visitor p = p
    go agent p = absurd (cc)

pub agent-of : (c : Client) → is_visitor c ≡ false → c.kind ≡ agent
unfolding is_visitor
agent-of c e = go c.kind refl
  where
    go : (k : Kind) → c.kind ≡ k → c.kind ≡ agent
    go agent p = p
    go visitor p = absurd (cc)

-- A client without its queues and its closing mark.
abbrev pub bare : Client → Client
bare c = record c { high = []; low = []; closed = false }

-- Every client of the heap, but for queues and closing marks.
abbrev pub SameClients : Net → Net → Type 0
SameClients m n =
    (k : Str) → Option.map bare (lookup k m.clients) ≡ Option.map bare (lookup k n.clients)

modify-bare :
    (conn k : Str) (f : Client → Client) (m : Map Client)
    → ((c : Client) → bare (f c) ≡ bare c)
    → Option.map bare (lookup k (modify conn f m)) ≡ Option.map bare (lookup k m)
modify-bare conn k f m e = rw (lookup-modify conn k f m) (go (str_eq conn k) (lookup k m))
  where
    go :
        (b : Bool) (o : Option Client)
        → Option.map bare (if b then Option.map f o else o) ≡ Option.map bare o
    go true none = refl
    go true (some c) = ap some (e c)
    go false o = refl

bare-enqueue : (e : Envelope) (c : Client) → bare (enqueue e c) ≡ bare c
unfolding enqueue
bare-enqueue e c = ground arith

-- The two ends of `close`, and the three of `send`.
pub close_cases {ℓ} :
    (P : Net → Type ℓ) (conn : Str) (n : Net)
    → P n
    → ((c : Client)
        → lookup conn n.clients ≡ some c
        → c.closed ≡ false
        → P (record n {
          clients = modify conn mark_closed n.clients;
          unregister = n.unregister ++ conn ∷ [];
        }))
    → P (close conn n)
unfolding close
close_cases P conn n stay shut = elim (Option-cases (lookup conn n.clients)) [
  | inl e ↦ rw (e, close) stay
  | inr (c, e) ↦ elim (Bool-cases c.closed) [
    | inl closed ↦ rw (e, close) (rw closed stay)
    | inr live ↦ rw (e, close) (rw live (shut c e live))
  ]
]

pub send_cases {ℓ} :
    (P : Net × Bool → Type ℓ) (conn : Str) (e : Envelope) (n : Net)
    → P (n, false)
    → ((c : Client)
        → lookup conn n.clients ≡ some c
        → c.closed ≡ false
        → has_room e c ≡ true
        → P (record n { clients = modify conn (enqueue e) n.clients }, true))
    → ((c : Client)
        → lookup conn n.clients ≡ some c
        → c.closed ≡ false
        → has_room e c ≡ false
        → P (close conn n, false))
    → P (send conn e n)
unfolding send
send_cases P conn e n stay queued full = elim (Option-cases (lookup conn n.clients)) [
  | inl h ↦ rw (h, send) stay
  | inr (c, h) ↦ elim (Bool-cases c.closed) [
    | inl closed ↦ rw (h, send) (rw closed stay)
    | inr live ↦ elim (Bool-cases (has_room e c)) [
      | inl room ↦ rw (h, send) (rw (live, room) (queued c h live room))
      | inr none_left ↦ rw (h, send) (rw (live, none_left) (full c h live none_left))
    ]
  ]
]

pub close-SameClients : (conn : Str) (n : Net) → SameClients (close conn n) n
unfolding mark_closed
close-SameClients conn n k =
    close_cases (λ m. Option.map bare (lookup k m.clients) ≡ Option.map bare (lookup k n.clients))
      conn n refl (λ c h live. modify-bare conn k mark_closed n.clients (λ d. refl))

pub send-SameClients : (conn : Str) (e : Envelope) (n : Net) → SameClients (send conn e n).0 n
send-SameClients conn e n k =
    send_cases (λ r. Option.map bare (lookup k r.0.clients) ≡ Option.map bare (lookup k n.clients))
      conn e n refl (λ c h live room. modify-bare conn k (enqueue e) n.clients (bare-enqueue e))
      (λ c h live full. close-SameClients conn n k)

pub send_all-SameClients :
    (conns : List Str) (e : Envelope) (n : Net) → SameClients (send_all conns e n) n
unfolding send_all
send_all-SameClients [] e n k = refl
send_all-SameClients (conn ∷ conns) e n k =
    send_all-SameClients conns e (send conn e n).0 k ∙ send-SameClients conn e n k

modify-other :
    (conn k : Str) (f : Client → Client) (m : Map Client)
    → str_eq conn k ≡ false
    → lookup k (modify conn f m) ≡ lookup k m
modify-other conn k f m ne = rw (lookup-modify conn k f m, ne)

-- Sending to one connection does not touch another one.
pub send-other :
    (conn k : Str) (e : Envelope) (n : Net)
    → str_eq conn k ≡ false
    → lookup k (send conn e n).0.clients ≡ lookup k n.clients
send-other conn k e n ne =
    send_cases (λ r. lookup k r.0.clients ≡ lookup k n.clients) conn e n refl
      (λ c h live room. modify-other conn k (enqueue e) n.clients ne)
      (λ c h live full.
        close_cases (λ m. lookup k m.clients ≡ lookup k n.clients) conn n refl
          (λ c h live. modify-other conn k mark_closed n.clients ne))

-- Both queues of a connection stay within their bounds.
pub record IsBounded (c : Client) : Type 0 where
  pub high_bound : length c.high ≤ send_buf_high
  pub low_bound : length c.low ≤ send_buf_low

abbrev pub AllBounded : Net → Type 0
AllBounded n = Every IsBounded n.clients

enqueue-IsBounded :
    (e : Envelope) (c : Client) → has_room e c ≡ true → IsBounded c → IsBounded (enqueue e c)
unfolding has_room enqueue
enqueue-IsBounded e c room b =
    ground
      (arith, length-append c.high (frame_of e c ∷ []), length-append c.low (frame_of e c ∷ []))

pub close-AllBounded : (conn : Str) (n : Net) → AllBounded n → AllBounded (close conn n)
unfolding mark_closed
close-AllBounded conn n b = close_cases AllBounded conn n b (λ c h live.
    modify-Every IsBounded conn mark_closed n.clients
      (λ d l. let v = b conn d l in record { high_bound = v.high_bound; low_bound = v.low_bound })
      b)

pub send-AllBounded :
    (conn : Str) (e : Envelope) (n : Net) → AllBounded n → AllBounded (send conn e n).0
send-AllBounded conn e n b =
    send_cases (λ r. AllBounded r.0) conn e n b
      (λ c h live room.
        modify-Every IsBounded conn (enqueue e) n.clients
          (λ d l.
            let same : c ≡ d = ground arith in enqueue-IsBounded e d (rw same at room) (b conn d l))
          b)
      (λ c h live full. close-AllBounded conn n b)

pub send_all-AllBounded :
    (conns : List Str) (e : Envelope) (n : Net) → AllBounded n → AllBounded (send_all conns e n)
unfolding send_all
send_all-AllBounded [] e n b = b
send_all-AllBounded (conn ∷ conns) e n b =
    send_all-AllBounded conns e (send conn e n).0 (send-AllBounded conn e n b)

modify_self :
    (conn : Str) (f : Client → Client) (m : Map Client) (c : Client)
    → lookup conn m ≡ some c
    → lookup conn (modify conn f m) ≡ some (f c)
modify_self conn f m c h = rw (lookup-modify conn conn f m, str_eq_refl conn, h)

pub receive_closed : (e : Envelope) (c : Client) → c.closed ≡ true → receive e c ≡ c
unfolding receive
receive_closed e c h = simp h

pub receive_room :
    (e : Envelope) (c : Client) → c.closed ≡ false → has_room e c ≡ true → receive e c ≡ enqueue e c
unfolding receive
receive_room e c h room = simp (h, room)

pub receive_full :
    (e : Envelope) (c : Client)
    → c.closed ≡ false
    → has_room e c ≡ false
    → receive e c ≡ mark_closed c
unfolding receive
receive_full e c h full = simp (h, full)

lookup-send_self :
    (conn : Str) (e : Envelope) (n : Net) (c : Client)
    → lookup conn n.clients ≡ some c
    → lookup conn (send conn e n).0.clients ≡ some (receive e c)
unfolding send
lookup-send_self conn e n c h = elim (Bool-cases c.closed) [
  | inl closed ↦ rw (h, send) (simp closed (h ∙ ap some (sym (receive_closed e c closed))))
  | inr live ↦ elim (Bool-cases (has_room e c)) [
    | inl room ↦
        rw (h, send)
          (simp (live, room)
            (modify_self conn (enqueue e) n.clients c h
              ∙ ap some (sym (receive_room e c live room))))
    | inr full ↦
        rw (h, send)
          (simp (live, full)
            (rw (h, close)
              (simp live (
                modify_self conn mark_closed n.clients c h
                ∙ ap some (sym (receive_full e c live full))))))
  ]
]

lookup-send-none :
    (conn : Str) (e : Envelope) (n : Net)
    → lookup conn n.clients ≡ none
    → lookup conn (send conn e n).0.clients ≡ none
unfolding send
lookup-send-none conn e n h = rw (h, send) h

-- `send` as a change of the heap: the connection receives, the others stay.
pub lookup-send :
    (conn k : Str) (e : Envelope) (n : Net)
    → lookup k (send conn e n).0.clients
      ≡ (if str_eq conn k then Option.map (receive e) (lookup k n.clients) else lookup k n.clients)
lookup-send conn k e n = elim (Bool-cases (str_eq conn k)) [
  | inr ne ↦ rw ne (send-other conn k e n ne)
  | inl same ↦
      let p : conn ≡ k = (str_eq_iff conn k).0 same in
      rw same (
        subst
          (λ j. lookup j (send conn e n).0.clients ≡ Option.map (receive e) (lookup j n.clients)) p
          (elim (Option-cases (lookup conn n.clients)) [
            | inl h ↦ rw h (lookup-send-none conn e n h)
            | inr (c, h) ↦ rw h (lookup-send_self conn e n c h)
          ]))
]
