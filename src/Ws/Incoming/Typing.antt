-- ===== src/Ws/Incoming/Typing.antt =====
-- Typing frames that follow each other within a second.
use custom_service.Common.{
  ◌||◌, false, codes, str_eq, has_prefix, not, if_both, ◌≡◌, refl, sym, ap, ◌∙◌, inl, inr, ◌&&◌,
  true, Option, none, some, Bool-cases, Str, is_empty, lookup, modify, lookup-modify, str_eq_refl,
  ltb_ℤ, ℤ, ◌-ℤ◌, wrap64,
}
use custom_service.Ws.Protocol.{monotonic_ts, frame, typing, Envelope}
use custom_service.Ws.Incoming.{handle_typing, handle_incoming, dispatch, with_id, forward_typing}
use custom_service.Ws.Hall.{hall_prefix}
use custom_service.Ws.Hub.{Sink, Hub, Ambient, stamped, publish, fanout_to_conv}
use custom_service.Ws.Binding.{
  bind_agent_conv, typing_min_interval_ms, build_typing_envelope, mark_typing,
}
use custom_service.Ws.Client.{is_visitor, Client}
use custom_service.Ws.Client.Sending.{bare, SameClients, send-SameClients}
use custom_service.Ws.Fanout.{fanout_local}
use custom_service.Ws.Run.Stable.Sends.{fanout_local-keeps}
use mathlib.Core.Option

-- Delivery changes nothing of a connection but its queues and its closing mark.
publish-net : (e : Envelope) (h : Hub) → (publish e h).net ≡ h.net
unfolding publish
publish-net e h = elim (Bool-cases h.has_redis) [ inl r ↦ rw r refl | inr r ↦ rw r refl ]

fanout_to_conv-SameClients : (e : Envelope) (h : Hub) → SameClients (fanout_to_conv e h).0.net h.net
unfolding fanout_to_conv
fanout_to_conv-SameClients e h =
    rw (publish-net (stamped h e) (record h { net = (fanout_local h.index (stamped h e) h.net).0 }))
      (fanout_local-keeps (λ n. SameClients n h.net) (λ f. Unit {0})
        (λ conn f ok n same k. send-SameClients conn f n k ∙ same k) h.index (stamped h e) tt h.net
        (λ k. refl))

typing-early :
    (now_ms : ℤ) (c : Client)
    → ltb_ℤ (wrap64 (now_ms -ℤ c.last_typing_ms)) typing_min_interval_ms ≡ true
    → build_typing_envelope now_ms c ≡ none
unfolding build_typing_envelope
typing-early now_ms c early = elim (Bool-cases (is_empty c.conv_id)) [
  | inl unbound ↦ rw unbound refl
  | inr bound ↦ elim (Bool-cases (is_visitor c && c.blocked)) [
    | inl blocked ↦ rw (bound, blocked) refl
    | inr fine ↦ rw (bound, fine, early) refl
  ]
]

-- The connection after its typing has been forwarded.
forwarded :
    (now : Ambient) (conn : Str) (c : Client) (e : Envelope) (h : Hub)
    → lookup conn h.net.clients ≡ some c
    → build_typing_envelope now.now_ms c ≡ some e
    → (d : Client) × (lookup conn (forward_typing now conn h).net.clients ≡ some d)
      × (d.last_typing_ms ≡ now.now_ms)
      × (is_visitor d ≡ is_visitor c)
unfolding forward_typing mark_typing is_visitor
forwarded now conn c e h there said =
    rw (there, forward_typing)
      (rw said (go (lookup conn (fanout_to_conv e marked).0.net.clients) refl))
  where
    marked : Hub
    marked = record h {
      net = record (h.net) { clients = modify conn (mark_typing now.now_ms) h.net.clients };
    }

    before : lookup conn marked.net.clients ≡ some (mark_typing now.now_ms c)
    before =
        rw (lookup-modify conn conn (mark_typing now.now_ms) h.net.clients, str_eq_refl conn, there)
          refl

    go :
        (o : Option Client)
        → lookup conn (fanout_to_conv e marked).0.net.clients ≡ o
        → (d : Client) × (lookup conn (fanout_to_conv e marked).0.net.clients ≡ some d)
          × (d.last_typing_ms ≡ now.now_ms)
          × (is_visitor d ≡ is_visitor c)
    go none x =
        let q : none ≡ some (bare (mark_typing now.now_ms c)) =
          ap (Option.map bare) (sym x)
          ∙ fanout_to_conv-SameClients e marked conn
          ∙ ap (Option.map bare) before in
        absurd (cc)
    go (some d) x =
        let q : some (bare d) ≡ some (bare (mark_typing now.now_ms c)) =
          ap (Option.map bare) (sym x)
          ∙ fanout_to_conv-SameClients e marked conn
          ∙ ap (Option.map bare) before in
        let p : bare d ≡ bare (mark_typing now.now_ms c) = cc in
        (d, x, ap (λ x. x.last_typing_ms) p, ap (λ x. is_visitor x) p)

quiet :
    (now : Ambient) (conn : Str) (d : Client) (h : Hub)
    → lookup conn h.net.clients ≡ some d
    → build_typing_envelope now.now_ms d ≡ none
    → forward_typing now conn h ≡ h
unfolding forward_typing
quiet now conn d h there silent = rw (there, forward_typing) (rw silent refl)

-- The hub with the time stamp of the next frame.
abbrev pub stamp : Ambient → Hub → Hub
stamp now h = record h { last_ts = monotonic_ts h.last_ts now.now_ms }

bind-unmoved :
    (sink : Sink) (conn requested : Str) (c : Client) (h : Hub)
    → lookup conn h.net.clients ≡ some c
    → is_visitor c ≡ false
    → is_empty requested ≡ true
    → bind_agent_conv sink conn requested h ≡ (h, true)
unfolding bind_agent_conv
bind-unmoved sink conn requested c h there ours unnamed =
    rw (there, bind_agent_conv) (rw (ours, unnamed) refl)

handle_typing-unmoved :
    (sink : Sink) (now : Ambient) (conn : Str) (c : Client) (e : Envelope) (h : Hub)
    → lookup conn h.net.clients ≡ some c
    → is_visitor c || is_empty e.conv_id ≡ true
    → handle_typing sink now conn c e h ≡ forward_typing now conn h
unfolding handle_typing
handle_typing-unmoved sink now conn c e h there unmoved = elim (Bool-cases (is_visitor c)) [
  | inl theirs ↦ rw theirs refl
  | inr ours ↦
      let unnamed : is_empty e.conv_id ≡ true = rw ours at unmoved in
      rw (ours, bind-unmoved sink conn e.conv_id c h there ours unnamed) refl
]

no_hall : (t : Str) → t ≡ codes "typing" → has_prefix t hall_prefix ≡ false
unfolding has_prefix
no_hall t e = rw e refl

frame-typing : (t : Str) → t ≡ codes "typing" → frame t ≡ typing
unfolding frame str_eq
frame-typing t e = rw e refl

with_id-conv : (now : Ambient) (e : Envelope) → (with_id now e).conv_id ≡ e.conv_id
unfolding with_id
with_id-conv now e =
    if_both (λ (f : Envelope). f.conv_id ≡ e.conv_id)
      (is_empty e.id
        && not (str_eq e.type (codes "delivery"))
        && not (str_eq e.type (codes "read")))
      refl refl

-- A typing frame that does not move its connection to another conversation.
handle_incoming-typing :
    (sink : Sink) (now : Ambient) (conn : Str) (c : Client) (e : Envelope) (h : Hub)
    → lookup conn h.net.clients ≡ some c
    → e.type ≡ codes "typing"
    → is_visitor c || is_empty e.conv_id ≡ true
    → handle_incoming sink now conn e h ≡ forward_typing now conn (stamp now h)
unfolding handle_incoming dispatch
handle_incoming-typing sink now conn c e h there typed unmoved =
    let stamped_e : Envelope = record e { ts = monotonic_ts h.last_ts now.now_ms } in
    let known : Envelope = record (with_id now stamped_e) { conn_id = c.conn_id } in
    rw (there, handle_incoming)
      (rw (no_hall e.type typed, frame-typing e.type typed)
        (handle_typing-unmoved sink now conn c known (stamp now h) there
          (rw (with_id-conv now stamped_e) unmoved)))

-- Once a typing frame of a connection has been forwarded, its next typing frame within a second of the
-- first changes nothing but the hub's last time stamp: no connection gets anything, nothing is
-- published and the connection stays where it is. The connection is a visitor's, or the two frames name
-- no conversation.
pub handle_incoming-handle_incoming :
    (sink : Sink) (now now' : Ambient) (conn : Str) (c : Client) (e e' out : Envelope) (h : Hub)
    → lookup conn h.net.clients ≡ some c
    → e.type ≡ codes "typing"
    → e'.type ≡ codes "typing"
    → is_visitor c || is_empty e.conv_id ≡ true
    → is_visitor c || is_empty e'.conv_id ≡ true
    → build_typing_envelope now.now_ms c ≡ some out
    → ltb_ℤ (wrap64 (now'.now_ms -ℤ now.now_ms)) typing_min_interval_ms ≡ true
    → handle_incoming sink now' conn e' (handle_incoming sink now conn e h)
      ≡ stamp now' (handle_incoming sink now conn e h)
handle_incoming-handle_incoming sink now now' conn c e e' out h there typed typed' stays stays' said
      early =
    let first = forward_typing now conn (stamp now h) in
    let (d, x, t, k) = forwarded now conn c out (stamp now h) there said in
    rw (handle_incoming-typing sink now conn c e h there typed stays) (
      handle_incoming-typing sink now' conn d e' first x typed' (rw k stays')
      ∙ quiet now' conn d (stamp now' first) x (typing-early now'.now_ms d (rw t early)))
