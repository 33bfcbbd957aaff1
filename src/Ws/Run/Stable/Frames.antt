-- ===== src/Ws/Run/Stable/Frames.antt =====
-- The frames of a connection and the messages of the other nodes.
use custom_service.Common.{
  ℤ, refl, inl, inr, ◌&&◌, ◌||◌, not, Bool, true, false, Option, none, some, [], Bool-cases,
  Option-cases, Str, codes, lookup, if◌then◌else◌, is_empty, has_prefix, trim_prefix, str_eq,
}
use custom_service.Ws.Protocol.{
  Envelope, zero_envelope, valid_message_id, monotonic_ts, agent_prefix, Frame, frame, ping, chat,
  delivery, read, page, typing, unknown, voice,
}
use custom_service.Ws.Client.{is_visitor, Client, Net}
use custom_service.Ws.Index.{Index}
use custom_service.Ws.Hub.{Hub, Sink, Ambient}
use custom_service.Ws.Binding.{bind_agent_conv, build_typing_envelope, mark_typing}
use custom_service.Ws.Hall.{hall_prefix}
use custom_service.Ws.Incoming.{
  bad_id_text, bad_client_id_text, agent_conv_forbidden_text, error_frame, persist_checked,
  chat_from_visitor, chat_from_agent, with_client_id, handle_chat, handle_delivery, read_conv,
  handle_read, handle_page, forward_typing, handle_typing, dispatch, with_id, handle_incoming,
  receive_published,
}
use custom_service.Ws.Run.Stable.{Stable, IsSoft}
use custom_service.Ws.Run.Stable.Sends.{
  fanout_local-keeps, fanout_voice_local-keeps, fanout_agent_local-keeps,
}
use custom_service.Ws.Run.Stable.Moves.{
  On, send_to-keeps, fanout_to_conv-keeps, bind_agent_conv-keeps,
}
use custom_service.Ws.Run.Stable.Halls.{fanout_hall_local-keeps, handle_hall_incoming-keeps}
use custom_service.Ws.Run.Stable.Calls.{handle_voice-keeps}

-- The sink's preprocessing may change the hub, and keeps the predicate.
pub record SinkKeeps (Q : Index → Net → Type 0) (sink : Sink) : Type 0 where
  pub visitor_keeps :
      (e : Envelope) (conn : Str) (h : Hub)
      → On Q h
      → On Q (sink.preprocess_visitor_message e conn h).0
  pub agent_keeps :
      (e : Envelope) (conn : Str) (h : Hub)
      → On Q h
      → On Q (sink.preprocess_agent_message e conn h).0

mark_typing-IsSoft : (now_ms : ℤ) → IsSoft (mark_typing now_ms)
unfolding mark_typing
mark_typing-IsSoft now_ms = record {
  same_conn = λ c. refl;
  same_kind = λ c. refl;
  same_id = λ c. refl;
  same_conv = λ c. refl;
  same_high = λ c. refl;
  same_low = λ c. refl;
  same_closed = λ c. refl;
}

-- What holds of both branches holds of the test.
if-keeps :
    (Q : Index → Net → Type 0) (b : Bool) (x y : Hub) → On Q x → On Q y → On Q (if b then x else y)
if-keeps Q true x y p q = p
if-keeps Q false x y p q = q

module _ (Q : Index → Net → Type 0) (st : Stable Q) where
  persist_checked-keeps :
      (conn sender : Str) (r : Hub × Option Envelope)
      → On Q r.0
      → On Q (persist_checked conn sender r)
  unfolding persist_checked
  persist_checked-keeps conn sender (h, none) q = q
  persist_checked-keeps conn sender (h, some e) q = q

  forward_typing-keeps :
      (now : Ambient) (conn : Str) (h : Hub) → On Q h → On Q (forward_typing now conn h)
  unfolding forward_typing
  forward_typing-keeps now conn h q = elim (Option-cases (lookup conn h.net.clients)) [
    | inl e ↦ rw (e, forward_typing) q
    | inr (c, e) ↦ elim (Option-cases (build_typing_envelope now.now_ms c)) [
      | inl quiet ↦ rw (e, forward_typing) (rw quiet q)
      | inr (out, said) ↦
          rw (e, forward_typing)
            (rw said (
              fanout_to_conv-keeps Q st out _ (
                st.after_write conn (mark_typing now.now_ms) h.index h.net
                  (mark_typing-IsSoft now.now_ms) q)))
    ]
  ]

  handle_delivery-keeps :
      (conn : Str) (c : Client) (e : Envelope) (h : Hub)
      → On Q h
      → On Q (handle_delivery conn c e h)
  unfolding handle_delivery
  handle_delivery-keeps conn c e h q =
      elim (Bool-cases (not (is_visitor c) || is_empty c.conv_id || not (valid_message_id e.id))) [
        | inl bad ↦ rw bad q
        | inr fine ↦ rw fine q
      ]

  handle_read-keeps :
      (sink : Sink) (conn : Str) (c : Client) (e : Envelope) (h : Hub)
      → On Q h
      → On Q (handle_read sink conn c e h)
  unfolding handle_read
  handle_read-keeps sink conn c e h q =
      elim (Bool-cases (not (is_empty e.id) && not (valid_message_id e.id))) [
        | inl bad ↦ rw bad q
        | inr fine ↦ elim (Option-cases (read_conv sink c e.conv_id)) [
          | inl dropped ↦ rw (fine, dropped) q
          | inr (conv, counted) ↦ elim (Bool-cases (is_empty conv)) [
            | inl nowhere ↦ rw (fine, counted, nowhere) q
            | inr there ↦ rw (fine, counted, there) q
          ]
        ]
      ]

  handle_page-keeps : (c : Client) (e : Envelope) (h : Hub) → On Q h → On Q (handle_page c e h)
  unfolding handle_page
  handle_page-keeps c e h q = elim (Bool-cases (not (is_visitor c) || is_empty c.conv_id)) [
    | inl bad ↦ rw bad q
    | inr fine ↦ rw fine q
  ]

  pub receive_published-keeps : (e : Envelope) (h : Hub) → On Q h → On Q (receive_published e h)
  unfolding receive_published
  receive_published-keeps e h q =
      let keep =
        λ (c : Str) (f : Envelope) (ok : Unit {0}) (n : Net). st.after_send c f h.index n in
      elim (Bool-cases (str_eq e.node h.node_id)) [
        | inl own ↦ rw own q
        | inr foreign ↦
            elim (Bool-cases (str_eq e.type (codes "ack") && has_prefix e.to agent_prefix)) [
              | inl ack ↦
                  rw (foreign, ack)
                    (fanout_agent_local-keeps (Q h.index) (λ f. Unit {0}) keep h.index
                      (trim_prefix e.to agent_prefix) e tt h.net q)
              | inr other ↦ elim (Bool-cases (has_prefix e.type hall_prefix)) [
                | inl hall ↦ rw (foreign, other, hall) (fanout_hall_local-keeps Q st e h q)
                | inr other2 ↦ elim (Bool-cases (has_prefix e.type (codes "voice_"))) [
                  | inl call ↦
                      rw (foreign, other, other2, call)
                        (fanout_voice_local-keeps (Q h.index) (λ f. Unit {0}) keep h.index e tt
                          h.net q)
                  | inr rest ↦
                      rw (foreign, other, other2, rest)
                        (fanout_local-keeps (Q h.index) (λ f. Unit {0}) keep h.index e tt h.net q)
                ]
              ]
            ]
      ]

module _ (Q : Index → Net → Type 0) (st : Stable Q) (sink : Sink) (sk : SinkKeeps Q sink) where
  chat_from_agent-keeps :
      (now : Ambient) (conn : Str) (c : Client) (e : Envelope) (h : Hub)
      → On Q h
      → On Q (chat_from_agent sink now conn c e h)
  unfolding chat_from_agent
  chat_from_agent-keeps now conn c e h q =
      let q' = bind_agent_conv-keeps Q st sink conn e.conv_id h q in
      let h' = (bind_agent_conv sink conn e.conv_id h).0 in
      elim (Bool-cases (bind_agent_conv sink conn e.conv_id h).1) [
        | inl bound ↦
            rw bound
              (persist_checked-keeps Q st conn (codes "agent") _ (sk.agent_keeps _ conn h' q'))
        | inr refused ↦
            rw refused
              (send_to-keeps Q st conn (error_frame now e.id agent_conv_forbidden_text) h' q')
      ]

  chat_from_visitor-keeps :
      (conn : Str) (c : Client) (e : Envelope) (h : Hub)
      → On Q h
      → On Q (chat_from_visitor sink conn c e h)
  unfolding chat_from_visitor
  chat_from_visitor-keeps conn c e h q =
      persist_checked-keeps Q st conn (codes "visitor") _ (sk.visitor_keeps _ conn h q)

  handle_chat-keeps :
      (now : Ambient) (conn : Str) (c : Client) (e : Envelope) (h : Hub)
      → On Q h
      → On Q (handle_chat sink now conn c e h)
  unfolding handle_chat
  handle_chat-keeps now conn c e h q = elim (Bool-cases (not (valid_message_id e.id))) [
    | inl bad ↦ rw bad (send_to-keeps Q st conn (error_frame now [] bad_id_text) h q)
    | inr fine ↦ elim (Bool-cases (not (valid_message_id (with_client_id e).client_id))) [
      | inl bad2 ↦
          rw (fine, bad2) (send_to-keeps Q st conn (error_frame now e.id bad_client_id_text) h q)
      | inr fine2 ↦
          rw (fine, fine2)
            (if-keeps Q (is_visitor c) (chat_from_visitor sink conn c (with_client_id e) h)
              (chat_from_agent sink now conn c (with_client_id e) h)
              (chat_from_visitor-keeps conn c (with_client_id e) h q)
              (chat_from_agent-keeps now conn c (with_client_id e) h q))
    ]
  ]

  handle_typing-keeps :
      (now : Ambient) (conn : Str) (c : Client) (e : Envelope) (h : Hub)
      → On Q h
      → On Q (handle_typing sink now conn c e h)
  unfolding handle_typing
  handle_typing-keeps now conn c e h q =
      let q' = bind_agent_conv-keeps Q st sink conn e.conv_id h q in
      let h' = (bind_agent_conv sink conn e.conv_id h).0 in
      elim (Bool-cases (is_visitor c)) [
        | inl theirs ↦ rw theirs (forward_typing-keeps Q st now conn h q)
        | inr ours ↦ elim (Bool-cases (bind_agent_conv sink conn e.conv_id h).1) [
          | inl bound ↦ rw (ours, bound) (forward_typing-keeps Q st now conn h' q')
          | inr refused ↦ rw (ours, refused) q'
        ]
      ]

  dispatch-keeps :
      (now : Ambient) (conn : Str) (c : Client) (e : Envelope) (f : Frame) (h : Hub)
      → On Q h
      → On Q (dispatch sink now conn c e f h)
  unfolding dispatch
  dispatch-keeps now conn c e ping h q =
      send_to-keeps Q st conn (record zero_envelope { type = codes "pong"; id = e.id; ts = e.ts }) h
        q
  dispatch-keeps now conn c e chat h q = handle_chat-keeps now conn c e h q
  dispatch-keeps now conn c e delivery h q = handle_delivery-keeps Q st conn c e h q
  dispatch-keeps now conn c e read h q = handle_read-keeps Q st sink conn c e h q
  dispatch-keeps now conn c e page h q = handle_page-keeps Q st c e h q
  dispatch-keeps now conn c e typing h q = handle_typing-keeps now conn c e h q
  dispatch-keeps now conn c e (voice s) h q = handle_voice-keeps Q st now s c e h q
  dispatch-keeps now conn c e unknown h q = q

  pub handle_incoming-keeps :
      (now : Ambient) (conn : Str) (e : Envelope) (h : Hub)
      → On Q h
      → On Q (handle_incoming sink now conn e h)
  unfolding handle_incoming
  handle_incoming-keeps now conn e h q = elim (Option-cases (lookup conn h.net.clients)) [
    | inl gone ↦ rw (gone, handle_incoming) q
    | inr (c, there) ↦
        let stamp = monotonic_ts h.last_ts now.now_ms in
        let h' : Hub = record h { last_ts = stamp } in
        let e' : Envelope = record e { ts = stamp } in
        elim (Bool-cases (has_prefix e.type hall_prefix)) [
          | inl hall ↦
              rw (there, handle_incoming)
                (rw hall (
                  handle_hall_incoming-keeps Q st now conn (record e' { conn_id = c.conn_id }) h'
                    q))
          | inr other ↦
              rw (there, handle_incoming)
                (rw other (
                  dispatch-keeps now conn c (record (with_id now e') { conn_id = c.conn_id })
                    (frame e.type) h' q))
        ]
  ]
