-- ===== src/Ws/Incoming.antt =====
-- handleIncoming, fanoutFromRedis and the main loop `Run` of backend/internal/ws/hub.go.
pub mod Agent
pub mod Typing
use custom_service.Common.{
  ◌&&◌, ◌||◌, not, Option, none, some, [], if◌then◌else◌, Str, codes, str_eq, is_empty, has_prefix,
  trim_prefix, lookup, modify,
}
use custom_service.Ws.Protocol.{
  Envelope, zero_envelope, valid_message_id, valid_conv_id, monotonic_ts, extra_value, as_string,
  agent_prefix, Frame, frame, ping, chat, delivery, read, page, typing, unknown, voice,
}
use custom_service.Ws.Client.{is_visitor, Client}
use custom_service.Ws.Fanout.{fanout_local, fanout_voice_local, fanout_agent_local}
use custom_service.Ws.Hub.{
  Hub, Sink, Ambient, message_persisted, delivery_persisted, read_persisted, page_navigated, emit,
  send_to, fanout_to_conv,
}
use custom_service.Ws.Binding.{bind_agent_conv, sender_ref, build_typing_envelope, mark_typing}
use custom_service.Ws.Voice.{handle_voice}
use custom_service.Ws.Hall.{hall_prefix, handle_hall_incoming, fanout_hall_local}

-- The answers to a refused chat, as code points: they are only passed on.
abbrev pub bad_id_text : Str
bad_id_text = codes "消息标识无效，请重试"

abbrev pub bad_client_id_text : Str
bad_client_id_text = codes "消息关联标识无效，请重试"

abbrev pub agent_conv_forbidden_text : Str
agent_conv_forbidden_text = codes "该客户正由其他客服接待，请先接管后再发送"

unfoldable pub error_frame : Ambient → Str → Str → Envelope
error_frame now id content = record zero_envelope {
  type = codes "error";
  id = id;
  content = content;
  ts = now.now_ms;
}

-- The last step of a chat: what preprocessing lets through is handed over for storage.
unfoldable pub persist_checked : Str → Str → Hub × Option Envelope → Hub
unfolding emit
persist_checked conn sender (h, none) = h
persist_checked conn sender (h, some e) = emit (message_persisted e conn sender) h

unfoldable pub chat_from_visitor : Sink → Str → Client → Envelope → Hub → Hub
unfolding persist_checked sender_ref
chat_from_visitor sink conn c e h =
    persist_checked conn (codes "visitor") (
      sink.preprocess_visitor_message (record e { from = sender_ref c; conv_id = c.conv_id }) conn
        h)

-- The conversation that the connection is bound to.
unfoldable pub bound_conv : Str → Hub → Str
bound_conv conn h = elim (lookup conn h.net.clients) [ none ↦ [] | some c ↦ c.conv_id ]

unfoldable pub chat_from_agent : Sink → Ambient → Str → Client → Envelope → Hub → Hub
unfolding bind_agent_conv bound_conv persist_checked sender_ref error_frame send_to
chat_from_agent sink now conn c e h =
    let (h', bound) = bind_agent_conv sink conn e.conv_id h in
    if bound
    then persist_checked conn (codes "agent") (
        sink.preprocess_agent_message
          (record e { from = sender_ref c; conv_id = bound_conv conn h' }) conn h')
    else send_to conn (error_frame now e.id agent_conv_forbidden_text) h'

-- The client ID stands for the message ID where the client gives none.
unfoldable pub with_client_id : Envelope → Envelope
with_client_id e = if is_empty e.client_id then record e { client_id = e.id } else e

unfoldable pub handle_chat : Sink → Ambient → Str → Client → Envelope → Hub → Hub
unfolding is_visitor with_client_id chat_from_visitor chat_from_agent error_frame send_to
    valid_message_id
handle_chat sink now conn c e h =
    let e' = with_client_id e in
    if not (valid_message_id e.id)
    then send_to conn (error_frame now [] bad_id_text) h
    else if not (valid_message_id e'.client_id)
    then send_to conn (error_frame now e.id bad_client_id_text) h
    else if is_visitor c
    then chat_from_visitor sink conn c e' h
    else chat_from_agent sink now conn c e' h

unfoldable pub handle_delivery : Str → Client → Envelope → Hub → Hub
unfolding is_visitor valid_message_id sender_ref emit
handle_delivery conn c e h =
    if not (is_visitor c) || is_empty c.conv_id || not (valid_message_id e.id)
    then h
    else emit (delivery_persisted (record e { from = sender_ref c; conv_id = c.conv_id }) conn) h

-- The conversation a read receipt counts for; `none` drops the receipt.
unfoldable pub read_conv : Sink → Client → Str → Option Str
unfolding is_visitor valid_conv_id
read_conv sink c requested =
    if is_visitor c || is_empty requested || str_eq requested c.conv_id
    then some c.conv_id
    else if not (valid_conv_id requested) || not (sink.agent_can_read_conv requested c.id)
    then none
    else some requested

unfoldable pub role_of : Client → Str
unfolding is_visitor
role_of c = if is_visitor c then codes "visitor" else codes "agent"

unfoldable pub handle_read : Sink → Str → Client → Envelope → Hub → Hub
unfolding valid_message_id read_conv role_of sender_ref emit
handle_read sink conn c e h =
    if not (is_empty e.id) && not (valid_message_id e.id)
    then h
    else elim (read_conv sink c e.conv_id) [
      | none ↦ h
      | some conv ↦
          if is_empty conv
          then h
          else emit
              (read_persisted (record e { from = sender_ref c; conv_id = conv }) conn (role_of c)) h
    ]

unfoldable pub handle_page : Client → Envelope → Hub → Hub
unfolding is_visitor as_string extra_value emit
handle_page c e h =
    if not (is_visitor c) || is_empty c.conv_id
    then h
    else emit
        (page_navigated c.id c.conv_id (as_string (extra_value e.extra (codes "url")))
          (as_string (extra_value e.extra (codes "title"))))
        h

unfoldable pub forward_typing : Ambient → Str → Hub → Hub
unfolding build_typing_envelope mark_typing fanout_to_conv
forward_typing now conn h = elim (lookup conn h.net.clients) [
  | none ↦ h
  | some c ↦ elim (build_typing_envelope now.now_ms c) [
    | none ↦ h
    | some e ↦
        (fanout_to_conv e (record h {
          net = record (h.net) { clients = modify conn (mark_typing now.now_ms) h.net.clients };
        })).0
  ]
]

unfoldable pub handle_typing : Sink → Ambient → Str → Client → Envelope → Hub → Hub
unfolding is_visitor bind_agent_conv forward_typing
handle_typing sink now conn c e h =
    let (h', bound) = bind_agent_conv sink conn e.conv_id h in
    if is_visitor c
    then forward_typing now conn h
    else if bound
    then forward_typing now conn h'
    else h'

unfoldable pub dispatch : Sink → Ambient → Str → Client → Envelope → Frame → Hub → Hub
unfolding send_to handle_chat handle_delivery handle_read handle_page handle_typing handle_voice
dispatch sink now conn c e ping h =
    send_to conn (record zero_envelope { type = codes "pong"; id = e.id; ts = e.ts }) h
dispatch sink now conn c e chat h = handle_chat sink now conn c e h
dispatch sink now conn c e delivery h = handle_delivery conn c e h
dispatch sink now conn c e read h = handle_read sink conn c e h
dispatch sink now conn c e page h = handle_page c e h
dispatch sink now conn c e typing h = handle_typing sink now conn c e h
dispatch sink now conn c e (voice s) h = handle_voice now s c e h
dispatch sink now conn c e unknown h = h

-- Receipts name the message they are about, so no ID is made up for them.
unfoldable pub with_id : Ambient → Envelope → Envelope
with_id now e =
    if is_empty e.id && not (str_eq e.type (codes "delivery")) && not (str_eq e.type (codes "read"))
    then record e { id = now.uuid }
    else e

unfoldable pub handle_incoming : Sink → Ambient → Str → Envelope → Hub → Hub
unfolding monotonic_ts with_id dispatch frame handle_hall_incoming
handle_incoming sink now conn e h = elim (lookup conn h.net.clients) [
  | none ↦ h
  | some c ↦
      let stamp = monotonic_ts h.last_ts now.now_ms in
      let h' : Hub = record h { last_ts = stamp } in
      let e' : Envelope = record e { ts = stamp } in
      if has_prefix e.type hall_prefix
      then handle_hall_incoming now conn (record e' { conn_id = c.conn_id }) h'
      else (let known : Envelope = record (with_id now e') { conn_id = c.conn_id } in
          dispatch sink now conn c known (frame e.type) h')
]

-- One message of the Redis channel, decoded.
unfoldable pub receive_published : Envelope → Hub → Hub
unfolding fanout_local fanout_voice_local fanout_agent_local fanout_hall_local
receive_published e h =
    if str_eq e.node h.node_id
    then h
    else if str_eq e.type (codes "ack") && has_prefix e.to agent_prefix
    then record h { net = (fanout_agent_local h.index (trim_prefix e.to agent_prefix) e h.net).0 }
    else if has_prefix e.type hall_prefix
    then fanout_hall_local e h
    else if has_prefix e.type (codes "voice_")
    then record h { net = fanout_voice_local h.index e h.net }
    else record h { net = (fanout_local h.index e h.net).0 }
