-- ===== src/Ws/Binding.antt =====
-- The conversation a connection is bound to: attachConv to DetachAgentFromConv of
-- backend/internal/ws/hub.go and hub_features.go.
use custom_service.Common.{
  ◌&&◌, Bool, true, false, ◌||◌, not, Option, none, some, List, [], ◌∷◌, length, ltb, ltb_ℤ,
  if◌then◌else◌, Str, codes, str_eq, is_empty, lookup, modify, contains, ℤ, pos, ◌-ℤ◌, wrap64, ◌++◌,
}
use custom_service.Ws.Protocol.{
  Envelope, zero_envelope, valid_conv_id, visitor_prefix, agent_prefix,
}
use custom_service.Ws.Client.{is_visitor, Client, Net, conversation_id, set_conversation_id, close}
use custom_service.Ws.Index.{conns_of, attach_conv, detach_conv}
use custom_service.Ws.Hub.{Hub, Sink, Ambient, send_to}

-- detachConv, SetConversationID and attachConv in turn.
unfoldable pub move_to_conv : Str → Str → Hub → Hub
unfolding conversation_id set_conversation_id attach_conv detach_conv
move_to_conv conn conv h =
    let old = conversation_id conn h.net in
    let net : Net = set_conversation_id conn conv h.net in
    record h {
      index = attach_conv conn (conversation_id conn net) (detach_conv conn old h.index);
      net = net;
    }

unfoldable pub rebind_client : Str → Str → Hub → Hub
unfolding move_to_conv
rebind_client conn new_conv h =
    if is_empty new_conv || str_eq (conversation_id conn h.net) new_conv
    then h
    else move_to_conv conn new_conv h

unfoldable pub history_cleared : Ambient → Str → Envelope
history_cleared now conv = record zero_envelope {
  type = codes "history_cleared";
  conv_id = conv;
  ts = now.now_ms;
}

unfoldable pub rebind_visitor : Ambient → Str → Str → Bool → Hub → Hub × Bool
unfolding rebind_client history_cleared send_to
rebind_visitor now vid new_conv notify_cleared h = elim (lookup vid h.index.visitors) [
  | none ↦ (h, false)
  | some conn ↦
      let moved = rebind_client conn new_conv h in
      (if notify_cleared then send_to conn (history_cleared now new_conv) moved else moved, true)
]

unfoldable pub move_all : List Str → Str → Hub → Hub
unfolding move_to_conv
move_all [] conv h = h
move_all (conn ∷ conns) conv h = move_all conns conv (move_to_conv conn conv h)

unfoldable pub attach_agent_to_conv : Str → Str → Hub → Hub
unfolding move_all conns_of
attach_agent_to_conv aid conv h = move_all (conns_of aid h.index.agents) conv h

unfoldable pub attach_agent_conn_to_conv : Str → Str → Str → Hub → Hub × Bool
unfolding rebind_client conns_of
attach_agent_conn_to_conv aid conn conv h =
    if is_empty conn || ltb 64 (length conn)
    then (h, false)
    else if contains conn (conns_of aid h.index.agents)
    then (rebind_client conn conv h, true)
    else (h, false)

unfoldable pub detach_conn_from_conv : Str → Str → Hub → Hub
detach_conn_from_conv conn conv h = elim (lookup conn h.net.clients) [
  | none ↦ h
  | some c ↦
      if str_eq c.conv_id conv
      then record h {
        index = detach_conv conn c.conv_id h.index;
        net = set_conversation_id conn [] h.net;
      }
      else h
]

unfoldable pub detach_conns_from_conv : List Str → Str → Hub → Hub
unfolding detach_conn_from_conv detach_conv set_conversation_id
detach_conns_from_conv [] conv h = h
detach_conns_from_conv (conn ∷ conns) conv h =
    detach_conns_from_conv conns conv (detach_conn_from_conv conn conv h)

unfoldable pub detach_agent_from_conv : Str → Str → Hub → Hub
unfolding detach_conns_from_conv conns_of
detach_agent_from_conv aid conv h = detach_conns_from_conv (conns_of aid h.index.agents) conv h

unfoldable pub close_all : List Str → Net → Net
unfolding close
close_all [] n = n
close_all (conn ∷ conns) n = close_all conns (close conn n)

unfoldable pub close_agent : Str → Hub → Hub
unfolding close_all conns_of
close_agent aid h = record h { net = close_all (conns_of aid h.index.agents) h.net }

unfoldable pub mark_blocked : Bool → Client → Client
mark_blocked blocked c = record c { blocked = blocked }

unfoldable pub set_visitor_blocked : Str → Bool → Hub → Hub
unfolding mark_blocked
set_visitor_blocked vid blocked h = elim (lookup vid h.index.visitors) [
  | none ↦ h
  | some conn ↦ record h {
    net = record (h.net) { clients = modify conn (mark_blocked blocked) h.net.clients };
  }
]

-- bindAgentConv: an agent's frame goes to the conversation that it names, or nowhere.
unfoldable pub bind_agent_conv : Sink → Str → Str → Hub → Hub × Bool
unfolding is_visitor rebind_client valid_conv_id
bind_agent_conv sink conn requested h = elim (lookup conn h.net.clients) [
  | none ↦ (h, false)
  | some c ↦
      if is_visitor c
      then (h, false)
      else if is_empty requested || str_eq requested c.conv_id
      then (h, true)
      else if not (valid_conv_id requested) || not (sink.agent_owns_conv requested c.id)
      then (h, false)
      else (rebind_client conn requested h, true)
]

abbrev pub typing_min_interval_ms : ℤ
typing_min_interval_ms = pos 1000

-- The prefix of `From`, by the kind of the connection.
unfoldable pub sender_ref : Client → Str
unfolding is_visitor
sender_ref c = if is_visitor c then visitor_prefix ++ c.id else agent_prefix ++ c.id

-- buildTypingEnvelope, without its last write.
unfoldable pub build_typing_envelope : ℤ → Client → Option Envelope
unfolding sender_ref is_visitor wrap64 ◌-ℤ◌
build_typing_envelope now_ms c =
    if is_empty c.conv_id
    then none
    else if is_visitor c && c.blocked
    then none
    else if ltb_ℤ (wrap64 (now_ms -ℤ c.last_typing_ms)) typing_min_interval_ms
    then none
    else some (record zero_envelope {
      type = codes "typing";
      from = sender_ref c;
      conv_id = c.conv_id;
      ts = now_ms;
      conn_id = c.conn_id;
    })

-- The throttle is set to the time of the frame. The hub handles one frame at a time, so the
-- compare-and-swap of buildTypingEnvelope succeeds.
unfoldable pub mark_typing : ℤ → Client → Client
mark_typing now_ms c = record c { last_typing_ms = now_ms }
