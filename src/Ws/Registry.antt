-- ===== src/Ws/Registry.antt =====
-- handleRegister and handleUnregister of backend/internal/ws/hub.go.
pub mod Invariant
pub mod Bound
pub mod Left
pub mod Gone
use custom_service.Common.{
  none, some, [], ◌∷◌, ltb_ℤ, if◌then◌else◌, Str, codes, str_eq, lookup, store, delete, ℤ, pos, Map,
}
use custom_service.Ws.Protocol.{Envelope, zero_envelope, text, int, object}
use custom_service.Ws.Client.{is_visitor, visitor, agent, Client, Net, send}
use custom_service.Ws.Index.{
  Index, attach_conv, detach_conv, add_agent_conn, remove_agent_conn, hall_unsubscribe,
}
use custom_service.Ws.Hub.{
  Hub, Ambient, PendingCall, visitor_connected, visitor_disconnected, agent_connected,
  agent_disconnected, emit, send_to,
}

unfoldable pub hello : Ambient → Client → Hub → Envelope
hello now c h = record zero_envelope {
  type = codes "hello";
  id = now.uuid;
  ts = now.now_ms;
  conv_id = c.conv_id;
  extra = object (
      (codes "conn_id", text c.conn_id)
      ∷ (codes "heartbeat_sec", int (pos 30))
      ∷ (codes "server_now", text now.server_now)
      ∷ (codes "server_node", text h.node_id)
      ∷ []);
}

-- The calls that still ring are sent to an agent that connects.
unfoldable pub replay_calls : ℤ → Str → Map PendingCall → Net → Net
unfolding send
replay_calls now_ms conn [] n = n
replay_calls now_ms conn ((cid, pc) ∷ m) n =
    replay_calls now_ms conn m (if ltb_ℤ now_ms pc.expires then (send conn pc.env n).0 else n)

-- `Register` and handleRegister. The struct enters the heap here.
unfoldable pub entered : Client → Net → Net
entered c n = record n { clients = store c.conn_id c n.clients }

unfoldable pub enter : Client → Hub → Hub
unfolding entered
enter c h = record h { net = entered c h.net }

unfoldable pub admit_visitor : Client → Hub → Hub
unfolding attach_conv emit
admit_visitor c h = emit (visitor_connected c.conn_id) (record h {
  index =
      attach_conv c.conn_id c.conv_id
        (record (h.index) { visitors = store c.id c.conn_id h.index.visitors });
})

unfoldable pub admit_agent : Ambient → Client → Hub → Hub
unfolding add_agent_conn replay_calls emit
admit_agent now c h = emit (agent_connected c.conn_id) (record h {
  index = add_agent_conn c.id c.conn_id h.index;
  net = replay_calls now.now_ms c.conn_id h.calls.pending_calls h.net;
})

unfoldable pub admit : Ambient → Client → Hub → Hub
unfolding is_visitor admit_visitor admit_agent
admit now c h = if is_visitor c then admit_visitor c h else admit_agent now c h

unfoldable pub handle_register : Ambient → Client → Hub → Hub
unfolding enter admit hello send_to
handle_register now c h = send_to c.conn_id (hello now c h) (admit now c (enter c h))

-- `v == c` compares pointers: a visitor who has connected again keeps the new entry.
unfoldable pub forget_visitor : Str → Str → Index → Index
forget_visitor vid conn ix = elim (lookup vid ix.visitors) [
  | none ↦ ix
  | some current ↦
      if str_eq current conn then record ix { visitors = delete vid ix.visitors } else ix
]

-- What both kinds leave behind.
unfoldable pub leave : Str → Client → Index → Index
unfolding detach_conv hall_unsubscribe
leave conn c ix = hall_unsubscribe conn (detach_conv conn c.conv_id ix)

unfoldable pub handle_unregister : Str → Hub → Hub
unfolding is_visitor forget_visitor remove_agent_conn leave emit
handle_unregister conn h = elim (lookup conn h.net.clients) [
  | none ↦ h
  | some c ↦
      if is_visitor c
      then emit (visitor_disconnected conn)
          (record h { index = leave conn c (forget_visitor c.id conn h.index) })
      else emit (agent_disconnected conn)
          (record h { index = leave conn c (remove_agent_conn c.id conn h.index) })
]
