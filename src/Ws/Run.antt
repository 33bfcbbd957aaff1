-- ===== src/Ws/Run.antt =====
-- The hub as a state machine: what reaches the main loop `Run` of backend/internal/ws/hub.go, the
-- timers, the messages of the other nodes, and the calls that the HTTP handlers and the service make
-- from other goroutines. Each event is one step; their order is any.
pub mod Stable
pub mod Indexed
pub mod Bound
pub mod Bounds
pub mod Start
use custom_service.Common.{Bool, false, List, [], ◌∷◌, if◌then◌else◌, Str, ◌||◌}
use custom_service.Ws.Protocol.{Envelope}
use custom_service.Ws.Client.{Client}
use custom_service.Ws.Index.{hall_unsubscribe}
use custom_service.Ws.Fanout.{fanout_local, push_to_agent, push_to_visitor}
use custom_service.Ws.Hub.{
  Hub, Sink, Ambient, Timer, fanout_to_conv, fanout_to_agent, broadcast_to_all_agents,
  set_hall_handler,
}
use custom_service.Ws.Binding.{
  rebind_client, rebind_visitor, attach_agent_to_conv, attach_agent_conn_to_conv,
  detach_agent_from_conv, close_agent, set_visitor_blocked,
}
use custom_service.Ws.Registry.{handle_register, handle_unregister}
use custom_service.Ws.Voice.{same_timer}
use custom_service.Ws.Voice.Watchdog.{fire}
use custom_service.Ws.Hall.{hall_subscribe, broadcast_hall}
use custom_service.Ws.Incoming.{handle_incoming, receive_published}

pub data Event : Type 0 where
  registers : Client → Event
  unregisters : Event
  receives : Str → Envelope → Event
  broadcasts : Envelope → Event
  fires : Timer → Event
  hears : Envelope → Event
  fans_to_conv : Envelope → Event
  fans_to_agent : Str → Envelope → Event
  tells_agents : Envelope → Event
  broadcasts_hall : Envelope → Event
  attaches_agent : Str → Str → Event
  attaches_conn : Str → Str → Str → Event
  detaches_agent : Str → Str → Event
  rebinds : Str → Str → Event
  rebinds_visitor : Str → Str → Bool → Event
  blocks : Str → Bool → Event
  closes_agent : Str → Event
  pushes_to_agent pushes_to_visitor : Str → Envelope → Event
  gets_hall_handler : Event
  subscribes unsubscribes : Str → Event

unfoldable pub is_armed : Timer → List Timer → Bool
unfolding same_timer
is_armed t [] = false
is_armed t (u ∷ us) = same_timer t u || is_armed t us

-- The oldest connection that waits in the channel `unregister`.
unfoldable pub unregister_next : Hub → Hub
unfolding handle_unregister
unregister_next h = elim h.net.unregister [
  | [] ↦ h
  | conn ∷ rest ↦ handle_unregister conn (record h { net = record (h.net) { unregister = rest } })
]

unfoldable pub step : Sink → Ambient → Event → Hub → Hub
unfolding handle_register unregister_next handle_incoming is_armed fire
step sink now (registers c) h = handle_register now c h
step sink now unregisters h = unregister_next h
step sink now (receives conn e) h = handle_incoming sink now conn e h
step sink now (broadcasts e) h = record h { net = (fanout_local h.index e h.net).0 }
step sink now (fires t) h = if is_armed t h.calls.timers then fire now t h else h
step sink now (hears e) h = receive_published e h
step sink now (fans_to_conv e) h = (fanout_to_conv e h).0
step sink now (fans_to_agent aid e) h = (fanout_to_agent aid e h).0
step sink now (tells_agents e) h = broadcast_to_all_agents e h
step sink now (broadcasts_hall e) h = broadcast_hall e h
step sink now (attaches_agent aid conv) h = attach_agent_to_conv aid conv h
step sink now (attaches_conn aid conn conv) h = (attach_agent_conn_to_conv aid conn conv h).0
step sink now (detaches_agent aid conv) h = detach_agent_from_conv aid conv h
step sink now (rebinds conn conv) h = rebind_client conn conv h
step sink now (rebinds_visitor vid conv notify) h = (rebind_visitor now vid conv notify h).0
step sink now (blocks vid blocked) h = set_visitor_blocked vid blocked h
step sink now (closes_agent aid) h = close_agent aid h
step sink now (pushes_to_agent aid e) h = record h { net = (push_to_agent h.index aid e h.net).0 }
step sink now (pushes_to_visitor vid e) h = record h {
  net = (push_to_visitor h.index vid e h.net).0;
}
step sink now gets_hall_handler h = set_hall_handler h
step sink now (subscribes conn) h = hall_subscribe conn h
step sink now (unsubscribes conn) h = record h { index = hall_unsubscribe conn h.index }

unfoldable pub run : Sink → List (Ambient × Event) → Hub → Hub
unfolding step
run sink [] h = h
run sink ((now, ev) ∷ evs) h = run sink evs (step sink now ev h)
