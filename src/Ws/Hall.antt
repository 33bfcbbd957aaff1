-- ===== src/Ws/Hall.antt =====
-- The hub's part of the hall, backend/internal/ws/hub_hall.go.
pub mod Kick
use custom_service.Common.{
  ◌++◌, ◌&&◌, ◌||◌, not, Bool, none, some, List, [], ◌∷◌, if◌then◌else◌, Str, codes, str_eq,
  is_empty, has_prefix, trim_prefix, Map, lookup, contains, remove,
}
use custom_service.Ws.Protocol.{
  Envelope, zero_envelope, safe_frame_id, hall_settings_enabled, hall_moderation_action,
  visitor_prefix, agent_prefix,
}
use custom_service.Ws.Client.{is_visitor, Client, Net, send_all}
use custom_service.Ws.Index.{Index, conns_of, all_conns, hall_subscribe_conn}
use custom_service.Ws.Hub.{Hub, Ambient, hall_frame_handled, emit, publish, stamped, send_to}

abbrev pub hall_prefix : Str
hall_prefix = codes "hall_"

abbrev pub hall_target_all_visitors : Str
hall_target_all_visitors = codes "hall:visitors"

-- A closed connection is not subscribed.
unfoldable pub hall_subscribe : Str → Hub → Hub
unfolding hall_subscribe_conn
hall_subscribe conn h = elim (lookup conn h.net.clients) [
  | none ↦ h
  | some c ↦ if c.closed then h else record h { index = hall_subscribe_conn conn h.index }
]

-- The subscribed connections for which `p` holds.
unfoldable pub subs_where : (Client → Bool) → List Str → Net → List Str
subs_where p [] n = []
subs_where p (conn ∷ conns) n = elim (lookup conn n.clients) [
  | none ↦ subs_where p conns n
  | some c ↦ if p c then conn ∷ subs_where p conns n else subs_where p conns n
]

-- The values of `visitors`, one connection for each.
unfoldable pub visitor_conns : Map Str → List Str
visitor_conns [] = []
visitor_conns ((vid, conn) ∷ m) = conn ∷ visitor_conns m

unfoldable pub without : List Str → List Str → List Str
without [] sent = []
without (c ∷ cs) sent = if contains c sent then without cs sent else c ∷ without cs sent

unfoldable pub remove_all : List Str → List Str → List Str
remove_all [] s = s
remove_all (c ∷ cs) s = remove_all cs (remove c s)

-- hall_settings goes to every visitor and agent that is connected, a visitor's subscribed
-- connection included.
unfoldable pub settings_targets : Index → Net → List Str
unfolding visitor_conns subs_where is_visitor without all_conns
settings_targets ix n =
    let online = visitor_conns ix.visitors in
    online ++ without (subs_where is_visitor ix.hall_subs n) online ++ all_conns ix.agents

-- Whom a moderation notice reaches, and who of them is put out of the hall by a kick.
unfoldable pub moderation_subs : Index → Str → Net → List Str
unfolding subs_where is_visitor conns_of
moderation_subs ix to n =
    if str_eq to hall_target_all_visitors
    then subs_where is_visitor ix.hall_subs n
    else if has_prefix to visitor_prefix
    then (let vid = trim_prefix to visitor_prefix in
        if is_empty vid
        then []
        else subs_where (λ c. is_visitor c && str_eq c.id vid) ix.hall_subs n)
    else if has_prefix to agent_prefix
    then conns_of (trim_prefix to agent_prefix) ix.agents
    else []

-- A visitor's current connection is told even where it has not subscribed.
unfoldable pub moderation_extra : Index → Str → List Str → List Str
unfolding without
moderation_extra ix to sent =
    if str_eq to hall_target_all_visitors
    then []
    else if has_prefix to visitor_prefix && not (is_empty (trim_prefix to visitor_prefix))
    then elim (lookup (trim_prefix to visitor_prefix) ix.visitors) [
      | none ↦ []
      | some conn ↦ without (conn ∷ []) sent
    ]
    else []

unfoldable pub kicks : Envelope → Bool
kicks e =
    str_eq (hall_moderation_action e) (codes "kicked") && not (str_eq e.to hall_target_all_visitors)

unfoldable pub deliver_hall_moderation : Envelope → Hub → Hub
unfolding moderation_subs moderation_extra kicks remove_all send_all
deliver_hall_moderation e h =
    let out : Envelope = record e { to = []; node = [] } in
    let subs = moderation_subs h.index e.to h.net in
    let targets = subs ++ moderation_extra h.index e.to subs in
    record h {
      net = send_all targets out h.net;
      index =
          if kicks e
          then record (h.index) { hall_subs = remove_all subs h.index.hall_subs }
          else h.index;
    }

unfoldable pub fanout_hall_local : Envelope → Hub → Hub
unfolding settings_targets deliver_hall_moderation send_all
fanout_hall_local e h =
    if str_eq e.type (codes "hall_chat") || str_eq e.type (codes "hall_deleted")
    then record h { net = send_all h.index.hall_subs e h.net }
    else if str_eq e.type (codes "hall_settings")
    then record h {
      net = send_all (settings_targets h.index h.net) e h.net;
      index = if hall_settings_enabled e then h.index else record (h.index) { hall_subs = [] };
    }
    else if str_eq e.type (codes "hall_moderation")
    then deliver_hall_moderation e h
    else h

unfoldable pub broadcast_hall : Envelope → Hub → Hub
unfolding stamped fanout_hall_local publish
broadcast_hall e h =
    if has_prefix e.type hall_prefix
    then publish (stamped h e) (fanout_hall_local (stamped h e) h)
    else h

-- The answer where no handler is set; a text that is only passed on is kept as code points.
abbrev pub hall_not_open : Str
hall_not_open = codes "大厅暂未开放"

unfoldable pub hall_closed_frame : Ambient → Envelope → Envelope
hall_closed_frame now e = record zero_envelope {
  type = codes "error";
  id = safe_frame_id e.id;
  content = hall_not_open;
  ts = now.now_ms;
}

unfoldable pub handle_hall_incoming : Ambient → Str → Envelope → Hub → Hub
unfolding send_to emit hall_closed_frame
handle_hall_incoming now conn e h =
    if str_eq e.type (codes "hall_subscribe")
      || str_eq e.type (codes "hall_unsubscribe")
      || str_eq e.type (codes "hall_chat")
    then (if h.has_hall
        then emit (hall_frame_handled conn e) h
        else send_to conn (hall_closed_frame now e) h)
    else h
