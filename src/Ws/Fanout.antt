-- ===== src/Ws/Fanout.antt =====
-- Local delivery in backend/internal/ws/hub.go: fanoutLocal, fanoutVoiceLocal, fanoutAgentLocal and
-- PushToVisitor. Each only reads the index and writes to the connections' queues.
pub mod Reach
use custom_service.Common.{
  ℕ, ◌+◌, Bool, true, false, ◌&&◌, ◌||◌, not, none, some, List, [], ◌∷◌, ltb, if◌then◌else◌, Str,
  codes, str_eq, is_empty, has_prefix, trim_prefix, lookup, contains,
}
use custom_service.Ws.Protocol.{Envelope, visitor_prefix, agent_prefix}
use custom_service.Ws.Client.{Kind, visitor, agent, Client, Net, send, send_all}
use custom_service.Ws.Index.{Index, conns_of, all_conns}

pub record FanoutResult : Type 0 where
  pub visitor_targets : ℕ
  pub visitor_queued : ℕ
  pub agent_targets : ℕ
  pub agent_queued : ℕ

abbrev pub no_targets : FanoutResult
no_targets = record { visitor_targets = 0; visitor_queued = 0; agent_targets = 0; agent_queued = 0 }

-- What the two loops of fanoutLocal carry.
pub record Sweep : Type 0 where
  pub net : Net
  pub sent : List Str
  pub result : FanoutResult

abbrev one_if : Bool → ℕ
one_if b = if b then 1 else 0

unfoldable pub count : Kind → Bool → FanoutResult → FanoutResult
count visitor queued r = record r {
  visitor_targets = r.visitor_targets + 1;
  visitor_queued = r.visitor_queued + one_if queued;
}
count agent queued r = record r {
  agent_targets = r.agent_targets + 1;
  agent_queued = r.agent_queued + one_if queued;
}

-- Send, and the two counters of the kind. Only the first loop notes the connection as sent to.
unfoldable pub deliver : Envelope → Str → Kind → Sweep → Sweep
unfolding count send
deliver e conn kind s =
    let (n, queued) = send conn e s.net in record s { net = n; result = count kind queued s.result }

unfoldable pub mark_sent : Str → Sweep → Sweep
mark_sent conn s = record s { sent = conn ∷ s.sent }

unfoldable pub is_typing_echo : Envelope → Str → Bool
is_typing_echo e conn =
    str_eq e.type (codes "typing") && not (is_empty e.conn_id) && str_eq conn e.conn_id

-- A connection bound to another conversation is passed over if it is a visitor's.
unfoldable pub is_stale : Envelope → Client → Bool
is_stale e c = elim c.kind [ visitor ↦ not (str_eq c.conv_id e.conv_id) | agent ↦ false ]

unfoldable pub visit_member : Envelope → Str → Sweep → Sweep
unfolding is_typing_echo is_stale deliver mark_sent
visit_member e conn s = elim (lookup conn s.net.clients) [
  | none ↦ s
  | some c ↦
      if is_typing_echo e c.conn_id || is_stale e c
      then s
      else mark_sent conn (deliver e conn c.kind s)
]

unfoldable pub visit_members : Envelope → List Str → Sweep → Sweep
unfolding visit_member
visit_members e [] s = s
visit_members e (conn ∷ conns) s = visit_members e conns (visit_member e conn s)

unfoldable pub visit_agent : Envelope → Str → Sweep → Sweep
unfolding deliver
visit_agent e conn s = if contains conn s.sent then s else deliver e conn agent s

unfoldable pub visit_agents : Envelope → List Str → Sweep → Sweep
unfolding visit_agent
visit_agents e [] s = s
visit_agents e (conn ∷ conns) s = visit_agents e conns (visit_agent e conn s)

unfoldable pub spills_to_agents : Str → Bool
spills_to_agents t =
    str_eq t (codes "chat")
    || str_eq t (codes "read")
    || str_eq t (codes "delivery")
    || str_eq t (codes "recall")

unfoldable pub fanout_sweep : Index → Envelope → Net → Sweep
unfolding visit_members visit_agents spills_to_agents conns_of all_conns
fanout_sweep ix e n =
    let start : Sweep = record { net = n; sent = []; result = no_targets } in
    let s = visit_members e (conns_of e.conv_id ix.by_conv) start in
    if spills_to_agents e.type then visit_agents e (all_conns ix.agents) s else s

unfoldable pub fanout_local : Index → Envelope → Net → Net × FanoutResult
unfolding fanout_sweep
fanout_local ix e n =
    if is_empty e.conv_id
    then (n, no_targets)
    else (let s = fanout_sweep ix e n in (s.net, s.result))

unfoldable pub push_to_visitor : Index → Str → Envelope → Net → Net × Bool
unfolding send
push_to_visitor ix vid e n = elim (lookup vid ix.visitors) [
  | none ↦ (n, false)
  | some conn ↦ ((send conn e n).0, true)
]

-- The connections that a voice frame goes to, by its field `To`.
unfoldable pub voice_targets : Index → Str → List Str
unfolding conns_of all_conns
voice_targets ix to =
    if is_empty to
    then all_conns ix.agents
    else if has_prefix to visitor_prefix
    then elim (lookup (trim_prefix to visitor_prefix) ix.visitors) [ none ↦ [] | some c ↦ c ∷ [] ]
    else if has_prefix to agent_prefix
    then conns_of (trim_prefix to agent_prefix) ix.agents
    else []

unfoldable pub fanout_voice_local : Index → Envelope → Net → Net
unfolding voice_targets send_all
fanout_voice_local ix e n = send_all (voice_targets ix e.to) e n

unfoldable pub send_count : List Str → Envelope → ℕ → Net → Net × ℕ
unfolding send
send_count [] e queued n = (n, queued)
send_count (conn ∷ conns) e queued n =
    let (m, accepted) = send conn e n in send_count conns e (queued + one_if accepted) m

unfoldable pub fanout_agent_local : Index → Str → Envelope → Net → Net × ℕ
unfolding send_count conns_of
fanout_agent_local ix aid e n = send_count (conns_of aid ix.agents) e 0 n

unfoldable pub push_to_agent : Index → Str → Envelope → Net → Net × Bool
unfolding fanout_agent_local
push_to_agent ix aid e n = let (m, queued) = fanout_agent_local ix aid e n in (m, ltb 0 queued)
