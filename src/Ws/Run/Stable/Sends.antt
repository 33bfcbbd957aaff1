-- ===== src/Ws/Run/Stable/Sends.antt =====
-- The code that only sends: the fan-outs of Ws/Fanout, Ws/Hub and Ws/Hall.
use custom_service.Common.{
  inl, inr, List, [], ◌∷◌, Bool-cases, Option-cases, Str, lookup, contains, Map, ltb_ℤ, ℤ, ℕ,
  is_empty, ◌||◌,
}
use custom_service.Ws.Protocol.{Envelope}
use custom_service.Ws.Client.{Kind, agent, Net, send, send_all}
use custom_service.Ws.Index.{Index, conns_of, all_conns}
use custom_service.Ws.Fanout.{
  Sweep, visit_member, visit_members, visit_agent, visit_agents, deliver, mark_sent, fanout_sweep,
  fanout_local, fanout_voice_local, fanout_agent_local, push_to_agent, push_to_visitor, send_count,
  is_typing_echo, is_stale, spills_to_agents, no_targets, voice_targets,
}
use custom_service.Ws.Hub.{PendingCall}
use custom_service.Ws.Registry.{replay_calls}

-- A predicate of the heap that sending the envelopes `Ok` keeps.
module _ {ℓ κ} (P : Net → Type ℓ) (Ok : Envelope → Type κ)
    (keep : (conn : Str) (e : Envelope) → Ok e → (n : Net) → P n → P (send conn e n).0) where
  pub send_all-keeps :
      (conns : List Str) (e : Envelope) (ok : Ok e) (n : Net) → P n → P (send_all conns e n)
  unfolding send_all
  send_all-keeps [] e ok n p = p
  send_all-keeps (conn ∷ conns) e ok n p =
      send_all-keeps conns e ok (send conn e n).0 (keep conn e ok n p)

  send_count-keeps :
      (conns : List Str) (e : Envelope) (ok : Ok e) (q : ℕ) (n : Net)
      → P n
      → P (send_count conns e q n).0
  unfolding send_count
  send_count-keeps [] e ok q n p = p
  send_count-keeps (conn ∷ conns) e ok q n p =
      send_count-keeps conns e ok _ (send conn e n).0 (keep conn e ok n p)

  deliver-keeps :
      (e : Envelope) (ok : Ok e) (conn : Str) (kind : Kind) (s : Sweep)
      → P s.net
      → P (deliver e conn kind s).net
  unfolding deliver
  deliver-keeps e ok conn kind s p = keep conn e ok s.net p

  visit_member-keeps :
      (e : Envelope) (ok : Ok e) (conn : Str) (s : Sweep) → P s.net → P (visit_member e conn s).net
  unfolding visit_member mark_sent
  visit_member-keeps e ok conn s p = elim (Option-cases (lookup conn s.net.clients)) [
    | inl h ↦ rw (h, visit_member) p
    | inr (c, h) ↦ elim (Bool-cases (is_typing_echo e c.conn_id || is_stale e c)) [
      | inl skip ↦ rw (h, visit_member) (rw skip p)
      | inr hit ↦ rw (h, visit_member) (rw hit (deliver-keeps e ok conn c.kind s p))
    ]
  ]

  visit_members-keeps :
      (e : Envelope) (ok : Ok e) (conns : List Str) (s : Sweep)
      → P s.net
      → P (visit_members e conns s).net
  unfolding visit_members
  visit_members-keeps e ok [] s p = p
  visit_members-keeps e ok (conn ∷ conns) s p =
      visit_members-keeps e ok conns _ (visit_member-keeps e ok conn s p)

  visit_agent-keeps :
      (e : Envelope) (ok : Ok e) (conn : Str) (s : Sweep) → P s.net → P (visit_agent e conn s).net
  unfolding visit_agent
  visit_agent-keeps e ok conn s p = elim (Bool-cases (contains conn s.sent)) [
    | inl dup ↦ rw dup p
    | inr fresh ↦ rw fresh (deliver-keeps e ok conn agent s p)
  ]

  visit_agents-keeps :
      (e : Envelope) (ok : Ok e) (conns : List Str) (s : Sweep)
      → P s.net
      → P (visit_agents e conns s).net
  unfolding visit_agents
  visit_agents-keeps e ok [] s p = p
  visit_agents-keeps e ok (conn ∷ conns) s p =
      visit_agents-keeps e ok conns _ (visit_agent-keeps e ok conn s p)

  fanout_sweep-keeps :
      (ix : Index) (e : Envelope) (ok : Ok e) (n : Net) → P n → P (fanout_sweep ix e n).net
  unfolding fanout_sweep
  fanout_sweep-keeps ix e ok n p =
      let start : Sweep = record { net = n; sent = []; result = no_targets } in
      let q = visit_members-keeps e ok (conns_of e.conv_id ix.by_conv) start p in
      elim (Bool-cases (spills_to_agents e.type)) [
        | inl spill ↦ rw spill (visit_agents-keeps e ok (all_conns ix.agents) _ q)
        | inr stay ↦ rw stay q
      ]

  pub fanout_local-keeps :
      (ix : Index) (e : Envelope) (ok : Ok e) (n : Net) → P n → P (fanout_local ix e n).0
  unfolding fanout_local
  fanout_local-keeps ix e ok n p = elim (Bool-cases (is_empty e.conv_id)) [
    | inl none_named ↦ rw none_named p
    | inr named ↦ rw named (fanout_sweep-keeps ix e ok n p)
  ]

  pub fanout_voice_local-keeps :
      (ix : Index) (e : Envelope) (ok : Ok e) (n : Net) → P n → P (fanout_voice_local ix e n)
  unfolding fanout_voice_local
  fanout_voice_local-keeps ix e ok n p = send_all-keeps (voice_targets ix e.to) e ok n p

  pub fanout_agent_local-keeps :
      (ix : Index) (aid : Str) (e : Envelope) (ok : Ok e) (n : Net)
      → P n
      → P (fanout_agent_local ix aid e n).0
  unfolding fanout_agent_local
  fanout_agent_local-keeps ix aid e ok n p = send_count-keeps (conns_of aid ix.agents) e ok 0 n p

  pub push_to_agent-keeps :
      (ix : Index) (aid : Str) (e : Envelope) (ok : Ok e) (n : Net)
      → P n
      → P (push_to_agent ix aid e n).0
  unfolding push_to_agent
  push_to_agent-keeps ix aid e ok n p = fanout_agent_local-keeps ix aid e ok n p

  pub push_to_visitor-keeps :
      (ix : Index) (vid : Str) (e : Envelope) (ok : Ok e) (n : Net)
      → P n
      → P (push_to_visitor ix vid e n).0
  unfolding push_to_visitor
  push_to_visitor-keeps ix vid e ok n p = elim (Option-cases (lookup vid ix.visitors)) [
    | inl h ↦ rw (h, push_to_visitor) p
    | inr (conn, h) ↦ rw (h, push_to_visitor) (keep conn e ok n p)
  ]

module _ {ℓ} (P : Net → Type ℓ)
    (keep : (conn : Str) (e : Envelope) (n : Net) → P n → P (send conn e n).0) where
  pub replay_calls-keeps :
      (now_ms : ℤ) (conn : Str) (m : Map PendingCall) (n : Net)
      → P n
      → P (replay_calls now_ms conn m n)
  unfolding replay_calls
  replay_calls-keeps now_ms conn [] n p = p
  replay_calls-keeps now_ms conn ((cid, pc) ∷ m) n p = elim (Bool-cases (ltb_ℤ now_ms pc.expires)) [
    | inl live ↦ rw live (replay_calls-keeps now_ms conn m _ (keep conn pc.env n p))
    | inr over ↦ rw over (replay_calls-keeps now_ms conn m n p)
  ]
