-- ===== src/Service/Preprocess/Sinks.antt =====
-- The service keeps what the hub keeps: preprocessing as the hub's sink.
use custom_service.Common.{
  Option, ◌≡◌, inl, inr, Bool, true, false, if_both, Option-cases, Str, is_empty, ℤ, pos,
}
use custom_service.Ws.Protocol.{Envelope}
use custom_service.Ws.Client.{Net}
use custom_service.Ws.Index.{Index}
use custom_service.Ws.Hub.{Ambient}
use custom_service.Ws.Run.Stable.{Stable}
use custom_service.Ws.Run.Stable.Moves.{On, send_to-keeps, rebind_client-keeps}
use custom_service.Ws.Run.Stable.Frames.{SinkKeeps}
use custom_service.Ws.Incoming.{error_frame, agent_conv_forbidden_text}
use custom_service.Security.RateLimit.{allow_visitor_message}
use custom_service.Service.{Service, World, actor_of, tell, refuse}
use custom_service.Service.Preprocess.{
  violate, note_injection, accept_visitor, preprocess_visitor_message, rebind, follow, take_over,
  follow_up, after_ownership, target_conv, preprocess_agent_message, sink_of, eq_ℤ, flood_text,
  check_failed_text, not_owned_text, no_conv_text,
}

module _ (S : Service) (Q : Index → Net → Type 0) (st : Stable Q)
    (with_hub : S.has_hub ≡ true) where
  pub tell-keeps :
      (conn : Str) (e : Envelope) (w : World S) → On Q w.hub → On Q (tell S conn e w).hub
  unfolding tell
  tell-keeps conn e w q = send_to-keeps Q st conn e w.hub q

  pub rebind-keeps : (conn conv : Str) (w : World S) → On Q w.hub → On Q (rebind S conn conv w).hub
  unfolding rebind
  rebind-keeps conn conv w q = rw with_hub (rebind_client-keeps Q st conn conv w.hub q)

  abbrev Kept : World S × Option Envelope → Type 0
  Kept r = On Q r.0.hub

  refuse-keeps :
      (now : Ambient) (conn id content : Str) (w : World S)
      → On Q w.hub
      → Kept (refuse S now conn id content w)
  unfolding refuse
  refuse-keeps now conn id content w q = tell-keeps conn (error_frame now id content) w q

  note_injection-keeps :
      (e : Envelope) (actor : Str) (w : World S)
      → On Q w.hub
      → On Q (note_injection S e actor w).hub
  unfolding note_injection violate
  note_injection-keeps e actor w q =
      if_both (λ (x : World S). On Q x.hub) (is_empty e.content) q
        (if_both (λ (x : World S). On Q x.hub) (S.detects_injection e.content) q q)

  accept_visitor-keeps :
      (now : Ambient) (e : Envelope) (conn : Str) (ok : Bool) (w : World S)
      → On Q w.hub
      → Kept (accept_visitor S now e conn ok w)
  unfolding accept_visitor violate
  accept_visitor-keeps now e conn true w q = note_injection-keeps e (actor_of S conn w) w q
  accept_visitor-keeps now e conn false w q =
      refuse-keeps now conn e.id flood_text (violate S (actor_of S conn w) w) q

  visitor-keeps :
      (now : Ambient) (e : Envelope) (conn : Str) (w : World S)
      → On Q w.hub
      → Kept (preprocess_visitor_message S now e conn w)
  unfolding preprocess_visitor_message
  visitor-keeps now e conn w q =
      elim (Option-cases
        (allow_visitor_message S.limiter (actor_of S conn w) S.vis_msg_pm w.redis)) [
          | inl h ↦ rw (h, preprocess_visitor_message) (accept_visitor-keeps now e conn false w q)
          | inr (r, h) ↦
              rw (h, preprocess_visitor_message)
                (accept_visitor-keeps now e conn r.1 (record w { redis = r.0 }) q)
        ]

  follow-keeps :
      (e : Envelope) (conn conv next : Str) (w : World S)
      → On Q w.hub
      → Kept (follow S e conn conv next w)
  unfolding follow
  follow-keeps e conn conv next w q = rebind-keeps conn next w q

  take_over-keeps :
      (now : Ambient) (e : Envelope) (conn conv next : Str) (agent_id : ℤ) (w : World S)
      → On Q w.hub
      → Kept (take_over S now e conn conv next agent_id w)
  unfolding take_over
  take_over-keeps now e conn conv next agent_id w q =
      let r = S.store.assign_agent next agent_id w.db in
      let w' : World S = record w { db = r.0 } in
      if_both Kept r.1 (follow-keeps e conn conv next w' q)
        (refuse-keeps now conn e.id check_failed_text w' q)

  follow_up-keeps :
      (now : Ambient) (e : Envelope) (conn conv next : Str) (owner : ℤ) (w : World S)
      → On Q w.hub
      → Kept (follow_up S now e conn conv next owner w)
  unfolding follow_up
  follow_up-keeps now e conn conv next owner w q =
      let agent_id = (S.parse_int (actor_of S conn w)).0 in
      if_both Kept (eq_ℤ owner (pos 0)) (take_over-keeps now e conn conv next agent_id w q) (
        if_both Kept (eq_ℤ owner agent_id) (follow-keeps e conn conv next w q)
          (refuse-keeps now conn e.id agent_conv_forbidden_text w q))

  after_ownership-keeps :
      (now : Ambient) (e : Envelope) (conn conv : Str) (w : World S)
      → On Q w.hub
      → Kept (after_ownership S now e conn conv w)
  unfolding after_ownership
  after_ownership-keeps now e conn conv w q =
      elim (Option-cases (S.store.follow_up_conversation conv w.db)) [
        | inl h ↦ rw (h, after_ownership) q
        | inr (r, h) ↦
            rw (h, after_ownership)
              (if_both Kept (is_empty r.0) q (follow_up-keeps now e conn conv r.0 r.1 w q))
      ]

  agent-keeps :
      (now : Ambient) (e : Envelope) (conn : Str) (w : World S)
      → On Q w.hub
      → Kept (preprocess_agent_message S now e conn w)
  unfolding preprocess_agent_message
  agent-keeps now e conn w q =
      let conv = target_conv S e conn w in
      if_both Kept (is_empty conv) (refuse-keeps now conn e.id no_conv_text w q)
        (elim (Option-cases (S.store.agent_owns_conversation conv (actor_of S conn w) w.db)) [
          | inl h ↦
              rw (h, preprocess_agent_message) (refuse-keeps now conn e.id check_failed_text w q)
          | inr (owned, h) ↦
              rw (h, preprocess_agent_message)
                (if_both Kept owned (after_ownership-keeps now e conn conv w q)
                  (refuse-keeps now conn e.id not_owned_text w q))
        ])

  pub sink_of-SinkKeeps :
      (now : Ambient) (db : S.store.Db) (redis : S.limiter.redis.State)
      → SinkKeeps Q (sink_of S now db redis)
  unfolding sink_of
  sink_of-SinkKeeps now db redis = record {
    visitor_keeps =
        λ e conn h q. visitor-keeps now e conn (record { hub = h; db = db; redis = redis }) q;
    agent_keeps =
        λ e conn h q. agent-keeps now e conn (record { hub = h; db = db; redis = redis }) q;
  }
