-- ===== src/Service/Run/Tasks.antt =====
-- The tasks of the service keep what the hub keeps.
use custom_service.Common.{
  ℕ, ◌≡◌, ◌==◌, ◌&&◌, ◌++◌, inl, inr, Bool, true, false, none, some, List, [], ◌∷◌, if_both, Option,
  Option-cases, Str, codes, is_empty,
}
use custom_service.Ws.Protocol.{Envelope, agent_prefix}
use custom_service.Ws.Client.{Net, send}
use custom_service.Ws.Index.{Index}
use custom_service.Ws.Hub.{Ambient, fanout_to_agent, stamped}
use custom_service.Ws.Run.Stable.{Stable}
use custom_service.Ws.Run.Stable.Moves.{
  On, send_to-keeps, fanout_to_conv-keeps, fanout_to_agent-keeps, mark_blocked-IsSoft,
}
use custom_service.Service.{
  Service, World, Message, Inserted, fresh, duplicate, conflict, failed, Receipt, resolved,
  forbidden, broken,
}
use custom_service.Service.Preprocess.Sinks.{tell-keeps, rebind-keeps}
use custom_service.Service.Pipeline.{
  Job, by_visitor, by_agent, error_about, ack_of, save_failed_text, conflict_text, fail_message,
  first_conv, reopen, is_deleted, live_conv, note_blocked, check_blocked, send_ack, broadcast,
  mark_replied, after_insert, build_msg, store_message, store_live, store_first, persist_message,
}
use custom_service.Service.Receipts.{
  replayed, replay_all, after_receipt, at_clock, persist_delivery, persist_read, replay_undelivered,
}

-- A visitor's message whose connection has a conversation, or an agent's.
abbrev pub HasConv : Job → Type 0
HasConv j = (is_empty j.conv && by_visitor j) ≡ false

module _ (S : Service) (Q : Index → Net → Type 0) (st : Stable Q)
    (with_hub : S.has_hub ≡ true) where
  abbrev Kept : World S → Type 0
  Kept w = On Q w.hub

  abbrev KeptToo : World S × Option Str → Type 0
  KeptToo r = On Q r.0.hub

  fail_message-keeps :
      (now : Ambient) (j : Job) (w : World S) → Kept w → Kept (fail_message S now j w)
  unfolding fail_message
  fail_message-keeps now j w q =
      tell-keeps S Q st with_hub j.conn (error_about now j.snap j.snap.conv_id save_failed_text) w q

  reopen-keeps : (now : Ambient) (j : Job) (w : World S) → Kept w → KeptToo (reopen S now j w)
  unfolding reopen
  reopen-keeps now j w q =
      let r = S.store.open_or_get_conversation j.site j.client w.db in
      let w' : World S = record w { db = r.0 } in
      elim (Option-cases r.1) [
        | inl h ↦ rw (h, reopen) (fail_message-keeps now j w' q)
        | inr (c, h) ↦ rw (h, reopen) (rebind-keeps S Q st with_hub j.conn c w' q)
      ]

  live_conv-keeps :
      (now : Ambient) (j : Job) (conv : Str) (w : World S)
      → Kept w
      → KeptToo (live_conv S now j conv w)
  unfolding live_conv
  live_conv-keeps now j conv w q =
      if_both KeptToo (by_visitor j && is_deleted S conv w) (reopen-keeps now j w q) q

  note_blocked-keeps :
      (conn : Str) (blocked : Bool) (w : World S) → Kept w → Kept (note_blocked S conn blocked w)
  unfolding note_blocked
  note_blocked-keeps conn blocked w q =
      st.after_write conn _ w.hub.index w.hub.net (mark_blocked-IsSoft blocked) q

  check_blocked-keeps : (j : Job) (w : World S) → Kept w → Kept (check_blocked S j w).0
  unfolding check_blocked
  check_blocked-keeps j w q =
      if_both (λ (r : World S × Bool). Kept r.0) (by_visitor j)
        (elim (Option-cases (S.store.is_visitor_blocked j.client w.db)) [
          | inl h ↦ rw (h, check_blocked) q
          | inr (blocked, h) ↦ rw (h, check_blocked) (note_blocked-keeps j.conn blocked w q)
        ])
        q

  send_ack-keeps : (j : Job) (ack : Envelope) (w : World S) → Kept w → Kept (send_ack S j ack w)
  unfolding send_ack
  send_ack-keeps j ack w q =
      let r = fanout_to_agent j.client ack w.hub in
      let out : Envelope = record (stamped w.hub ack) { to = agent_prefix ++ j.client } in
      let p = fanout_to_agent-keeps Q st j.client ack w.hub q in
      if_both Kept (by_agent j && S.has_hub)
        (if_both (On Q) (r.1 == 0) (send_to-keeps Q st j.conn out r.0 p) p)
        (tell-keeps S Q st with_hub j.conn ack w q)

  pub broadcast-keeps : (e : Envelope) (w : World S) → Kept w → Kept (broadcast S e w)
  unfolding broadcast
  broadcast-keeps e w q = if_both (On Q) S.has_hub (fanout_to_conv-keeps Q st e w.hub q) q

  after_insert-keeps :
      (now : Ambient) (j : Job) (e : Envelope) (blocked : Bool) (r : Inserted) (w : World S)
      → Kept w
      → Kept (after_insert S now j e blocked r w)
  unfolding after_insert mark_replied
  after_insert-keeps now j e blocked fresh w q =
      let ack = ack_of now j e.conv_id true in
      let p = send_ack-keeps j ack w q in
      if_both Kept blocked p (broadcast-keeps e (send_ack S j ack w) p)
  after_insert-keeps now j e blocked duplicate w q =
      send_ack-keeps j (ack_of now j e.conv_id false) w q
  after_insert-keeps now j e blocked conflict w q =
      tell-keeps S Q st with_hub j.conn (error_about now e e.conv_id conflict_text) w q
  after_insert-keeps now j e blocked failed w q =
      tell-keeps S Q st with_hub j.conn (error_about now e e.conv_id save_failed_text) w q

  store_message-keeps :
      (now : Ambient) (j : Job) (conv : Str) (blocked : Bool) (w : World S)
      → Kept w
      → Kept (store_message S now j conv blocked w)
  unfolding store_message
  store_message-keeps now j conv blocked w q =
      let e : Envelope = record (j.snap) { conv_id = conv } in
      let r = S.store.insert_message_idempotent (build_msg S now e j.sender j.client) w.db in
      let w' : World S = record w { db = r.0 } in after_insert-keeps now j e blocked r.1 w' q

  store_live-keeps :
      (now : Ambient) (j : Job) (r : World S × Option Str) → KeptToo r → Kept (store_live S now j r)
  unfolding store_live
  store_live-keeps now j (w, none) q = q
  store_live-keeps now j (w, some conv) q =
      let c = check_blocked S j w in
      store_message-keeps now j conv c.1 c.0 (check_blocked-keeps j w q)

  -- A message whose connection has a conversation.
  pub persist_message-keeps :
      (now : Ambient) (j : Job) (w : World S)
      → HasConv j
      → Kept w
      → Kept (persist_message S now j w)
  unfolding persist_message first_conv store_first
  persist_message-keeps now j w named q =
      rw named
        (store_live-keeps now j (live_conv S now j j.conv w) (live_conv-keeps now j j.conv w q))

  after_receipt-keeps :
      (e : Envelope) (type : Str) (r : Receipt) (w : World S)
      → Kept w
      → Kept (after_receipt S e type r w)
  unfolding after_receipt
  after_receipt-keeps e type (resolved ts) w q =
      broadcast-keeps (record e { type = type; ts = ts }) w q
  after_receipt-keeps e type forbidden w q = q
  after_receipt-keeps e type broken w q = q

  pub persist_delivery-keeps :
      (now : Ambient) (e : Envelope) (w : World S) → Kept w → Kept (persist_delivery S now e w)
  unfolding persist_delivery
  persist_delivery-keeps now e w q =
      let r = S.store.mark_message_delivered e.conv_id e.id w.db in
      let w' : World S = record w { db = r.0 } in
      after_receipt-keeps e (codes "delivery") (at_clock S now r.1) w' q

  pub persist_read-keeps :
      (now : Ambient) (e : Envelope) (role : Str) (w : World S)
      → Kept w
      → Kept (persist_read S now e role w)
  unfolding persist_read
  persist_read-keeps now e role w q =
      let r = S.store.resolve_read_receipt e.conv_id role e.id now.now_ms w.db in
      let w' : World S = record w { db = r.0 } in after_receipt-keeps e (codes "read") r.1 w' q

  replay_all-keeps :
      (conn : Str) (ms : List Message) (ix : Index) (n : Net)
      → Q ix n
      → Q ix (replay_all conn ms n).0
  unfolding replay_all
  replay_all-keeps conn [] ix n q = q
  replay_all-keeps conn (m ∷ ms) ix n q =
      let p = st.after_send conn (replayed m) ix n q in
      let n' = (send conn (replayed m) n).0 in
      if_both (λ (r : Net × ℕ). Q ix r.0) (send conn (replayed m) n).1
        (replay_all-keeps conn ms ix n' p) p

  pub replay_undelivered-keeps :
      (conn conv : Str) (w : World S) → Kept w → Kept (replay_undelivered S conn conv w)
  unfolding replay_undelivered
  replay_undelivered-keeps conn conv w q =
      elim (Option-cases (S.store.list_undelivered_agent_messages conv w.db)) [
        | inl h ↦ rw (h, replay_undelivered) q
        | inr (ms, h) ↦
            rw (h, replay_undelivered) (replay_all-keeps conn ms w.hub.index w.hub.net q)
      ]
