-- ===== src/Service/Pipeline/Backed.antt =====
-- Nothing is said of a message before it is stored.
use custom_service.Common.{
  subst, ◌≡◌, refl, ◌&&◌, ◌==◌, ◌⊎◌, ◌++◌, inl, inr, Bool, true, false, Option-cases, Bool-cases,
  if_both, Str, codes, is_empty,
}
use custom_service.Ws.Protocol.{Envelope, agent_prefix}
use custom_service.Ws.Hub.{Ambient, fanout_to_agent, stamped}
use custom_service.Ws.Binding.{mark_blocked}
use custom_service.Service.{
  Service, Store, World, Message, Inserted, fresh, duplicate, conflict, failed, tell,
}
use custom_service.Service.Preprocess.{rebind}
use custom_service.Service.Pipeline.{
  Job, by_visitor, by_agent, error_about, ack_of, save_failed_text, conflict_text, fail_message,
  set_conv, check_blocked, note_blocked, send_ack, broadcast, mark_replied, after_insert,
  store_message, store_live, build_msg, persist_message,
}
use custom_service.Service.Pipeline.Cases.{persist_message-ends}
use custom_service.Service.Pipeline.Frames.{
  Sent, Sent-weaken, send_to-Sent, fanout_to_conv-Sent, fanout_to_agent-Sent, set_conv-Sent,
  rebind_client-Sent, modify-Queued,
}

-- The table of messages, as far as its IDs go: an insertion that succeeds, or finds the same row,
-- leaves the ID in it, and no operation of the pipeline takes one out.
pub record Durable (T : Store) : Type 1 where
  pub Stored : Str → T.Db → Type 0
  pub fresh_stored :
      (m : Message) (db : T.Db)
      → is_empty m.id ≡ false
      → (T.insert_message_idempotent m db).1 ≡ fresh
      → Stored m.id (T.insert_message_idempotent m db).0
  pub duplicate_stored :
      (m : Message) (db : T.Db)
      → is_empty m.id ≡ false
      → (T.insert_message_idempotent m db).1 ≡ duplicate
      → Stored m.id (T.insert_message_idempotent m db).0
  pub insert_keeps :
      (m : Message) (id : Str) (db : T.Db)
      → Stored id db
      → Stored id (T.insert_message_idempotent m db).0
  pub open_keeps :
      (site visitor id : Str) (db : T.Db)
      → Stored id db
      → Stored id (T.open_or_get_conversation site visitor db).0
  pub replied_keeps :
      (conv id : Str) (db : T.Db) → Stored id db → Stored id (T.mark_agent_replied conv db)

-- A frame of before, an error, or a frame about a message that is in the table.
abbrev pub IsBacked : (T : Store) → Durable T → (Envelope → Type 0) → T.Db → Envelope → Type 0
IsBacked T law Old db e = Old e ⊎ (e.type ≡ codes "error") ⊎ law.Stored e.id db

module _ (S : Service) (law : Durable S.store) (Old : Envelope → Type 0) (now : Ambient)
    (j : Job) where
  Backed : World S → Type 0
  Backed w = Sent (IsBacked S.store law Old w.db) w.hub

  later :
      (db' : S.store.Db) (w : World S)
      → ((id : Str) → law.Stored id w.db → law.Stored id db')
      → Backed w
      → Backed (record w { db = db' })
  unfolding Backed
  later db' w keeps b =
      Sent-weaken (IsBacked S.store law Old w.db) (IsBacked S.store law Old db') w.hub
        (λ e p. elim p [
          | inl old ↦ inl old
          | inr (inl error) ↦ inr (inl error)
          | inr (inr stored) ↦ inr (inr (keeps e.id stored))
        ])
        b

  tell-Backed :
      (e : Envelope) (w : World S)
      → IsBacked S.store law Old w.db e
      → Backed w
      → Backed (tell S j.conn e w)
  unfolding Backed tell
  tell-Backed e w p b = send_to-Sent (IsBacked S.store law Old w.db) j.conn e w.hub p b

  error-Backed :
      (e : Envelope) (conv text : Str) (w : World S)
      → Backed w
      → Backed (tell S j.conn (error_about now e conv text) w)
  unfolding error_about
  error-Backed e conv text w b = tell-Backed (error_about now e conv text) w (inr (inl refl)) b

  send_ack-Backed :
      (ack : Envelope) (w : World S)
      → law.Stored ack.id w.db
      → Backed w
      → Backed (send_ack S j ack w)
  unfolding send_ack Backed stamped
  send_ack-Backed ack w stored b =
      let P = IsBacked S.store law Old w.db in
      let out : Envelope = record (stamped w.hub ack) { to = agent_prefix ++ j.client } in
      let r = fanout_to_agent j.client ack w.hub in
      let sent = fanout_to_agent-Sent P j.client ack w.hub (inr (inr stored)) b in
      if_both Backed (by_agent j && S.has_hub)
        (if_both (Sent P) (r.1 == 0) (send_to-Sent P j.conn out r.0 (inr (inr stored)) sent) sent)
        (tell-Backed ack w (inr (inr stored)) b)

  broadcast-Backed :
      (e : Envelope) (w : World S) → law.Stored e.id w.db → Backed w → Backed (broadcast S e w)
  unfolding broadcast Backed stamped
  broadcast-Backed e w stored b =
      let P = IsBacked S.store law Old w.db in
      if_both (Sent P) S.has_hub (fanout_to_conv-Sent P e w.hub (inr (inr stored)) b) b

  mark_replied-Backed : (conv : Str) (w : World S) → Backed w → Backed (mark_replied S j conv w)
  unfolding mark_replied
  mark_replied-Backed conv w b = elim (Bool-cases (by_agent j)) [
    | inl agent ↦
        simp agent
          (later (S.store.mark_agent_replied conv w.db) w (λ id. law.replied_keeps conv id w.db) b)
    | inr other ↦ simp other b
  ]

  send_ack-db : (ack : Envelope) (w : World S) → (send_ack S j ack w).db ≡ w.db
  unfolding send_ack tell
  send_ack-db ack w = if_both (λ (v : World S). v.db ≡ w.db) (by_agent j && S.has_hub) refl refl

  -- An answer of the insertion by which the message is in the table.
  abbrev IsIn : Inserted → S.store.Db → Type 0
  IsIn fresh db = law.Stored j.snap.id db
  IsIn duplicate db = law.Stored j.snap.id db
  IsIn conflict db = Unit
  IsIn failed db = Unit

  after_insert-Backed :
      (e : Envelope) (blocked : Bool) (r : Inserted) (w : World S)
      → e.id ≡ j.snap.id
      → IsIn r w.db
      → Backed w
      → Backed (after_insert S now j e blocked r w)
  unfolding after_insert ack_of
  after_insert-Backed e blocked fresh w same stored b =
      let acked = send_ack S j (ack_of now j e.conv_id true) w in
      let a = send_ack-Backed (ack_of now j e.conv_id true) w stored b in
      let there : law.Stored e.id acked.db =
        rw (send_ack-db (ack_of now j e.conv_id true) w, same) stored in
      if_both Backed blocked a
        (mark_replied-Backed e.conv_id (broadcast S e acked) (broadcast-Backed e acked there a))
  after_insert-Backed e blocked duplicate w same stored b =
      send_ack-Backed (ack_of now j e.conv_id false) w stored b
  after_insert-Backed e blocked conflict w same stored b =
      error-Backed e e.conv_id conflict_text w b
  after_insert-Backed e blocked failed w same stored b =
      error-Backed e e.conv_id save_failed_text w b

  is_in :
      (m : Message) (db : S.store.Db)
      → m.id ≡ j.snap.id
      → is_empty m.id ≡ false
      → IsIn (S.store.insert_message_idempotent m db).1 (S.store.insert_message_idempotent m db).0
  is_in m db same named = go (S.store.insert_message_idempotent m db).1 refl
    where
      go :
          (r : Inserted)
          → (S.store.insert_message_idempotent m db).1 ≡ r
          → IsIn r (S.store.insert_message_idempotent m db).0
      go fresh h =
          subst (λ (i : Str). law.Stored i (S.store.insert_message_idempotent m db).0) same
            (law.fresh_stored m db named h)
      go duplicate h =
          subst (λ (i : Str). law.Stored i (S.store.insert_message_idempotent m db).0) same
            (law.duplicate_stored m db named h)
      go conflict h = tt
      go failed h = tt

  store_message-Backed :
      (conv : Str) (blocked : Bool) (w : World S)
      → is_empty j.snap.id ≡ false
      → Backed w
      → Backed (store_message S now j conv blocked w)
  unfolding store_message build_msg
  store_message-Backed conv blocked w named b =
      let e : Envelope = record (j.snap) { conv_id = conv } in
      let m = build_msg S now e j.sender j.client in
      let r = S.store.insert_message_idempotent m w.db in
      after_insert-Backed e blocked r.1 (record w { db = r.0 }) refl (is_in m w.db refl named)
        (later r.0 w (λ id. law.insert_keeps m id w.db) b)

  check_blocked-Backed : (w : World S) → Backed w → Backed (check_blocked S j w).0
  unfolding check_blocked note_blocked mark_blocked Backed
  check_blocked-Backed w b =
      if_both (λ (r : World S × Bool). Backed r.0) (by_visitor j)
        (elim (Option-cases (S.store.is_visitor_blocked j.client w.db)) [
          | inl h ↦ rw (h, check_blocked) b
          | inr (blocked, h) ↦
              rw (h, check_blocked)
                (record {
                  queued =
                      modify-Queued (IsBacked S.store law Old w.db) j.conn (mark_blocked blocked)
                        w.hub.net (λ c. (refl, refl)) b.queued;
                  said = b.said;
                })
        ])
        b

  set_conv-Backed : (conv : Str) (w : World S) → Backed w → Backed (set_conv S j.conn conv w)
  unfolding set_conv Backed
  set_conv-Backed conv w b = record {
    queued = set_conv-Sent (IsBacked S.store law Old w.db) j.conn conv w.hub b;
    said = b.said;
  }

  rebind-Backed : (conv : Str) (w : World S) → Backed w → Backed (rebind S j.conn conv w)
  unfolding rebind Backed
  rebind-Backed conv w b =
      let P = IsBacked S.store law Old w.db in
      if_both (Sent P) S.has_hub (rebind_client-Sent P j.conn conv w.hub b)
        (record { queued = set_conv-Sent P j.conn conv w.hub b; said = b.said })

  persist-Backed :
      (w : World S) → is_empty j.snap.id ≡ false → Backed w → Backed (persist_message S now j w)
  unfolding fail_message store_live
  persist-Backed w named b =
      persist_message-ends S now j Backed Backed
        (λ v b.
          later (S.store.open_or_get_conversation j.site j.client v.db).0 v
            (λ id. law.open_keeps j.site j.client id v.db) b)
        (λ conv v bare b. set_conv-Backed conv v b) rebind-Backed
        (λ v b. error-Backed j.snap j.snap.conv_id save_failed_text v b)
        (λ conv v b.
          let c = check_blocked S j v in
          store_message-Backed conv c.1 c.0 named (check_blocked-Backed v b))
        w b

-- Nothing is said of a message before it is stored, by laws of the table of messages: whatever the
-- frames of before are, what waits in a queue or was published after the task of a message with an
-- ID is one of them, or an error, or is about a message that is in the table by then. So an
-- acknowledgement means that the message is stored, and no other connection and no other node gets
-- a message that is not.
pub persist_message-IsBacked :
    (S : Service) (law : Durable S.store) (Old : Envelope → Type 0) (now : Ambient) (j : Job)
    (w : World S)
    → is_empty j.snap.id ≡ false
    → Sent Old w.hub
    → Sent (IsBacked S.store law Old (persist_message S now j w).db) (persist_message S now j w).hub
unfolding Backed
persist_message-IsBacked S law Old now j w named sent =
    persist-Backed S law Old now j w named
      (Sent-weaken Old (IsBacked S.store law Old w.db) w.hub (λ e old. inl old) sent)
