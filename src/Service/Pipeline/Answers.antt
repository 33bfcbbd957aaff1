-- ===== src/Service/Pipeline/Answers.antt =====
-- The sender of a message is answered.
use custom_service.Common.{
  ◌≡◌, ◌<◌, refl, ◌||◌, inl, inr, Bool, true, false, some, List, length, Option-cases, Str, str_eq,
  is_empty, lookup, if_both,
}
use custom_service.Ws.Protocol.{Envelope}
use custom_service.Ws.Client.{
  Client, OutboundFrame, is_low, with_conv, set_conversation_id, send_buf_high,
}
use custom_service.Ws.Hub.{Hub, Ambient, send_to, fanout_to_conv, publish, stamped}
use custom_service.Ws.Fanout.{fanout_local}
use custom_service.Ws.Binding.{rebind_client, move_to_conv, mark_blocked}
use custom_service.Ws.Run.Stable.Sends.{fanout_local-keeps}
use custom_service.Service.{Service, World, Inserted, fresh, duplicate, conflict, failed, tell}
use custom_service.Service.Preprocess.{rebind}
use custom_service.Service.Pipeline.{
  conversation_id, Job, by_visitor, by_agent, error_about, ack_of, save_failed_text, conflict_text,
  fail_message, set_conv, check_blocked, note_blocked, send_ack, broadcast, mark_replied,
  after_insert, store_message, store_live, build_msg, persist_message,
}
use custom_service.Service.Pipeline.Cases.{persist_message-ends}
use custom_service.Service.Pipeline.Queue.{
  IsOpen, IsAnswer, IsAnswered, send-IsAnswered, open-send, modify-IsOpen,
}

module _ (S : Service) (now : Ambient) (j : Job) (high : List OutboundFrame) where
  Waits : World S → Type 0
  Waits w = IsOpen j.conn high w.hub.net

  Answered : World S → Type 0
  Answered w = IsAnswered j.conn j.snap.id high w.hub.net

  tell-Answered :
      (e : Envelope) (w : World S)
      → is_low e ≡ false
      → IsAnswer j.snap.id e
      → Waits w
      → Answered (tell S j.conn e w)
  unfolding tell send_to Waits Answered
  tell-Answered e w urgent a o = open-send j.conn high e j.snap.id w.hub.net urgent a o

  fail-Answered :
      (e : Envelope) (conv text : Str) (w : World S)
      → e.id ≡ j.snap.id
      → Waits w
      → Answered (tell S j.conn (error_about now e conv text) w)
  unfolding error_about is_low
  fail-Answered e conv text w same o =
      tell-Answered (error_about now e conv text) w refl (same, inr refl) o

  send_ack-Answered :
      (ack : Envelope) (w : World S)
      → by_agent j ≡ false
      → is_low ack ≡ false
      → IsAnswer j.snap.id ack
      → Waits w
      → Answered (send_ack S j ack w)
  unfolding send_ack Answered
  send_ack-Answered ack w visits urgent a o =
      let told : Answered (tell S j.conn ack w) = tell-Answered ack w urgent a o in simp visits told

  ack-Answered :
      (conv : Str) (is_new : Bool) (w : World S)
      → by_agent j ≡ false
      → Waits w
      → Answered (send_ack S j (ack_of now j conv is_new) w)
  unfolding ack_of is_low
  ack-Answered conv is_new w visits o =
      send_ack-Answered (ack_of now j conv is_new) w visits refl (refl, inl refl) o

  broadcast-Answered : (e : Envelope) (w : World S) → Answered w → Answered (broadcast S e w)
  unfolding broadcast fanout_to_conv publish Answered
  broadcast-Answered e w a =
      if_both (λ (h : Hub). IsAnswered j.conn j.snap.id high h.net) S.has_hub
        (if_both (λ (h : Hub). IsAnswered j.conn j.snap.id high h.net) w.hub.has_redis sent sent) a
    where
      sent :
          IsAnswered j.conn j.snap.id high (fanout_local w.hub.index (stamped w.hub e) w.hub.net).0
      sent =
          fanout_local-keeps (IsAnswered j.conn j.snap.id high) (λ f. Unit {0})
            (λ k f ok n. send-IsAnswered j.conn j.snap.id high k f n) w.hub.index (stamped w.hub e)
            tt w.hub.net a

  after_insert-Answered :
      (e : Envelope) (blocked : Bool) (r : Inserted) (w : World S)
      → by_agent j ≡ false
      → e.id ≡ j.snap.id
      → Waits w
      → Answered (after_insert S now j e blocked r w)
  unfolding after_insert mark_replied Answered
  after_insert-Answered e blocked fresh w visits same o =
      let a = ack-Answered e.conv_id true w visits o in
      let acked = send_ack S j (ack_of now j e.conv_id true) w in
      if_both Answered blocked a (broadcast-Answered e acked a)
  after_insert-Answered e blocked duplicate w visits same o =
      ack-Answered e.conv_id false w visits o
  after_insert-Answered e blocked conflict w visits same o =
      fail-Answered e e.conv_id conflict_text w same o
  after_insert-Answered e blocked failed w visits same o =
      fail-Answered e e.conv_id save_failed_text w same o

  note_blocked-Waits : (b : Bool) (w : World S) → Waits w → Waits (note_blocked S j.conn b w)
  unfolding note_blocked mark_blocked Waits
  note_blocked-Waits b w o =
      modify-IsOpen j.conn (mark_blocked b) high w.hub.net (λ c. (refl, refl)) o

  set_conv-Waits : (conv : Str) (w : World S) → Waits w → Waits (set_conv S j.conn conv w)
  unfolding set_conv set_conversation_id with_conv Waits
  set_conv-Waits conv w o =
      modify-IsOpen j.conn (with_conv conv) high w.hub.net (λ c. (refl, refl)) o

  rebind-Waits : (conv : Str) (w : World S) → Waits w → Waits (rebind S j.conn conv w)
  unfolding rebind rebind_client move_to_conv set_conv Waits
  rebind-Waits conv w o =
      let moved = set_conv-Waits conv w o in
      if_both (λ (h : Hub). IsOpen j.conn high h.net) S.has_hub
        (if_both (λ (h : Hub). IsOpen j.conn high h.net)
          (is_empty conv || str_eq (conversation_id j.conn w.hub.net) conv) o moved)
        moved

  check_blocked-Waits : (w : World S) → Waits w → Waits (check_blocked S j w).0
  unfolding check_blocked
  check_blocked-Waits w o =
      if_both (λ (r : World S × Bool). Waits r.0) (by_visitor j)
        (elim (Option-cases (S.store.is_visitor_blocked j.client w.db)) [
          | inl h ↦ rw (h, check_blocked) o
          | inr (blocked, h) ↦ rw (h, check_blocked) (note_blocked-Waits blocked w o)
        ])
        o

  store_message-Answered :
      (conv : Str) (blocked : Bool) (w : World S)
      → by_agent j ≡ false
      → Waits w
      → Answered (store_message S now j conv blocked w)
  unfolding store_message Waits
  store_message-Answered conv blocked w visits o =
      let e : Envelope = record (j.snap) { conv_id = conv } in
      let r = S.store.insert_message_idempotent (build_msg S now e j.sender j.client) w.db in
      after_insert-Answered e blocked r.1 (record w { db = r.0 }) visits refl o

  persist-Answered :
      (w : World S) → by_agent j ≡ false → Waits w → Answered (persist_message S now j w)
  unfolding Waits fail_message store_live
  persist-Answered w visits o =
      persist_message-ends S now j Waits Answered (λ v o. o)
        (λ conv v bare o. set_conv-Waits conv v o) rebind-Waits
        (λ v o. fail-Answered j.snap j.snap.conv_id save_failed_text v refl o)
        (λ conv v o.
          let c = check_blocked S j v in
          store_message-Answered conv c.1 c.0 visits (check_blocked-Waits v o))
        w o

-- A message that does not come from an agent is answered, whatever the database answers: where the
-- connection is open and less than 256 frames wait in its first queue, the task ends with one more
-- frame behind them, an acknowledgement or an error with the ID of the message.
pub persist_message-IsAnswered :
    (S : Service) (now : Ambient) (j : Job) (w : World S) (c : Client)
    → by_agent j ≡ false
    → lookup j.conn w.hub.net.clients ≡ some c
    → c.closed ≡ false
    → length c.high < send_buf_high
    → IsAnswered j.conn j.snap.id c.high (persist_message S now j w).hub.net
unfolding Answered Waits
persist_message-IsAnswered S now j w c visits here live room =
    persist-Answered S now j c.high w visits (c, here, live, refl, room)
