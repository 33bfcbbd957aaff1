-- ===== src/Service/Pipeline.antt =====
-- PersistMessageAsync of backend/internal/service/message_pipeline.go: what becomes of a message that
-- has passed preprocessing. The task runs as one step.
pub mod Cases
pub mod Frames
pub mod Queue
pub mod Answers
pub mod Backed
pub mod Silent
use custom_service.Common.{
  ℕ, Bool, true, false, ◌==◌, ◌&&◌, not, Option, none, some, [], ◌∷◌, ◌++◌, if◌then◌else◌, Str,
  codes, str_eq, is_empty, lookup, modify, Map, ℤ, pos, leb_ℤ,
}
use custom_service.Ws.Protocol.{
  Envelope, zero_envelope, Value, text, bool, Extra, object, extra_value, as_string, agent_prefix,
}
use custom_service.Ws.Client.{conversation_id, set_conversation_id}
use custom_service.Ws.Hub.{Hub, Ambient, stamped, fanout_to_agent, fanout_to_conv, send_to}
use custom_service.Ws.Binding.{mark_blocked}
use custom_service.Service.{
  Service, Store, World, Message, Inserted, fresh, duplicate, conflict, failed, actor_of, site_of,
  tell,
}
use custom_service.Service.Preprocess.{rebind}

-- What the task keeps of the call: the message, its connection, and the conversation, the site and
-- the account as they were.
pub record Job : Type 0 where
  pub snap : Envelope
  pub conn : Str
  pub sender : Str
  pub conv : Str
  pub site : Str
  pub client : Str

abbrev pub save_failed_text : Str
save_failed_text = codes "消息保存失败，请重试"

abbrev pub conflict_text : Str
conflict_text = codes "消息标识冲突，已拒绝发送"

-- The answers to a sender: an error about a message, and the acknowledgement.
unfoldable pub error_about : Ambient → Envelope → Str → Str → Envelope
error_about now e conv content = record zero_envelope {
  type = codes "error";
  id = e.id;
  client_id = e.client_id;
  conv_id = conv;
  content = content;
  ts = now.now_ms;
}

unfoldable pub by_visitor : Job → Bool
by_visitor j = str_eq j.sender (codes "visitor")

unfoldable pub by_agent : Job → Bool
by_agent j = str_eq j.sender (codes "agent")

-- The conversation that the agent's client asked for, where it is another one than the message went
-- to.
unfoldable pub ack_requested : Job → Str → Map Value → Map Value
unfolding by_agent extra_value as_string
ack_requested j conv m =
    let asked = as_string (extra_value j.snap.extra (codes "requested_conv")) in
    if by_agent j && not (is_empty asked) && not (str_eq asked conv)
    then m ++ (codes "requested_conv", text asked) ∷ []
    else m

unfoldable pub ack_of : Ambient → Job → Str → Bool → Envelope
unfolding ack_requested
ack_of now j conv is_new = record zero_envelope {
  type = codes "ack";
  id = j.snap.id;
  client_id = j.snap.client_id;
  conv_id = conv;
  ts = now.now_ms;
  extra = object (
      ack_requested j conv (
        (codes "status", text (codes "persisted"))
        ∷ (codes "client_id", text j.snap.client_id)
        ∷ (codes "duplicate", bool (not is_new))
        ∷ []));
}

-- messageTime, in milliseconds.
unfoldable pub message_time : Ambient → ℤ → ℤ
message_time now ts = if leb_ℤ ts (pos 0) then now.now_ms else ts

module _ (S : Service) where
  unfoldable pub build_msg : Ambient → Envelope → Str → Str → Message
  unfolding message_time
  build_msg now e sender sender_ref =
      let media = not (is_empty e.media_url) in
      record {
        id = e.id;
        conv_id = e.conv_id;
        sender = sender;
        sender_ref = sender_ref;
        content = e.content;
        media_url = if media then some (S.safe_media_url e.media_url) else none;
        media_kind = if media then some e.media_kind else none;
        media_name = if media then some (S.sanitize_text e.media_name) else none;
        media_size = if media && not (leb_ℤ e.media_size (pos 0)) then some e.media_size else none;
        created_ms = message_time now e.ts;
        delivered_ws = false;
      }

  unfoldable pub new_job : Envelope → Str → Str → World S → Job
  unfolding conversation_id site_of actor_of
  new_job e conn sender w = record {
    snap = e;
    conn = conn;
    sender = sender;
    conv = if is_empty e.conv_id then conversation_id conn w.hub.net else e.conv_id;
    site = site_of S conn w;
    client = actor_of S conn w;
  }

  unfoldable pub fail_message : Ambient → Job → World S → World S
  unfolding error_about tell
  fail_message now j w = tell S j.conn (error_about now j.snap j.snap.conv_id save_failed_text) w

  unfoldable pub set_conv : Str → Str → World S → World S
  unfolding set_conversation_id
  set_conv conn conv w = record w {
    hub = record (w.hub) { net = set_conversation_id conn conv w.hub.net };
  }

  -- The two ways to a new conversation: with none there, and after the old one was deleted. `none`
  -- ends the task.
  unfoldable pub open_conv : Ambient → Job → World S → World S × Option Str
  unfolding fail_message set_conv
  open_conv now j w =
      let (db, conv) = S.store.open_or_get_conversation j.site j.client w.db in
      let w' : World S = record w { db = db } in
      elim conv [ none ↦ (fail_message now j w', none) | some c ↦ (set_conv j.conn c w', some c) ]

  unfoldable pub first_conv : Ambient → Job → World S → World S × Option Str
  unfolding open_conv by_visitor
  first_conv now j w =
      if is_empty j.conv && by_visitor j then open_conv now j w else (w, some j.conv)

  unfoldable pub reopen : Ambient → Job → World S → World S × Option Str
  unfolding fail_message rebind
  reopen now j w =
      let (db, conv) = S.store.open_or_get_conversation j.site j.client w.db in
      let w' : World S = record w { db = db } in
      elim conv [ none ↦ (fail_message now j w', none) | some c ↦ (rebind S j.conn c w', some c) ]

  unfoldable pub is_deleted : Str → World S → Bool
  is_deleted conv w = elim (S.store.conversation_deleted conv w.db) [
    | none ↦ false
    | some deleted ↦ deleted
  ]

  unfoldable pub live_conv : Ambient → Job → Str → World S → World S × Option Str
  unfolding reopen is_deleted by_visitor
  live_conv now j conv w =
      if by_visitor j && is_deleted conv w then reopen now j w else (w, some conv)

  unfoldable pub note_blocked : Str → Bool → World S → World S
  unfolding mark_blocked
  note_blocked conn blocked w = record w {
    hub = record (w.hub) {
      net = record (w.hub.net) { clients = modify conn (mark_blocked blocked) w.hub.net.clients };
    };
  }

  unfoldable pub check_blocked : Job → World S → World S × Bool
  unfolding note_blocked by_visitor
  check_blocked j w =
      if by_visitor j
      then elim (S.store.is_visitor_blocked j.client w.db) [
        | none ↦ (w, false)
        | some blocked ↦ (note_blocked j.conn blocked w, blocked)
      ]
      else (w, false)

  -- FanoutToAgent writes to the acknowledgement, which goes to the connection too if no other one
  -- takes it.
  unfoldable pub send_ack : Job → Envelope → World S → World S
  unfolding fanout_to_agent stamped send_to by_agent tell
  send_ack j ack w =
      if by_agent j && S.has_hub
      then (let (h, targets) = fanout_to_agent j.client ack w.hub in
          let out : Envelope = record (stamped w.hub ack) { to = agent_prefix ++ j.client } in
          record w { hub = if targets == 0 then send_to j.conn out h else h })
      else tell S j.conn ack w

  unfoldable pub broadcast : Envelope → World S → World S
  unfolding fanout_to_conv
  broadcast e w = record w { hub = if S.has_hub then (fanout_to_conv e w.hub).0 else w.hub }

  unfoldable pub mark_replied : Job → Str → World S → World S
  unfolding by_agent
  mark_replied j conv w = record w {
    db = if by_agent j then S.store.mark_agent_replied conv w.db else w.db;
  }

  -- The transaction is over.
  unfoldable pub after_insert : Ambient → Job → Envelope → Bool → Inserted → World S → World S
  unfolding error_about ack_of send_ack broadcast mark_replied fail_message tell
  after_insert now j e blocked fresh w =
      let acked = send_ack j (ack_of now j e.conv_id true) w in
      if blocked then acked else mark_replied j e.conv_id (broadcast e acked)
  after_insert now j e blocked duplicate w = send_ack j (ack_of now j e.conv_id false) w
  after_insert now j e blocked conflict w =
      tell S j.conn (error_about now e e.conv_id conflict_text) w
  after_insert now j e blocked failed w =
      tell S j.conn (error_about now e e.conv_id save_failed_text) w

  unfoldable pub store_message : Ambient → Job → Str → Bool → World S → World S
  unfolding build_msg after_insert
  store_message now j conv blocked w =
      let e : Envelope = record (j.snap) { conv_id = conv } in
      let (db, inserted) =
        S.store.insert_message_idempotent (build_msg now e j.sender j.client) w.db in
      after_insert now j e blocked inserted (record w { db = db })

  unfoldable pub store_live : Ambient → Job → World S × Option Str → World S
  unfolding check_blocked store_message
  store_live now j (w, none) = w
  store_live now j (w, some conv) =
      let (w', blocked) = check_blocked j w in store_message now j conv blocked w'

  unfoldable pub store_first : Ambient → Job → World S × Option Str → World S
  unfolding live_conv store_live
  store_first now j (w, none) = w
  store_first now j (w, some conv) = store_live now j (live_conv now j conv w)

  unfoldable pub persist_message : Ambient → Job → World S → World S
  unfolding first_conv store_first
  persist_message now j w = store_first now j (first_conv now j w)
