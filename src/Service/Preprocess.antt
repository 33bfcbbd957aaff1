-- ===== src/Service/Preprocess.antt =====
-- The synchronous stage of backend/internal/service/service.go: PreprocessVisitorMessage and
-- PreprocessAgentMessage, which the hub calls before a message is stored.
pub mod Owned
pub mod Sinks
pub mod Refused
pub mod Chats
use custom_service.Common.{
  Bool, true, false, Option, none, some, [], ◌∷◌, ◌++◌, if◌then◌else◌, Str, codes, str_eq, leb_ℤ,
  not, is_empty, ℤ, pos, negsuc, ◌||◌, ◌==◌, store,
}
use custom_service.Ws.Protocol.{Envelope, Extra, absent, object, text}
use custom_service.Ws.Client.{conversation_id, set_conversation_id}
use custom_service.Ws.Hub.{Hub, Sink, Ambient}
use custom_service.Ws.Binding.{rebind_client}
use custom_service.Ws.Incoming.{agent_conv_forbidden_text}
use custom_service.Security.RateLimit.{allow_visitor_message, record_violation}
use custom_service.Service.{Service, Store, World, actor_of, refuse}

abbrev pub flood_text : Str
flood_text = codes "发送过于频繁，请稍后再试"

abbrev pub no_conv_text : Str
no_conv_text = codes "请先点开一个会话再发送消息"

abbrev pub check_failed_text : Str
check_failed_text = codes "会话校验失败，请重试"

abbrev pub not_owned_text : Str
not_owned_text = codes "会话不存在或您未接管该会话"

unfoldable pub eq_ℤ : ℤ → ℤ → Bool
eq_ℤ (pos m) (pos n) = m == n
eq_ℤ (negsuc m) (negsuc n) = m == n
eq_ℤ (pos m) (negsuc n) = false
eq_ℤ (negsuc m) (pos n) = false

abbrev pub requested : Str → Extra
requested conv = object ((codes "requested_conv", text conv) ∷ [])

module _ (S : Service) where
  unfoldable pub violate : Str → World S → World S
  unfolding record_violation
  violate actor w = record w {
    redis = record_violation S.limiter.redis (codes "visitor:" ++ actor) w.redis;
  }

  -- What both checks do to the texts of a message.
  unfoldable pub clean : Envelope → Envelope
  clean e = record e {
    content = if is_empty e.content then e.content else S.sanitize_text e.content;
    media_url = S.safe_media_url e.media_url;
    media_name = S.sanitize_text e.media_name;
  }

  -- Content that looks like an injection is only counted.
  unfoldable pub note_injection : Envelope → Str → World S → World S
  unfolding violate
  note_injection e actor w =
      if is_empty e.content then w else if S.detects_injection e.content then violate actor w else w

  unfoldable pub accept_visitor :
      Ambient → Envelope → Str → Bool → World S → World S × Option Envelope
  unfolding violate clean note_injection actor_of refuse
  accept_visitor now e conn ok w =
      let actor = actor_of S conn w in
      if ok
      then (note_injection e actor w, some (clean e))
      else refuse S now conn e.id flood_text (violate actor w)

  -- An error of the limiter counts as a refusal.
  unfoldable pub preprocess_visitor_message :
      Ambient → Envelope → Str → World S → World S × Option Envelope
  unfolding accept_visitor actor_of allow_visitor_message
  preprocess_visitor_message now e conn w =
      elim (allow_visitor_message S.limiter (actor_of S conn w) S.vis_msg_pm w.redis) [
        | none ↦ accept_visitor now e conn false w
        | some r ↦ accept_visitor now e conn r.1 (record w { redis = r.0 })
      ]

  -- RebindClient, or SetConversationID where there is no hub.
  unfoldable pub rebind : Str → Str → World S → World S
  unfolding rebind_client set_conversation_id
  rebind conn conv w = record w {
    hub =
        if S.has_hub
        then rebind_client conn conv w.hub
        else record (w.hub) { net = set_conversation_id conn conv w.hub.net };
  }

  -- The message goes on to the conversation `next`, which has followed on `conv`.
  unfoldable pub follow : Envelope → Str → Str → Str → World S → World S × Option Envelope
  unfolding rebind clean
  follow e conn conv next w =
      (rebind conn next w, some (clean (record e { extra = requested conv; conv_id = next })))

  unfoldable pub take_over :
      Ambient → Envelope → Str → Str → Str → ℤ → World S → World S × Option Envelope
  unfolding follow refuse
  take_over now e conn conv next agent_id w =
      let (db, done) = S.store.assign_agent next agent_id w.db in
      let w' : World S = record w { db = db } in
      if done then follow e conn conv next w' else refuse S now conn e.id check_failed_text w'

  -- The choice by the agent that serves the conversation which has followed: nobody, this one, or
  -- another one.
  unfoldable pub follow_up :
      Ambient → Envelope → Str → Str → Str → ℤ → World S → World S × Option Envelope
  unfolding take_over follow refuse eq_ℤ actor_of
  follow_up now e conn conv next owner w =
      let agent_id = (S.parse_int (actor_of S conn w)).0 in
      if eq_ℤ owner (pos 0)
      then take_over now e conn conv next agent_id w
      else if eq_ℤ owner agent_id
      then follow e conn conv next w
      else refuse S now conn e.id agent_conv_forbidden_text w

  -- The conversation is the agent's own. An error of the lookup is passed over.
  unfoldable pub after_ownership :
      Ambient → Envelope → Str → Str → World S → World S × Option Envelope
  unfolding follow_up clean
  after_ownership now e conn conv w =
      let stay : Envelope = clean (record e { extra = absent; conv_id = conv }) in
      elim (S.store.follow_up_conversation conv w.db) [
        | none ↦ (w, some stay)
        | some r ↦ if is_empty r.0 then (w, some stay) else follow_up now e conn conv r.0 r.1 w
      ]

  unfoldable pub target_conv : Envelope → Str → World S → Str
  unfolding conversation_id
  target_conv e conn w = if is_empty e.conv_id then conversation_id conn w.hub.net else e.conv_id

  unfoldable pub preprocess_agent_message :
      Ambient → Envelope → Str → World S → World S × Option Envelope
  unfolding target_conv actor_of after_ownership refuse
  preprocess_agent_message now e conn w =
      let conv = target_conv e conn w in
      if is_empty conv
      then refuse S now conn e.id no_conv_text w
      else elim (S.store.agent_owns_conversation conv (actor_of S conn w) w.db) [
        | none ↦ refuse S now conn e.id check_failed_text w
        | some owned ↦
            if owned
            then after_ownership now e conn conv w
            else refuse S now conn e.id not_owned_text w
      ]

  unfoldable pub agent_owns_conv : S.store.Db → Str → Str → Bool
  agent_owns_conv db conv agent_id =
      if is_empty conv
      then false
      else if is_empty agent_id
      then false
      else elim (S.store.agent_owns_conversation conv agent_id db) [
        | none ↦ false
        | some owned ↦ owned
      ]

  unfoldable pub account_can_read : S.store.Db → Str → ℤ → Bool
  account_can_read db conv id = elim (S.store.get_agent_by_id id db) [
    | none ↦ false
    | some agent ↦
        if not agent.active
        then false
        else elim (S.store.agent_can_read_conversation conv id (str_eq agent.role (codes "admin"))
            db) [ none ↦ false | some ok ↦ ok ]
  ]

  unfoldable pub agent_can_read_conv : S.store.Db → Str → Str → Bool
  unfolding account_can_read
  agent_can_read_conv db conv agent_id =
      let (id, ok) = S.parse_int agent_id in
      if not ok || leb_ℤ id (pos 0) || is_empty conv then false else account_can_read db conv id

  -- The service as the hub's MessageSink, on the databases of the moment.
  unfoldable pub sink_of : Ambient → S.store.Db → S.limiter.redis.State → Sink
  unfolding preprocess_visitor_message preprocess_agent_message agent_owns_conv agent_can_read_conv
  sink_of now db redis = record {
    preprocess_visitor_message = λ e conn h.
        let r =
          preprocess_visitor_message now e conn (record { hub = h; db = db; redis = redis }) in
        (r.0.hub, r.1);
    preprocess_agent_message = λ e conn h.
        let r = preprocess_agent_message now e conn (record { hub = h; db = db; redis = redis }) in
        (r.0.hub, r.1);
    agent_owns_conv = agent_owns_conv db;
    agent_can_read_conv = agent_can_read_conv db;
  }
