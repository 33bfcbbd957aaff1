-- ===== src/Service.antt =====
-- backend/internal/service: what the service keeps and calls. The database stands behind the record
-- `Store`, whose operations are the functions of backend/internal/store that the service calls.
pub mod Preprocess
pub mod Pipeline
pub mod Receipts
pub mod Run
pub mod Tests
use custom_service.Common.{Bool, Option, List, Str, ℤ, none, some, [], lookup, Map}
use custom_service.Ws.Protocol.{Envelope}
use custom_service.Ws.Client.{Client}
use custom_service.Ws.Hub.{Hub, Ambient, send_to}
use custom_service.Ws.Incoming.{error_frame}
use custom_service.Security.RateLimit.{Limiter}

-- A row of the table of messages. `none` is NULL.
pub record Message : Type 0 where
  pub id : Str
  pub conv_id : Str
  pub sender : Str
  pub sender_ref : Str
  pub content : Str
  pub media_url : Option Str
  pub media_kind : Option Str
  pub media_name : Option Str
  pub media_size : Option ℤ
  pub created_ms : ℤ
  pub delivered_ws : Bool

-- The answers of InsertMessageIdempotent: the row is new, or the same row was there, or the ID
-- belongs to another message, or the transaction failed.
pub data Inserted : Type 0 where
  fresh duplicate conflict failed : Inserted

-- The answers of MarkMessageDelivered and ResolveReadReceipt. `resolved` carries the time read.
pub data Receipt : Type 0 where
  resolved : ℤ → Receipt
  forbidden broken : Receipt

pub record Account : Type 0 where
  pub active : Bool
  pub role : Str

-- `none` is an error. An operation that writes gives the database that it leaves behind.
pub record Store : Type 1 where
  pub Db : Type 0
  pub open_or_get_conversation : Str → Str → Db → Db × Option Str
  pub conversation_deleted : Str → Db → Option Bool
  pub is_visitor_blocked : Str → Db → Option Bool
  pub insert_message_idempotent : Message → Db → Db × Inserted
  pub mark_agent_replied : Str → Db → Db
  pub mark_message_delivered : Str → Str → Db → Db × Receipt
  pub resolve_read_receipt : Str → Str → Str → ℤ → Db → Db × Receipt
  pub list_undelivered_agent_messages : Str → Db → Option (List Message)
  pub agent_owns_conversation : Str → Str → Db → Option Bool
  pub follow_up_conversation : Str → Db → Option (Str × ℤ)
  pub assign_agent : Str → ℤ → Db → Db × Bool
  pub get_agent_by_id : ℤ → Db → Option Account
  pub agent_can_read_conversation : Str → ℤ → Bool → Db → Option Bool

-- `has_hub` tells whether SetHub was called. The three checks of sanitize.go are functions of texts,
-- and strconv.ParseInt is one that also tells whether it had no error.
pub record Service : Type 1 where
  pub store : Store
  pub limiter : Limiter
  pub has_hub : Bool
  pub vis_msg_pm : ℤ
  pub sanitize_text : Str → Str
  pub safe_media_url : Str → Str
  pub detects_injection : Str → Bool
  pub parse_int : Str → ℤ × Bool

-- What the operations of the service change.
pub record World (S : Service) : Type 0 where
  pub hub : Hub
  pub db : S.store.Db
  pub redis : S.limiter.redis.State

module _ (S : Service) where
  -- c.ID and c.SiteID of the connection.
  unfoldable pub actor_of : Str → World S → Str
  actor_of conn w = elim (lookup conn w.hub.net.clients) [ none ↦ [] | some c ↦ c.id ]

  unfoldable pub site_of : Str → World S → Str
  site_of conn w = elim (lookup conn w.hub.net.clients) [ none ↦ [] | some c ↦ c.site_id ]

  unfoldable pub tell : Str → Envelope → World S → World S
  unfolding send_to
  tell conn e w = record w { hub = send_to conn e w.hub }

  unfoldable pub refuse : Ambient → Str → Str → Str → World S → World S × Option Envelope
  unfolding tell error_frame
  refuse now conn id content w = (tell conn (error_frame now id content) w, none)
