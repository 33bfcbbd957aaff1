-- ===== src/Service/Receipts.antt =====
-- PersistDeliveryAsync, PersistReadAsync and ReplayUndeliveredAsync of
-- backend/internal/service/message_pipeline.go.
pub mod Prefix
use custom_service.Common.{
  ℕ, suc, Bool, true, false, Option, none, some, List, [], ◌∷◌, ◌++◌, if◌then◌else◌, Str, codes,
  is_empty, ℤ, pos, ◌+◌,
}
use custom_service.Ws.Protocol.{Envelope, zero_envelope, object, text, bool, agent_prefix}
use custom_service.Ws.Client.{Net, send, conversation_id}
use custom_service.Ws.Hub.{Ambient}
use custom_service.Service.{Service, Store, World, Message, Receipt, resolved, forbidden, broken}
use custom_service.Service.Pipeline.{broadcast}

abbrev or_empty : Option Str → Str
or_empty none = []
or_empty (some s) = s

abbrev or_zero : Option ℤ → ℤ
or_zero none = pos 0
or_zero (some n) = n

-- A stored message as it is sent again.
unfoldable pub replayed : Message → Envelope
replayed m = record zero_envelope {
  type = codes "chat";
  id = m.id;
  from = agent_prefix ++ m.sender_ref;
  conv_id = m.conv_id;
  content = m.content;
  media_url = or_empty m.media_url;
  media_kind = or_empty m.media_kind;
  media_name = or_empty m.media_name;
  media_size = or_zero m.media_size;
  ts = m.created_ms;
  extra = object ((codes "status", text (codes "persisted")) ∷ (codes "replayed", bool true) ∷ []);
}

-- The loop stops at the first message that the connection does not take. The count is of those taken.
unfoldable pub replay_all : Str → List Message → Net → Net × ℕ
unfolding replayed send
replay_all conn [] n = (n, 0)
replay_all conn (m ∷ ms) n =
    let (n', queued) = send conn (replayed m) n in
    let (rest, count) = replay_all conn ms n' in if queued then (rest, suc count) else (n', 0)

module _ (S : Service) where
  unfoldable pub after_receipt : Envelope → Str → Receipt → World S → World S
  unfolding broadcast
  after_receipt e type (resolved ts) w = broadcast S (record e { type = type; ts = ts }) w
  after_receipt e type forbidden w = w
  after_receipt e type broken w = w

  -- The time of a delivery is the clock's, not the store's.
  unfoldable pub at_clock : Ambient → Receipt → Receipt
  at_clock now (resolved ts) = resolved now.now_ms
  at_clock now forbidden = forbidden
  at_clock now broken = broken

  unfoldable pub persist_delivery : Ambient → Envelope → World S → World S
  unfolding after_receipt at_clock
  persist_delivery now e w =
      let (db, answer) = S.store.mark_message_delivered e.conv_id e.id w.db in
      after_receipt e (codes "delivery") (at_clock now answer) (record w { db = db })

  unfoldable pub persist_read : Ambient → Envelope → Str → World S → World S
  unfolding after_receipt
  persist_read now e role w =
      let (db, answer) = S.store.resolve_read_receipt e.conv_id role e.id now.now_ms w.db in
      after_receipt e (codes "read") answer (record w { db = db })

  unfoldable pub replay_undelivered : Str → Str → World S → World S
  unfolding replay_all
  replay_undelivered conn conv w = elim (S.store.list_undelivered_agent_messages conv w.db) [
    | none ↦ w
    | some ms ↦ record w { hub = record (w.hub) { net = (replay_all conn ms w.hub.net).0 } }
  ]
