-- ===== src/Service/Run.antt =====
-- The service and the hub together. runBounded of backend/internal/service/message_pipeline.go takes a
-- task into a pool with a bounded number of slots, or answers that the pool is full; the task runs
-- later, as one step, and then leaves its slot. Between the steps the databases may change in any way.
pub mod Tasks
pub mod Sound
pub mod Slots
use custom_service.Common.{
  ℕ, zero, suc, Bool, true, false, Option, none, some, List, [], ◌∷◌, ◌++◌, if◌then◌else◌, Str,
  codes, is_empty, ltb, length,
}
use custom_service.Ws.Protocol.{Envelope}
use custom_service.Ws.Client.{conversation_id}
use custom_service.Ws.Hub.{Hub, Ambient, new_hub}
use custom_service.Ws.Run.{Event, step}
use custom_service.Ws.Incoming.{error_frame}
use custom_service.Service.{Service, Store, World, tell}
use custom_service.Service.Preprocess.{sink_of}
use custom_service.Service.Pipeline.{Job, new_job, persist_message}
use custom_service.Service.Receipts.{persist_delivery, persist_read, replay_undelivered}

abbrev pub busy_text : Str
busy_text = codes "服务繁忙，请稍后重试"

abbrev pub panic_text : Str
panic_text = codes "消息处理异常，请重试"

abbrev pub message_slots : ℕ
message_slots = 256

abbrev pub receipt_slots : ℕ
receipt_slots = 512

-- A task with its connection. `replays` has the conversation too.
pub data Task : Type 0 where
  persists : Job → Task
  delivers : Envelope → Str → Task
  reads : Envelope → Str → Str → Task
  replays : Str → Str → Task

unfoldable pub task_conn : Task → Str
task_conn (persists j) = j.conn
task_conn (delivers e conn) = conn
task_conn (reads e conn role) = conn
task_conn (replays conn conv) = conn

unfoldable pub task_id : Task → Str
task_id (persists j) = j.snap.id
task_id (delivers e conn) = e.id
task_id (reads e conn role) = e.id
task_id (replays conn conv) = []

-- The pools hold the tasks that have a slot and have not ended.
pub record State (S : Service) : Type 0 where
  pub world : World S
  pub messages : List Task
  pub receipts : List Task

unfoldable pub nth : ℕ → List Task → Option Task
nth k [] = none
nth zero (t ∷ ts) = some t
nth (suc k) (t ∷ ts) = nth k ts

unfoldable pub remove_nth : ℕ → List Task → List Task
remove_nth k [] = []
remove_nth zero (t ∷ ts) = ts
remove_nth (suc k) (t ∷ ts) = t ∷ remove_nth k ts

module _ (S : Service) where
  unfoldable pub run_task : Ambient → Task → World S → World S
  unfolding persist_message persist_delivery persist_read replay_undelivered
  run_task now (persists j) w = persist_message S now j w
  run_task now (delivers e conn) w = persist_delivery S now e w
  run_task now (reads e conn role) w = persist_read S now e role w
  run_task now (replays conn conv) w = replay_undelivered S conn conv w

  -- runBounded: the pool and the world.
  unfoldable pub run_bounded : Ambient → ℕ → Task → List Task → World S → List Task × World S
  unfolding tell error_frame task_conn task_id
  run_bounded now slots t pool w =
      if ltb (length pool) slots
      then (pool ++ t ∷ [], w)
      else (pool, tell S (task_conn t) (error_frame now (task_id t) busy_text) w)

  unfoldable pub take_message : Ambient → Task → State S → State S
  unfolding run_bounded
  take_message now t s =
      let (pool, w) = run_bounded now message_slots t s.messages s.world in
      record s { world = w; messages = pool }

  unfoldable pub take_receipt : Ambient → Task → State S → State S
  unfolding run_bounded
  take_receipt now t s =
      let (pool, w) = run_bounded now receipt_slots t s.receipts s.world in
      record s { world = w; receipts = pool }

  unfoldable pub replay_undelivered_async : Ambient → Str → State S → State S
  unfolding take_receipt conversation_id
  replay_undelivered_async now conn s =
      let conv = conversation_id conn s.world.hub.net in
      if is_empty conv then s else take_receipt now (replays conn conv) s

  -- What happens to a task that ends: it runs, or it panics before it has done anything.
  unfoldable pub end_task : Ambient → Bool → Task → World S → World S
  unfolding run_task tell error_frame task_conn task_id
  end_task now panics t w =
      if panics
      then tell S (task_conn t) (error_frame now (task_id t) panic_text) w
      else run_task now t w

  unfoldable pub end_message : Ambient → Bool → ℕ → State S → State S
  unfolding nth remove_nth end_task
  end_message now panics k s = elim (nth k s.messages) [
    | none ↦ s
    | some t ↦ record s {
      world = end_task now panics t s.world;
      messages = remove_nth k s.messages;
    }
  ]

  unfoldable pub end_receipt : Ambient → Bool → ℕ → State S → State S
  unfolding nth remove_nth end_task
  end_receipt now panics k s = elim (nth k s.receipts) [
    | none ↦ s
    | some t ↦ record s {
      world = end_task now panics t s.world;
      receipts = remove_nth k s.receipts;
    }
  ]

  -- Everything that can happen next.
  pub data Move : Type 0 where
    hub_moves : Event → Move
    databases_change : S.store.Db → S.limiter.redis.State → Move
    message_comes : Envelope → Str → Str → Move
    delivery_comes : Envelope → Str → Move
    read_comes : Envelope → Str → Str → Move
    visitor_returns : Str → Move
    message_ends receipt_ends : Bool → ℕ → Move

  unfoldable pub hub_step : Ambient → Event → World S → World S
  unfolding step sink_of
  hub_step now ev w = record w { hub = step (sink_of S now w.db w.redis) now ev w.hub }

  unfoldable pub move : Ambient → Move → State S → State S
  unfolding hub_step take_message take_receipt replay_undelivered_async end_message end_receipt
      new_job
  move now (hub_moves ev) s = record s { world = hub_step now ev s.world }
  move now (databases_change db redis) s = record s {
    world = record (s.world) { db = db; redis = redis };
  }
  move now (message_comes e conn sender) s =
      take_message now (persists (new_job S e conn sender s.world)) s
  move now (delivery_comes e conn) s = take_receipt now (delivers e conn) s
  move now (read_comes e conn role) s = take_receipt now (reads e conn role) s
  move now (visitor_returns conn) s = replay_undelivered_async now conn s
  move now (message_ends panics k) s = end_message now panics k s
  move now (receipt_ends panics k) s = end_receipt now panics k s

  unfoldable pub moves : List (Ambient × Move) → State S → State S
  unfolding move
  moves [] s = s
  moves ((now, m) ∷ ms) s = moves ms (move now m s)

  -- New and NewHub.
  unfoldable pub new_state : Str → Bool → S.store.Db → S.limiter.redis.State → State S
  unfolding new_hub
  new_state node has_redis db redis = record {
    world = record { hub = new_hub node has_redis; db = db; redis = redis };
    messages = [];
    receipts = [];
  }
