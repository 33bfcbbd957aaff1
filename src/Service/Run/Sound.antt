-- ===== src/Service/Run/Sound.antt =====
-- The invariants of the whole: hub, service, pools and databases.
use custom_service.Common.{
  ◌≤◌, ℕ, ◌≡◌, inl, inr, true, List, [], ◌∷◌, length, length-append, arith, All, Bool, Bool-cases,
  Option-cases, if_both, Str, is_empty, ltb, ltb→lt,
}
use custom_service.Ws.Client.{Net, conversation_id}
use custom_service.Ws.Client.Sending.{AllBounded}
use custom_service.Ws.Index.{Index}
use custom_service.Ws.Hub.{Ambient, new_hub}
use custom_service.Ws.Incoming.{error_frame}
use custom_service.Ws.Registry.Invariant.{IsIndexed}
use custom_service.Ws.Registry.Bound.{IsBound}
use custom_service.Ws.Run.Stable.{Stable}
use custom_service.Ws.Run.Stable.Moves.{On}
use custom_service.Ws.Run.Stable.Steps.{IsFresh, step-keeps}
use custom_service.Ws.Run.Indexed.{IsIndexed-Stable}
use custom_service.Ws.Run.Bound.{IsBound-Stable}
use custom_service.Ws.Run.Bounds.{AllBounded-Stable}
use custom_service.Ws.Run.Start.{new_hub-IsIndexed, new_hub-IsBound, new_hub-AllBounded}
use custom_service.Service.{Service, World}
use custom_service.Service.Preprocess.{sink_of}
use custom_service.Service.Preprocess.Sinks.{tell-keeps, sink_of-SinkKeeps}
use custom_service.Service.Pipeline.{new_job}
use custom_service.Service.Run.{
  Task, persists, delivers, reads, replays, task_conn, task_id, State, nth, run_task, run_bounded,
  take_message, take_receipt, replay_undelivered_async, end_task, end_message, end_receipt, Move,
  hub_moves, databases_change, message_comes, delivery_comes, read_comes, visitor_returns,
  message_ends, receipt_ends, hub_step, move, moves, new_state, message_slots, receipt_slots,
  busy_text, panic_text,
}
use custom_service.Service.Run.Slots.{All-append, All-remove_nth, All-nth, length-remove_nth}
use custom_service.Service.Run.Tasks.{
  HasConv, persist_message-keeps, persist_delivery-keeps, persist_read-keeps,
  replay_undelivered-keeps,
}

abbrev pub CanRun : Task → Type 0
CanRun (persists j) = HasConv j
CanRun (delivers e conn) = Unit
CanRun (reads e conn role) = Unit
CanRun (replays conn conv) = Unit

-- What is asked of a move: a connection that registers is new, and a visitor's message has a
-- conversation.
abbrev pub IsReady : (S : Service) → Move S → State S → Type 0
IsReady S (hub_moves ev) s = IsFresh ev s.world.hub
IsReady S (message_comes e conn sender) s = HasConv (new_job S e conn sender s.world)
IsReady S _ s = Unit

abbrev pub AllReady : (S : Service) → List (Ambient × Move S) → State S → Type 0
AllReady S [] s = Unit
AllReady S ((now, m) ∷ ms) s = IsReady S m s × AllReady S ms (move S now m s)

-- A predicate of the hub, the bounds of the pools, and that their tasks can run.
pub record Sound (S : Service) (Q : Index → Net → Type 0) (s : State S) : Type 0 where
  pub kept : On Q s.world.hub
  pub messages_bound : length s.messages ≤ message_slots
  pub receipts_bound : length s.receipts ≤ receipt_slots
  pub messages_run : All CanRun s.messages
  pub receipts_run : All CanRun s.receipts

-- A pool and the world.
record IsPool (S : Service) (Q : Index → Net → Type 0) (slots : ℕ) (r : List Task × World S)
    : Type 0 where
  world_kept : On Q r.1.hub
  pool_bound : length r.0 ≤ slots
  pool_runs : All CanRun r.0

module _ (S : Service) (Q : Index → Net → Type 0) (st : Stable Q)
    (with_hub : S.has_hub ≡ true) where
  run_task-keeps :
      (now : Ambient) (t : Task) (w : World S)
      → CanRun t
      → On Q w.hub
      → On Q (run_task S now t w).hub
  unfolding run_task
  run_task-keeps now (persists j) w c q = persist_message-keeps S Q st with_hub now j w c q
  run_task-keeps now (delivers e conn) w c q = persist_delivery-keeps S Q st with_hub now e w q
  run_task-keeps now (reads e conn role) w c q = persist_read-keeps S Q st with_hub now e role w q
  run_task-keeps now (replays conn conv) w c q =
      replay_undelivered-keeps S Q st with_hub conn conv w q

  end_task-keeps :
      (now : Ambient) (panics : Bool) (t : Task) (w : World S)
      → CanRun t
      → On Q w.hub
      → On Q (end_task S now panics t w).hub
  unfolding end_task
  end_task-keeps now panics t w c q =
      if_both (λ (v : World S). On Q v.hub) panics
        (tell-keeps S Q st with_hub (task_conn t) (error_frame now (task_id t) panic_text) w q)
        (run_task-keeps now t w c q)

  run_bounded-IsPool :
      (now : Ambient) (slots : ℕ) (t : Task) (pool : List Task) (w : World S)
      → CanRun t
      → IsPool S Q slots (pool, w)
      → IsPool S Q slots (run_bounded S now slots t pool w)
  unfolding run_bounded
  run_bounded-IsPool now slots t pool w c p = elim (Bool-cases (ltb (length pool) slots)) [
    | inl room ↦ rw room (record {
      world_kept = p.world_kept;
      pool_bound = omega (arith, length-append pool (t ∷ []), ltb→lt (length pool) slots room);
      pool_runs = All-append CanRun pool t p.pool_runs c;
    })
    | inr full ↦ rw full (record {
      world_kept =
          tell-keeps S Q st with_hub (task_conn t) (error_frame now (task_id t) busy_text) w
            p.world_kept;
      pool_bound = p.pool_bound;
      pool_runs = p.pool_runs;
    })
  ]

  take_message-Sound :
      (now : Ambient) (t : Task) (s : State S)
      → CanRun t
      → Sound S Q s
      → Sound S Q (take_message S now t s)
  unfolding take_message
  take_message-Sound now t s c v =
      let p = run_bounded-IsPool now message_slots t s.messages s.world c (record {
        world_kept = v.kept;
        pool_bound = v.messages_bound;
        pool_runs = v.messages_run;
      }) in
      record {
        kept = p.world_kept;
        messages_bound = p.pool_bound;
        receipts_bound = v.receipts_bound;
        messages_run = p.pool_runs;
        receipts_run = v.receipts_run;
      }

  take_receipt-Sound :
      (now : Ambient) (t : Task) (s : State S)
      → CanRun t
      → Sound S Q s
      → Sound S Q (take_receipt S now t s)
  unfolding take_receipt
  take_receipt-Sound now t s c v =
      let p = run_bounded-IsPool now receipt_slots t s.receipts s.world c (record {
        world_kept = v.kept;
        pool_bound = v.receipts_bound;
        pool_runs = v.receipts_run;
      }) in
      record {
        kept = p.world_kept;
        messages_bound = v.messages_bound;
        receipts_bound = p.pool_bound;
        messages_run = v.messages_run;
        receipts_run = p.pool_runs;
      }

  end_message-Sound :
      (now : Ambient) (panics : Bool) (k : ℕ) (s : State S)
      → Sound S Q s
      → Sound S Q (end_message S now panics k s)
  unfolding end_message
  end_message-Sound now panics k s v = elim (Option-cases (nth k s.messages)) [
    | inl h ↦ rw (h, end_message) v
    | inr (t, h) ↦
        rw (h, end_message)
          (record {
            kept =
                end_task-keeps now panics t s.world (All-nth CanRun k s.messages t v.messages_run h)
                  v.kept;
            messages_bound = omega (arith, v.messages_bound, length-remove_nth k s.messages);
            receipts_bound = v.receipts_bound;
            messages_run = All-remove_nth CanRun k s.messages v.messages_run;
            receipts_run = v.receipts_run;
          })
  ]

  end_receipt-Sound :
      (now : Ambient) (panics : Bool) (k : ℕ) (s : State S)
      → Sound S Q s
      → Sound S Q (end_receipt S now panics k s)
  unfolding end_receipt
  end_receipt-Sound now panics k s v = elim (Option-cases (nth k s.receipts)) [
    | inl h ↦ rw (h, end_receipt) v
    | inr (t, h) ↦
        rw (h, end_receipt)
          (record {
            kept =
                end_task-keeps now panics t s.world (All-nth CanRun k s.receipts t v.receipts_run h)
                  v.kept;
            messages_bound = v.messages_bound;
            receipts_bound = omega (arith, v.receipts_bound, length-remove_nth k s.receipts);
            messages_run = v.messages_run;
            receipts_run = All-remove_nth CanRun k s.receipts v.receipts_run;
          })
  ]

  move-Sound :
      (now : Ambient) (m : Move S) (s : State S)
      → IsReady S m s
      → Sound S Q s
      → Sound S Q (move S now m s)
  unfolding move hub_step replay_undelivered_async
  move-Sound now (hub_moves ev) s f v = record {
    kept =
        step-keeps Q st (sink_of S now s.world.db s.world.redis)
          (sink_of-SinkKeeps S Q st with_hub now s.world.db s.world.redis) now ev s.world.hub f
          v.kept;
    messages_bound = v.messages_bound;
    receipts_bound = v.receipts_bound;
    messages_run = v.messages_run;
    receipts_run = v.receipts_run;
  }
  move-Sound now (databases_change db redis) s f v = record {
    kept = v.kept;
    messages_bound = v.messages_bound;
    receipts_bound = v.receipts_bound;
    messages_run = v.messages_run;
    receipts_run = v.receipts_run;
  }
  move-Sound now (message_comes e conn sender) s f v =
      take_message-Sound now (persists (new_job S e conn sender s.world)) s f v
  move-Sound now (delivery_comes e conn) s f v = take_receipt-Sound now (delivers e conn) s tt v
  move-Sound now (read_comes e conn role) s f v = take_receipt-Sound now (reads e conn role) s tt v
  move-Sound now (visitor_returns conn) s f v =
      let conv = conversation_id conn s.world.hub.net in
      if_both (Sound S Q) (is_empty conv) v (take_receipt-Sound now (replays conn conv) s tt v)
  move-Sound now (message_ends panics k) s f v = end_message-Sound now panics k s v
  move-Sound now (receipt_ends panics k) s f v = end_receipt-Sound now panics k s v

  moves-Sound :
      (ms : List (Ambient × Move S)) (s : State S)
      → AllReady S ms s
      → Sound S Q s
      → Sound S Q (moves S ms s)
  unfolding moves
  moves-Sound [] s f v = v
  moves-Sound ((now, m) ∷ ms) s (f, fs) v =
      moves-Sound ms (move S now m s) fs (move-Sound now m s f v)

new_state-Sound :
    (S : Service) (Q : Index → Net → Type 0) (node : Str) (redis : Bool) (db : S.store.Db)
    (rs : S.limiter.redis.State)
    → On Q (new_hub node redis)
    → Sound S Q (new_state S node redis db rs)
unfolding new_state
new_state-Sound S Q node redis db rs q = record {
  kept = q;
  messages_bound = omega arith;
  receipts_bound = omega arith;
  messages_run = tt;
  receipts_run = tt;
}

-- The hub with the service as its sink: from a new start, every sequence of frames, timers, calls,
-- tasks that end or panic, and changes of the databases leads to a hub whose maps are tied to its
-- connections, whose connections stand only under the conversations they are bound to and whose
-- queues are within their capacities, with at most 256 message tasks and 512 receipt tasks at
-- work. The service has its hub, each connection that registers was made for it, and each message
-- of a visitor names a conversation or comes on a connection that has one.
pub moves-new_state :
    (S : Service) (node : Str) (redis : Bool) (db : S.store.Db) (rs : S.limiter.redis.State)
    (ms : List (Ambient × Move S))
    → S.has_hub ≡ true
    → AllReady S ms (new_state S node redis db rs)
    → Sound S IsIndexed (moves S ms (new_state S node redis db rs))
      × Sound S IsBound (moves S ms (new_state S node redis db rs))
      × Sound S (λ ix n. AllBounded n) (moves S ms (new_state S node redis db rs))
moves-new_state S node redis db rs ms with_hub ready =
    let s = new_state S node redis db rs in
    (
      moves-Sound S IsIndexed IsIndexed-Stable with_hub ms s ready
          (new_state-Sound S IsIndexed node redis db rs (new_hub-IsIndexed node redis)),
      moves-Sound S IsBound IsBound-Stable with_hub ms s ready
          (new_state-Sound S IsBound node redis db rs (new_hub-IsBound node redis)),
      moves-Sound S (λ ix n. AllBounded n) AllBounded-Stable with_hub ms s ready
          (new_state-Sound S (λ ix n. AllBounded n) node redis db rs
            (new_hub-AllBounded node redis)),
    )
