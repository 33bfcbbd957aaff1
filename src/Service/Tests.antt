-- ===== src/Service/Tests.antt =====
-- The theorems about the service at work on a small store.
use custom_service.Service.Preprocess.Chats.{ChatEnds, chat_from_agent-ends}
use custom_service.Ws.Incoming.{chat_from_agent}
use custom_service.Service.Preprocess.{sink_of, preprocess_agent_message, requested, target_conv}
use custom_service.Ws.Client.{is_visitor, Client}
use custom_service.Service.Pipeline.Silent.{IsHeld, IsPrivate, persist_message-IsPrivate}
use custom_service.Common.{
  Bool-cases, inr, str_eq_refl, arith, inl, is_empty, lookup, str_eq, ◌≡◌, refl, Bool, true, false,
  none, some, List, [], ◌∷◌, Str, codes, contains, pos, if◌then◌else◌,
}
use custom_service.Ws.Tests.{bob, ann, no_calls, hub_of, two_clients, ann_online, noon}
use custom_service.Security.RateLimit.Windows.{some_inj, no_some}
use custom_service.Service.Pipeline.{by_agent, by_visitor, new_job, Job, persist_message}
use custom_service.Service.Pipeline.Frames.{Sent, Queued, Said}
use custom_service.Service.Pipeline.Backed.{Durable, IsBacked, persist_message-IsBacked}
use custom_service.Service.Preprocess.Owned.{Passed, preprocess_agent_message-Passed}
use custom_service.Service.{
  actor_of, Service, Store, World, Message, Inserted, fresh, duplicate, resolved,
}
use custom_service.Service.Receipts.{replay_all}
use custom_service.Service.Receipts.Prefix.{Replayed, replay_all-Replayed}
use custom_service.Service.Run.{Move, hub_moves, message_comes, message_ends, moves, new_state}
use custom_service.Service.Run.Sound.{Sound, AllReady, moves-new_state}
use custom_service.Ws.Registry.Invariant.{IsIndexed}
use custom_service.Ws.Registry.Bound.{IsBound}
use custom_service.Ws.Client.Sending.{AllBounded}
use custom_service.Ws.Run.Stable.Steps.{IsFresh}
use custom_service.Ws.Hub.{Ambient}
use custom_service.Ws.Run.{registers}
use custom_service.Ws.Protocol.{Envelope, zero_envelope}
use custom_service.Security.RateLimit.{Redis}
use custom_service.Service.Pipeline.Queue.{IsAnswered}
use custom_service.Service.Pipeline.Answers.{persist_message-IsAnswered}

-- A Redis that never answers.
abbrev silent : Redis
silent = record {
  State = Unit;
  incr = λ k s. none;
  pttl = λ k s. none;
  pexpire = λ k ms s. none;
  exists = λ k s. none;
  get = λ k s. none;
  get_int = λ k s. none;
  set = λ k v ttl s. none;
  del = λ ks s. none;
  exec_incr = λ ks ttl s. none;
  exec_set = λ ks v ttl s. none;
}

-- The IDs of the messages, and whether visitors are blocked. Every agent owns every conversation.
record Rows : Type 0 where
  ids : List Str
  blocked : Bool

abbrev insert : Message → Rows → Rows × Inserted
insert m db = (record db { ids = m.id ∷ db.ids }, if contains m.id db.ids then duplicate else fresh)

abbrev rows : Store
rows = record {
  Db = Rows;
  open_or_get_conversation = λ site visitor db. (db, some (codes "C2"));
  conversation_deleted = λ conv db. some false;
  is_visitor_blocked = λ vid db. some db.blocked;
  insert_message_idempotent = insert;
  mark_agent_replied = λ conv db. db;
  mark_message_delivered = λ conv id db. (db, resolved (pos 0));
  resolve_read_receipt = λ conv role id ms db. (db, resolved ms);
  list_undelivered_agent_messages = λ conv db. some [];
  agent_owns_conversation = λ conv agent db. some true;
  follow_up_conversation = λ conv db. some (codes "D", pos 7);
  assign_agent = λ conv agent db. (db, true);
  get_agent_by_id = λ id db. none;
  agent_can_read_conversation = λ conv id admin db. some false;
}

abbrev desk : Service
desk = record {
  store = rows;
  limiter = record {
    redis = silent;
    configured = true;
    hash_dimension = λ v. v;
    is_blank = λ v. false;
  };
  has_hub = true;
  vis_msg_pm = pos 0;
  sanitize_text = λ s. s;
  safe_media_url = λ s. s;
  detects_injection = λ s. false;
  parse_int = λ s. (pos 7, true);
}

abbrev no_rows : Rows
no_rows = record { ids = []; blocked = true }

abbrev desk_world : World desk
desk_world = record {
  hub = hub_of (codes "n1") two_clients ann_online no_calls;
  db = no_rows;
  redis = tt;
}

abbrev greeting : Envelope
greeting = record zero_envelope {
  type = codes "chat";
  id = codes "m1";
  conv_id = codes "C";
  content = codes "hi";
}

abbrev greeting_job : Job
greeting_job = record {
  snap = greeting;
  conn = codes "a";
  sender = codes "visitor";
  conv = codes "C";
  site = [];
  client = codes "v";
}

persist_message-IsAnswered_example :
    IsAnswered
      (codes "a")
      (codes "m1")
      []
      (persist_message desk noon greeting_job desk_world).hub.net
unfolding by_agent str_eq lookup
persist_message-IsAnswered_example =
    persist_message-IsAnswered desk noon greeting_job desk_world ann refl refl refl (omega arith)

abbrev Here : Str → Rows → Type 0
Here id db = contains id db.ids ≡ true

insert-Here : (m : Message) (db : Rows) → Here m.id (insert m db).0
unfolding contains
insert-Here m db = rw (str_eq_refl m.id) refl

insert-keeps : (m : Message) (id : Str) (db : Rows) → Here id db → Here id (insert m db).0
unfolding contains
insert-keeps m id db h = ground (arith, h)

rows-Durable : Durable rows
rows-Durable = record {
  Stored = Here;
  fresh_stored = λ m db named h. insert-Here m db;
  duplicate_stored = λ m db named h. insert-Here m db;
  insert_keeps = insert-keeps;
  open_keeps = λ site vid id db h. h;
  replied_keeps = λ conv id db h. h;
}

-- No frame of before.
abbrev Never : Envelope → Type 0
Never e = ⊥

quiet : (c d : Client) → some c ≡ some d → c.high ≡ [] → c.low ≡ [] → (d.high ≡ []) × (d.low ≡ [])
quiet c d h high low = let p : c ≡ d = some_inj c d h in (rw (← p) high, rw (← p) low)

two_clients-Queued : Queued Never two_clients
unfolding lookup
two_clients-Queued k c h = elim (Bool-cases (str_eq (codes "a") k)) [
  | inl first ↦ let q = quiet ann c (rw first at h) refl refl in rw (q.0, q.1) (tt, tt)
  | inr other ↦ elim (Bool-cases (str_eq (codes "b") k)) [
    | inl second ↦
        let q = quiet bob c (rw second at (rw other at h)) refl refl in rw (q.0, q.1) (tt, tt)
    | inr none_left ↦ absurd (no_some c (rw none_left at (rw other at h)))
  ]
]

persist_message-IsBacked_example :
    Sent
      (IsBacked rows rows-Durable Never (persist_message desk noon greeting_job desk_world).db)
      (persist_message desk noon greeting_job desk_world).hub
unfolding is_empty Said
persist_message-IsBacked_example =
    persist_message-IsBacked desk rows-Durable Never noon greeting_job desk_world refl
      (record { queued = two_clients-Queued; said = tt })

abbrev Blocked : Rows → Type 0
Blocked db = db.blocked ≡ true

Blocked-IsHeld : IsHeld desk greeting_job Blocked
Blocked-IsHeld = record { kept = λ db b. b; holds = inl (λ db b. rw b refl) }

-- A message that is there already.
abbrev Known : Rows → Type 0
Known db = contains (codes "m1") db.ids ≡ true

Known-IsHeld : IsHeld desk greeting_job Known
Known-IsHeld = record {
  kept = λ db b. b;
  holds = inr (λ m db b same. rw (same, b) (λ q. absurd (cc)));
}

persist_message-IsPrivate_example :
    IsPrivate (codes "b") desk_world.hub (persist_message desk noon greeting_job desk_world).hub
unfolding str_eq by_visitor
persist_message-IsPrivate_example =
    persist_message-IsPrivate desk noon greeting_job (codes "b") desk_world Blocked refl refl
      Blocked-IsHeld refl

abbrev forwarded : Envelope
forwarded = record greeting { conv_id = codes "D"; extra = requested (codes "C") }

preprocess_agent_message-Passed_example :
    (is_empty (target_conv desk greeting (codes "b") desk_world) ≡ false)
    × (rows.agent_owns_conversation
          (target_conv desk greeting (codes "b") desk_world)
          (actor_of desk (codes "b") desk_world)
          no_rows
        ≡ some true)
    × Passed desk desk_world
        (target_conv desk greeting (codes "b") desk_world)
        (actor_of desk (codes "b") desk_world)
        forwarded
unfolding preprocess_agent_message is_empty
preprocess_agent_message-Passed_example =
    preprocess_agent_message-Passed desk noon greeting (codes "b") desk_world forwarded refl

abbrev old_message : Message
old_message = record {
  id = codes "m0";
  conv_id = codes "C";
  sender = codes "agent";
  sender_ref = codes "7";
  content = codes "greeting";
  media_url = none;
  media_kind = none;
  media_name = none;
  media_size = none;
  created_ms = pos 5;
  delivered_ws = false;
}

replay_all-Replayed_example :
    Replayed
      (codes "a")
      (old_message ∷ [])
      ann
      (replay_all (codes "a") (old_message ∷ []) two_clients)
unfolding lookup str_eq
replay_all-Replayed_example =
    replay_all-Replayed (codes "a") (old_message ∷ []) two_clients ann refl refl

abbrev day : List (Ambient × Move desk)
day =
    (noon, hub_moves (registers ann))
    ∷ (noon, message_comes greeting (codes "a") (codes "visitor"))
    ∷ (noon, message_ends false 0)
    ∷ []

day-AllReady : AllReady desk day (new_state desk (codes "n1") true no_rows tt)
unfolding IsFresh lookup is_empty new_job by_visitor new_state
day-AllReady =
    (record { unknown = refl; no_high = refl; no_low = refl; open_still = refl }, (refl, (tt, tt)))

moves-new_state_example :
    Sound desk IsIndexed (moves desk day (new_state desk (codes "n1") true no_rows tt))
    × Sound desk IsBound (moves desk day (new_state desk (codes "n1") true no_rows tt))
    × Sound desk
        (λ ix n. AllBounded n)
        (moves desk day (new_state desk (codes "n1") true no_rows tt))
moves-new_state_example = moves-new_state desk (codes "n1") true no_rows tt day refl day-AllReady

-- The agent's chat to a conversation that it is not bound to.
abbrev chat_to_d : Envelope
chat_to_d = record greeting { conv_id = codes "D" }

chat_from_agent-ends_example :
    ChatEnds desk noon no_rows tt
      (codes "b")
      bob
      (codes "D")
      desk_world.hub
      (chat_from_agent (sink_of desk noon no_rows tt) noon (codes "b") bob chat_to_d desk_world.hub)
unfolding lookup str_eq is_visitor
chat_from_agent-ends_example =
    chat_from_agent-ends desk noon no_rows tt (codes "b") bob chat_to_d desk_world.hub refl refl
