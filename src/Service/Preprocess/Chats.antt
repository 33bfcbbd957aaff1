-- ===== src/Service/Preprocess/Chats.antt =====
-- An agent's chat on its whole way: through handleIncoming of backend/internal/ws/hub.go with the service
-- as the hub's sink.
use custom_service.Common.{
  if_cases, false, subst, ap, ◌⊎◌, [], ◌≡◌, refl, inl, inr, ◌||◌, true, none, some, Option, if_both,
  Option-cases, List, ◌∷◌, Str, codes, str_eq, is_empty, lookup, lookup-modify, str_eq_refl, ℤ, pos,
}
use custom_service.Ws.Incoming.Agent.{may_send, chat_from_agent_iff, named_conv, bound-rebind}
use custom_service.Service.Preprocess.Refused.{IsRefused, preprocess_agent_message-IsRefused}
use custom_service.Service.Preprocess.Owned.{preprocess_agent_message-Passed, Passed}
use custom_service.Ws.Protocol.{Envelope}
use custom_service.Ws.Client.{is_visitor, Client, with_conv, set_conversation_id, conversation_id}
use custom_service.Ws.Hub.{emit, Hub, Effect, message_persisted, Ambient, send_to}
use custom_service.Ws.Binding.{sender_ref, rebind_client, move_to_conv}
use custom_service.Ws.Incoming.{
  chat_from_agent, persist_checked, bound_conv, agent_conv_forbidden_text,
}
use custom_service.Service.{Service, World, actor_of, tell, refuse}
use custom_service.Service.Preprocess.{
  sink_of, rebind, follow, take_over, follow_up, after_ownership, target_conv,
  preprocess_agent_message, eq_ℤ, no_conv_text, check_failed_text, not_owned_text,
}

module _ (S : Service) (now : Ambient) (conn : Str) (t : List Effect) where
  -- The check has let nothing out of the hub.
  Quiet : World S × Option Envelope → Type 0
  Quiet r = r.0.hub.trace ≡ t

  refuse-Quiet :
      (id content : Str) (w : World S) → w.hub.trace ≡ t → Quiet (refuse S now conn id content w)
  unfolding refuse tell send_to Quiet
  refuse-Quiet id content w q = q

  follow-Quiet :
      (e : Envelope) (conv next : Str) (w : World S)
      → w.hub.trace ≡ t
      → Quiet (follow S e conn conv next w)
  unfolding follow rebind rebind_client move_to_conv Quiet
  follow-Quiet e conv next w q =
      if_both (λ (h : Hub). h.trace ≡ t) S.has_hub
        (if_both (λ (h : Hub). h.trace ≡ t)
          (is_empty next || str_eq (conversation_id conn w.hub.net) next) q q)
        q

  follow_up-Quiet :
      (e : Envelope) (conv next : Str) (owner : ℤ) (w : World S)
      → w.hub.trace ≡ t
      → Quiet (follow_up S now e conn conv next owner w)
  unfolding follow_up take_over
  follow_up-Quiet e conv next owner w q =
      let id = (S.parse_int (actor_of S conn w)).0 in
      let r = S.store.assign_agent next id w.db in
      let w' : World S = record w { db = r.0 } in
      if_both Quiet (eq_ℤ owner (pos 0))
        (if_both Quiet r.1 (follow-Quiet e conv next w' q)
          (refuse-Quiet e.id check_failed_text w' q))
        (if_both Quiet (eq_ℤ owner id) (follow-Quiet e conv next w q)
          (refuse-Quiet e.id agent_conv_forbidden_text w q))

  after_ownership-Quiet :
      (e : Envelope) (conv : Str) (w : World S)
      → w.hub.trace ≡ t
      → Quiet (after_ownership S now e conn conv w)
  unfolding after_ownership Quiet
  after_ownership-Quiet e conv w q =
      elim (Option-cases (S.store.follow_up_conversation conv w.db)) [
        | inl h ↦ rw (h, after_ownership) q
        | inr (r, h) ↦
            rw (h, after_ownership)
              (if_both Quiet (is_empty r.0) q (follow_up-Quiet e conv r.0 r.1 w q))
      ]

  preprocess_agent_message-Quiet :
      (e : Envelope) (w : World S)
      → w.hub.trace ≡ t
      → Quiet (preprocess_agent_message S now e conn w)
  unfolding preprocess_agent_message
  preprocess_agent_message-Quiet e w q =
      let conv = target_conv S e conn w in
      if_both Quiet (is_empty conv) (refuse-Quiet e.id no_conv_text w q)
        (elim (Option-cases (S.store.agent_owns_conversation conv (actor_of S conn w) w.db)) [
          | inl h ↦ rw (h, preprocess_agent_message) (refuse-Quiet e.id check_failed_text w q)
          | inr (owned, h) ↦
              rw (h, preprocess_agent_message)
                (if_both Quiet owned (after_ownership-Quiet e conv w q)
                  (refuse-Quiet e.id not_owned_text w q))
        ])

-- The world in which the service checks the chat: the connection is bound to the conversation that the
-- frame names.
abbrev pub checked_world :
    (S : Service) → S.store.Db → S.limiter.redis.State → Str → Str → Hub → World S
checked_world S db redis conn requested h = record {
  hub = rebind_client conn requested h;
  db = db;
  redis = redis;
}

-- A message is handed over for storage, and nothing else leaves the hub. The conversation that the
-- frame names, or else the connection's, is the agent's or nobody's, and the message goes there or to
-- the one that has followed.
pub record HandsOver (S : Service) (db : S.store.Db) (redis : S.limiter.redis.State) (conn : Str)
    (c : Client) (requested : Str) (h after : Hub) : Type 0 where
  pub out : Envelope
  pub said : after.trace ≡ message_persisted out conn (codes "agent") ∷ h.trace
  pub there : is_empty (named_conv c requested) ≡ false
  pub owned : S.store.agent_owns_conversation (named_conv c requested) c.id db ≡ some true
  pub passed :
      Passed S (checked_world S db redis conn requested h) (named_conv c requested) c.id out

actor_of-rebind :
    (S : Service) (db : S.store.Db) (redis : S.limiter.redis.State) (conn requested : Str)
    (c : Client) (h : Hub)
    → lookup conn h.net.clients ≡ some c
    → actor_of S conn (checked_world S db redis conn requested h) ≡ c.id
unfolding actor_of rebind_client move_to_conv set_conversation_id with_conv
actor_of-rebind S db redis conn requested c h there =
    if_both (λ (v : Hub). (elim (lookup conn v.net.clients) [ none ↦ [] | some d ↦ d.id ]) ≡ c.id)
      (is_empty requested || str_eq (conversation_id conn h.net) requested) (rw there refl)
      (rw (lookup-modify conn conn (with_conv requested) h.net.clients, str_eq_refl conn, there)
        refl)

target_conv-rebind :
    (S : Service) (db : S.store.Db) (redis : S.limiter.redis.State) (conn requested : Str)
    (c : Client) (e : Envelope) (h : Hub)
    → lookup conn h.net.clients ≡ some c
    → e.conv_id ≡ named_conv c requested
    → target_conv S e conn (checked_world S db redis conn requested h) ≡ named_conv c requested
unfolding target_conv conversation_id bound_conv
target_conv-rebind S db redis conn requested c e h there named =
    if_both (λ v. v ≡ named_conv c requested) (is_empty e.conv_id)
      (bound-rebind conn requested c h there) named

rebind_client-trace :
    (conn requested : Str) (h : Hub) → (rebind_client conn requested h).trace ≡ h.trace
unfolding rebind_client move_to_conv
rebind_client-trace conn requested h =
    if_both (λ (v : Hub). v.trace ≡ h.trace)
      (is_empty requested || str_eq (conversation_id conn h.net) requested) refl refl

-- Nothing leaves the hub, since the hub does not let the agent send there, or the service refuses the
-- message.
pub record IsDropped (S : Service) (now : Ambient) (db : S.store.Db) (redis : S.limiter.redis.State)
    (conn : Str) (c : Client) (requested : Str) (h after : Hub) : Type 0 where
  pub silent : after.trace ≡ h.trace
  pub why :
      (may_send (sink_of S now db redis) c requested ≡ false)
      ⊎ IsRefused S (checked_world S db redis conn requested h) (named_conv c requested) c.id

-- What becomes of a chat.
abbrev pub ChatEnds :
    (S : Service)
    → Ambient
    → S.store.Db
    → S.limiter.redis.State
    → Str
    → Client
    → Str
    → Hub
    → Hub
    → Type 0
ChatEnds S now db redis conn c requested h after =
    IsDropped S now db redis conn c requested h after
    ⊎ HandsOver S db redis conn c requested h after

checked-ChatEnds :
    (S : Service) (now : Ambient) (db : S.store.Db) (redis : S.limiter.redis.State) (conn : Str)
    (c : Client) (e : Envelope) (requested : Str) (h : Hub)
    → lookup conn h.net.clients ≡ some c
    → e.conv_id ≡ named_conv c requested
    → let r = preprocess_agent_message S now e conn (checked_world S db redis conn requested h) in
      ChatEnds S now db redis conn c requested h
        (persist_checked conn (codes "agent") (r.0.hub, r.1))
unfolding persist_checked emit Quiet
checked-ChatEnds S now db redis conn c e requested h there named = go r.1 refl
  where
    w : World S
    w = checked_world S db redis conn requested h

    r : World S × Option Envelope
    r = preprocess_agent_message S now e conn w

    quiet : r.0.hub.trace ≡ h.trace
    quiet =
        preprocess_agent_message-Quiet S now conn h.trace e w (rebind_client-trace conn requested h)

    moved :
        (P : Str → Str → Type 0)
        → P (target_conv S e conn w) (actor_of S conn w)
        → P (named_conv c requested) c.id
    moved P p =
        subst (P (named_conv c requested)) (actor_of-rebind S db redis conn requested c h there) (
          subst (λ v. P v (actor_of S conn w))
            (target_conv-rebind S db redis conn requested c e h there named) p)

    go :
        (o : Option Envelope)
        → r.1 ≡ o
        → ChatEnds S now db redis conn c requested h
            (persist_checked conn (codes "agent") (r.0.hub, o))
    go none q = inl (record {
      silent = quiet;
      why = inr (moved (IsRefused S w) (preprocess_agent_message-IsRefused S now e conn w q));
    })
    go (some out) q =
        let (n, o, p) = preprocess_agent_message-Passed S now e conn w out q in
        inr (record {
          out = out;
          said = ap (λ t. message_persisted out conn (codes "agent") ∷ t) quiet;
          there = moved (λ v a. is_empty v ≡ false) n;
          owned = moved (λ v a. S.store.agent_owns_conversation v a db ≡ some true) o;
          passed = moved (λ v a. Passed S w v a out) p;
        })

-- An agent's chat, from a connection in the heap, with the service as the hub's sink. It is about the
-- conversation that the frame names, or else the one that the connection is bound to. Either exactly
-- one message leaves the hub, to be stored: then the conversation is the agent's or nobody's by the
-- database, and the message goes there, or, where it is closed, to the open conversation that has
-- followed, if the agent may serve that one. Or nothing does: then the hub's check of the conversation
-- has failed, or there is no conversation, or the database does not say that it is the agent's or
-- nobody's, or the one that has followed is not for the agent.
pub chat_from_agent-ends :
    (S : Service) (now : Ambient) (db : S.store.Db) (redis : S.limiter.redis.State) (conn : Str)
    (c : Client) (e : Envelope) (h : Hub)
    → lookup conn h.net.clients ≡ some c
    → is_visitor c ≡ false
    → ChatEnds S now db redis conn c e.conv_id h
        (chat_from_agent (sink_of S now db redis) now conn c e h)
unfolding sink_of send_to
chat_from_agent-ends S now db redis conn c e h there ours =
    let out : Envelope = record e { from = sender_ref c; conv_id = named_conv c e.conv_id } in
    rw (chat_from_agent_iff (sink_of S now db redis) now conn c e h there ours) (
      if_cases (ChatEnds S now db redis conn c e.conv_id h)
        (may_send (sink_of S now db redis) c e.conv_id)
        (λ may. checked-ChatEnds S now db redis conn c out e.conv_id h there refl)
        (λ may_not. inl (record { silent = refl; why = inl may_not })))
