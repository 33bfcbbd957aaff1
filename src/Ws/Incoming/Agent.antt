-- ===== src/Ws/Incoming/Agent.antt =====
-- An agent's chat goes to the sink's check with the conversation that the frame names, or nowhere.
use custom_service.Common.{
  ◌≡◌, refl, ◌∙◌, inl, inr, ◌&&◌, ◌||◌, Bool, true, false, some, Bool-cases, Str, codes, str_eq,
  is_empty, str_eq_iff, lookup, lookup-modify, str_eq_refl, if◌then◌else◌, arith,
}
use custom_service.Ws.Protocol.{Envelope, valid_conv_id}
use custom_service.Ws.Client.{is_visitor, Client, with_conv, set_conversation_id, conversation_id}
use custom_service.Ws.Hub.{Hub, Sink, Ambient, send_to}
use custom_service.Ws.Binding.{move_to_conv, rebind_client, bind_agent_conv, sender_ref}
use custom_service.Ws.Registry.Bound.{conv-of}
use custom_service.Ws.Incoming.{
  agent_conv_forbidden_text, error_frame, persist_checked, bound_conv, chat_from_agent,
}

-- The conversation a frame is about: the one it names, or else the sender's.
abbrev pub named_conv : Client → Str → Str
named_conv c requested = if is_empty requested then c.conv_id else requested

-- Whether an agent may send there: it stays where it is, or the conversation is its own.
abbrev pub may_send : Sink → Client → Str → Bool
may_send sink c requested =
    is_empty requested
    || str_eq requested c.conv_id
    || valid_conv_id requested && sink.agent_owns_conv requested c.id

pub bound_conv-at :
    (conn : Str) (c : Client) (h : Hub)
    → lookup conn h.net.clients ≡ some c
    → bound_conv conn h ≡ c.conv_id
unfolding bound_conv
bound_conv-at conn c h there = rw (there, bound_conv) refl

bound-move :
    (conn requested : Str) (c : Client) (h : Hub)
    → lookup conn h.net.clients ≡ some c
    → bound_conv conn (move_to_conv conn requested h) ≡ requested
unfolding move_to_conv set_conversation_id with_conv
bound-move conn requested c h there =
    bound_conv-at conn (record c { conv_id = requested }) (move_to_conv conn requested h)
      (rw (lookup-modify conn conn (with_conv requested) h.net.clients, str_eq_refl conn, there)
        refl)

rebind-cases :
    (conn requested : Str) (h : Hub)
    → rebind_client conn requested h ≡ (
        if is_empty requested || str_eq (conversation_id conn h.net) requested
        then h
        else move_to_conv conn requested h)
unfolding rebind_client
rebind-cases conn requested h = refl

pub bound-rebind :
    (conn requested : Str) (c : Client) (h : Hub)
    → lookup conn h.net.clients ≡ some c
    → bound_conv conn (rebind_client conn requested h) ≡ named_conv c requested
bound-rebind conn requested c h there =
    rw (rebind-cases conn requested h, conv-of conn c.conv_id h.net (c, there, refl))
      (elim (Bool-cases (is_empty requested)) [
        | inl unnamed ↦ rw unnamed (bound_conv-at conn c h there)
        | inr named ↦ elim (Bool-cases (str_eq c.conv_id requested)) [
          | inl same ↦
              rw (named, same)
                (bound_conv-at conn c h there ∙ (str_eq_iff c.conv_id requested).0 same)
          | inr other ↦ rw (named, other) (bound-move conn requested c h there)
        ]
      ])

bind_agent_conv_iff :
    (sink : Sink) (conn requested : Str) (c : Client) (h : Hub)
    → lookup conn h.net.clients ≡ some c
    → is_visitor c ≡ false
    → bind_agent_conv sink conn requested h
      ≡ (if may_send sink c requested then (rebind_client conn requested h, true) else (h, false))
unfolding bind_agent_conv rebind_client conversation_id
bind_agent_conv_iff sink conn requested c h there ours = elim (Bool-cases (is_empty requested)) [
  | inl unnamed ↦ rw (there, bind_agent_conv) (rw (ours, unnamed) refl)
  | inr named ↦ elim (Bool-cases (str_eq requested c.conv_id)) [
    | inl same ↦
        rw (there, bind_agent_conv, conversation_id) (rw (ours, named, same, same_back same) refl)
    | inr other ↦ elim (Bool-cases (valid_conv_id requested)) [
      | inr bad ↦ rw (there, bind_agent_conv) (rw (ours, named, other, bad) refl)
      | inl fine ↦ elim (Bool-cases (sink.agent_owns_conv requested c.id)) [
        | inl owns ↦ rw (there, bind_agent_conv) (rw (ours, named, other, fine, owns) refl)
        | inr alien ↦ rw (there, bind_agent_conv) (rw (ours, named, other, fine, alien) refl)
      ]
    ]
  ]
]
  where
    same_back : str_eq requested c.conv_id ≡ true → str_eq c.conv_id requested ≡ true
    same_back same = ground (arith, str_eq_iff requested c.conv_id, str_eq_iff c.conv_id requested)

-- An agent's chat, from a connection in the heap: if the frame names no conversation, the one that
-- the connection is bound to, or one with a well-formed ID that the agent owns, then it goes to the
-- sink's check with exactly that conversation, to which the connection is then bound. Otherwise the
-- connection is sent an error frame.
pub chat_from_agent_iff :
    (sink : Sink) (now : Ambient) (conn : Str) (c : Client) (e : Envelope) (h : Hub)
    → lookup conn h.net.clients ≡ some c
    → is_visitor c ≡ false
    → chat_from_agent sink now conn c e h ≡ (
        if may_send sink c e.conv_id
        then persist_checked conn (codes "agent") (
            sink.preprocess_agent_message
              (record e { from = sender_ref c; conv_id = named_conv c e.conv_id })
              conn
              (rebind_client conn e.conv_id h))
        else send_to conn (error_frame now e.id agent_conv_forbidden_text) h)
unfolding chat_from_agent
chat_from_agent_iff sink now conn c e h there ours = elim (Bool-cases (may_send sink c e.conv_id)) [
  | inl may ↦
      rw (bind_agent_conv_iff sink conn e.conv_id c h there ours, may)
        (rw (bound-rebind conn e.conv_id c h there) refl)
  | inr not_his ↦ rw (bind_agent_conv_iff sink conn e.conv_id c h there ours, not_his) refl
]
