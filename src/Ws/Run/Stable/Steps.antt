-- ===== src/Ws/Run/Stable/Steps.antt =====
-- Every event, and every sequence of events, keeps a stable predicate.
use custom_service.Common.{◌≡◌, inl, inr, List, [], ◌∷◌, Bool-cases, Option-cases, Str, lookup}
use custom_service.Ws.Client.{is_visitor, visitor, agent, Client, Net}
use custom_service.Ws.Client.Sending.{visitor-of, agent-of}
use custom_service.Ws.Index.{
  Index, detach_conv, add_agent_conn, remove_agent_conn, hall_unsubscribe,
}
use custom_service.Ws.Hub.{set_hall_handler, Hub, Sink, Ambient}
use custom_service.Ws.Registry.{
  hello, enter, admit_visitor, admit_agent, admit, handle_register, forget_visitor, leave,
  handle_unregister,
}
use custom_service.Ws.Run.{
  Event, registers, unregisters, receives, broadcasts, fires, hears, fans_to_conv, fans_to_agent,
  tells_agents, broadcasts_hall, attaches_agent, attaches_conn, detaches_agent, rebinds,
  rebinds_visitor, blocks, closes_agent, pushes_to_agent, pushes_to_visitor, gets_hall_handler,
  subscribes, unsubscribes, is_armed, unregister_next, step, run,
}
use custom_service.Ws.Run.Stable.{Stable, IsNew}
use custom_service.Ws.Run.Stable.Sends.{
  push_to_agent-keeps, push_to_visitor-keeps, fanout_local-keeps, replay_calls-keeps,
}
use custom_service.Ws.Run.Stable.Moves.{
  On, send_to-keeps, fanout_to_conv-keeps, fanout_to_agent-keeps, broadcast_to_all_agents-keeps,
  rebind_client-keeps, rebind_visitor-keeps, attach_agent_to_conv-keeps,
  attach_agent_conn_to_conv-keeps, detach_agent_from_conv-keeps, close_agent-keeps,
  set_visitor_blocked-keeps,
}
use custom_service.Ws.Run.Stable.Calls.{fire-keeps}
use custom_service.Ws.Run.Stable.Halls.{broadcast_hall-keeps, hall_subscribe-keeps}
use custom_service.Ws.Run.Stable.Frames.{SinkKeeps, handle_incoming-keeps, receive_published-keeps}

-- The connection that registers was made for it.
unfoldable pub IsFresh : Event → Hub → Type 0
IsFresh (registers c) h = IsNew c h.net
IsFresh _ h = Unit

unfoldable pub AllFresh : Sink → List (Ambient × Event) → Hub → Type 0
unfolding step IsFresh
AllFresh sink [] h = Unit
AllFresh sink ((now, ev) ∷ evs) h = IsFresh ev h × AllFresh sink evs (step sink now ev h)

module _ (Q : Index → Net → Type 0) (st : Stable Q) where
  admit_visitor-keeps :
      (c : Client) (h : Hub)
      → IsNew c h.net
      → c.kind ≡ visitor
      → On Q h
      → On Q (admit_visitor c (enter c h))
  unfolding admit_visitor enter
  admit_visitor-keeps c h new kind q = st.after_visitor c h.index h.net new kind q

  admit_agent-keeps :
      (now : Ambient) (c : Client) (h : Hub)
      → IsNew c h.net
      → c.kind ≡ agent
      → On Q h
      → On Q (admit_agent now c (enter c h))
  unfolding admit_agent enter
  admit_agent-keeps now c h new kind q =
      let ix = add_agent_conn c.id c.conn_id h.index in
      replay_calls-keeps (Q ix) (λ k f n. st.after_send k f ix n) now.now_ms c.conn_id
        h.calls.pending_calls (enter c h).net (st.after_agent c h.index h.net new kind q)

  handle_register-keeps :
      (now : Ambient) (c : Client) (h : Hub)
      → IsNew c h.net
      → On Q h
      → On Q (handle_register now c h)
  unfolding handle_register admit
  handle_register-keeps now c h new q = elim (Bool-cases (is_visitor c)) [
    | inl theirs ↦ rw theirs (
        send_to-keeps Q st c.conn_id (hello now c h) (admit_visitor c (enter c h))
          (admit_visitor-keeps c h new (visitor-of c theirs) q))
    | inr ours ↦ rw ours (
        send_to-keeps Q st c.conn_id (hello now c h) (admit_agent now c (enter c h))
          (admit_agent-keeps now c h new (agent-of c ours) q))
  ]

  leave-keeps : (conn : Str) (c : Client) (ix : Index) (n : Net) → Q ix n → Q (leave conn c ix) n
  unfolding leave hall_unsubscribe
  leave-keeps conn c ix n q =
      st.after_hall _ (detach_conv conn c.conv_id ix) n (st.after_detach conn c.conv_id ix n q)

  handle_unregister-keeps : (conn : Str) (h : Hub) → On Q h → On Q (handle_unregister conn h)
  unfolding handle_unregister
  handle_unregister-keeps conn h q = elim (Option-cases (lookup conn h.net.clients)) [
    | inl e ↦ rw (e, handle_unregister) q
    | inr (c, e) ↦ elim (Bool-cases (is_visitor c)) [
      | inl theirs ↦
          rw (e, handle_unregister)
            (rw theirs (
              leave-keeps conn c (forget_visitor c.id conn h.index) h.net
                (st.after_forget c.id conn h.index h.net q)))
      | inr ours ↦
          rw (e, handle_unregister)
            (rw ours (
              leave-keeps conn c (remove_agent_conn c.id conn h.index) h.net
                (st.after_remove c.id conn h.index h.net q)))
    ]
  ]

  unregister_next-keeps : (h : Hub) → On Q h → On Q (unregister_next h)
  unfolding unregister_next
  unregister_next-keeps h q = go h.net.unregister
    where
      go :
          (waiting : List Str)
          → On Q (elim waiting [
            | [] ↦ h
            | conn ∷ rest ↦
                handle_unregister conn (record h { net = record (h.net) { unregister = rest } })
          ])
      go [] = q
      go (conn ∷ rest) =
          handle_unregister-keeps conn (record h { net = record (h.net) { unregister = rest } })
            (st.after_pop rest h.index h.net q)

module _ (Q : Index → Net → Type 0) (st : Stable Q) (sink : Sink) (sk : SinkKeeps Q sink) where
  pub step-keeps :
      (now : Ambient) (ev : Event) (h : Hub) → IsFresh ev h → On Q h → On Q (step sink now ev h)
  unfolding step IsFresh set_hall_handler
  step-keeps now (registers c) h new q = handle_register-keeps Q st now c h new q
  step-keeps now unregisters h f q = unregister_next-keeps Q st h q
  step-keeps now (receives conn e) h f q = handle_incoming-keeps Q st sink sk now conn e h q
  step-keeps now (broadcasts e) h f q =
      fanout_local-keeps (Q h.index) (λ m. Unit {0}) (λ k m ok n. st.after_send k m h.index n)
        h.index e tt h.net q
  step-keeps now (fires t) h f q = elim (Bool-cases (is_armed t h.calls.timers)) [
    | inl armed ↦ rw armed (fire-keeps Q st now t h q)
    | inr gone ↦ rw gone q
  ]
  step-keeps now (hears e) h f q = receive_published-keeps Q st e h q
  step-keeps now (fans_to_conv e) h f q = fanout_to_conv-keeps Q st e h q
  step-keeps now (fans_to_agent aid e) h f q = fanout_to_agent-keeps Q st aid e h q
  step-keeps now (tells_agents e) h f q = broadcast_to_all_agents-keeps Q st e h q
  step-keeps now (broadcasts_hall e) h f q = broadcast_hall-keeps Q st e h q
  step-keeps now (attaches_agent aid conv) h f q = attach_agent_to_conv-keeps Q st aid conv h q
  step-keeps now (attaches_conn aid conn conv) h f q =
      attach_agent_conn_to_conv-keeps Q st aid conn conv h q
  step-keeps now (detaches_agent aid conv) h f q = detach_agent_from_conv-keeps Q st aid conv h q
  step-keeps now (rebinds conn conv) h f q = rebind_client-keeps Q st conn conv h q
  step-keeps now (rebinds_visitor vid conv notify) h f q =
      rebind_visitor-keeps Q st now vid conv notify h q
  step-keeps now (blocks vid blocked) h f q = set_visitor_blocked-keeps Q st vid blocked h q
  step-keeps now (closes_agent aid) h f q = close_agent-keeps Q st aid h q
  step-keeps now (pushes_to_agent aid e) h f q =
      push_to_agent-keeps (Q h.index) (λ m. Unit {0}) (λ k m ok n. st.after_send k m h.index n)
        h.index aid e tt h.net q
  step-keeps now (pushes_to_visitor vid e) h f q =
      push_to_visitor-keeps (Q h.index) (λ m. Unit {0}) (λ k m ok n. st.after_send k m h.index n)
        h.index vid e tt h.net q
  step-keeps now gets_hall_handler h f q = q
  step-keeps now (subscribes conn) h f q = hall_subscribe-keeps Q st conn h q
  step-keeps now (unsubscribes conn) h f q = st.after_hall _ h.index h.net q

  pub run-keeps :
      (evs : List (Ambient × Event)) (h : Hub)
      → AllFresh sink evs h
      → On Q h
      → On Q (run sink evs h)
  unfolding run AllFresh
  run-keeps [] h f q = q
  run-keeps ((now, ev) ∷ evs) h (f, fs) q =
      run-keeps evs (step sink now ev h) fs (step-keeps now ev h f q)
