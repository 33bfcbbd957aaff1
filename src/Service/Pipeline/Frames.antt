-- ===== src/Service/Pipeline/Frames.antt =====
-- A predicate of everything that a hub has sent: the frames that wait in the queues, and what was
-- published.
use custom_service.Common.{
  ◌≡◌, refl, ◌||◌, ◌++◌, List, [], ◌∷◌, All, Str, str_eq, is_empty, modify, modify-Every, Every,
  if_both, subst, sym,
}
use custom_service.Ws.Protocol.{Envelope, agent_prefix}
use custom_service.Ws.Client.{
  Client, Net, OutboundFrame, send, enqueue, close, mark_closed, frame_of, is_low, with_conv,
  set_conversation_id, conversation_id,
}
use custom_service.Ws.Client.Sending.{send_cases, close_cases}
use custom_service.Ws.Hub.{
  Hub, Effect, published, emit, publish, send_to, fanout_to_conv, fanout_to_agent, stamped,
}
use custom_service.Ws.Fanout.{fanout_local, fanout_agent_local}
use custom_service.Ws.Binding.{rebind_client, move_to_conv}
use custom_service.Ws.Run.Stable.Sends.{fanout_local-keeps, fanout_agent_local-keeps}

abbrev pub Queued : (Envelope → Type 0) → Net → Type 0
Queued P n =
    Every
      (λ c.
        All (λ (f : OutboundFrame). P f.env) c.high × All (λ (f : OutboundFrame). P f.env) c.low)
      n.clients

unfoldable pub Said : (Envelope → Type 0) → List Effect → Type 0
Said P [] = Unit
Said P (published e ∷ xs) = P e × Said P xs
Said P (x ∷ xs) = Said P xs

pub record Sent (P : Envelope → Type 0) (h : Hub) : Type 0 where
  pub queued : Queued P h.net
  pub said : Said P h.trace

-- A weaker predicate.
All-weaken :
    (P R : Envelope → Type 0) (fs : List OutboundFrame)
    → ((e : Envelope) → P e → R e)
    → All (λ (f : OutboundFrame). P f.env) fs
    → All (λ (f : OutboundFrame). R f.env) fs
All-weaken P R [] weaker a = tt
All-weaken P R (f ∷ fs) weaker (p, a) = (weaker f.env p, All-weaken P R fs weaker a)

Said-weaken :
    (P R : Envelope → Type 0) (xs : List Effect)
    → ((e : Envelope) → P e → R e)
    → Said P xs
    → Said R xs
unfolding Said
Said-weaken P R [] weaker a = tt
Said-weaken P R (Effect.published e ∷ xs) weaker (p, a) = (weaker e p, Said-weaken P R xs weaker a)
Said-weaken P R (Effect.visitor_connected s ∷ xs) weaker a = Said-weaken P R xs weaker a
Said-weaken P R (Effect.visitor_disconnected s ∷ xs) weaker a = Said-weaken P R xs weaker a
Said-weaken P R (Effect.agent_connected s ∷ xs) weaker a = Said-weaken P R xs weaker a
Said-weaken P R (Effect.agent_disconnected s ∷ xs) weaker a = Said-weaken P R xs weaker a
Said-weaken P R (Effect.message_persisted e s t ∷ xs) weaker a = Said-weaken P R xs weaker a
Said-weaken P R (Effect.delivery_persisted e s ∷ xs) weaker a = Said-weaken P R xs weaker a
Said-weaken P R (Effect.read_persisted e s t ∷ xs) weaker a = Said-weaken P R xs weaker a
Said-weaken P R (Effect.page_navigated s t u v ∷ xs) weaker a = Said-weaken P R xs weaker a
Said-weaken P R (Effect.visitor_called s t ∷ xs) weaker a = Said-weaken P R xs weaker a
Said-weaken P R (Effect.call_finished s t u v z ∷ xs) weaker a = Said-weaken P R xs weaker a
Said-weaken P R (Effect.hall_frame_handled s e ∷ xs) weaker a = Said-weaken P R xs weaker a

pub Sent-weaken :
    (P R : Envelope → Type 0) (h : Hub) → ((e : Envelope) → P e → R e) → Sent P h → Sent R h
Sent-weaken P R h weaker s = record {
  queued = λ k c e.
      let q = s.queued k c e in (All-weaken P R c.high weaker q.0, All-weaken P R c.low weaker q.1);
  said = Said-weaken P R h.trace weaker s.said;
}

module _ (P : Envelope → Type 0) where
  All-last :
      (fs : List OutboundFrame) (f : OutboundFrame)
      → All (λ (f : OutboundFrame). P f.env) fs
      → P f.env
      → All (λ (f : OutboundFrame). P f.env) (fs ++ f ∷ [])
  All-last [] f a p = (p, tt)
  All-last (g ∷ fs) f (q, a) p = (q, All-last fs f a p)

  -- A write to one connection that leaves its queues alone.
  pub modify-Queued :
      (conn : Str) (g : Client → Client) (n : Net)
      → ((c : Client) → ((g c).high ≡ c.high) × ((g c).low ≡ c.low))
      → Queued P n
      → Queued P (record n { clients = modify conn g n.clients })
  modify-Queued conn g n same q =
      modify-Every _ conn g n.clients
        (λ c h. (
          subst (All (λ (f : OutboundFrame). P f.env)) (sym (same c).0) (q conn c h).0,
          subst (All (λ (f : OutboundFrame). P f.env)) (sym (same c).1) (q conn c h).1,
        ))
        q

  close-Queued : (conn : Str) (n : Net) → Queued P n → Queued P (close conn n)
  unfolding mark_closed
  close-Queued conn n q =
      close_cases (Queued P) conn n q
        (λ c h live. modify-Queued conn mark_closed n (λ d. (refl, refl)) q)

  enqueue-Queued :
      (e : Envelope) (c : Client)
      → P e
      → All (λ (f : OutboundFrame). P f.env) c.high × All (λ (f : OutboundFrame). P f.env) c.low
      → All (λ (f : OutboundFrame). P f.env) (enqueue e c).high
        × All (λ (f : OutboundFrame). P f.env) (enqueue e c).low
  unfolding enqueue frame_of
  enqueue-Queued e c p (a, b) =
      if_both
        (λ (d : Client).
          All (λ (f : OutboundFrame). P f.env) d.high × All (λ (f : OutboundFrame). P f.env) d.low)
        (is_low e) (a, All-last c.low (frame_of e c) b p) (All-last c.high (frame_of e c) a p, b)

  pub send-Queued :
      (conn : Str) (e : Envelope) → P e → (n : Net) → Queued P n → Queued P (send conn e n).0
  send-Queued conn e p n q =
      send_cases (λ r. Queued P r.0) conn e n q
        (λ c h live room.
          modify-Every _ conn (enqueue e) n.clients (λ d l. enqueue-Queued e d p (q conn d l)) q)
        (λ c h live full. close-Queued conn n q)

  pub send_to-Sent :
      (conn : Str) (e : Envelope) (h : Hub) → P e → Sent P h → Sent P (send_to conn e h)
  unfolding send_to
  send_to-Sent conn e h p s = record { queued = send-Queued conn e p h.net s.queued; said = s.said }

  -- A delivery and its publication.
  publish-Sent :
      (e : Envelope) (n : Net) (h : Hub)
      → P e
      → Queued P n
      → Sent P h
      → Sent P (publish e (record h { net = n }))
  unfolding publish emit Said
  publish-Sent e n h p q s =
      if_both (Sent P) h.has_redis (record { queued = q; said = (p, s.said) })
        (record { queued = q; said = s.said })

  pub fanout_to_conv-Sent :
      (e : Envelope) (h : Hub) → P (stamped h e) → Sent P h → Sent P (fanout_to_conv e h).0
  unfolding fanout_to_conv
  fanout_to_conv-Sent e h p s =
      let out = stamped h e in
      publish-Sent out (fanout_local h.index out h.net).0 h p
        (fanout_local-keeps (Queued P) P send-Queued h.index out p h.net s.queued) s

  pub fanout_to_agent-Sent :
      (aid : Str) (e : Envelope) (h : Hub)
      → P (record (stamped h e) { to = agent_prefix ++ aid })
      → Sent P h
      → Sent P (fanout_to_agent aid e h).0
  unfolding fanout_to_agent
  fanout_to_agent-Sent aid e h p s =
      let out : Envelope = record (stamped h e) { to = agent_prefix ++ aid } in
      publish-Sent out (fanout_agent_local h.index aid out h.net).0 h p
        (fanout_agent_local-keeps (Queued P) P send-Queued h.index aid out p h.net s.queued) s

  pub set_conv-Sent :
      (conn conv : Str) (h : Hub) → Sent P h → Queued P (set_conversation_id conn conv h.net)
  unfolding set_conversation_id with_conv
  set_conv-Sent conn conv h s =
      modify-Queued conn (with_conv conv) h.net (λ c. (refl, refl)) s.queued

  pub rebind_client-Sent :
      (conn conv : Str) (h : Hub) → Sent P h → Sent P (rebind_client conn conv h)
  unfolding rebind_client move_to_conv
  rebind_client-Sent conn conv h s =
      if_both (Sent P) (is_empty conv || str_eq (conversation_id conn h.net) conv) s
        (record { queued = set_conv-Sent conn conv h s; said = s.said })
