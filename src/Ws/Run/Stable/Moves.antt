-- ===== src/Ws/Run/Stable/Moves.antt =====
-- Delivery with publication, and the changes of a connection's conversation.
use custom_service.Common.{
  refl, inl, inr, Bool, not, ◌||◌, List, [], ◌∷◌, Bool-cases, Option-cases, Str, lookup, contains,
  is_empty, str_eq, length, ltb,
}
use custom_service.Ws.Protocol.{Envelope, valid_conv_id}
use custom_service.Ws.Client.{is_visitor, Net, conversation_id}
use custom_service.Ws.Index.{Index, conns_of, all_conns}
use custom_service.Ws.Hub.{
  Hub, Sink, Ambient, publish, send_to, fanout_to_conv, fanout_voice, fanout_to_agent,
  broadcast_to_all_agents, stamped,
}
use custom_service.Ws.Binding.{
  move_to_conv, rebind_client, history_cleared, rebind_visitor, move_all, attach_agent_to_conv,
  attach_agent_conn_to_conv, detach_conn_from_conv, detach_conns_from_conv, detach_agent_from_conv,
  close_all, close_agent, mark_blocked, set_visitor_blocked, bind_agent_conv,
}
use custom_service.Ws.Run.Stable.{Stable, IsSoft}
use custom_service.Ws.Run.Stable.Sends.{
  send_all-keeps, fanout_local-keeps, fanout_voice_local-keeps, fanout_agent_local-keeps,
}

pub mark_blocked-IsSoft : (blocked : Bool) → IsSoft (mark_blocked blocked)
unfolding mark_blocked
mark_blocked-IsSoft blocked = record {
  same_conn = λ c. refl;
  same_kind = λ c. refl;
  same_id = λ c. refl;
  same_conv = λ c. refl;
  same_high = λ c. refl;
  same_low = λ c. refl;
  same_closed = λ c. refl;
}

-- The predicate of a whole hub.
abbrev pub On : (Index → Net → Type 0) → Hub → Type 0
On Q h = Q h.index h.net

module _ (Q : Index → Net → Type 0) (st : Stable Q) where
  pub publish-keeps : (e : Envelope) (h : Hub) → On Q h → On Q (publish e h)
  unfolding publish
  publish-keeps e h q = elim (Bool-cases h.has_redis) [ inl r ↦ rw r q | inr r ↦ rw r q ]

  pub send_to-keeps : (conn : Str) (e : Envelope) (h : Hub) → On Q h → On Q (send_to conn e h)
  unfolding send_to
  send_to-keeps conn e h q = st.after_send conn e h.index h.net q

  pub fanout_to_conv-keeps : (e : Envelope) (h : Hub) → On Q h → On Q (fanout_to_conv e h).0
  unfolding fanout_to_conv
  fanout_to_conv-keeps e h q = publish-keeps _ _ (
      fanout_local-keeps (Q h.index) (λ e. Unit {0}) (λ c f ok n. st.after_send c f h.index n)
        h.index (stamped h e) tt h.net q)

  pub fanout_voice-keeps : (e : Envelope) (h : Hub) → On Q h → On Q (fanout_voice e h)
  unfolding fanout_voice
  fanout_voice-keeps e h q = publish-keeps _ _ (
      fanout_voice_local-keeps (Q h.index) (λ e. Unit {0}) (λ c f ok n. st.after_send c f h.index n)
        h.index (stamped h e) tt h.net q)

  pub fanout_to_agent-keeps :
      (aid : Str) (e : Envelope) (h : Hub) → On Q h → On Q (fanout_to_agent aid e h).0
  unfolding fanout_to_agent
  fanout_to_agent-keeps aid e h q = publish-keeps _ _ (
      fanout_agent_local-keeps (Q h.index) (λ e. Unit {0}) (λ c f ok n. st.after_send c f h.index n)
        h.index aid _ tt h.net q)

  pub broadcast_to_all_agents-keeps :
      (e : Envelope) (h : Hub) → On Q h → On Q (broadcast_to_all_agents e h)
  unfolding broadcast_to_all_agents
  broadcast_to_all_agents-keeps e h q =
      send_all-keeps (Q h.index) (λ e. Unit {0}) (λ c f ok n. st.after_send c f h.index n)
        (all_conns h.index.agents) _ tt h.net q

  pub move_to_conv-keeps : (conn conv : Str) (h : Hub) → On Q h → On Q (move_to_conv conn conv h)
  unfolding move_to_conv
  move_to_conv-keeps conn conv h q = st.after_move conn conv h.index h.net q

  pub rebind_client-keeps : (conn conv : Str) (h : Hub) → On Q h → On Q (rebind_client conn conv h)
  unfolding rebind_client
  rebind_client-keeps conn conv h q =
      elim (Bool-cases (is_empty conv || str_eq (conversation_id conn h.net) conv)) [
        | inl stay ↦ rw stay q
        | inr move ↦ rw move (move_to_conv-keeps conn conv h q)
      ]

  pub rebind_visitor-keeps :
      (now : Ambient) (vid conv : Str) (notify : Bool) (h : Hub)
      → On Q h
      → On Q (rebind_visitor now vid conv notify h).0
  unfolding rebind_visitor
  rebind_visitor-keeps now vid conv notify h q = elim (Option-cases (lookup vid h.index.visitors)) [
    | inl e ↦ rw (e, rebind_visitor) q
    | inr (conn, e) ↦ elim (Bool-cases notify) [
      | inl told ↦
          rw (e, rebind_visitor)
            (rw told (
              send_to-keeps conn (history_cleared now conv) (rebind_client conn conv h)
                (rebind_client-keeps conn conv h q)))
      | inr quiet ↦ rw (e, rebind_visitor) (rw quiet (rebind_client-keeps conn conv h q))
    ]
  ]

  move_all-keeps : (conns : List Str) (conv : Str) (h : Hub) → On Q h → On Q (move_all conns conv h)
  unfolding move_all
  move_all-keeps [] conv h q = q
  move_all-keeps (conn ∷ conns) conv h q =
      move_all-keeps conns conv _ (move_to_conv-keeps conn conv h q)

  pub attach_agent_to_conv-keeps :
      (aid conv : Str) (h : Hub) → On Q h → On Q (attach_agent_to_conv aid conv h)
  unfolding attach_agent_to_conv
  attach_agent_to_conv-keeps aid conv h q = move_all-keeps (conns_of aid h.index.agents) conv h q

  pub attach_agent_conn_to_conv-keeps :
      (aid conn conv : Str) (h : Hub) → On Q h → On Q (attach_agent_conn_to_conv aid conn conv h).0
  unfolding attach_agent_conn_to_conv
  attach_agent_conn_to_conv-keeps aid conn conv h q =
      elim (Bool-cases (is_empty conn || ltb 64 (length conn))) [
        | inl bad ↦ rw bad q
        | inr fine ↦ elim (Bool-cases (contains conn (conns_of aid h.index.agents))) [
          | inl mine ↦ rw fine (rw mine (rebind_client-keeps conn conv h q))
          | inr other ↦ rw fine (rw other q)
        ]
      ]

  detach_conn_from_conv-keeps :
      (conn conv : Str) (h : Hub) → On Q h → On Q (detach_conn_from_conv conn conv h)
  unfolding detach_conn_from_conv
  detach_conn_from_conv-keeps conn conv h q = elim (Option-cases (lookup conn h.net.clients)) [
    | inl e ↦ rw (e, detach_conn_from_conv) q
    | inr (c, e) ↦ elim (Bool-cases (str_eq c.conv_id conv)) [
      | inl same ↦
          rw (e, detach_conn_from_conv) (rw same (st.after_unbind conn c h.index h.net e q))
      | inr other ↦ rw (e, detach_conn_from_conv) (rw other q)
    ]
  ]

  detach_conns_from_conv-keeps :
      (conns : List Str) (conv : Str) (h : Hub)
      → On Q h
      → On Q (detach_conns_from_conv conns conv h)
  unfolding detach_conns_from_conv
  detach_conns_from_conv-keeps [] conv h q = q
  detach_conns_from_conv-keeps (conn ∷ conns) conv h q =
      detach_conns_from_conv-keeps conns conv _ (detach_conn_from_conv-keeps conn conv h q)

  pub detach_agent_from_conv-keeps :
      (aid conv : Str) (h : Hub) → On Q h → On Q (detach_agent_from_conv aid conv h)
  unfolding detach_agent_from_conv
  detach_agent_from_conv-keeps aid conv h q =
      detach_conns_from_conv-keeps (conns_of aid h.index.agents) conv h q

  close_all-keeps : (conns : List Str) (ix : Index) (n : Net) → Q ix n → Q ix (close_all conns n)
  unfolding close_all
  close_all-keeps [] ix n q = q
  close_all-keeps (conn ∷ conns) ix n q = close_all-keeps conns ix _ (st.after_close conn ix n q)

  pub close_agent-keeps : (aid : Str) (h : Hub) → On Q h → On Q (close_agent aid h)
  unfolding close_agent
  close_agent-keeps aid h q = close_all-keeps (conns_of aid h.index.agents) h.index h.net q

  pub set_visitor_blocked-keeps :
      (vid : Str) (blocked : Bool) (h : Hub) → On Q h → On Q (set_visitor_blocked vid blocked h)
  unfolding set_visitor_blocked
  set_visitor_blocked-keeps vid blocked h q = elim (Option-cases (lookup vid h.index.visitors)) [
    | inl e ↦ rw (e, set_visitor_blocked) q
    | inr (conn, e) ↦
        rw (e, set_visitor_blocked)
          (st.after_write conn (mark_blocked blocked) h.index h.net (mark_blocked-IsSoft blocked) q)
  ]

  pub bind_agent_conv-keeps :
      (sink : Sink) (conn conv : Str) (h : Hub) → On Q h → On Q (bind_agent_conv sink conn conv h).0
  unfolding bind_agent_conv
  bind_agent_conv-keeps sink conn conv h q = elim (Option-cases (lookup conn h.net.clients)) [
    | inl e ↦ rw (e, bind_agent_conv) q
    | inr (c, e) ↦ elim (Bool-cases (is_visitor c)) [
      | inl theirs ↦ rw (e, bind_agent_conv) (rw theirs q)
      | inr ours ↦ elim (Bool-cases (is_empty conv || str_eq conv c.conv_id)) [
        | inl stay ↦ rw (e, bind_agent_conv) (rw (ours, stay) q)
        | inr move ↦
            elim (Bool-cases (not (valid_conv_id conv) || not (sink.agent_owns_conv conv c.id))) [
              | inl refused ↦ rw (e, bind_agent_conv) (rw (ours, move, refused) q)
              | inr owned ↦
                  rw (e, bind_agent_conv)
                    (rw (ours, move, owned) (rebind_client-keeps conn conv h q))
            ]
      ]
    ]
  ]
