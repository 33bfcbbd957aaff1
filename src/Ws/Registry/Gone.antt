-- ===== src/Ws/Registry/Gone.antt =====
-- What handleUnregister leaves behind: nothing that leads to the connection.
use custom_service.Common.{
  is_empty, ◌≡◌, refl, inl, inr, false, some, List, [], ◌∷◌, Bool-cases, Option-cases, Str, str_eq,
  lookup, delete, modify, contains, remove, Entries-lookup,
}
use custom_service.Ws.Client.{is_visitor, visitor, agent, Client, Net}
use custom_service.Ws.Client.Sending.{visitor-of, agent-of}
use custom_service.Ws.Index.{Index, all_conns, detach_conv, remove_agent_conn, hall_unsubscribe}
use custom_service.Ws.Hub.{Hub}
use custom_service.Ws.Registry.{forget_visitor, leave, handle_unregister}
use custom_service.Ws.Registry.Left.{
  removed, left_conv, left_agents, no_agent, left_visitors, owner,
}
use custom_service.Ws.Registry.Invariant.{Holds, IsIndexed}
use custom_service.Ws.Registry.Bound.{IsBound, forget-IsBound, remove-IsBound}

-- The other half of the index is as it was.
kept_agents :
    (vid conn : Str) (ix : Index)
    → contains conn (all_conns ix.agents) ≡ false
    → contains conn (all_conns (forget_visitor vid conn ix).agents) ≡ false
unfolding forget_visitor
kept_agents vid conn ix h = elim (Option-cases (lookup vid ix.visitors)) [
  | inl e ↦ rw (e, forget_visitor) h
  | inr (current, e) ↦ elim (Bool-cases (str_eq current conn)) [
    | inl same ↦ rw (e, forget_visitor) (rw same h)
    | inr other ↦ rw (e, forget_visitor) (rw other h)
  ]
]

kept_visitors :
    (vid aid conn : Str) (ix : Index)
    → ¬ (lookup vid ix.visitors ≡ some conn)
    → ¬ (lookup vid (remove_agent_conn aid conn ix).visitors ≡ some conn)
unfolding remove_agent_conn
kept_visitors vid aid conn ix h = elim (Option-cases (lookup aid ix.agents)) [
  | inl e ↦ rw (e, remove_agent_conn) h
  | inr (s, e) ↦ rw (e, remove_agent_conn) (go (remove conn s))
]
  where
    go :
        (left : List Str)
        → ¬ (
            lookup vid
              (elim left as (λ l. Index) [
                | [] ↦ record ix { agents = delete aid ix.agents }
                | _ ∷ _ ↦ record ix { agents = modify aid (remove conn) ix.agents }
              ]).visitors
            ≡ some conn)
    go [] = h
    go (x ∷ xs) = h

no_visitor :
    (vid conn : Str) (c : Client) (ix : Index) (n : Net)
    → lookup conn n.clients ≡ some c
    → c.kind ≡ agent
    → IsIndexed ix n
    → ¬ (lookup vid ix.visitors ≡ some conn)
no_visitor vid conn c ix n there ours v h =
    let p : c.kind ≡ visitor =
      (owner visitor vid conn c n there (
        Entries-lookup (λ vid conn. Holds visitor vid n conn) ix.visitors vid conn v.visitors_held
          h)).0 in
    absurd (cc)

detach_conv-rest :
    (conn conv : Str) (ix : Index)
    → ((detach_conv conn conv ix).visitors ≡ ix.visitors)
      × ((detach_conv conn conv ix).agents ≡ ix.agents)
unfolding detach_conv
detach_conv-rest conn conv ix = elim (Bool-cases (is_empty conv)) [
  | inl e ↦ rw e (refl, refl)
  | inr e ↦ rw e (refl, refl)
]

forgotten :
    (vid conn : Str) (c : Client) (ix : Index) (n : Net)
    → lookup conn n.clients ≡ some c
    → IsBound ix n
    → contains conn (all_conns ix.agents) ≡ false
    → ¬ (lookup vid ix.visitors ≡ some conn)
    → (¬ (lookup vid (leave conn c ix).visitors ≡ some conn))
      × (contains conn (all_conns (leave conn c ix).agents) ≡ false)
      × (contains conn (all_conns (leave conn c ix).by_conv) ≡ false)
      × (contains conn (leave conn c ix).hall_subs ≡ false)
unfolding leave hall_unsubscribe
forgotten vid conn c ix n there b agents visitors = (
  rw (detach_conv-rest conn c.conv_id ix).0 visitors,
  rw (detach_conv-rest conn c.conv_id ix).1 agents,
  left_conv conn c ix n there b,
  removed conn (detach_conv conn c.conv_id ix).hall_subs,
)

-- After the connection has unregistered nothing in the index leads to it: no visitor's entry, no
-- account of an agent, no conversation, and it is not subscribed to the hall. The index is tied to
-- the connections as `run-IsIndexed` and `run-IsBound` keep it.
pub handle_unregister-gone :
    (vid conn : Str) (c : Client) (h : Hub)
    → lookup conn h.net.clients ≡ some c
    → IsIndexed h.index h.net
    → IsBound h.index h.net
    → (¬ (lookup vid (handle_unregister conn h).index.visitors ≡ some conn))
      × (contains conn (all_conns (handle_unregister conn h).index.agents) ≡ false)
      × (contains conn (all_conns (handle_unregister conn h).index.by_conv) ≡ false)
      × (contains conn (handle_unregister conn h).index.hall_subs ≡ false)
unfolding handle_unregister
handle_unregister-gone vid conn c h there v b = elim (Bool-cases (is_visitor c)) [
  | inl theirs ↦
      rw (there, handle_unregister)
        (rw theirs (
          forgotten vid conn c (forget_visitor c.id conn h.index) h.net there
            (forget-IsBound c.id conn h.index h.net b)
            (kept_agents c.id conn h.index
              (no_agent conn c h.index h.net there (visitor-of c theirs) v))
            (left_visitors vid conn c h.index h.net there v)))
  | inr ours ↦
      rw (there, handle_unregister)
        (rw ours (
          forgotten vid conn c (remove_agent_conn c.id conn h.index) h.net there
            (remove-IsBound c.id conn h.index h.net b) (left_agents conn c h.index h.net there v)
            (kept_visitors vid c.id conn h.index
              (no_visitor vid conn c h.index h.net there (agent-of c ours) v))))
]
