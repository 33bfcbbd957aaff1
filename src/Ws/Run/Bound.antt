-- ===== src/Ws/Run/Bound.antt =====
-- Whatever happens, in whatever order, a connection stands only under the conversation that it is
-- bound to.
use mathlib.Core.Option
use custom_service.Common.{
  ◌≡◌, refl, sym, ap, ◌∙◌, inl, inr, Option, none, some, List, [], Bool-cases, Str, str_eq,
  str_eq_iff, str_eq_refl, lookup, store, modify, lookup-store, lookup-modify,
}
use custom_service.Ws.Client.{Client, Net, send, close, set_conversation_id, conversation_id}
use custom_service.Ws.Client.Sending.{SameClients, bare, send-SameClients, close-SameClients}
use custom_service.Ws.Index.{detach_conv, add_agent_conn}
use custom_service.Ws.Hub.{Hub, Sink, Ambient}
use custom_service.Ws.Registry.{entered}
use custom_service.Ws.Registry.Bound.{
  BoundTo, IsBound, KeepsConvs, IsBound-keep, conv-of, bound_self, attached, rebound,
  detach-IsBound, forget-IsBound, remove-IsBound,
}
use custom_service.Ws.Run.{Event, run}
use custom_service.Ws.Run.Stable.{Stable, IsNew, IsSoft}
use custom_service.Ws.Run.Stable.Frames.{SinkKeeps}
use custom_service.Ws.Run.Stable.Steps.{AllFresh, run-keeps}

SameClients→KeepsConvs : (m n : Net) → SameClients m n → KeepsConvs m n
SameClients→KeepsConvs m n same conv k (c, h, p) = go (lookup k m.clients) refl
  where
    go : (o : Option Client) → lookup k m.clients ≡ o → BoundTo conv m k
    go none e =
        let q : none ≡ some (bare c) =
          ap (Option.map bare) (sym e) ∙ same k ∙ ap (Option.map bare) h in
        absurd (cc)
    go (some d) e =
        let q : some (bare d) ≡ some (bare c) =
          ap (Option.map bare) (sym e) ∙ same k ∙ ap (Option.map bare) h in
        let r : bare d ≡ bare c = cc in (d, e, ap (λ x. x.conv_id) r ∙ p)

soft-KeepsConvs :
    (conn : Str) (f : Client → Client) (n : Net)
    → IsSoft f
    → KeepsConvs (record n { clients = modify conn f n.clients }) n
soft-KeepsConvs conn f n soft conv k (c, h, p) = elim (Bool-cases (str_eq conn k)) [
  | inl same ↦ (f c, rw (lookup-modify conn k f n.clients, same, h), soft.same_conv c ∙ p)
  | inr ne ↦ (c, rw (lookup-modify conn k f n.clients, ne, h), p)
]

entered-KeepsConvs : (c : Client) (n : Net) → IsNew c n → KeepsConvs (entered c n) n
unfolding entered
entered-KeepsConvs c n new conv k (d, h, p) = elim (Bool-cases (str_eq c.conn_id k)) [
  | inl same ↦
      let unknown : lookup k n.clients ≡ none =
        rw (← (str_eq_iff c.conn_id k).0 same) new.unknown in
      absurd (cc)
  | inr ne ↦ (d, rw (lookup-store c.conn_id k c n.clients, ne) h, p)
]

entered_self : (c : Client) (n : Net) → BoundTo c.conv_id (entered c n) c.conn_id
unfolding entered
entered_self c n =
    (c, rw (lookup-store c.conn_id c.conn_id c n.clients, str_eq_refl c.conn_id) refl, refl)

pub IsBound-Stable : Stable IsBound
unfolding add_agent_conn
IsBound-Stable = record {
  after_send = λ conn e ix n b.
      IsBound-keep ix (send conn e n).0 n
        (SameClients→KeepsConvs (send conn e n).0 n (send-SameClients conn e n)) b;
  after_close = λ conn ix n b.
      IsBound-keep ix (close conn n) n
        (SameClients→KeepsConvs (close conn n) n (close-SameClients conn n)) b;
  after_write = λ conn f ix n soft b.
      IsBound-keep ix (record n { clients = modify conn f n.clients }) n
        (soft-KeepsConvs conn f n soft) b;
  after_pop = λ rest ix n b. b;
  after_move = λ conn conv ix n b.
      attached conn (conversation_id conn (set_conversation_id conn conv n))
        (detach_conv conn (conversation_id conn n) ix) (set_conversation_id conn conv n)
        (bound_self conn (set_conversation_id conn conv n)) (rebound conn conv ix n b);
  after_unbind =
      λ conn c ix n e b. rw (← conv-of conn c.conv_id n (c, e, refl)) (rebound conn [] ix n b);
  after_detach = detach-IsBound;
  after_hall = λ subs ix n b. b;
  after_visitor = λ c ix n new kind b.
      attached c.conn_id c.conv_id (record ix { visitors = store c.id c.conn_id ix.visitors })
        (entered c n) (λ named. entered_self c n)
        (IsBound-keep ix (entered c n) n (entered-KeepsConvs c n new) b);
  after_agent = λ c ix n new kind b. IsBound-keep ix (entered c n) n (entered-KeepsConvs c n new) b;
  after_forget = forget-IsBound;
  after_remove = remove-IsBound;
}

-- From a hub whose `by_conv` agrees with the connections, every sequence of events leads to another
-- such hub, if each connection that registers was made for it and the sink's preprocessing keeps
-- the agreement. They agree when each connection under a conversation is in the heap and is bound
-- to that conversation, and no conversation without a name has an entry.
pub run-IsBound :
    (sink : Sink) (evs : List (Ambient × Event)) (h : Hub)
    → SinkKeeps IsBound sink
    → AllFresh sink evs h
    → IsBound h.index h.net
    → IsBound (run sink evs h).index (run sink evs h).net
run-IsBound sink evs h sk fresh b = run-keeps IsBound IsBound-Stable sink sk evs h fresh b
