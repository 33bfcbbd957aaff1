-- ===== src/Ws/Run/Indexed.antt =====
-- Whatever happens, in whatever order, the index stays tied to the connections.
use custom_service.Common.{
  [], Entries-map, ◌≡◌, refl, inl, inr, false, none, some, List, Bool-cases, Str, str_eq,
  str_eq_iff, str_eq_refl, lookup, store, lookup-store, contains, Entries-store,
}
use custom_service.Ws.Client.{
  visitor, agent, Client, Net, send, close, with_conv, set_conversation_id, conversation_id,
}
use custom_service.Ws.Client.Sending.{send-SameClients, close-SameClients}
use custom_service.Ws.Index.{add_agent_conn, Index, all_conns}
use custom_service.Ws.Index.Sets.{all_conns-Entries}
use custom_service.Ws.Hub.{Hub, Sink, Ambient}
use custom_service.Ws.Registry.{entered}
use custom_service.Ws.Registry.Invariant.{
  Holds, IsIndexed, KeepsOwners, SameClients→KeepsOwners, modify-KeepsOwners, IsIndexed-keep,
  attach_conv-IsIndexed, detach_conv-IsIndexed, forget_visitor-IsIndexed,
  remove_agent_conn-IsIndexed, add_agent_conn-IsIndexed,
}
use custom_service.Ws.Run.{Event, run}
use custom_service.Ws.Run.Stable.{Stable, IsNew}
use custom_service.Ws.Run.Stable.Frames.{SinkKeeps}
use custom_service.Ws.Run.Stable.Steps.{AllFresh, run-keeps}

entered-KeepsOwners : (c : Client) (n : Net) → IsNew c n → KeepsOwners (entered c n) n
unfolding entered
entered-KeepsOwners c n new k d h = elim (Bool-cases (str_eq c.conn_id k)) [
  | inl same ↦
      let unknown : lookup k n.clients ≡ none =
        rw (← (str_eq_iff c.conn_id k).0 same) new.unknown in
      absurd (cc)
  | inr ne ↦ (d, rw (lookup-store c.conn_id k c n.clients, ne) h, refl, refl, refl)
]

entered-Holds : (c : Client) (n : Net) → Holds c.kind c.id (entered c n) c.conn_id
unfolding entered
entered-Holds c n = (
  c,
  rw (lookup-store c.conn_id c.conn_id c n.clients, str_eq_refl c.conn_id) refl,
  refl,
  refl,
  refl,
)

hall-IsIndexed :
    (subs : List Str) (ix : Index) (n : Net)
    → IsIndexed ix n
    → IsIndexed (record ix { hall_subs = subs }) n
hall-IsIndexed subs ix n v = record {
  visitors_held = v.visitors_held;
  agents_held = v.agents_held;
  members_distinct = v.members_distinct;
  agents_distinct = v.agents_distinct;
}

visitor-IsIndexed :
    (c : Client) (ix : Index) (n : Net)
    → IsNew c n
    → c.kind ≡ visitor
    → IsIndexed ix n
    → IsIndexed (record ix { visitors = store c.id c.conn_id ix.visitors }) (entered c n)
visitor-IsIndexed c ix n new kind v =
    let w = IsIndexed-keep ix (entered c n) n (entered-KeepsOwners c n new) v in
    record {
      visitors_held =
          Entries-store _ ix.visitors c.id c.conn_id (rw (← kind) (entered-Holds c n))
            w.visitors_held;
      agents_held = w.agents_held;
      members_distinct = w.members_distinct;
      agents_distinct = w.agents_distinct;
    }

-- A pointer that leads nowhere belongs to no account.
unowned :
    (conn : Str) (ix : Index) (n : Net)
    → lookup conn n.clients ≡ none
    → IsIndexed ix n
    → contains conn (all_conns ix.agents) ≡ false
unowned conn ix n unknown v = elim (Bool-cases (contains conn (all_conns ix.agents))) [
  | inr free ↦ free
  | inl taken ↦
      let (c, h) =
        all_conns-Entries (λ k. (c : Client) × (lookup k n.clients ≡ some c)) ix.agents conn
          (Entries-map _ _ ix.agents (λ aid s f k h. ((f k h).0, (f k h).1)) v.agents_held) taken in
      absurd (cc)
]

agent-IsIndexed :
    (c : Client) (ix : Index) (n : Net)
    → IsNew c n
    → c.kind ≡ agent
    → IsIndexed ix n
    → IsIndexed (add_agent_conn c.id c.conn_id ix) (entered c n)
agent-IsIndexed c ix n new kind v =
    add_agent_conn-IsIndexed c.id c.conn_id ix (entered c n) (rw (← kind) (entered-Holds c n))
      (unowned c.conn_id ix n new.unknown v)
      (IsIndexed-keep ix (entered c n) n (entered-KeepsOwners c n new) v)

with_conv-IsIndexed :
    (conn conv : Str) (ix : Index) (n : Net)
    → IsIndexed ix n
    → IsIndexed ix (set_conversation_id conn conv n)
unfolding set_conversation_id with_conv
with_conv-IsIndexed conn conv ix n v =
    IsIndexed-keep ix (set_conversation_id conn conv n) n
      (modify-KeepsOwners conn (with_conv conv) n (λ c. (refl, refl, refl))) v

pub IsIndexed-Stable : Stable IsIndexed
IsIndexed-Stable = record {
  after_send = λ conn e ix n v.
      IsIndexed-keep ix (send conn e n).0 n
        (SameClients→KeepsOwners (send conn e n).0 n (send-SameClients conn e n)) v;
  after_close = λ conn ix n v.
      IsIndexed-keep ix (close conn n) n
        (SameClients→KeepsOwners (close conn n) n (close-SameClients conn n)) v;
  after_write = λ conn f ix n soft v.
      IsIndexed-keep ix _ n
        (modify-KeepsOwners conn f n (λ c. (soft.same_conn c, soft.same_kind c, soft.same_id c))) v;
  after_pop = λ rest ix n v. IsIndexed-keep ix _ n (λ k c h. (c, h, refl, refl, refl)) v;
  after_move = λ conn conv ix n v. attach_conv-IsIndexed conn _ _ _ (
      detach_conv-IsIndexed conn (conversation_id conn n) ix _
        (with_conv-IsIndexed conn conv ix n v));
  after_unbind = λ conn c ix n e v.
      detach_conv-IsIndexed conn c.conv_id ix _ (with_conv-IsIndexed conn [] ix n v);
  after_detach = detach_conv-IsIndexed;
  after_hall = hall-IsIndexed;
  after_visitor = λ c ix n new kind v.
      attach_conv-IsIndexed c.conn_id c.conv_id _ _ (visitor-IsIndexed c ix n new kind v);
  after_agent = agent-IsIndexed;
  after_forget = forget_visitor-IsIndexed;
  after_remove = remove_agent_conn-IsIndexed;
}

-- From a hub whose index is tied to its connections, every sequence of events leads to another such
-- hub, if each connection that registers was made for it and the sink's preprocessing keeps the
-- tie. Tied means: an entry of `visitors` leads to a visitor connection with that ID, each
-- connection under an account of `agents` is an agent's with that ID, no set of `by_conv` holds a
-- connection twice, and no connection is listed twice among the agents.
pub run-IsIndexed :
    (sink : Sink) (evs : List (Ambient × Event)) (h : Hub)
    → SinkKeeps IsIndexed sink
    → AllFresh sink evs h
    → IsIndexed h.index h.net
    → IsIndexed (run sink evs h).index (run sink evs h).net
run-IsIndexed sink evs h sk fresh v = run-keeps IsIndexed IsIndexed-Stable sink sk evs h fresh v
