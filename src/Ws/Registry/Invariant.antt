-- ===== src/Ws/Registry/Invariant.antt =====
-- The invariant that ties the index to the heap, and the operations of the registry that keep it.
use mathlib.Core.Option
use custom_service.Common.{
  ◌≡◌, refl, sym, ap, ◌∙◌, inl, inr, true, false, Option, none, some, List, [], ◌∷◌, arith,
  Bool-cases, Option-cases, Str, str_eq, str_eq_iff, is_empty, lookup, delete, modify, contains,
  add, remove, lookup-modify, contains-remove, Distinct, Entries, Entries-lookup, Entries-store,
  Entries-delete, Entries-modify, Entries-map, Distinct-add, Distinct-remove, contains-add,
}
use custom_service.Ws.Client.{Kind, visitor, agent, Client, Net}
use custom_service.Ws.Client.Sending.{SameClients, bare}
use custom_service.Ws.Index.{
  Index, conns_of, all_conns, attach_conv, detach_conv, add_agent_conn, remove_agent_conn,
}
use custom_service.Ws.Index.Sets.{Distinct-all-add, Distinct-all-modify, Distinct-all-delete}
use custom_service.Ws.Registry.{forget_visitor}

-- The pointer leads to a connection of that kind and account, under its own connection ID.
abbrev pub Holds : Kind → Str → Net → Str → Type 0
Holds kind id n conn =
    (c : Client) × (lookup conn n.clients ≡ some c)
    × (c.conn_id ≡ conn)
    × (c.kind ≡ kind)
    × (c.id ≡ id)

abbrev pub HoldsAll : Net → Str → List Str → Type 0
HoldsAll n aid s = (conn : Str) → contains conn s ≡ true → Holds agent aid n conn

-- Each map leads where its key says, no set holds a connection twice, and no connection belongs to
-- two accounts.
pub record IsIndexed (ix : Index) (n : Net) : Type 0 where
  pub visitors_held : Entries (λ vid conn. Holds visitor vid n conn) ix.visitors
  pub agents_held : Entries (HoldsAll n) ix.agents
  pub members_distinct : Entries (λ conv s. Distinct s) ix.by_conv
  pub agents_distinct : Distinct (all_conns ix.agents)

-- Every connection of the second heap is in the first, with its ID, kind and account.
abbrev pub KeepsOwners : Net → Net → Type 0
KeepsOwners m n =
    (k : Str) (c : Client)
    → lookup k n.clients ≡ some c
    → (d : Client) × (lookup k m.clients ≡ some d)
      × (d.conn_id ≡ c.conn_id)
      × (d.kind ≡ c.kind)
      × (d.id ≡ c.id)

pub SameClients→KeepsOwners : (m n : Net) → SameClients m n → KeepsOwners m n
SameClients→KeepsOwners m n same k c h = go (lookup k m.clients) refl
  where
    go :
        (o : Option Client)
        → lookup k m.clients ≡ o
        → (d : Client) × (lookup k m.clients ≡ some d)
          × (d.conn_id ≡ c.conn_id)
          × (d.kind ≡ c.kind)
          × (d.id ≡ c.id)
    go none e =
        let q : none ≡ some (bare c) =
          ap (Option.map bare) (sym e) ∙ same k ∙ ap (Option.map bare) h in
        absurd (cc)
    go (some d) e =
        let q : some (bare d) ≡ some (bare c) =
          ap (Option.map bare) (sym e) ∙ same k ∙ ap (Option.map bare) h in
        let p : bare d ≡ bare c = cc in
        (d, e, ap (λ x. x.conn_id) p, ap (λ x. x.kind) p, ap (λ x. x.id) p)

pub modify-KeepsOwners :
    (conn : Str) (f : Client → Client) (n : Net)
    → ((c : Client) → ((f c).conn_id ≡ c.conn_id) × ((f c).kind ≡ c.kind) × ((f c).id ≡ c.id))
    → KeepsOwners (record n { clients = modify conn f n.clients }) n
modify-KeepsOwners conn f n e k c h = elim (Bool-cases (str_eq conn k)) [
  | inl same ↦ (f c, rw (lookup-modify conn k f n.clients, same, h), (e c).0, (e c).1, (e c).2)
  | inr ne ↦ (c, rw (lookup-modify conn k f n.clients, ne, h), refl, refl, refl)
]

pub Holds-keep :
    (kind : Kind) (id conn : Str) (m n : Net)
    → KeepsOwners m n
    → Holds kind id n conn
    → Holds kind id m conn
Holds-keep kind id conn m n keep (c, l, p, q, r) =
    let (d, l', p', q', r') = keep conn c l in (d, l', p' ∙ p, q' ∙ q, r' ∙ r)

-- Work on the heap that keeps the owners keeps the invariant.
pub IsIndexed-keep : (ix : Index) (m n : Net) → KeepsOwners m n → IsIndexed ix n → IsIndexed ix m
IsIndexed-keep ix m n keep v = record {
  visitors_held =
      Entries-map _ _ ix.visitors (λ vid conn. Holds-keep visitor vid conn m n keep)
        v.visitors_held;
  agents_held =
      Entries-map _ _ ix.agents (λ aid s f conn h. Holds-keep agent aid conn m n keep (f conn h))
        v.agents_held;
  members_distinct = v.members_distinct;
  agents_distinct = v.agents_distinct;
}

pub attach_conv-IsIndexed :
    (conn conv : Str) (ix : Index) (n : Net)
    → IsIndexed ix n
    → IsIndexed (attach_conv conn conv ix) n
unfolding attach_conv conns_of
attach_conv-IsIndexed conn conv ix n v = elim (Bool-cases (is_empty conv)) [
  | inl none_named ↦ rw none_named v
  | inr named ↦ rw named (record {
    visitors_held = v.visitors_held;
    agents_held = v.agents_held;
    members_distinct =
        Entries-store _ ix.by_conv conv _ (Distinct-add conn _ (members conv)) v.members_distinct;
    agents_distinct = v.agents_distinct;
  })
]
  where
    members : (conv : Str) → Distinct (conns_of conv ix.by_conv)
    members conv = elim (Option-cases (lookup conv ix.by_conv)) [
      | inl e ↦ rw (e, conns_of) tt
      | inr (s, e) ↦ rw (e, conns_of) (Entries-lookup _ ix.by_conv conv s v.members_distinct e)
    ]

pub detach_conv-IsIndexed :
    (conn conv : Str) (ix : Index) (n : Net)
    → IsIndexed ix n
    → IsIndexed (detach_conv conn conv ix) n
unfolding detach_conv
detach_conv-IsIndexed conn conv ix n v = elim (Bool-cases (is_empty conv)) [
  | inl none_named ↦ rw none_named v
  | inr named ↦ rw named (record {
    visitors_held = v.visitors_held;
    agents_held = v.agents_held;
    members_distinct =
        Entries-modify _ ix.by_conv conv (remove conn) (λ j s. Distinct-remove conn s)
          v.members_distinct;
    agents_distinct = v.agents_distinct;
  })
]

pub forget_visitor-IsIndexed :
    (vid conn : Str) (ix : Index) (n : Net)
    → IsIndexed ix n
    → IsIndexed (forget_visitor vid conn ix) n
unfolding forget_visitor
forget_visitor-IsIndexed vid conn ix n v = elim (Option-cases (lookup vid ix.visitors)) [
  | inl e ↦ rw (e, forget_visitor) v
  | inr (current, e) ↦ elim (Bool-cases (str_eq current conn)) [
    | inr other ↦ rw (e, forget_visitor) (rw other v)
    | inl same ↦
        rw (e, forget_visitor)
          (rw same (record {
            visitors_held = Entries-delete _ ix.visitors vid v.visitors_held;
            agents_held = v.agents_held;
            members_distinct = v.members_distinct;
            agents_distinct = v.agents_distinct;
          }))
  ]
]

HoldsAll-remove :
    (n : Net) (aid conn : Str) (s : List Str) → HoldsAll n aid s → HoldsAll n aid (remove conn s)
HoldsAll-remove n aid conn s f k h = f k (ground (arith, contains-remove conn k s))

pub remove_agent_conn-IsIndexed :
    (aid conn : Str) (ix : Index) (n : Net)
    → IsIndexed ix n
    → IsIndexed (remove_agent_conn aid conn ix) n
unfolding remove_agent_conn
remove_agent_conn-IsIndexed aid conn ix n v = elim (Option-cases (lookup aid ix.agents)) [
  | inl e ↦ rw (e, remove_agent_conn) v
  | inr (s, e) ↦ rw (e, remove_agent_conn) (go (remove conn s))
]
  where
    go :
        (left : List Str)
        → IsIndexed
            (elim left [
              | [] ↦ record ix { agents = delete aid ix.agents }
              | _ ∷ _ ↦ record ix { agents = modify aid (remove conn) ix.agents }
            ])
            n
    go [] = record {
      visitors_held = v.visitors_held;
      agents_held = Entries-delete _ ix.agents aid v.agents_held;
      members_distinct = v.members_distinct;
      agents_distinct = Distinct-all-delete aid ix.agents v.agents_distinct;
    }
    go (x ∷ xs) = record {
      visitors_held = v.visitors_held;
      agents_held =
          Entries-modify _ ix.agents aid (remove conn) (λ j s. HoldsAll-remove n j conn s)
            v.agents_held;
      members_distinct = v.members_distinct;
      agents_distinct = Distinct-all-modify aid conn ix.agents v.agents_distinct;
    }

pub not_in_empty : (k : Str) → contains k [] ≡ true → ⊥
unfolding contains
not_in_empty k h = absurd (cc)

pub HoldsAll-conns_of :
    (aid : Str) (ix : Index) (n : Net) → IsIndexed ix n → HoldsAll n aid (conns_of aid ix.agents)
unfolding conns_of
HoldsAll-conns_of aid ix n v = elim (Option-cases (lookup aid ix.agents)) [
  | inl e ↦ rw (e, conns_of) (λ k h. absurd (not_in_empty k h))
  | inr (s, e) ↦ rw (e, conns_of) (Entries-lookup _ ix.agents aid s v.agents_held e)
]

-- A connection that belongs to no account yet.
pub add_agent_conn-IsIndexed :
    (aid conn : Str) (ix : Index) (n : Net)
    → Holds agent aid n conn
    → contains conn (all_conns ix.agents) ≡ false
    → IsIndexed ix n
    → IsIndexed (add_agent_conn aid conn ix) n
unfolding add_agent_conn
add_agent_conn-IsIndexed aid conn ix n new fresh v = record {
  visitors_held = v.visitors_held;
  agents_held = Entries-store _ ix.agents aid _ joined v.agents_held;
  members_distinct = v.members_distinct;
  agents_distinct =
      Distinct-all-add aid conn ix.agents (conns_of aid ix.agents) refl fresh v.agents_distinct;
}
  where
    joined : HoldsAll n aid (add conn (conns_of aid ix.agents))
    joined k h = elim (Bool-cases (str_eq conn k)) [
      | inl same ↦ rw (← (str_eq_iff conn k).0 same) new
      | inr ne ↦
          HoldsAll-conns_of aid ix n v k
            (ground (arith, contains-add conn k (conns_of aid ix.agents)))
    ]
