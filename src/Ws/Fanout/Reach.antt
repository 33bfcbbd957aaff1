-- ===== src/Ws/Fanout/Reach.antt =====
-- Which connections fanoutLocal reaches, and what it does to each: a description without loops.
use custom_service.Common.{
  str_eq_refl, Option-cases, subst, ◌≡◌, refl, ap, ◌∙◌, inl, inr, Bool, true, false, ◌&&◌, ◌||◌,
  not, some, List, [], ◌∷◌, arith, if◌then◌else◌, Bool-cases, Str, str_eq, str_eq_iff, is_empty,
  lookup, contains, Distinct,
}
use custom_service.Ws.Protocol.{Envelope}
use custom_service.Ws.Client.{Kind, agent, Client, Net, receive}
use custom_service.Ws.Client.Sending.{lookup-send}
use custom_service.Ws.Index.{Index, conns_of, all_conns}
use custom_service.Ws.Fanout.{
  Sweep, deliver, mark_sent, is_typing_echo, is_stale, visit_member, visit_members, visit_agent,
  visit_agents, spills_to_agents, fanout_sweep, fanout_local, no_targets,
}

-- A member of the conversation is passed over if it typed the frame itself or has moved on.
unfoldable pub wants : Envelope → Client → Bool
wants e c = not (is_typing_echo e c.conn_id || is_stale e c)

unfoldable pub reaches : Index → Envelope → Str → Client → Bool
unfolding wants conns_of
reaches ix e k c =
    not (is_empty e.conv_id)
    && (contains k (conns_of e.conv_id ix.by_conv) && wants e c
        || spills_to_agents e.type && contains k (all_conns ix.agents))

-- The connection `k` in a sweep: its struct, and whether it was sent to.
record At (k : Str) (s : Sweep) (c : Client) (b : Bool) : Type 0 where
  here : lookup k s.net.clients ≡ some c
  noted : contains k s.sent ≡ b

deliver-other :
    (e : Envelope) (conn k : Str) (kind : Kind) (s : Sweep) (c : Client) (b : Bool)
    → str_eq conn k ≡ false
    → At k s c b
    → At k (deliver e conn kind s) c b
unfolding deliver
deliver-other e conn k kind s c b ne a = record {
  here = rw (lookup-send conn k e s.net, ne) a.here;
  noted = a.noted;
}

deliver_self :
    (e : Envelope) (conn : Str) (kind : Kind) (s : Sweep) (c : Client) (b : Bool)
    → At conn s c b
    → At conn (deliver e conn kind s) (receive e c) b
unfolding deliver
deliver_self e conn kind s c b a = record {
  here = rw (lookup-send conn conn e s.net, str_eq_refl conn, a.here);
  noted = a.noted;
}

visit_member-other :
    (e : Envelope) (conn k : Str) (s : Sweep) (c : Client) (b : Bool)
    → str_eq conn k ≡ false
    → At k s c b
    → At k (visit_member e conn s) c b
unfolding visit_member mark_sent contains
visit_member-other e conn k s c b ne a = elim (Option-cases (lookup conn s.net.clients)) [
  | inl h ↦ rw (h, visit_member) a
  | inr (d, h) ↦ elim (Bool-cases (is_typing_echo e d.conn_id || is_stale e d)) [
    | inl skip ↦ rw (h, visit_member) (rw skip a)
    | inr hit ↦
        let v = deliver-other e conn k d.kind s c b ne a in
        rw (h, visit_member) (rw hit (record { here = v.here; noted = rw ne v.noted }))
  ]
]

-- The connection is visited: it receives the frame if it wants it.
abbrev visited : Envelope → Client → Client
visited e c = if wants e c then receive e c else c

visit_member_self :
    (e : Envelope) (conn : Str) (s : Sweep) (c : Client) (b : Bool)
    → At conn s c b
    → At conn (visit_member e conn s) (visited e c) (wants e c || b)
unfolding visit_member mark_sent contains wants
visit_member_self e conn s c b a = elim (Bool-cases (is_typing_echo e c.conn_id || is_stale e c)) [
  | inl skip ↦ rw (a.here, visit_member) (rw skip a)
  | inr hit ↦
      let v = deliver_self e conn c.kind s c b a in
      rw (a.here, visit_member)
        (rw hit (record { here = v.here; noted = rw (str_eq_refl conn) refl }))
]

visit_members-absent :
    (e : Envelope) (conns : List Str) (k : Str) (s : Sweep) (c : Client) (b : Bool)
    → contains k conns ≡ false
    → At k s c b
    → At k (visit_members e conns s) c b
unfolding visit_members contains
visit_members-absent e [] k s c b h a = a
visit_members-absent e (conn ∷ conns) k s c b h a =
    visit_members-absent e conns k _ c b (ground arith)
      (visit_member-other e conn k s c b (ground arith) a)

visit_members-At :
    (e : Envelope) (conns : List Str) (k : Str) (s : Sweep) (c : Client) (b : Bool)
    → Distinct conns
    → At k s c b
    → At k
        (visit_members e conns s)
        (if contains k conns then visited e c else c)
        (contains k conns && wants e c || b)
unfolding visit_members contains
visit_members-At e [] k s c b d a = a
visit_members-At e (conn ∷ conns) k s c b d a = elim (Bool-cases (str_eq conn k)) [
  | inr ne ↦ rw ne (visit_members-At e conns k _ c b d.1 (visit_member-other e conn k s c b ne a))
  | inl same ↦
      let p : conn ≡ k = (str_eq_iff conn k).0 same in
      rw same (
        visit_members-absent e conns k _ (visited e c) (wants e c || b) (rw p at (d.0)) (
          subst (λ j. At j (visit_member e conn s) (visited e c) (wants e c || b)) p
            (visit_member_self e conn s c b (rw (← p) at a))))
]

visit_agent-other :
    (e : Envelope) (conn k : Str) (s : Sweep) (c : Client) (b : Bool)
    → str_eq conn k ≡ false
    → At k s c b
    → At k (visit_agent e conn s) c b
unfolding visit_agent
visit_agent-other e conn k s c b ne a = elim (Bool-cases (contains conn s.sent)) [
  | inl dup ↦ rw dup a
  | inr fresh ↦ rw fresh (deliver-other e conn k agent s c b ne a)
]

visit_agent_self :
    (e : Envelope) (conn : Str) (s : Sweep) (c : Client) (b : Bool)
    → At conn s c b
    → At conn (visit_agent e conn s) (if b then c else receive e c) b
unfolding visit_agent
visit_agent_self e conn s c true a = rw a.noted a
visit_agent_self e conn s c false a = rw a.noted (deliver_self e conn agent s c false a)

visit_agents-absent :
    (e : Envelope) (conns : List Str) (k : Str) (s : Sweep) (c : Client) (b : Bool)
    → contains k conns ≡ false
    → At k s c b
    → At k (visit_agents e conns s) c b
unfolding visit_agents contains
visit_agents-absent e [] k s c b h a = a
visit_agents-absent e (conn ∷ conns) k s c b h a =
    visit_agents-absent e conns k _ c b (ground arith)
      (visit_agent-other e conn k s c b (ground arith) a)

visit_agents-At :
    (e : Envelope) (conns : List Str) (k : Str) (s : Sweep) (c : Client) (b : Bool)
    → Distinct conns
    → At k s c b
    → At k (visit_agents e conns s) (if contains k conns && not b then receive e c else c) b
unfolding visit_agents contains
visit_agents-At e [] k s c b d a = a
visit_agents-At e (conn ∷ conns) k s c b d a = elim (Bool-cases (str_eq conn k)) [
  | inr ne ↦ rw ne (visit_agents-At e conns k _ c b d.1 (visit_agent-other e conn k s c b ne a))
  | inl same ↦
      let p : conn ≡ k = (str_eq_iff conn k).0 same in
      rw same (
        visit_agents-absent e conns k _ _ b (rw p at (d.0)) (
          subst (λ j. At j (visit_agent e conn s) (if not b then receive e c else c) b) p
            (flip b (visit_agent_self e conn s c b (rw (← p) at a)))))
]
  where
    flip :
        (b : Bool)
        → At conn (visit_agent e conn s) (if b then c else receive e c) b
        → At conn (visit_agent e conn s) (if not b then receive e c else c) b
    flip true v = v
    flip false v = v

-- The two loops in turn: who was reached by the first one is passed over by the second.
combine :
    (e : Envelope) (c : Client) (m w a : Bool)
    → (if a && not (m && w || false)
        then receive e (if m then if w then receive e c else c else c)
        else if m
        then if w then receive e c else c
        else c)
      ≡ (if m && w || a then receive e c else c)
combine e c true true true = refl
combine e c true true false = refl
combine e c true false true = refl
combine e c true false false = refl
combine e c false w true = refl
combine e c false w false = refl

members_only :
    (e : Envelope) (c : Client) (m w : Bool)
    → (if m then if w then receive e c else c else c) ≡ (if m && w || false then receive e c else c)
members_only e c true true = refl
members_only e c true false = refl
members_only e c false w = refl

lookup-fanout_sweep :
    (ix : Index) (e : Envelope) (n : Net) (k : Str) (c : Client)
    → Distinct (conns_of e.conv_id ix.by_conv)
    → Distinct (all_conns ix.agents)
    → lookup k n.clients ≡ some c
    → lookup k (fanout_sweep ix e n).net.clients
      ≡ some (
          if contains k (conns_of e.conv_id ix.by_conv) && wants e c
            || spills_to_agents e.type && contains k (all_conns ix.agents)
          then receive e c
          else c)
unfolding fanout_sweep contains
lookup-fanout_sweep ix e n k c members agents h =
    let start : Sweep = record { net = n; sent = []; result = no_targets } in
    let first =
      visit_members-At e (conns_of e.conv_id ix.by_conv) k start c false members
        (record { here = h; noted = refl }) in
    elim (Bool-cases (spills_to_agents e.type)) [
      | inl spill ↦ rw spill (
          (visit_agents-At e (all_conns ix.agents) k _ _ _ agents first).here
          ∙ ap some (combine e c _ (wants e c) _))
      | inr stay ↦ rw stay (first.here ∙ ap some (members_only e c _ (wants e c)))
    ]

-- fanoutLocal gives its frame to each connection that `reaches` names, once, and leaves every other
-- connection as it was. The sets of connections are to hold each connection once.
pub fanout_local-reaches :
    (ix : Index) (e : Envelope) (n : Net) (k : Str) (c : Client)
    → Distinct (conns_of e.conv_id ix.by_conv)
    → Distinct (all_conns ix.agents)
    → lookup k n.clients ≡ some c
    → lookup k (fanout_local ix e n).0.clients ≡ some (if reaches ix e k c then receive e c else c)
unfolding fanout_local reaches
fanout_local-reaches ix e n k c members agents h = elim (Bool-cases (is_empty e.conv_id)) [
  | inl none_named ↦ rw none_named h
  | inr named ↦ rw named (lookup-fanout_sweep ix e n k c members agents h)
]
