-- ===== src/Ws/Registry/Left.antt =====
-- What the parts of handleUnregister leave behind: each map without the connection.
use custom_service.Common.{
  ◌≡◌, refl, sym, ap, ◌∙◌, inl, inr, true, false, none, some, List, [], ◌∷◌, Bool-cases,
  Option-cases, Str, str_eq, str_eq_iff, str_eq_refl, lookup, delete, modify, lookup-delete,
  contains, remove, contains-remove, contains-append, Map, Entries, Entries-lookup, Entries-map,
  Entries-modify_key, Entries-delete_key, Entries-missing, arith,
}
use custom_service.Ws.Client.{Kind, visitor, agent, Client, Net}
use custom_service.Ws.Index.{Index, all_conns, detach_conv, remove_agent_conn}
use custom_service.Ws.Registry.{forget_visitor}
use custom_service.Ws.Registry.Invariant.{Holds, HoldsAll, IsIndexed}
use custom_service.Ws.Registry.Bound.{IsBound, Freed, conv-of, detached}

without_in_all :
    (conn : Str) (m : Map (List Str))
    → Entries (λ k s. contains conn s ≡ false) m
    → contains conn (all_conns m) ≡ false
unfolding all_conns contains
without_in_all conn [] h = refl
without_in_all conn ((k, s) ∷ m) h =
    rw (contains-append conn s (all_conns m), h.0) (without_in_all conn m h.1)

-- A set in which all that is held differs from `conn`.
differ :
    (conn : Str) (s : List Str)
    → ((k : Str) → contains k s ≡ true → str_eq conn k ≡ false)
    → contains conn s ≡ false
differ conn s h = elim (Bool-cases (contains conn s)) [
  | inr gone ↦ gone
  | inl here ↦ let p = h conn here in let q = str_eq_refl conn in absurd (cc)
]

pub removed : (conn : Str) (s : List Str) → contains conn (remove conn s) ≡ false
removed conn s = rw (contains-remove conn conn s, str_eq_refl conn) refl

pub left_conv :
    (conn : Str) (c : Client) (ix : Index) (n : Net)
    → lookup conn n.clients ≡ some c
    → IsBound ix n
    → contains conn (all_conns (detach_conv conn c.conv_id ix).by_conv) ≡ false
left_conv conn c ix n there b = without_in_all conn (detach_conv conn c.conv_id ix).by_conv (
    rw (← conv-of conn c.conv_id n (c, there, refl)) (
      Entries-map (Freed conn n) (λ k s. contains conn s ≡ false) _
        (λ cv s p. differ conn s (λ k h. (p.1 k h).0)) (detached conn ix n b)))

-- Whose connection it is.
pub owner :
    (kind : Kind) (id conn : Str) (c : Client) (n : Net)
    → lookup conn n.clients ≡ some c
    → Holds kind id n conn
    → (c.kind ≡ kind) × (c.id ≡ id)
owner kind id conn c n there (d, e, _, k, i) =
    let q : some d ≡ some c = sym e ∙ there in
    let p : d ≡ c = cc in (ap (λ x. x.kind) (sym p) ∙ k, ap (λ x. x.id) (sym p) ∙ i)

-- Under another account there is no such connection.
not_theirs :
    (conn : Str) (c : Client) (n : Net) (aid : Str) (s : List Str)
    → lookup conn n.clients ≡ some c
    → str_eq aid c.id ≡ false
    → HoldsAll n aid s
    → contains conn s ≡ false
not_theirs conn c n aid s there other held = elim (Bool-cases (contains conn s)) [
  | inr gone ↦ gone
  | inl here ↦
      let p : c.id ≡ aid = (owner agent aid conn c n there (held conn here)).1 in
      let q : str_eq aid c.id ≡ true = (str_eq_iff aid c.id).1 (sym p) in absurd (cc)
]

pub left_agents :
    (conn : Str) (c : Client) (ix : Index) (n : Net)
    → lookup conn n.clients ≡ some c
    → IsIndexed ix n
    → contains conn (all_conns (remove_agent_conn c.id conn ix).agents) ≡ false
unfolding remove_agent_conn
left_agents conn c ix n there v = elim (Option-cases (lookup c.id ix.agents)) [
  | inl e ↦
      rw (e, remove_agent_conn)
        (without_in_all conn ix.agents (
          Entries-missing (HoldsAll n) (λ k s. contains conn s ≡ false) ix.agents c.id e
            (λ j s other held. not_theirs conn c n j s there other held) v.agents_held))
  | inr (s, e) ↦ rw (e, remove_agent_conn) (go (remove conn s))
]
  where
    go :
        (left : List Str)
        → contains conn (
            all_conns
              (elim left as (λ l. Index) [
                | [] ↦ record ix { agents = delete c.id ix.agents }
                | _ ∷ _ ↦ record ix { agents = modify c.id (remove conn) ix.agents }
              ]).agents)
          ≡ false
    go [] = without_in_all conn (delete c.id ix.agents) (
        Entries-delete_key (HoldsAll n) (λ k s. contains conn s ≡ false) ix.agents c.id
          (λ j s other held. not_theirs conn c n j s there other held) v.agents_held)
    go (x ∷ xs) = without_in_all conn (modify c.id (remove conn) ix.agents) (
        Entries-modify_key (HoldsAll n) (λ k s. contains conn s ≡ false) ix.agents c.id
          (remove conn) (λ s held. removed conn s)
          (λ j s other held. not_theirs conn c n j s there other held) v.agents_held)

-- A visitor's connection is not among the agents'.
pub no_agent :
    (conn : Str) (c : Client) (ix : Index) (n : Net)
    → lookup conn n.clients ≡ some c
    → c.kind ≡ visitor
    → IsIndexed ix n
    → contains conn (all_conns ix.agents) ≡ false
no_agent conn c ix n there theirs v = without_in_all conn ix.agents (
    Entries-map (HoldsAll n) (λ k s. contains conn s ≡ false) ix.agents
      (λ aid s held. elim (Bool-cases (contains conn s)) [
        | inr gone ↦ gone
        | inl here ↦
            let p : c.kind ≡ agent = (owner agent aid conn c n there (held conn here)).0 in
            absurd (cc)
      ])
      v.agents_held)

pub left_visitors :
    (vid conn : Str) (c : Client) (ix : Index) (n : Net)
    → lookup conn n.clients ≡ some c
    → IsIndexed ix n
    → lookup vid (forget_visitor c.id conn ix).visitors ≡ some conn
    → ⊥
unfolding forget_visitor
left_visitors vid conn c ix n there v = elim (Option-cases (lookup c.id ix.visitors)) [
  | inl e ↦
      rw (e, forget_visitor)
        (λ h.
          let p : c.id ≡ vid = mine h in
          let q : lookup vid ix.visitors ≡ none = rw (← p) e in absurd (cc))
  | inr (current, e) ↦ elim (Bool-cases (str_eq current conn)) [
    | inr other ↦
        rw (e, forget_visitor)
          (rw other (λ h.
            let p : c.id ≡ vid = mine h in
            let q : lookup vid ix.visitors ≡ some current = rw (← p) e in
            let r : some current ≡ some conn = sym q ∙ h in
            let s : current ≡ conn = cc in
            let t : str_eq current conn ≡ true = (str_eq_iff current conn).1 s in absurd (cc)))
    | inl same ↦
        rw (e, forget_visitor)
          (rw same (λ h. elim (Bool-cases (str_eq c.id vid)) [
            | inl his ↦ absurd (ground (arith, lookup-delete c.id vid ix.visitors))
            | inr another ↦
                let still : lookup vid ix.visitors ≡ some conn =
                  ground (arith, lookup-delete c.id vid ix.visitors) in
                let p : str_eq c.id vid ≡ true = (str_eq_iff c.id vid).1 (mine still) in absurd (cc)
          ]))
  ]
]
  where
    mine : lookup vid ix.visitors ≡ some conn → c.id ≡ vid
    mine h =
        (owner visitor vid conn c n there (
          Entries-lookup (λ vid conn. Holds visitor vid n conn) ix.visitors vid conn v.visitors_held
            h)).1
