-- ===== src/Ws/Registry/Bound.antt =====
-- The invariant that ties `by_conv` to the conversations of the connections, and the operations on
-- the index that keep it.
use custom_service.Common.{
  ◌≡◌, refl, sym, inl, inr, true, false, Option, none, some, List, [], ◌∷◌, Bool-cases,
  Option-cases, Str, str_eq, str_eq_iff, is_empty, lookup, delete, modify, lookup-modify, contains,
  add, remove, contains-add, contains-remove, Entries, Entries-lookup, Entries-store, Entries-map,
  Entries-modify, Entries-modify_key, arith,
}
use custom_service.Ws.Client.{Client, Net, with_conv, set_conversation_id, conversation_id}
use custom_service.Ws.Index.{Index, conns_of, attach_conv, detach_conv, remove_agent_conn}
use custom_service.Ws.Registry.{forget_visitor}
use custom_service.Ws.Registry.Invariant.{not_in_empty}

abbrev pub BoundTo : Str → Net → Str → Type 0
BoundTo conv n k = (c : Client) × (lookup k n.clients ≡ some c) × (c.conv_id ≡ conv)

abbrev pub AllBoundTo : Net → Str → List Str → Type 0
AllBoundTo n conv s = (is_empty conv ≡ false) × ((k : Str) → contains k s ≡ true → BoundTo conv n k)

-- Every connection under a conversation of `by_conv` is bound to it, and it has a name.
abbrev pub IsBound : Index → Net → Type 0
IsBound ix n = Entries (AllBoundTo n) ix.by_conv

abbrev pub KeepsConvs : Net → Net → Type 0
KeepsConvs m n = (conv k : Str) → BoundTo conv n k → BoundTo conv m k

pub IsBound-keep : (ix : Index) (m n : Net) → KeepsConvs m n → IsBound ix n → IsBound ix m
IsBound-keep ix m n keep b =
    Entries-map _ _ ix.by_conv (λ conv s p. (p.0, λ k h. keep conv k (p.1 k h))) b

-- A write of the conversation of `conn` leaves the others bound as they were.
others_bound :
    (conn conv other k : Str) (n : Net)
    → str_eq conn k ≡ false
    → BoundTo other n k
    → BoundTo other (set_conversation_id conn conv n) k
unfolding set_conversation_id
others_bound conn conv other k n ne (c, h, p) =
    (c, rw (lookup-modify conn k (with_conv conv) n.clients, ne, h), p)

pub conv-of : (conn conv : Str) (n : Net) → BoundTo conv n conn → conversation_id conn n ≡ conv
unfolding conversation_id
conv-of conn conv n (c, h, p) = rw (h, conversation_id) p

empty_named : is_empty [] ≡ false → ⊥
unfolding is_empty
empty_named h = absurd (cc)

pub bound_self :
    (conn : Str) (n : Net)
    → is_empty (conversation_id conn n) ≡ false
    → BoundTo (conversation_id conn n) n conn
unfolding conversation_id
bound_self conn n named = go (lookup conn n.clients) refl
  where
    go : (o : Option Client) → lookup conn n.clients ≡ o → BoundTo (conversation_id conn n) n conn
    go none e =
        let p : conversation_id conn n ≡ [] = rw (e, conversation_id) refl in
        absurd (empty_named (rw p at named))
    go (some c) e = (c, e, sym (conv-of conn c.conv_id n (c, e, refl)))

-- The sets without `conn`, all others bound.
abbrev pub Freed : Str → Net → Str → List Str → Type 0
Freed conn n conv s =
    (is_empty conv ≡ false)
    × ((k : Str) → contains k s ≡ true → (str_eq conn k ≡ false) × BoundTo conv n k)

-- Where its conversation is another one, `conn` is not among the bound.
elsewhere :
    (conn conv k : Str) (n : Net)
    → str_eq conv (conversation_id conn n) ≡ false
    → BoundTo conv n k
    → str_eq conn k ≡ false
elsewhere conn conv k n other b = elim (Bool-cases (str_eq conn k)) [
  | inr ne ↦ ne
  | inl same ↦
      let here : BoundTo conv n conn = rw ((str_eq_iff conn k).0 same) b in
      let p : conv ≡ conversation_id conn n = sym (conv-of conn conv n here) in
      let q : str_eq conv (conversation_id conn n) ≡ true =
        (str_eq_iff conv (conversation_id conn n)).1 p in
      absurd (cc)
]

pub detached :
    (conn : Str) (ix : Index) (n : Net)
    → IsBound ix n
    → Entries (Freed conn n) (detach_conv conn (conversation_id conn n) ix).by_conv
unfolding detach_conv
detached conn ix n b = elim (Bool-cases (is_empty (conversation_id conn n))) [
  | inl unbound ↦ rw unbound (
      Entries-map (AllBoundTo n) (Freed conn n) ix.by_conv
        (λ conv s p.
          (p.0, λ k h. (elsewhere conn conv k n (apart conv p.0 unbound) (p.1 k h), p.1 k h)))
        b)
  | inr bound ↦ rw bound (
      Entries-modify_key (AllBoundTo n) (Freed conn n) ix.by_conv (conversation_id conn n)
        (remove conn) (λ s p. (p.0, λ k h. (left k s h, p.1 k (still k s h))))
        (λ conv s other p. (p.0, λ k h. (elsewhere conn conv k n other (p.1 k h), p.1 k h))) b)
]
  where
    apart :
        (conv : Str)
        → is_empty conv ≡ false
        → is_empty (conversation_id conn n) ≡ true
        → str_eq conv (conversation_id conn n) ≡ false
    apart conv named unbound = ground (arith, str_eq_iff conv (conversation_id conn n))

    left : (k : Str) (s : List Str) → contains k (remove conn s) ≡ true → str_eq conn k ≡ false
    left k s h = ground (arith, contains-remove conn k s)

    still : (k : Str) (s : List Str) → contains k (remove conn s) ≡ true → contains k s ≡ true
    still k s h = ground (arith, contains-remove conn k s)

pub attached :
    (conn conv : Str) (ix : Index) (n : Net)
    → (is_empty conv ≡ false → BoundTo conv n conn)
    → IsBound ix n
    → IsBound (attach_conv conn conv ix) n
unfolding attach_conv conns_of
attached conn conv ix n own b = elim (Bool-cases (is_empty conv)) [
  | inl unnamed ↦ rw unnamed b
  | inr named ↦ rw named (
      Entries-store (AllBoundTo n) ix.by_conv conv (add conn (conns_of conv ix.by_conv))
        (
          named,
          λ k h. elim (Bool-cases (str_eq conn k)) [
            | inl same ↦ rw (← (str_eq_iff conn k).0 same) (own named)
            | inr ne ↦ members k (ground (arith, contains-add conn k (conns_of conv ix.by_conv)))
          ],
        )
        b)
]
  where
    members : (k : Str) → contains k (conns_of conv ix.by_conv) ≡ true → BoundTo conv n k
    members k = elim (Option-cases (lookup conv ix.by_conv)) [
      | inl e ↦ rw (e, conns_of) (λ h. absurd (not_in_empty k h))
      | inr (s, e) ↦ rw (e, conns_of) ((Entries-lookup (AllBoundTo n) ix.by_conv conv s b e).1 k)
    ]

-- After `conn` is taken out of its set its own binding may change.
pub rebound :
    (conn conv : Str) (ix : Index) (n : Net)
    → IsBound ix n
    → IsBound (detach_conv conn (conversation_id conn n) ix) (set_conversation_id conn conv n)
rebound conn conv ix n b =
    Entries-map (Freed conn n) (AllBoundTo (set_conversation_id conn conv n))
      (detach_conv conn (conversation_id conn n) ix).by_conv
      (λ cv s p. (p.0, λ k h. others_bound conn conv cv k n (p.1 k h).0 (p.1 k h).1))
      (detached conn ix n b)

pub detach-IsBound :
    (conn conv : Str) (ix : Index) (n : Net) → IsBound ix n → IsBound (detach_conv conn conv ix) n
unfolding detach_conv
detach-IsBound conn conv ix n b = elim (Bool-cases (is_empty conv)) [
  | inl unnamed ↦ rw unnamed b
  | inr named ↦ rw named (
      Entries-modify (AllBoundTo n) ix.by_conv conv (remove conn)
        (λ cv s p. (p.0, λ k h. p.1 k (ground (arith, contains-remove conn k s)))) b)
]

pub forget-IsBound :
    (vid conn : Str) (ix : Index) (n : Net) → IsBound ix n → IsBound (forget_visitor vid conn ix) n
unfolding forget_visitor
forget-IsBound vid conn ix n b = elim (Option-cases (lookup vid ix.visitors)) [
  | inl e ↦ rw (e, forget_visitor) b
  | inr (current, e) ↦ elim (Bool-cases (str_eq current conn)) [
    | inl same ↦ rw (e, forget_visitor) (rw same b)
    | inr other ↦ rw (e, forget_visitor) (rw other b)
  ]
]

pub remove-IsBound :
    (aid conn : Str) (ix : Index) (n : Net)
    → IsBound ix n
    → IsBound (remove_agent_conn aid conn ix) n
unfolding remove_agent_conn
remove-IsBound aid conn ix n b = elim (Option-cases (lookup aid ix.agents)) [
  | inl e ↦ rw (e, remove_agent_conn) b
  | inr (s, e) ↦ rw (e, remove_agent_conn) (go (remove conn s))
]
  where
    go :
        (left : List Str)
        → IsBound
            (elim left [
              | [] ↦ record ix { agents = delete aid ix.agents }
              | _ ∷ _ ↦ record ix { agents = modify aid (remove conn) ix.agents }
            ])
            n
    go [] = b
    go (x ∷ xs) = b
