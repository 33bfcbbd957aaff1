-- ===== src/Ws/Hall/Kick.antt =====
-- Who leaves the hall when a visitor is put out of it.
use custom_service.Common.{
  ◌≡◌, refl, ap, ◌∙◌, inl, inr, Bool, false, ◌&&◌, not, some, List, [], ◌∷◌, ◌++◌, Bool-cases,
  Option-cases, Str, codes, str_eq, str_eq_iff, str_eq_refl, is_empty, has_prefix-append,
  trim_prefix-append, lookup, contains, contains-remove, arith, remove,
}
use custom_service.Ws.Protocol.{Envelope, visitor_prefix, hall_moderation_action}
use custom_service.Ws.Client.{is_visitor, Client, Net}
use custom_service.Ws.Index.{Index}
use custom_service.Ws.Hub.{Hub}
use custom_service.Ws.Hall.{
  hall_target_all_visitors, subs_where, remove_all, moderation_subs, kicks, deliver_hall_moderation,
}

contains-remove_all :
    (k : Str) (gone s : List Str)
    → contains k (remove_all gone s) ≡ not (contains k gone) && contains k s
unfolding remove_all contains
contains-remove_all k [] s = refl
contains-remove_all k (c ∷ cs) s =
    ground (arith, contains-remove_all k cs (remove c s), contains-remove c k s)

contains-subs_where :
    (p : Client → Bool) (k : Str) (s : List Str) (n : Net) (c : Client)
    → lookup k n.clients ≡ some c
    → contains k (subs_where p s n) ≡ p c && contains k s
unfolding subs_where contains
contains-subs_where p k [] n c there = elim (Bool-cases (p c)) [
  | inl y ↦ rw y refl
  | inr y ↦ rw y refl
]
contains-subs_where p k (j ∷ s) n c there =
    let rest = contains-subs_where p k s n c there in
    elim (Bool-cases (str_eq j k)) [
      | inl same ↦ rw ((str_eq_iff j k).0 same) (
          rw (there, subs_where)
            (elim (Bool-cases (p c)) [
              | inl y ↦ rw (y, str_eq_refl k) refl
              | inr y ↦ rw y (rw (rest, y) refl)
            ]))
      | inr other ↦ elim (Option-cases (lookup j n.clients)) [
        | inl e ↦ rw (e, subs_where) (rw (rest, other) refl)
        | inr (d, e) ↦ elim (Bool-cases (p d)) [
          | inl y ↦ rw (e, subs_where) (rw (y, other, rest) refl)
          | inr y ↦ rw (e, subs_where) (rw (y, other, rest) refl)
        ]
      ]
    ]

moderation_subs-visitor :
    (ix : Index) (vid : Str) (n : Net)
    → is_empty vid ≡ false
    → moderation_subs ix (visitor_prefix ++ vid) n
      ≡ subs_where (λ c. is_visitor c && str_eq c.id vid) ix.hall_subs n
unfolding moderation_subs str_eq
moderation_subs-visitor ix vid n named =
    rw (has_prefix-append visitor_prefix vid, trim_prefix-append visitor_prefix vid, named) refl

no_broadcast : (vid : Str) → str_eq (visitor_prefix ++ vid) hall_target_all_visitors ≡ false
unfolding str_eq
no_broadcast vid = refl

kicks-visitor :
    (vid : Str) (e : Envelope)
    → e.to ≡ visitor_prefix ++ vid
    → kicks e ≡ str_eq (hall_moderation_action e) (codes "kicked")
unfolding kicks
kicks-visitor vid e to =
    rw (ap (λ s. str_eq s hall_target_all_visitors) to ∙ no_broadcast vid)
      (elim (Bool-cases (str_eq (hall_moderation_action e) (codes "kicked"))) [
        | inl y ↦ rw y refl
        | inr y ↦ rw y refl
      ])

-- A moderation notice addressed to a visitor by its ID, which is not empty. If it is a kick, then of
-- the connections in the heap the ones that stay subscribed to the hall are those that were and do
-- not belong to that visitor; if it is none, all of them stay.
pub deliver_hall_moderation-subs :
    (vid k : Str) (c : Client) (e : Envelope) (h : Hub)
    → e.to ≡ visitor_prefix ++ vid
    → is_empty vid ≡ false
    → lookup k h.net.clients ≡ some c
    → contains k (deliver_hall_moderation e h).index.hall_subs
      ≡ contains k h.index.hall_subs
        && not
            (str_eq (hall_moderation_action e) (codes "kicked") && is_visitor c && str_eq c.id vid)
unfolding deliver_hall_moderation
deliver_hall_moderation-subs vid k c e h to named there =
    let his = λ (c : Client). is_visitor c && str_eq c.id vid in
    rw (kicks-visitor vid e to)
      (elim (Bool-cases (str_eq (hall_moderation_action e) (codes "kicked"))) [
        | inr kept ↦ rw kept (ground arith)
        | inl kicked ↦
            rw (kicked, to, moderation_subs-visitor h.index vid h.net named)
              (rw
                (
                  contains-remove_all k (subs_where his h.index.hall_subs h.net) h.index.hall_subs,
                  contains-subs_where his k h.index.hall_subs h.net c there,
                )
                (ground arith))
      ])
