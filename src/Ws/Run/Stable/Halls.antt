-- ===== src/Ws/Run/Stable/Halls.antt =====
-- The hall: its fan-outs, subscriptions and frames.
use custom_service.Common.{
  inl, inr, ◌||◌, List, [], ◌++◌, Bool-cases, Option-cases, Str, codes, lookup, has_prefix, str_eq,
}
use custom_service.Ws.Protocol.{Envelope, hall_settings_enabled}
use custom_service.Ws.Client.{Net, send_all}
use custom_service.Ws.Index.{Index, hall_subscribe_conn}
use custom_service.Ws.Hub.{Hub, Ambient, stamped}
use custom_service.Ws.Hall.{
  hall_prefix, hall_subscribe, settings_targets, moderation_subs, moderation_extra, kicks,
  remove_all, deliver_hall_moderation, fanout_hall_local, broadcast_hall, handle_hall_incoming,
  hall_closed_frame,
}
use custom_service.Ws.Run.Stable.{Stable}
use custom_service.Ws.Run.Stable.Sends.{send_all-keeps}
use custom_service.Ws.Run.Stable.Moves.{On, publish-keeps, send_to-keeps}

module _ (Q : Index → Net → Type 0) (st : Stable Q) where
  deliver_hall_moderation-keeps :
      (e : Envelope) (h : Hub) → On Q h → On Q (deliver_hall_moderation e h)
  unfolding deliver_hall_moderation
  deliver_hall_moderation-keeps e h q =
      let subs = moderation_subs h.index e.to h.net in
      let out : Envelope = record e { to = []; node = [] } in
      let sent =
        send_all-keeps (Q h.index) (λ f. Unit {0}) (λ c f ok n. st.after_send c f h.index n)
          (subs ++ moderation_extra h.index e.to subs) out tt h.net q in
      elim (Bool-cases (kicks e)) [
        | inl out_they_go ↦
            rw out_they_go (st.after_hall (remove_all subs h.index.hall_subs) h.index _ sent)
        | inr stay ↦ rw stay sent
      ]

  all_told-keeps :
      (conns : List Str) (e : Envelope) (h : Hub) → On Q h → Q h.index (send_all conns e h.net)
  all_told-keeps conns e h q =
      send_all-keeps (Q h.index) (λ f. Unit {0}) (λ c f ok n. st.after_send c f h.index n) conns e
        tt h.net q

  pub fanout_hall_local-keeps : (e : Envelope) (h : Hub) → On Q h → On Q (fanout_hall_local e h)
  unfolding fanout_hall_local
  fanout_hall_local-keeps e h q =
      elim (Bool-cases
        (str_eq e.type (codes "hall_chat") || str_eq e.type (codes "hall_deleted"))) [
          | inl talk ↦ rw talk (all_told-keeps h.index.hall_subs e h q)
          | inr other ↦ elim (Bool-cases (str_eq e.type (codes "hall_settings"))) [
            | inl settings ↦ elim (Bool-cases (hall_settings_enabled e)) [
              | inl on ↦
                  rw (other, settings, on) (all_told-keeps (settings_targets h.index h.net) e h q)
              | inr off ↦
                  rw (other, settings, off)
                    (st.after_hall [] h.index _
                      (all_told-keeps (settings_targets h.index h.net) e h q))
            ]
            | inr other2 ↦ elim (Bool-cases (str_eq e.type (codes "hall_moderation"))) [
              | inl moderation ↦
                  rw (other, other2, moderation) (deliver_hall_moderation-keeps e h q)
              | inr unknown_type ↦ rw (other, other2, unknown_type) q
            ]
          ]
        ]

  pub broadcast_hall-keeps : (e : Envelope) (h : Hub) → On Q h → On Q (broadcast_hall e h)
  unfolding broadcast_hall
  broadcast_hall-keeps e h q = elim (Bool-cases (has_prefix e.type hall_prefix)) [
    | inl hall ↦ rw hall (
        publish-keeps Q st (stamped h e) (fanout_hall_local (stamped h e) h)
          (fanout_hall_local-keeps (stamped h e) h q))
    | inr other ↦ rw other q
  ]

  pub hall_subscribe-keeps : (conn : Str) (h : Hub) → On Q h → On Q (hall_subscribe conn h)
  unfolding hall_subscribe hall_subscribe_conn
  hall_subscribe-keeps conn h q = elim (Option-cases (lookup conn h.net.clients)) [
    | inl e ↦ rw (e, hall_subscribe) q
    | inr (c, e) ↦ elim (Bool-cases c.closed) [
      | inl shut ↦ rw (e, hall_subscribe) (rw shut q)
      | inr live ↦ rw (e, hall_subscribe) (rw live (st.after_hall _ h.index h.net q))
    ]
  ]

  pub handle_hall_incoming-keeps :
      (now : Ambient) (conn : Str) (e : Envelope) (h : Hub)
      → On Q h
      → On Q (handle_hall_incoming now conn e h)
  unfolding handle_hall_incoming
  handle_hall_incoming-keeps now conn e h q =
      elim (Bool-cases (
        str_eq e.type (codes "hall_subscribe")
        || str_eq e.type (codes "hall_unsubscribe")
        || str_eq e.type (codes "hall_chat"))) [
          | inl known ↦ elim (Bool-cases h.has_hall) [
            | inl there ↦ rw (known, there) q
            | inr closed ↦
                rw (known, closed) (send_to-keeps Q st conn (hall_closed_frame now e) h q)
          ]
          | inr other ↦ rw other q
        ]
