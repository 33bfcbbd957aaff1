-- ===== src/Service/Pipeline/Cases.antt =====
-- The way of a message through PersistMessageAsync, as a rule: what holds before it, what its steps
-- keep, and what its ends lead to.
use custom_service.Common.{
  ◌≡◌, ◌&&◌, inl, inr, true, none, some, Option, Bool-cases, Option-cases, Str, is_empty,
}
use custom_service.Ws.Hub.{Ambient}
use custom_service.Service.{Service, World}
use custom_service.Service.Preprocess.{rebind}
use custom_service.Service.Pipeline.{
  Job, by_visitor, fail_message, set_conv, open_conv, first_conv, reopen, is_deleted, live_conv,
  store_live, store_first, persist_message,
}

-- `B` holds until the conversation is known, and `A` at the end.
module _ (S : Service) (now : Ambient) (j : Job) (B A : World S → Type 0)
    (on_open : (w : World S)
      → B w
      → B (record w { db = (S.store.open_or_get_conversation j.site j.client w.db).0 }))
    (on_set : (conv : Str) (w : World S)
      → (is_empty j.conv && by_visitor j) ≡ true
      → B w
      → B (set_conv S j.conn conv w))
    (on_rebind : (conv : Str) (w : World S) → B w → B (rebind S j.conn conv w))
    (on_fail : (w : World S) → B w → A (fail_message S now j w))
    (on_conv : (conv : Str) (w : World S) → B w → A (store_live S now j (w, some conv))) where
  -- A world before the end, or one at the end.
  Reached : World S × Option Str → Type 0
  Reached (w, none) = A w
  Reached (w, some conv) = B w

  reopen-Reached : (w : World S) → B w → Reached (reopen S now j w)
  unfolding reopen Reached
  reopen-Reached w b =
      let r = S.store.open_or_get_conversation j.site j.client w.db in
      let w' : World S = record w { db = r.0 } in
      elim (Option-cases r.1) [
        | inl h ↦ rw (h, reopen) (on_fail w' (on_open w b))
        | inr (c, h) ↦ rw (h, reopen) (on_rebind c w' (on_open w b))
      ]

  live_conv-Reached : (conv : Str) (w : World S) → B w → Reached (live_conv S now j conv w)
  unfolding live_conv Reached
  live_conv-Reached conv w b = elim (Bool-cases (by_visitor j && is_deleted S conv w)) [
    | inl gone ↦ rw gone (reopen-Reached w b)
    | inr live ↦ rw live b
  ]

  first_conv-Reached : (w : World S) → B w → Reached (first_conv S now j w)
  unfolding first_conv open_conv Reached
  first_conv-Reached w b = elim (Bool-cases (is_empty j.conv && by_visitor j)) [
    | inl bare ↦
        let r = S.store.open_or_get_conversation j.site j.client w.db in
        let w' : World S = record w { db = r.0 } in
        elim (Option-cases r.1) [
          | inl h ↦ rw bare (rw (h, open_conv) (on_fail w' (on_open w b)))
          | inr (c, h) ↦ rw bare (rw (h, open_conv) (on_set c w' bare (on_open w b)))
        ]
    | inr named ↦ rw named b
  ]

  store_live-ends : (r : World S × Option Str) → Reached r → A (store_live S now j r)
  unfolding store_live Reached
  store_live-ends (w, none) a = a
  store_live-ends (w, some conv) b = on_conv conv w b

  store_first-ends : (r : World S × Option Str) → Reached r → A (store_first S now j r)
  unfolding store_first Reached
  store_first-ends (w, none) a = a
  store_first-ends (w, some conv) b =
      store_live-ends (live_conv S now j conv w) (live_conv-Reached conv w b)

  pub persist_message-ends : (w : World S) → B w → A (persist_message S now j w)
  unfolding persist_message
  persist_message-ends w b = store_first-ends (first_conv S now j w) (first_conv-Reached w b)
