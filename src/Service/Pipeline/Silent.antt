-- ===== src/Service/Pipeline/Silent.antt =====
-- A blocked visitor's message, and one sent again, reach nobody else.
use custom_service.Common.{
  subst, sym, str_eq_iff, codes, ◌≢◌, ◌≡◌, refl, ◌∙◌, ◌||◌, ◌⊎◌, inl, inr, Bool, true, false, some,
  Option-cases, if_both, Str, is_empty, str_eq, lookup, modify, lookup-modify,
}
use custom_service.Ws.Protocol.{Envelope}
use custom_service.Ws.Client.{Client, with_conv, set_conversation_id, conversation_id}
use custom_service.Ws.Client.Sending.{send-other}
use custom_service.Ws.Hub.{Hub, Ambient, send_to}
use custom_service.Ws.Binding.{rebind_client, move_to_conv, mark_blocked}
use custom_service.Service.{
  Service, World, Message, Inserted, fresh, duplicate, conflict, failed, tell,
}
use custom_service.Service.Preprocess.{rebind}
use custom_service.Service.Pipeline.Cases.{persist_message-ends}
use custom_service.Service.Pipeline.{
  persist_message, fail_message, Job, by_visitor, by_agent, error_about, ack_of, save_failed_text,
  conflict_text, set_conv, check_blocked, note_blocked, send_ack, after_insert, store_message,
  store_live, build_msg,
}

-- Another connection is as it was, and nothing has left the hub.
pub record IsPrivate (k : Str) (before after : Hub) : Type 0 where
  pub untouched : lookup k after.net.clients ≡ lookup k before.net.clients
  pub unsaid : after.trace ≡ before.trace

module _ (S : Service) (now : Ambient) (j : Job) (k : Str) (h : Hub)
    (other : str_eq j.conn k ≡ false) where
  Private : World S → Type 0
  Private w = IsPrivate k h w.hub

  tell-Private : (e : Envelope) (w : World S) → Private w → Private (tell S j.conn e w)
  unfolding Private tell send_to
  tell-Private e w p = record {
    untouched = send-other j.conn k e w.hub.net other ∙ p.untouched;
    unsaid = p.unsaid;
  }

  write-Private :
      (g : Client → Client) (v : Hub)
      → IsPrivate k h v
      → IsPrivate k h
          (record v { net = record (v.net) { clients = modify j.conn g v.net.clients } })
  write-Private g v p = record {
    untouched = rw (lookup-modify j.conn k g v.net.clients, other) p.untouched;
    unsaid = p.unsaid;
  }

  set_conv-Private : (conv : Str) (w : World S) → Private w → Private (set_conv S j.conn conv w)
  unfolding Private set_conv set_conversation_id
  set_conv-Private conv w p = write-Private (with_conv conv) w.hub p

  rebind-Private : (conv : Str) (w : World S) → Private w → Private (rebind S j.conn conv w)
  unfolding Private rebind rebind_client move_to_conv set_conversation_id
  rebind-Private conv w p =
      let q = write-Private (with_conv conv) w.hub p in
      let moved : IsPrivate k h (move_to_conv j.conn conv w.hub) = record {
        untouched = q.untouched;
        unsaid = q.unsaid;
      } in
      if_both (IsPrivate k h) S.has_hub
        (if_both (IsPrivate k h) (is_empty conv || str_eq (conversation_id j.conn w.hub.net) conv) p
          moved)
        q

  check_blocked-Private : (w : World S) → Private w → Private (check_blocked S j w).0
  unfolding check_blocked note_blocked Private
  check_blocked-Private w p =
      if_both (λ (r : World S × Bool). IsPrivate k h r.0.hub) (by_visitor j)
        (elim (Option-cases (S.store.is_visitor_blocked j.client w.db)) [
          | inl e ↦ rw (e, check_blocked) p
          | inr (blocked, e) ↦ rw (e, check_blocked) (write-Private (mark_blocked blocked) w.hub p)
        ])
        p

  send_ack-Private :
      (ack : Envelope) (w : World S) → by_agent j ≡ false → Private w → Private (send_ack S j ack w)
  unfolding send_ack Private
  send_ack-Private ack w visits p =
      let told : Private (tell S j.conn ack w) = tell-Private ack w p in simp visits told

  -- What is not new, or blocked, is not broadcast.
  after_insert-Private :
      (e : Envelope) (blocked : Bool) (r : Inserted) (w : World S)
      → by_agent j ≡ false
      → (blocked ≡ true) ⊎ (r ≢ fresh)
      → Private w
      → Private (after_insert S now j e blocked r w)
  unfolding after_insert
  after_insert-Private e true fresh w visits why p =
      send_ack-Private (ack_of now j e.conv_id true) w visits p
  after_insert-Private e false fresh w visits why p =
      absurd (elim why [ inl c ↦ absurd (cc) | inr c ↦ c refl ])
  after_insert-Private e blocked duplicate w visits why p =
      send_ack-Private (ack_of now j e.conv_id false) w visits p
  after_insert-Private e blocked conflict w visits why p =
      tell-Private (error_about now e e.conv_id conflict_text) w p
  after_insert-Private e blocked failed w visits why p =
      tell-Private (error_about now e e.conv_id save_failed_text) w p

-- A state of the database in which the visitor is blocked, or in which no message with the ID is
-- inserted as a new one. Opening a conversation does not change that.
pub record IsHeld (S : Service) (j : Job) (Held : S.store.Db → Type 0) : Type 0 where
  pub kept :
      (db : S.store.Db) → Held db → Held (S.store.open_or_get_conversation j.site j.client db).0
  pub holds :
      ((db : S.store.Db) → Held db → S.store.is_visitor_blocked j.client db ≡ some true)
      ⊎ ((m : Message) (db : S.store.Db)
          → Held db
          → m.id ≡ j.snap.id
          → (S.store.insert_message_idempotent m db).1 ≢ fresh)

check_blocked-db : (S : Service) (j : Job) (w : World S) → (check_blocked S j w).0.db ≡ w.db
unfolding check_blocked note_blocked
check_blocked-db S j w =
    if_both (λ (r : World S × Bool). r.0.db ≡ w.db) (by_visitor j)
      (elim (Option-cases (S.store.is_visitor_blocked j.client w.db)) [
        | inl e ↦ rw (e, check_blocked) refl
        | inr (blocked, e) ↦ rw (e, check_blocked) refl
      ])
      refl

module _ (S : Service) (now : Ambient) (j : Job) (k : Str) (h : Hub)
    (other : str_eq j.conn k ≡ false) (visits : by_visitor j ≡ true) (no_agent : by_agent j ≡ false)
    (Held : S.store.Db → Type 0) (held : IsHeld S j Held) where
  why_silent :
      (conv : Str) (w : World S)
      → Held w.db
      → ((check_blocked S j w).1 ≡ true)
        ⊎ ((S.store.insert_message_idempotent
              (build_msg S now (record (j.snap) { conv_id = conv }) j.sender j.client)
              (check_blocked S j w).0.db).1
            ≢ fresh)
  unfolding check_blocked build_msg
  why_silent conv w b = elim held.holds [
    | inl blocked ↦ inl (rw visits (rw (blocked w.db b, check_blocked) refl))
    | inr known ↦ inr (known _ _ (subst Held (sym (check_blocked-db S j w)) b) refl)
  ]

  store_live-Private :
      (conv : Str) (w : World S)
      → Private S now j k h other w × Held w.db
      → Private S now j k h other (store_live S now j (w, some conv))
  unfolding store_live store_message Private
  store_live-Private conv w (p, b) =
      let c = check_blocked S j w in
      let e : Envelope = record (j.snap) { conv_id = conv } in
      let r = S.store.insert_message_idempotent (build_msg S now e j.sender j.client) c.0.db in
      after_insert-Private S now j k h other e c.1 r.1 (record (c.0) { db = r.0 }) no_agent
        (why_silent conv w b) (check_blocked-Private S now j k h other w p)

visitor-agent : (j : Job) → by_visitor j ≡ true → by_agent j ≡ false
unfolding by_visitor by_agent str_eq
visitor-agent j h =
    let p : j.sender ≡ codes "visitor" = (str_eq_iff j.sender (codes "visitor")).0 h in rw p refl

-- The message of a visitor whom the database says is blocked when the task begins, or whose ID it
-- would not take as new then, whether it is a retry, a conflict or the transaction fails. Opening a
-- conversation does not change what the database says of that. Every other connection is as it was,
-- and nothing is published, persisted or told to the hall. What the visitor's own connection gets is
-- not the concern here.
pub persist_message-IsPrivate :
    (S : Service) (now : Ambient) (j : Job) (k : Str) (w : World S) (Held : S.store.Db → Type 0)
    → str_eq j.conn k ≡ false
    → by_visitor j ≡ true
    → IsHeld S j Held
    → Held w.db
    → IsPrivate k w.hub (persist_message S now j w).hub
unfolding Private fail_message set_conv rebind
persist_message-IsPrivate S now j k w Held other visits held b =
    let B = λ (v : World S). Private S now j k w.hub other v × Held v.db in
    persist_message-ends S now j B (Private S now j k w.hub other)
      (λ v (p, q). (p, held.kept v.db q))
      (λ conv v bare (p, q). (set_conv-Private S now j k w.hub other conv v p, q))
      (λ conv v (p, q). (rebind-Private S now j k w.hub other conv v p, q))
      (λ v (p, q).
        tell-Private S now j k w.hub other (error_about now j.snap j.snap.conv_id save_failed_text)
          v p)
      (store_live-Private S now j k w.hub other visits (visitor-agent j visits) Held held) w
      (record { untouched = refl; unsaid = refl }, b)
