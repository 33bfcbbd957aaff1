-- ===== src/Service/Preprocess/Owned.antt =====
-- Which messages of an agent pass preprocessing, and where they go.
use custom_service.Common.{
  ◌≡◌, refl, ap, subst, ◌⊎◌, inl, inr, Bool, true, false, none, some, Option, if_cases, Bool-cases,
  Option-cases, Str, is_empty, ℤ, pos, negsuc, arith, if◌then◌else◌,
}
use custom_service.Ws.Protocol.{Envelope, absent}
use custom_service.Ws.Hub.{Ambient}
use custom_service.Security.RateLimit.Windows.{some_inj, no_some}
use custom_service.Service.{Service, World, actor_of, refuse}
use custom_service.Service.Preprocess.{
  check_failed_text, not_owned_text, agent_conv_forbidden_text, clean, eq_ℤ, requested, follow,
  take_over, follow_up, after_ownership, target_conv, preprocess_agent_message,
}

pub eq_ℤ→eq : (m n : ℤ) → eq_ℤ m n ≡ true → m ≡ n
unfolding eq_ℤ
eq_ℤ→eq (pos m) (pos n) h = let p : m ≡ n = ground (arith, h) in ap pos p
eq_ℤ→eq (negsuc m) (negsuc n) h = let p : m ≡ n = ground (arith, h) in ap negsuc p
eq_ℤ→eq (pos m) (negsuc n) h = absurd (cc)
eq_ℤ→eq (negsuc m) (pos n) h = absurd (cc)

-- The message `out` goes to the conversation `conv` that it was meant for, and brings no fields of
-- the client's along.
pub record Stays (conv : Str) (out : Envelope) : Type 0 where
  pub same_conv : out.conv_id ≡ conv
  pub no_extra : out.extra ≡ absent

-- It goes on to the open conversation that has followed a closed one, which the agent serves, or
-- nobody served until it was assigned to the agent just now.
pub record Follows (S : Service) (w : World S) (conv : Str) (agent : Str) (out : Envelope)
    : Type 0 where
  pub owner : ℤ
  pub followed : S.store.follow_up_conversation conv w.db ≡ some (out.conv_id, owner)
  pub named : is_empty out.conv_id ≡ false
  pub allowed :
      (owner ≡ (S.parse_int agent).0)
      ⊎ ((owner ≡ pos 0) × ((S.store.assign_agent out.conv_id (S.parse_int agent).0 w.db).1 ≡ true))
  pub asked : out.extra ≡ requested conv

abbrev pub Passed : (S : Service) → World S → Str → Str → Envelope → Type 0
Passed S w conv agent out = Stays conv out ⊎ Follows S w conv agent out

-- The results that say so of what they let through.
abbrev pub IsChecked : (S : Service) → World S → Str → Str → World S × Option Envelope → Type 0
IsChecked S w conv agent r = (out : Envelope) → r.1 ≡ some out → Passed S w conv agent out

module _ (S : Service) (now : Ambient) (e : Envelope) (conn conv : Str) (w : World S) where
  Checked : World S × Option Envelope → Type 0
  Checked r = IsChecked S w conv (actor_of S conn w) r

  refuse-Checked : (content : Str) (v : World S) → Checked (refuse S now conn e.id content v)
  unfolding refuse Checked
  refuse-Checked content v out h = absurd (no_some out h)

  follow-Checked :
      (next : Str) (owner : ℤ) (v : World S)
      → S.store.follow_up_conversation conv w.db ≡ some (next, owner)
      → is_empty next ≡ false
      → (owner ≡ (S.parse_int (actor_of S conn w)).0)
        ⊎ ((owner ≡ pos 0)
            × ((S.store.assign_agent next (S.parse_int (actor_of S conn w)).0 w.db).1 ≡ true))
      → Checked (follow S e conn conv next v)
  unfolding follow Checked clean
  follow-Checked next owner v found named allowed out h =
      let sent : Envelope = clean S (record e { extra = requested conv; conv_id = next }) in
      subst (Passed S w conv (actor_of S conn w)) (some_inj sent out h) (
        inr (record {
          owner = owner;
          followed = found;
          named = named;
          allowed = allowed;
          asked = refl;
        }))

  take_over-Checked :
      (next : Str) (owner : ℤ)
      → S.store.follow_up_conversation conv w.db ≡ some (next, owner)
      → is_empty next ≡ false
      → owner ≡ pos 0
      → Checked (take_over S now e conn conv next (S.parse_int (actor_of S conn w)).0 w)
  unfolding take_over
  take_over-Checked next owner found named free =
      let r = S.store.assign_agent next (S.parse_int (actor_of S conn w)).0 w.db in
      let v : World S = record w { db = r.0 } in
      elim (Bool-cases r.1) [
        | inl done ↦ rw done (follow-Checked next owner v found named (inr (free, done)))
        | inr broken ↦ rw broken (refuse-Checked check_failed_text v)
      ]

  follow_up-Checked :
      (next : Str) (owner : ℤ)
      → S.store.follow_up_conversation conv w.db ≡ some (next, owner)
      → is_empty next ≡ false
      → Checked (follow_up S now e conn conv next owner w)
  unfolding follow_up
  follow_up-Checked next owner found named =
      let id = (S.parse_int (actor_of S conn w)).0 in
      elim (Bool-cases (eq_ℤ owner (pos 0))) [
        | inl free ↦ rw free (take_over-Checked next owner found named (eq_ℤ→eq owner (pos 0) free))
        | inr taken ↦ elim (Bool-cases (eq_ℤ owner id)) [
          | inl own ↦
              rw (taken, own) (follow-Checked next owner w found named (inl (eq_ℤ→eq owner id own)))
          | inr other ↦ rw (taken, other) (refuse-Checked agent_conv_forbidden_text w)
        ]
      ]

  stay-Checked : Checked (w, some (clean S (record e { extra = absent; conv_id = conv })))
  unfolding Checked clean
  stay-Checked out h =
      let sent : Envelope = clean S (record e { extra = absent; conv_id = conv }) in
      subst (Passed S w conv (actor_of S conn w)) (some_inj sent out h)
        (inl (record { same_conv = refl; no_extra = refl }))

  after_ownership-Checked : Checked (after_ownership S now e conn conv w)
  unfolding after_ownership
  after_ownership-Checked = elim (Option-cases (S.store.follow_up_conversation conv w.db)) [
    | inl h ↦ rw (h, after_ownership) stay-Checked
    | inr (r, h) ↦
        rw (h, after_ownership)
          (if_cases Checked (is_empty r.0) (λ nothing. stay-Checked) (follow_up-Checked r.0 r.1 h))
  ]

-- A message of an agent passes only where its conversation, the one it names or else the
-- connection's, is the agent's or nobody's by the database. It goes there, unless the conversation is
-- closed and an open one has followed: then it goes to that one, if the agent serves it, or nobody
-- did and it was assigned to the agent. No field of the client's own goes along.
pub preprocess_agent_message-Passed :
    (S : Service) (now : Ambient) (e : Envelope) (conn : Str) (w : World S) (out : Envelope)
    → (preprocess_agent_message S now e conn w).1 ≡ some out
    → (is_empty (target_conv S e conn w) ≡ false)
      × (S.store.agent_owns_conversation (target_conv S e conn w) (actor_of S conn w) w.db
          ≡ some true)
      × Passed S w (target_conv S e conn w) (actor_of S conn w) out
unfolding preprocess_agent_message Checked
preprocess_agent_message-Passed S now e conn w out h =
    if_cases Told (is_empty conv) (λ nowhere o q. absurd (no_some o q))
      (λ named. go named owned refl) out h
  where
    conv : Str
    conv = target_conv S e conn w

    owned : Option Bool
    owned = S.store.agent_owns_conversation conv (actor_of S conn w) w.db

    Told : World S × Option Envelope → Type 0
    Told r =
        (o : Envelope)
        → r.1 ≡ some o
        → (is_empty conv ≡ false) × (owned ≡ some true) × Passed S w conv (actor_of S conn w) o

    go :
        is_empty conv ≡ false
        → (answer : Option Bool) → owned ≡ answer
        → Told (elim answer [
          | none ↦ refuse S now conn e.id check_failed_text w
          | some own ↦
              if own
              then after_ownership S now e conn conv w
              else refuse S now conn e.id not_owned_text w
        ])
    go named none f o q = absurd (no_some o q)
    go named (some true) f o q = (named, f, after_ownership-Checked S now e conn conv w o q)
    go named (some false) f o q = absurd (no_some o q)
