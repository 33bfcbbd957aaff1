-- ===== src/Service/Preprocess/Refused.antt =====
-- Which messages of an agent preprocessing refuses.
use custom_service.Service.Preprocess.Owned.{eq_ℤ→eq}
use custom_service.Service.Preprocess.{
  check_failed_text, not_owned_text, eq_ℤ, follow, take_over, follow_up, after_ownership,
  target_conv, preprocess_agent_message,
}
use custom_service.Common.{
  if◌then◌else◌, ◌≡◌, ◌≢◌, refl, sym, ap, ◌∙◌, ◌⊎◌, inl, inr, Bool, true, false, none, some, Option,
  if_cases, Option-cases, Str, is_empty, ℤ, pos, negsuc, arith,
}
use custom_service.Ws.Protocol.{Envelope}
use custom_service.Ws.Hub.{Ambient}
use custom_service.Service.{Service, World, actor_of, refuse}

-- An open conversation has followed on `conv`, and another agent serves it, or nobody does and it could
-- not be assigned to this one.
pub record IsTaken (S : Service) (w : World S) (conv agent : Str) : Type 0 where
  pub next : Str
  pub owner : ℤ
  pub followed : S.store.follow_up_conversation conv w.db ≡ some (next, owner)
  pub named : is_empty next ≡ false
  pub denied :
      ((owner ≡ pos 0) × ((S.store.assign_agent next (S.parse_int agent).0 w.db).1 ≡ false))
      ⊎ ((owner ≢ pos 0) × (owner ≢ (S.parse_int agent).0))

-- There is no conversation, or the database does not say that it is the agent's or nobody's, or the
-- one that has followed is not for the agent.
abbrev pub IsRefused : (S : Service) → World S → Str → Str → Type 0
IsRefused S w conv agent =
    (is_empty conv ≡ true)
    ⊎ (S.store.agent_owns_conversation conv agent w.db ≢ some true)
    ⊎ IsTaken S w conv agent

eq_ℤ_refl : (n : ℤ) → eq_ℤ n n ≡ true
unfolding eq_ℤ
eq_ℤ_refl (pos n) = ground arith
eq_ℤ_refl (negsuc n) = ground arith

eq_ℤ→ne : (m n : ℤ) → eq_ℤ m n ≡ false → m ≢ n
eq_ℤ→ne m n h e =
    let q : true ≡ false = sym (eq_ℤ_refl n) ∙ ap (λ z. eq_ℤ z n) (sym e) ∙ h in absurd (cc)

module _ (S : Service) (now : Ambient) (e : Envelope) (conn conv : Str) (w : World S) where
  -- A result that, where nothing passes, says so.
  Told : Type 0 → World S × Option Envelope → Type 0
  Told P r = r.1 ≡ none → P

  follow_up-Told :
      (next : Str) (owner : ℤ)
      → S.store.follow_up_conversation conv w.db ≡ some (next, owner)
      → is_empty next ≡ false
      → Told (IsTaken S w conv (actor_of S conn w)) (follow_up S now e conn conv next owner w)
  unfolding follow_up take_over follow refuse Told
  follow_up-Told next owner found named =
      let P = IsTaken S w conv (actor_of S conn w) in
      let id = (S.parse_int (actor_of S conn w)).0 in
      let r = S.store.assign_agent next id w.db in
      if_cases (Told P) (eq_ℤ owner (pos 0))
        (λ free.
          if_cases (Told P) r.1 (λ done q. absurd (cc))
            (λ broken q. record {
              next = next;
              owner = owner;
              followed = found;
              named = named;
              denied = inl (eq_ℤ→eq owner (pos 0) free, broken);
            }))
        (λ served.
          if_cases (Told P) (eq_ℤ owner id) (λ own q. absurd (cc))
            (λ other q. record {
              next = next;
              owner = owner;
              followed = found;
              named = named;
              denied = inr (eq_ℤ→ne owner (pos 0) served, eq_ℤ→ne owner id other);
            }))

  after_ownership-Told :
      Told (IsTaken S w conv (actor_of S conn w)) (after_ownership S now e conn conv w)
  unfolding after_ownership Told
  after_ownership-Told =
      let P = IsTaken S w conv (actor_of S conn w) in
      elim (Option-cases (S.store.follow_up_conversation conv w.db)) [
        | inl h ↦ rw (h, after_ownership) (λ q. absurd (cc))
        | inr (r, h) ↦
            rw (h, after_ownership)
              (if_cases (Told P) (is_empty r.0) (λ nothing q. absurd (cc))
                (follow_up-Told r.0 r.1 h))
      ]

pub preprocess_agent_message-IsRefused :
    (S : Service) (now : Ambient) (e : Envelope) (conn : Str) (w : World S)
    → (preprocess_agent_message S now e conn w).1 ≡ none
    → IsRefused S w (target_conv S e conn w) (actor_of S conn w)
unfolding preprocess_agent_message Told
preprocess_agent_message-IsRefused S now e conn w =
    if_cases (Told S now e conn conv w P) (is_empty conv) (λ nowhere q. inl nowhere)
      (λ named. go (S.store.agent_owns_conversation conv (actor_of S conn w) w.db) refl)
  where
    conv : Str
    conv = target_conv S e conn w

    P : Type 0
    P = IsRefused S w conv (actor_of S conn w)

    go :
        (o : Option Bool)
        → S.store.agent_owns_conversation conv (actor_of S conn w) w.db ≡ o
        → Told S now e conn conv w P (elim o [
          | none ↦ refuse S now conn e.id check_failed_text w
          | some own ↦
              if own
              then after_ownership S now e conn conv w
              else refuse S now conn e.id not_owned_text w
        ])
    go none f q = inr (inl (λ o. absurd (cc)))
    go (some true) f q = inr (inr (after_ownership-Told S now e conn conv w q))
    go (some false) f q = inr (inl (λ o. absurd (cc)))
