-- ===== src/Ws/Voice/Expiry.antt =====
-- A call that an agent has accepted is kept for half an hour by its entry, and yet forgotten when
-- the timer of its first half minute runs out.
use custom_service.Ws.Hub.{
  Timer, watchdog, forget_finished, watchdog_took, watchdog_passed, Hub, Calls, PendingCall,
  Ambient, forget_call,
}
use custom_service.Ws.Voice.{
  disarm, same_timer, watch, call_buffer_ttl, talk, call_talking_ttl, start_call, accept_call,
  stop_watchdog, arm, with_calls, visitor_of_call,
}
use custom_service.Ws.Voice.Watchdog.{fire}
use custom_service.Ws.Run.{is_armed}
use custom_service.Common.{
  ℕ, List, [], ◌∷◌, ◌||◌, ap, ◌∙◌, ◌==◌, if_both, str_eq, true, ◌≡◌, refl, inl, inr, false, none,
  some, Option-cases, Str, str_eq_refl, is_empty, lookup, lookup-store, lookup-delete,
  lookup-modify, ◌+ℤ◌,
}
use custom_service.Ws.Protocol.{Envelope, extract_call_id, extract_visitor_id}
use custom_service.Ws.Client.{Client}

stop_watchdog-pending :
    (cid : Str) (cs : Calls) → (stop_watchdog cid cs).pending_calls ≡ cs.pending_calls
unfolding stop_watchdog
stop_watchdog-pending cid cs = elim (Option-cases (lookup cid cs.accept_timers)) [
  | inl e ↦ rw (e, stop_watchdog) refl
  | inr (i, e) ↦ rw (e, stop_watchdog) refl
]

watch-pending : (cid : Str) (cs : Calls) → (watch cid cs).pending_calls ≡ cs.pending_calls
unfolding watch arm
watch-pending cid cs = stop_watchdog-pending cid cs

-- The entry of a call that is accepted.
accept_call-pending :
    (now : Ambient) (e : Envelope) (pc : PendingCall) (cs : Calls)
    → is_empty (extract_call_id e) ≡ false
    → lookup (extract_call_id e) cs.pending_calls ≡ some pc
    → lookup (extract_call_id e) (accept_call now e cs).pending_calls
      ≡ some (record pc { expires = now.now_ms +ℤ call_talking_ttl })
unfolding accept_call talk
accept_call-pending now e pc cs named rings =
    let cid = extract_call_id e in
    let extend = λ (pc : PendingCall). record pc { expires = now.now_ms +ℤ call_talking_ttl } in
    rw named (
      rw (watch-pending cid (talk now cid e.from cs))
        (rw (lookup-modify cid cid extend cs.pending_calls, str_eq_refl cid, rings) refl))

start_call-pending :
    (now : Ambient) (c : Client) (e : Envelope) (cs : Calls)
    → is_empty (extract_call_id e) ≡ false
    → lookup (extract_call_id e) (start_call now c e cs).pending_calls
      ≡ some (record { env = e; visitor_id = c.id; expires = now.now_ms +ℤ call_buffer_ttl })
unfolding start_call arm
start_call-pending now c e cs named =
    let cid = extract_call_id e in
    let pc : PendingCall = record {
      env = e;
      visitor_id = c.id;
      expires = now.now_ms +ℤ call_buffer_ttl;
    } in
    rw named (rw (lookup-store cid cid pc cs.pending_calls, str_eq_refl cid) refl)

fire-forget :
    (now : Ambient) (cid : Str) (h : Hub)
    → lookup cid (fire now (forget_call cid) h).calls.pending_calls ≡ none
unfolding fire with_calls
fire-forget now cid h = rw (lookup-delete cid cid h.calls.pending_calls, str_eq_refl cid) refl

visitor_of_call-unknown :
    (cid : Str) (e : Envelope) (cs : Calls)
    → lookup cid cs.pending_calls ≡ none
    → visitor_of_call cid e cs ≡ extract_visitor_id e
unfolding visitor_of_call
visitor_of_call-unknown cid e cs h = rw (h, visitor_of_call) refl

-- Stopping a watchdog leaves the timer of the first half minute armed.
disarm-is_armed :
    (i : ℕ) (cid k : Str) (ts : List Timer)
    → is_armed (forget_call k) (disarm (watchdog i cid) ts) ≡ is_armed (forget_call k) ts
unfolding is_armed disarm same_timer
disarm-is_armed i cid k [] = refl
disarm-is_armed i cid k (forget_call a ∷ ts) =
    ap (λ b. str_eq k a || b) (disarm-is_armed i cid k ts)
disarm-is_armed i cid k (forget_finished a ∷ ts) = disarm-is_armed i cid k ts
disarm-is_armed i cid k (watchdog_took j a p ∷ ts) = disarm-is_armed i cid k ts
disarm-is_armed i cid k (watchdog_passed j a p ∷ ts) = disarm-is_armed i cid k ts
disarm-is_armed i cid k (watchdog j a ∷ ts) =
    if_both (λ us. is_armed (forget_call k) us ≡ is_armed (forget_call k) ts) (i == j) refl
      (disarm-is_armed i cid k ts)

stop_watchdog-is_armed :
    (cid k : Str) (cs : Calls)
    → is_armed (forget_call k) (stop_watchdog cid cs).timers ≡ is_armed (forget_call k) cs.timers
unfolding stop_watchdog
stop_watchdog-is_armed cid k cs = elim (Option-cases (lookup cid cs.accept_timers)) [
  | inl e ↦ rw (e, stop_watchdog) refl
  | inr (i, e) ↦ rw (e, stop_watchdog) (disarm-is_armed i cid k cs.timers)
]

accept_call-is_armed :
    (now : Ambient) (e : Envelope) (k : Str) (cs : Calls)
    → is_empty (extract_call_id e) ≡ false
    → is_armed (forget_call k) (accept_call now e cs).timers ≡ is_armed (forget_call k) cs.timers
unfolding accept_call watch arm talk is_armed same_timer
accept_call-is_armed now e k cs named =
    rw named (stop_watchdog-is_armed (extract_call_id e) k (talk now (extract_call_id e) e.from cs))

start_call-is_armed :
    (now : Ambient) (c : Client) (e : Envelope) (cs : Calls)
    → is_empty (extract_call_id e) ≡ false
    → is_armed (forget_call (extract_call_id e)) (start_call now c e cs).timers ≡ true
unfolding start_call arm is_armed same_timer
start_call-is_armed now c e cs named = rw (named, str_eq_refl (extract_call_id e)) refl

-- A visitor calls, an agent accepts the call, and then the timer that was armed for the ringing
-- runs out: the acceptance has left it armed. The accepted call's entry is kept until half an hour
-- after the acceptance, and the timer still takes it away: the visitor whose call it is is then read
-- off the addresses of the frame that ends the call.
pub fire-accepted :
    (t0 t1 t2 : Ambient) (c : Client) (e e' last : Envelope) (h : Hub)
    → is_empty (extract_call_id e) ≡ false
    → extract_call_id e' ≡ extract_call_id e
    → let cid = extract_call_id e in
      let talking = accept_call t1 e' (start_call t0 c e h.calls) in
      (lookup cid talking.pending_calls
        ≡ some (record { env = e; visitor_id = c.id; expires = t1.now_ms +ℤ call_talking_ttl }))
      × (is_armed (forget_call cid) talking.timers ≡ true)
      × (lookup cid (fire t2 (forget_call cid) (with_calls talking h)).calls.pending_calls ≡ none)
      × (visitor_of_call cid last (fire t2 (forget_call cid) (with_calls talking h)).calls
          ≡ extract_visitor_id last)
fire-accepted t0 t1 t2 c e e' last h named same =
    let cid = extract_call_id e in
    let ringing = start_call t0 c e h.calls in
    let pc : PendingCall = record {
      env = e;
      visitor_id = c.id;
      expires = t0.now_ms +ℤ call_buffer_ttl;
    } in
    let talking = accept_call t1 e' ringing in
    let gone = fire-forget t2 cid (with_calls talking h) in
    (
      (rw same at (
          accept_call-pending t1 e' pc ringing (rw same named)
            (rw same (start_call-pending t0 c e h.calls named)))),
      accept_call-is_armed t1 e' cid ringing (rw same named)
          ∙ start_call-is_armed t0 c e h.calls named,
      gone,
      visitor_of_call-unknown cid last (fire t2 (forget_call cid) (with_calls talking h)).calls
          gone,
    )
