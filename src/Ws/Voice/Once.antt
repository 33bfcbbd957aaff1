-- ===== src/Ws/Voice/Once.antt =====
-- How often the end of a call is reported, in each order of its ends and its watchdog.
use custom_service.Ws.Hub.{
  watchdog_took, watchdog_passed, Hub, Calls, PendingCall, PendingAccept, Ambient, watchdog, emit,
}
use custom_service.Ws.Voice.{
  stop_watchdog, cancel_accept, answer_call, mark_finished, visitor_of_call, with_calls,
  finish_call, end_call, disarm, arm,
}
use custom_service.Ws.Voice.Watchdog.{check_finished, give_up, fire_accept_watchdog, fire}
use custom_service.Common.{
  ◌∷◌, suc, ℕ, ◌≡◌, refl, ap, ◌∙◌, inl, inr, true, false, none, some, Option-cases, Str,
  str_eq_refl, is_empty, lookup, delete, has_key, has_key-store, lookup-delete,
}
use custom_service.Ws.Protocol.{Envelope, Signal, extract_call_id}
use custom_service.Ws.Voice.Reports.{reports, notify_no_answer-reports}

-- No answer is awaited for the call any more.
cancel_accept-gone :
    (cid : Str) (cs : Calls) → lookup cid (cancel_accept cid cs).pending_accepts ≡ none
unfolding cancel_accept
cancel_accept-gone cid cs =
    rw (lookup-delete cid cid (stop_watchdog cid cs).pending_accepts, str_eq_refl cid) refl

cancel_accept-rest :
    (cid : Str) (cs : Calls)
    → ((cancel_accept cid cs).pending_calls ≡ cs.pending_calls)
      × ((cancel_accept cid cs).finished_calls ≡ cs.finished_calls)
unfolding cancel_accept stop_watchdog
cancel_accept-rest cid cs = elim (Option-cases (lookup cid cs.accept_timers)) [
  | inl e ↦ (rw (e, stop_watchdog) refl, rw (e, stop_watchdog) refl)
  | inr (i, e) ↦ (rw (e, stop_watchdog) refl, rw (e, stop_watchdog) refl)
]

-- A watchdog that fires where no answer is awaited.
fire-idle :
    (now : Ambient) (i : ℕ) (cid : Str) (h : Hub)
    → lookup cid h.calls.pending_accepts ≡ none
    → ((fire now (watchdog i cid) h).net ≡ h.net)
      × ((fire now (watchdog i cid) h).trace ≡ h.trace)
      × ((fire now (watchdog i cid) h).calls.finished_calls ≡ h.calls.finished_calls)
      × ((fire now (watchdog i cid) h).calls.timers ≡ disarm (watchdog i cid) h.calls.timers)
unfolding fire fire_accept_watchdog with_calls
fire-idle now i cid h e = (
  rw (e, fire_accept_watchdog) refl,
  rw (e, fire_accept_watchdog) refl,
  rw (e, fire_accept_watchdog) refl,
  rw (e, fire_accept_watchdog) refl,
)

-- A watchdog that fires after an answer that names its call does nothing that anybody sees, even
-- where its timer had already run out when the answer came: no frame is sent, nothing is published
-- or reported, the call is not marked as finished, and the watchdog has nothing left to do.
pub fire-answered :
    (now : Ambient) (i : ℕ) (e : Envelope) (h : Hub)
    → is_empty (extract_call_id e) ≡ false
    → let answered = with_calls (answer_call e h.calls) h in
      let after = fire now (watchdog i (extract_call_id e)) answered in
      (after.net ≡ h.net)
      × (after.trace ≡ h.trace)
      × (after.calls.finished_calls ≡ h.calls.finished_calls)
      × (after.calls.timers ≡ disarm (watchdog i (extract_call_id e)) answered.calls.timers)
unfolding with_calls answer_call
fire-answered now i e h named =
    let cid = extract_call_id e in
    let (n, t, f, left) =
      fire-idle now i cid (record h { calls = cancel_accept cid h.calls })
        (cancel_accept-gone cid h.calls) in
    rw named (n, t, f ∙ (cancel_accept-rest cid h.calls).1, left)

mark_finished-has_key :
    (now : Ambient) (cid : Str) (cs : Calls)
    → has_key cid (mark_finished now cid cs).finished_calls ≡ true
unfolding mark_finished arm
mark_finished-has_key now cid cs = has_key-store cid now.now_ms cs.finished_calls

-- The three steps of a watchdog whose call awaits an answer and is not over.
took_calls : ℕ → Str → PendingAccept → Calls → Calls
took_calls i cid pa cs = record cs {
  pending_accepts = delete cid cs.pending_accepts;
  accept_timers = delete cid cs.accept_timers;
  timers = watchdog_took i cid pa ∷ disarm (watchdog i cid) cs.timers;
}

fire-takes :
    (now : Ambient) (i : ℕ) (cid : Str) (pa : PendingAccept) (h : Hub)
    → lookup cid h.calls.pending_accepts ≡ some pa
    → fire now (watchdog i cid) h ≡ record h { calls = took_calls i cid pa h.calls }
unfolding fire fire_accept_watchdog with_calls arm took_calls
fire-takes now i cid pa h waits = rw (waits, fire_accept_watchdog) refl

passed_calls : ℕ → Str → PendingAccept → Calls → Calls
passed_calls i cid pa cs = record cs {
  timers = watchdog_passed i cid pa ∷ disarm (watchdog_took i cid pa) cs.timers;
}

fire-passes :
    (now : Ambient) (i : ℕ) (cid : Str) (pa : PendingAccept) (h : Hub)
    → has_key cid h.calls.finished_calls ≡ false
    → fire now (watchdog_took i cid pa) h ≡ record h { calls = passed_calls i cid pa h.calls }
unfolding fire check_finished with_calls arm passed_calls
fire-passes now i cid pa h live = rw live refl

fire-stops :
    (now : Ambient) (i : ℕ) (cid : Str) (pa : PendingAccept) (h : Hub)
    → has_key cid h.calls.finished_calls ≡ true
    → ((fire now (watchdog_took i cid pa) h).trace ≡ h.trace)
      × ((fire now (watchdog_took i cid pa) h).calls.timers
          ≡ disarm (watchdog_took i cid pa) h.calls.timers)
unfolding fire check_finished with_calls
fire-stops now i cid pa h over = (rw over refl, rw over refl)

fire-reports :
    (now : Ambient) (i : ℕ) (cid : Str) (pa : PendingAccept) (h : Hub)
    → is_empty pa.visitor_id ≡ false
    → (reports cid (fire now (watchdog_passed i cid pa) h).trace ≡ suc (reports cid h.trace))
      × (has_key cid (fire now (watchdog_passed i cid pa) h).calls.finished_calls ≡ true)
unfolding fire with_calls give_up
fire-reports now i cid pa h known =
    let quiet : Calls = record (h.calls) {
      timers = disarm (watchdog_passed i cid pa) h.calls.timers;
    } in
    let (c, r) =
      notify_no_answer-reports now cid pa (record h { calls = mark_finished now cid quiet })
        known in
    (r, rw c (mark_finished-has_key now cid quiet))

-- The end of a call that is over is not reported again.
end_call-over :
    (now : Ambient) (s : Signal) (e : Envelope) (h : Hub)
    → is_empty (extract_call_id e) ≡ false
    → has_key (extract_call_id e) h.calls.finished_calls ≡ true
    → (end_call now s e h).trace ≡ h.trace
unfolding end_call with_calls
end_call-over now s e h named over =
    rw (named, (cancel_accept-rest (extract_call_id e) h.calls).1, over) refl

finish_call-reports :
    (now : Ambient) (s : Signal) (e : Envelope) (cid : Str) (pc : PendingCall) (h : Hub)
    → lookup cid h.calls.pending_calls ≡ some pc
    → is_empty pc.visitor_id ≡ false
    → (reports cid (finish_call now s e cid h).trace ≡ suc (reports cid h.trace))
      × ((finish_call now s e cid h).calls.pending_accepts ≡ h.calls.pending_accepts)
      × (has_key cid (finish_call now s e cid h).calls.finished_calls ≡ true)
unfolding finish_call emit reports with_calls mark_finished arm
finish_call-reports now s e cid pc h rings known = (
  rw (rings, visitor_of_call) (rw (known, str_eq_refl cid) refl),
  rw (rings, visitor_of_call) (rw known refl),
  rw (rings, visitor_of_call) (rw known (has_key-store cid now.now_ms h.calls.finished_calls)),
)

end_call-cases :
    (now : Ambient) (s : Signal) (e : Envelope) (h : Hub)
    → is_empty (extract_call_id e) ≡ false
    → has_key (extract_call_id e) h.calls.finished_calls ≡ false
    → end_call now s e h
      ≡ finish_call now s e
          (extract_call_id e)
          (record h { calls = cancel_accept (extract_call_id e) h.calls })
unfolding end_call with_calls
end_call-cases now s e h named live =
    rw (named, (cancel_accept-rest (extract_call_id e) h.calls).1, live) refl

-- The end of a call that is not over: one report, no answer is awaited, and the call is over.
end_call-reports :
    (now : Ambient) (s : Signal) (e : Envelope) (pc : PendingCall) (h : Hub)
    → is_empty (extract_call_id e) ≡ false
    → has_key (extract_call_id e) h.calls.finished_calls ≡ false
    → lookup (extract_call_id e) h.calls.pending_calls ≡ some pc
    → is_empty pc.visitor_id ≡ false
    → (reports (extract_call_id e) (end_call now s e h).trace
        ≡ suc (reports (extract_call_id e) h.trace))
      × (lookup (extract_call_id e) (end_call now s e h).calls.pending_accepts ≡ none)
      × (has_key (extract_call_id e) (end_call now s e h).calls.finished_calls ≡ true)
end_call-reports now s e pc h named live rings known =
    let cid = extract_call_id e in
    let quiet : Hub = record h { calls = cancel_accept cid h.calls } in
    let (r, p, o) =
      finish_call-reports now s e cid pc quiet (rw (cancel_accept-rest cid h.calls).0 rings)
        known in
    rw (end_call-cases now s e h named live)
      (r, ap (lookup cid) p ∙ cancel_accept-gone cid h.calls, o)

-- The steps of the watchdog i of the call `cid`, and the frame `e` that ends the call, in each order.
-- The number of reports grows by one, and the watchdog has nothing left to do; but where the frame
-- comes between its check and what follows the check, the number grows by two.
pub record InTurn (now now' : Ambient) (i : ℕ) (s : Signal) (e : Envelope) (pa : PendingAccept)
    (h : Hub) : Type 0 where
  pub end_first :
      let cid = extract_call_id e in
      let ended = end_call now' s e h in
      let after = fire now (watchdog i cid) ended in
      (reports cid after.trace ≡ suc (reports cid h.trace))
      × (after.calls.timers ≡ disarm (watchdog i cid) ended.calls.timers)
  pub end_second :
      let cid = extract_call_id e in
      let ended = end_call now' s e (fire now (watchdog i cid) h) in
      let after = fire now (watchdog_took i cid pa) ended in
      (reports cid after.trace ≡ suc (reports cid h.trace))
      × (after.calls.timers ≡ disarm (watchdog_took i cid pa) ended.calls.timers)
  pub end_third :
      let cid = extract_call_id e in
      let passed = fire now (watchdog_took i cid pa) (fire now (watchdog i cid) h) in
      reports cid (fire now (watchdog_passed i cid pa) (end_call now' s e passed)).trace
      ≡ suc (suc (reports cid h.trace))
  pub end_last :
      let cid = extract_call_id e in
      let passed = fire now (watchdog_took i cid pa) (fire now (watchdog i cid) h) in
      reports cid (end_call now' s e (fire now (watchdog_passed i cid pa) passed)).trace
      ≡ suc (reports cid h.trace)

module _ (now now' : Ambient) (i : ℕ) (s : Signal) (e : Envelope) (pc : PendingCall)
    (pa : PendingAccept) (h : Hub) (named : is_empty (extract_call_id e) ≡ false)
    (live : has_key (extract_call_id e) h.calls.finished_calls ≡ false)
    (rings : lookup (extract_call_id e) h.calls.pending_calls ≡ some pc)
    (known : is_empty pc.visitor_id ≡ false)
    (waits : lookup (extract_call_id e) h.calls.pending_accepts ≡ some pa)
    (known' : is_empty pa.visitor_id ≡ false) where
  cid : Str
  cid = extract_call_id e

  took : Hub
  took = record h { calls = took_calls i cid pa h.calls }

  passed : Hub
  passed = record h { calls = passed_calls i cid pa took.calls }

  race_steps : InTurn now now' i s e pa h
  unfolding took_calls passed_calls cid took passed
  race_steps =
      let (r, none_waits, _) = end_call-reports now' s e pc h named live rings known in
      let (_, t, _, left) = fire-idle now i cid (end_call now' s e h) none_waits in
      let takes = fire-takes now i cid pa h waits in
      let passes = fire-passes now i cid pa took live in
      let (r1, _, over1) = end_call-reports now' s e pc took named live rings known in
      let (t1, left1) = fire-stops now i cid pa (end_call now' s e took) over1 in
      let (r2, _, _) = end_call-reports now' s e pc passed named live rings known in
      let (twice, _) = fire-reports now i cid pa (end_call now' s e passed) known' in
      let (r3, over3) = fire-reports now i cid pa passed known' in
      record {
        end_first = (ap (reports cid) t ∙ r, left);
        end_second = rw takes (ap (reports cid) t1 ∙ r1, left1);
        end_third = rw (takes, passes) (twice ∙ ap suc r2);
        end_last =
            rw (takes, passes)
              (ap (reports cid)
                  (end_call-over now' s e (fire now (watchdog_passed i cid pa) passed) named over3)
                ∙ r3);
      }

-- The race of the end of a call with its watchdog. The call is pending and accepted, both entries
-- know its visitor, and it is not over. The watchdog runs in three steps. The sink learns exactly
-- once that the call is over where the frame that ends it comes before, after, or between the
-- first two steps; and twice where it comes between the check of `finishedCalls` and the entry
-- into them.
pub race-reports :
    (now now' : Ambient) (i : ℕ) (s : Signal) (e : Envelope) (pc : PendingCall) (pa : PendingAccept)
    (h : Hub)
    → is_empty (extract_call_id e) ≡ false
    → has_key (extract_call_id e) h.calls.finished_calls ≡ false
    → lookup (extract_call_id e) h.calls.pending_calls ≡ some pc
    → is_empty pc.visitor_id ≡ false
    → lookup (extract_call_id e) h.calls.pending_accepts ≡ some pa
    → is_empty pa.visitor_id ≡ false
    → InTurn now now' i s e pa h
race-reports = race_steps
