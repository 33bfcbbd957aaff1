-- ===== src/Ws/Run/Stable/Calls.antt =====
-- The voice frames and the timers: they send and publish, and change the calls.
use custom_service.Ws.Hub.{
  watchdog_took, watchdog_passed, Hub, PendingAccept, Ambient, Timer, forget_call, forget_finished,
  watchdog, stamped, fanout_voice,
}
use custom_service.Ws.Voice.{
  visitor_of_call, mark_finished, cancel_accept, with_calls, finish_call, end_call, track_call,
  is_blocked_visitor, handle_voice, disarm,
}
use custom_service.Ws.Voice.Watchdog.{
  check_finished, no_answer_notice, tell_no_answer, report_no_answer, notify_no_answer, give_up,
  fire_accept_watchdog, fire,
}
use custom_service.Common.{
  ℕ, if_both, inl, inr, Bool-cases, Option-cases, Str, lookup, has_key, is_empty, ◌++◌,
}
use custom_service.Ws.Protocol.{
  Envelope, Signal, voice_call, voice_accept, voice_reject, voice_taken, voice_offer, voice_answer,
  voice_ice, voice_end, extract_call_id, visitor_prefix,
}
use custom_service.Ws.Client.{is_visitor, Client, Net}
use custom_service.Ws.Index.{Index}
use custom_service.Ws.Binding.{sender_ref}
use custom_service.Ws.Run.Stable.{Stable}
use custom_service.Ws.Run.Stable.Moves.{On, fanout_voice-keeps}

module _ (Q : Index → Net → Type 0) (st : Stable Q) where
  finish_call-keeps :
      (now : Ambient) (s : Signal) (e : Envelope) (cid : Str) (h : Hub)
      → On Q h
      → On Q (finish_call now s e cid h)
  unfolding finish_call
  finish_call-keeps now s e cid h q = elim (Bool-cases (is_empty (visitor_of_call cid e h.calls))) [
    | inl nobody ↦ rw nobody q
    | inr known ↦ rw known q
  ]

  end_call-keeps :
      (now : Ambient) (s : Signal) (e : Envelope) (h : Hub) → On Q h → On Q (end_call now s e h)
  unfolding end_call
  end_call-keeps now s e h q = elim (Bool-cases (is_empty (extract_call_id e))) [
    | inl unnamed ↦ rw unnamed q
    | inr named ↦
        elim (Bool-cases (
          has_key (extract_call_id e) (cancel_accept (extract_call_id e) h.calls).finished_calls)) [
            | inl over ↦ rw (named, over) q
            | inr first ↦
                rw (named, first)
                  (finish_call-keeps now s e (extract_call_id e)
                    (with_calls (cancel_accept (extract_call_id e) h.calls) h) q)
          ]
  ]

  track_call-keeps :
      (now : Ambient) (s : Signal) (c : Client) (e : Envelope) (h : Hub)
      → On Q h
      → On Q (track_call now s c e h)
  unfolding track_call
  track_call-keeps now voice_call c e h q = elim (Bool-cases (is_visitor c)) [
    | inl theirs ↦ rw theirs q
    | inr ours ↦ rw ours q
  ]
  track_call-keeps now voice_accept c e h q = q
  track_call-keeps now voice_answer c e h q = q
  track_call-keeps now voice_end c e h q = end_call-keeps now voice_end e h q
  track_call-keeps now voice_reject c e h q = end_call-keeps now voice_reject e h q
  track_call-keeps now voice_taken c e h q = q
  track_call-keeps now voice_offer c e h q = q
  track_call-keeps now voice_ice c e h q = q

  pub handle_voice-keeps :
      (now : Ambient) (s : Signal) (c : Client) (e : Envelope) (h : Hub)
      → On Q h
      → On Q (handle_voice now s c e h)
  unfolding handle_voice
  handle_voice-keeps now s c e h q = elim (Bool-cases (is_blocked_visitor c)) [
    | inl blocked ↦ rw blocked q
    | inr fine ↦ rw fine (
        track_call-keeps now s c (stamped h (record e { from = sender_ref c }))
          (fanout_voice (record e { from = sender_ref c }) h)
          (fanout_voice-keeps Q st (record e { from = sender_ref c }) h q))
  ]

  tell_no_answer-keeps :
      (now : Ambient) (cid who to : Str) (h : Hub) → On Q h → On Q (tell_no_answer now cid who to h)
  unfolding tell_no_answer
  tell_no_answer-keeps now cid who to h q = elim (Bool-cases (is_empty who)) [
    | inl nobody ↦ rw nobody q
    | inr known ↦ rw known (fanout_voice-keeps Q st (no_answer_notice now cid to) h q)
  ]

  report_no_answer-keeps :
      (cid : Str) (pa : PendingAccept) (h : Hub) → On Q h → On Q (report_no_answer cid pa h)
  unfolding report_no_answer
  report_no_answer-keeps cid pa h q = elim (Bool-cases (is_empty pa.visitor_id)) [
    | inl nobody ↦ rw nobody q
    | inr known ↦ rw known q
  ]

  notify_no_answer-keeps :
      (now : Ambient) (cid : Str) (pa : PendingAccept) (h : Hub)
      → On Q h
      → On Q (notify_no_answer now cid pa h)
  unfolding notify_no_answer
  notify_no_answer-keeps now cid pa h q =
      let told = tell_no_answer now cid pa.visitor_id (visitor_prefix ++ pa.visitor_id) h in
      report_no_answer-keeps cid pa (tell_no_answer now cid pa.agent_from pa.agent_from told) (
        tell_no_answer-keeps now cid pa.agent_from pa.agent_from told
          (tell_no_answer-keeps now cid pa.visitor_id (visitor_prefix ++ pa.visitor_id) h q))

  give_up-keeps :
      (now : Ambient) (cid : Str) (pa : PendingAccept) (h : Hub)
      → On Q h
      → On Q (give_up now cid pa h)
  unfolding give_up
  give_up-keeps now cid pa h q =
      notify_no_answer-keeps now cid pa (with_calls (mark_finished now cid h.calls) h) q

  check_finished-keeps :
      (i : ℕ) (cid : Str) (pa : PendingAccept) (h : Hub) → On Q h → On Q (check_finished i cid pa h)
  unfolding check_finished
  check_finished-keeps i cid pa h q = if_both (On Q) (has_key cid h.calls.finished_calls) q q

  fire_accept_watchdog-keeps :
      (i : ℕ) (cid : Str) (h : Hub) → On Q h → On Q (fire_accept_watchdog i cid h)
  unfolding fire_accept_watchdog
  fire_accept_watchdog-keeps i cid h q = elim (Option-cases (lookup cid h.calls.pending_accepts)) [
    | inl e ↦ rw (e, fire_accept_watchdog) q
    | inr (pa, e) ↦ rw (e, fire_accept_watchdog) q
  ]

  pub fire-keeps : (now : Ambient) (t : Timer) (h : Hub) → On Q h → On Q (fire now t h)
  unfolding fire
  fire-keeps now (forget_call cid) h q = q
  fire-keeps now (forget_finished cid) h q = q
  fire-keeps now (watchdog i cid) h q =
      fire_accept_watchdog-keeps i cid
        (with_calls (record (h.calls) { timers = disarm (watchdog i cid) h.calls.timers }) h) q
  fire-keeps now (watchdog_took i cid pa) h q =
      check_finished-keeps i cid pa
        (with_calls (record (h.calls) { timers = disarm (watchdog_took i cid pa) h.calls.timers })
          h)
        q
  fire-keeps now (watchdog_passed i cid pa) h q =
      give_up-keeps now cid pa
        (with_calls (record (h.calls) { timers = disarm (watchdog_passed i cid pa) h.calls.timers })
          h)
        q
