-- ===== src/Ws/Voice/Watchdog.antt =====
-- The timers of the voice calls in backend/internal/ws/hub.go: fireAcceptWatchdog and the callbacks that
-- forget a call.
use custom_service.Common.{
  ℕ, none, some, [], ◌∷◌, ◌++◌, if◌then◌else◌, Str, codes, is_empty, lookup, delete, has_key, pos,
}
use custom_service.Ws.Protocol.{Envelope, zero_envelope, visitor_prefix, text, int, object}
use custom_service.Ws.Hub.{
  Hub, Calls, PendingAccept, Timer, forget_call, forget_finished, watchdog, watchdog_took,
  watchdog_passed, call_finished, Ambient, emit, fanout_voice,
}
use custom_service.Ws.Voice.{arm, disarm, mark_finished, with_calls}

-- The notice of fireAcceptWatchdog to one side.
unfoldable pub no_answer_notice : Ambient → Str → Str → Envelope
no_answer_notice now cid to = record zero_envelope {
  type = codes "voice_finished";
  from = codes "sys";
  to = to;
  ts = now.now_ms;
  extra = object (
      (codes "call_id", text cid)
      ∷ (codes "code", text (codes "no_answer"))
      ∷ (codes "reason", text (codes "agent_no_answer_5s"))
      ∷ (codes "phase", text (codes "await_voice_answer"))
      ∷ (codes "duration", int (pos 0))
      ∷ []);
}

-- One side is told, if it is known.
unfoldable pub tell_no_answer : Ambient → Str → Str → Str → Hub → Hub
unfolding no_answer_notice fanout_voice
tell_no_answer now cid who to h =
    if is_empty who then h else fanout_voice (no_answer_notice now cid to) h

-- The sink learns of it, if the visitor is known.
unfoldable pub report_no_answer : Str → PendingAccept → Hub → Hub
unfolding emit
report_no_answer cid pa h =
    if is_empty pa.visitor_id
    then h
    else emit
        (call_finished pa.visitor_id cid (codes "no_answer") (codes "agent_no_answer_5s") (pos 0)) h

unfoldable pub notify_no_answer : Ambient → Str → PendingAccept → Hub → Hub
unfolding tell_no_answer report_no_answer
notify_no_answer now cid pa h = report_no_answer cid pa (
    tell_no_answer now cid pa.agent_from pa.agent_from
      (tell_no_answer now cid pa.visitor_id (visitor_prefix ++ pa.visitor_id) h))

-- fireAcceptWatchdog, from `finishedCalls.Store` on.
unfoldable pub give_up : Ambient → Str → PendingAccept → Hub → Hub
unfolding mark_finished notify_no_answer with_calls
give_up now cid pa h = notify_no_answer now cid pa (with_calls (mark_finished now cid h.calls) h)

-- Its check with `finishedCalls.Load`. Other goroutines may run before it goes on.
unfoldable pub check_finished : ℕ → Str → PendingAccept → Hub → Hub
unfolding with_calls arm has_key
check_finished i cid pa h =
    if has_key cid h.calls.finished_calls
    then h
    else with_calls (arm (watchdog_passed i cid pa) h.calls) h

-- Its beginning: `LoadAndDelete` and `Delete`. Other goroutines may run before the check.
unfoldable pub fire_accept_watchdog : ℕ → Str → Hub → Hub
unfolding arm with_calls
fire_accept_watchdog i cid h =
    let pending = lookup cid h.calls.pending_accepts in
    let cleared : Calls = record (h.calls) {
      pending_accepts = delete cid h.calls.pending_accepts;
      accept_timers = delete cid h.calls.accept_timers;
    } in
    elim pending [
      | none ↦ with_calls cleared h
      | some pa ↦ with_calls (arm (watchdog_took i cid pa) cleared) h
    ]

-- A callback runs and is no longer armed. A watchdog runs in three steps.
unfoldable pub fire : Ambient → Timer → Hub → Hub
unfolding disarm fire_accept_watchdog check_finished give_up with_calls
fire now t h =
    let cs : Calls = record (h.calls) { timers = disarm t h.calls.timers } in
    elim t [
      | forget_call cid ↦ with_calls (record cs { pending_calls = delete cid cs.pending_calls }) h
      | forget_finished cid ↦
          with_calls (record cs { finished_calls = delete cid cs.finished_calls }) h
      | watchdog i cid ↦ fire_accept_watchdog i cid (with_calls cs h)
      | watchdog_took i cid pa ↦ check_finished i cid pa (with_calls cs h)
      | watchdog_passed i cid pa ↦ give_up now cid pa (with_calls cs h)
    ]
