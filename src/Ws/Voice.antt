-- ===== src/Ws/Voice.antt =====
-- The voice calls of handleIncoming in backend/internal/ws/hub.go. Timers fire as steps of their own,
-- at any later moment.
pub mod Watchdog
pub mod Reports
pub mod Once
pub mod Expiry
use custom_service.Common.{
  ℕ, ◌&&◌, suc, ◌==◌, Bool, false, none, some, List, [], ◌∷◌, ◌++◌, if◌then◌else◌, Str, codes,
  str_eq, is_empty, lookup, store, delete, modify, has_key, ℤ, pos, ◌+ℤ◌,
}
use custom_service.Ws.Protocol.{
  Envelope, zero_envelope, extract_call_id, extract_reason, extract_code, extract_duration_sec,
  extract_visitor_id, visitor_prefix, text, int, object, Signal, voice_call, voice_accept,
  voice_reject, voice_taken, voice_offer, voice_answer, voice_ice, voice_end,
}
use custom_service.Ws.Client.{is_visitor, Client}
use custom_service.Ws.Hub.{
  Hub, Calls, PendingAccept, Timer, forget_call, forget_finished, watchdog, watchdog_took,
  watchdog_passed, visitor_called, call_finished, Ambient, emit, stamped, fanout_voice,
}
use custom_service.Ws.Binding.{sender_ref}

abbrev pub call_buffer_ttl : ℤ
call_buffer_ttl = pos 30000

abbrev pub call_talking_ttl : ℤ
call_talking_ttl = pos 1800000

-- time.AfterFunc and Timer.Stop.
unfoldable pub arm : Timer → Calls → Calls
arm t cs = record cs { timers = t ∷ cs.timers }

-- Whether two entries are one callback.
unfoldable pub same_timer : Timer → Timer → Bool
same_timer (forget_call a) (forget_call b) = str_eq a b
same_timer (forget_finished a) (forget_finished b) = str_eq a b
same_timer (watchdog i a) (watchdog j b) = i == j
same_timer (watchdog_took i a p) (watchdog_took j b q) = i == j
same_timer (watchdog_passed i a p) (watchdog_passed j b q) = i == j
same_timer _ _ = false

-- One callback leaves the list.
unfoldable pub disarm : Timer → List Timer → List Timer
unfolding same_timer
disarm t [] = []
disarm t (u ∷ us) = if same_timer t u then us else u ∷ disarm t us

-- `acceptTimers.LoadAndDelete(callID)` and `Stop`.
unfoldable pub stop_watchdog : Str → Calls → Calls
unfolding disarm
stop_watchdog cid cs = elim (lookup cid cs.accept_timers) [
  | none ↦ cs
  | some i ↦ record cs {
    accept_timers = delete cid cs.accept_timers;
    timers = disarm (watchdog i cid) cs.timers;
  }
]

unfoldable pub start_call : Ambient → Client → Envelope → Calls → Calls
unfolding arm ◌+ℤ◌
start_call now c e cs =
    let cid = extract_call_id e in
    if is_empty cid
    then cs
    else arm (forget_call cid) (record cs {
      pending_calls =
          store cid (record { env = e; visitor_id = c.id; expires = now.now_ms +ℤ call_buffer_ttl })
            cs.pending_calls;
    })

unfoldable pub caller_of : Str → Calls → Str
caller_of cid cs = elim (lookup cid cs.pending_calls) [ none ↦ [] | some pc ↦ pc.visitor_id ]

-- The accepted call: its entry lives on, and the answer is awaited.
unfoldable pub talk : Ambient → Str → Str → Calls → Calls
unfolding caller_of ◌+ℤ◌
talk now cid agent_from cs = record cs {
  pending_calls =
      modify cid (λ pc. record pc { expires = now.now_ms +ℤ call_talking_ttl }) cs.pending_calls;
  pending_accepts =
      store cid
        (record {
          call_id = cid;
          visitor_id = caller_of cid cs;
          agent_from = agent_from;
          started_at = now.now_ms;
        })
        cs.pending_accepts;
}

-- A fresh watchdog, for an earlier one if there is one.
unfoldable pub watch : Str → Calls → Calls
unfolding arm stop_watchdog
watch cid cs =
    let quiet : Calls = stop_watchdog cid cs in
    arm (watchdog quiet.next_handle cid) (record quiet {
      accept_timers = store cid quiet.next_handle quiet.accept_timers;
      next_handle = suc quiet.next_handle;
    })

unfoldable pub accept_call : Ambient → Envelope → Calls → Calls
unfolding talk watch
accept_call now e cs =
    let cid = extract_call_id e in if is_empty cid then cs else watch cid (talk now cid e.from cs)

-- The watchdog of the call is stopped and the call awaits no answer any more.
unfoldable pub cancel_accept : Str → Calls → Calls
unfolding stop_watchdog
cancel_accept cid cs =
    let quiet : Calls = stop_watchdog cid cs in
    record quiet { pending_accepts = delete cid quiet.pending_accepts }

unfoldable pub answer_call : Envelope → Calls → Calls
unfolding cancel_accept
answer_call e cs = let cid = extract_call_id e in if is_empty cid then cs else cancel_accept cid cs

-- The call is over: it is remembered, for a while, as finished.
unfoldable pub mark_finished : Ambient → Str → Calls → Calls
unfolding arm
mark_finished now cid cs = arm (forget_finished cid) (record cs {
  finished_calls = store cid now.now_ms cs.finished_calls;
  pending_calls = delete cid cs.pending_calls;
})

unfoldable pub default_code : Signal → Str
default_code voice_reject = codes "rejected"
default_code _ = codes "hangup"

unfoldable pub or_else : Str → Str → Str
or_else s d = if is_empty s then d else s

-- Whose call it is: the pending call tells, or else the envelope's addresses.
unfoldable pub visitor_of_call : Str → Envelope → Calls → Str
visitor_of_call cid e cs = elim (lookup cid cs.pending_calls) [
  | none ↦ extract_visitor_id e
  | some pc ↦ pc.visitor_id
]

unfoldable pub with_calls : Calls → Hub → Hub
with_calls cs h = record h { calls = cs }

-- The part of voice_end and voice_reject behind the check on `finishedCalls`.
unfoldable pub finish_call : Ambient → Signal → Envelope → Str → Hub → Hub
unfolding visitor_of_call mark_finished default_code or_else with_calls emit
finish_call now s e cid h =
    let vid = visitor_of_call cid e h.calls in
    if is_empty vid
    then h
    else emit
        (call_finished vid cid (or_else (extract_code e) (default_code s))
          (or_else (extract_reason e) (codes "normal_hangup")) (extract_duration_sec e))
        (with_calls (mark_finished now cid h.calls) h)

unfoldable pub end_call : Ambient → Signal → Envelope → Hub → Hub
unfolding cancel_accept finish_call with_calls has_key
end_call now s e h =
    let cid = extract_call_id e in
    if is_empty cid
    then h
    else (let quiet : Hub = with_calls (cancel_accept cid h.calls) h in
        if has_key cid quiet.calls.finished_calls then quiet else finish_call now s e cid quiet)

-- The second `switch` of the voice frames, on the envelope that fanoutVoice has stamped.
unfoldable pub track_call : Ambient → Signal → Client → Envelope → Hub → Hub
unfolding is_visitor start_call accept_call answer_call end_call with_calls emit
track_call now voice_call c e h =
    if is_visitor c
    then emit (visitor_called c.id (extract_call_id e)) (with_calls (start_call now c e h.calls) h)
    else h
track_call now voice_accept c e h = with_calls (accept_call now e h.calls) h
track_call now voice_answer c e h = with_calls (answer_call e h.calls) h
track_call now voice_end c e h = end_call now voice_end e h
track_call now voice_reject c e h = end_call now voice_reject e h
track_call now voice_taken c e h = h
track_call now voice_offer c e h = h
track_call now voice_ice c e h = h

unfoldable pub is_blocked_visitor : Client → Bool
unfolding is_visitor
is_blocked_visitor c = is_visitor c && c.blocked

unfoldable pub handle_voice : Ambient → Signal → Client → Envelope → Hub → Hub
unfolding is_blocked_visitor sender_ref fanout_voice stamped track_call
handle_voice now s c e h =
    if is_blocked_visitor c
    then h
    else (let out : Envelope = record e { from = sender_ref c } in
        track_call now s c (stamped h out) (fanout_voice out h))
