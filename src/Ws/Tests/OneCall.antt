-- ===== src/Ws/Tests/OneCall.antt =====
-- The theorems about the voice calls at work on one call.
use custom_service.Ws.Voice.Once.{InTurn, race-reports, fire-answered}
use custom_service.Ws.Voice.{
  disarm, with_calls, answer_call, accept_call, start_call, visitor_of_call, call_talking_ttl,
}
use custom_service.Ws.Voice.Watchdog.{fire}
use custom_service.Ws.Run.{is_armed}
use custom_service.Common.{
  true, ◌≡◌, refl, none, some, [], ◌∷◌, codes, str_eq, is_empty, lookup, has_key, pos, ◌+ℤ◌,
}
use custom_service.Ws.Protocol.{
  Envelope, zero_envelope, text, object, extract_call_id, extract_visitor_id, voice_end,
}
use custom_service.Ws.Hub.{Hub, Calls, PendingCall, PendingAccept, watchdog, forget_call}
use custom_service.Ws.Voice.Expiry.{fire-accepted}
use custom_service.Ws.Tests.{ann, no_calls, hub_of, two_clients, both_online, noon}

abbrev about_k : Envelope
about_k = record zero_envelope {
  type = codes "voice_end";
  to = codes "visitor:v";
  extra = object ((codes "call_id", text (codes "k")) ∷ []);
}

abbrev ringing : PendingCall
ringing = record { env = about_k; visitor_id = codes "v"; expires = pos 30000 }

abbrev accepted : PendingAccept
accepted = record {
  call_id = codes "k";
  visitor_id = codes "v";
  agent_from = codes "agent:u";
  started_at = pos 500;
}

abbrev one_call : Calls
one_call = record no_calls {
  pending_calls = (codes "k", ringing) ∷ [];
  pending_accepts = (codes "k", accepted) ∷ [];
  accept_timers = (codes "k", 0) ∷ [];
  timers = watchdog 0 (codes "k") ∷ forget_call (codes "k") ∷ [];
  next_handle = 1;
}

abbrev calling : Hub
calling = hub_of (codes "n1") two_clients both_online one_call

race-reports_example : InTurn noon noon 0 voice_end about_k accepted calling
unfolding lookup str_eq extract_call_id is_empty has_key
race-reports_example =
    race-reports noon noon 0 voice_end about_k ringing accepted calling refl refl refl refl refl
      refl

abbrev answered : Hub
answered = with_calls (answer_call about_k one_call) calling

fire-answered_example :
    let after = fire noon (watchdog 0 (codes "k")) answered in
    (after.net ≡ two_clients)
    × (after.trace ≡ [])
    × (after.calls.finished_calls ≡ [])
    × (after.calls.timers ≡ disarm (watchdog 0 (codes "k")) answered.calls.timers)
unfolding extract_call_id is_empty lookup str_eq
fire-answered_example = fire-answered noon 0 about_k calling refl

abbrev talking : Calls
talking = accept_call noon about_k (start_call noon ann about_k no_calls)

abbrev late : Calls
late =
    (fire noon (forget_call (codes "k"))
      (with_calls talking (hub_of (codes "n1") two_clients both_online no_calls))).calls

fire-accepted_example :
    (lookup (codes "k") talking.pending_calls
      ≡ some (record {
        env = about_k;
        visitor_id = codes "v";
        expires = pos 1000 +ℤ call_talking_ttl;
      }))
    × (is_armed (forget_call (codes "k")) talking.timers ≡ true)
    × (lookup (codes "k") late.pending_calls ≡ none)
    × (visitor_of_call (codes "k") zero_envelope late ≡ extract_visitor_id zero_envelope)
unfolding extract_call_id is_empty lookup str_eq
fire-accepted_example =
    fire-accepted noon noon noon ann about_k about_k zero_envelope
      (hub_of (codes "n1") two_clients both_online no_calls) refl refl
