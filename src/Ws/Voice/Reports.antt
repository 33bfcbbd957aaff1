-- ===== src/Ws/Voice/Reports.antt =====
-- How often a call has been reported as finished, and the code that reports nothing.
use custom_service.Common.{
  ◌≡◌, refl, ap, ◌∙◌, inl, inr, Bool, false, ℕ, suc, List, [], ◌∷◌, Bool-cases, Str, str_eq,
  str_eq_refl, is_empty, if◌then◌else◌, ◌++◌,
}
use custom_service.Ws.Protocol.{Envelope, visitor_prefix}
use custom_service.Ws.Hub.{
  Hub, PendingAccept, Effect, call_finished, Ambient, emit, publish, fanout_voice,
}
use custom_service.Ws.Voice.Watchdog.{
  no_answer_notice, tell_no_answer, report_no_answer, notify_no_answer,
}

unfoldable pub is_report : Str → Effect → Bool
is_report cid (call_finished vid cid' code reason duration) = str_eq cid' cid
is_report cid _ = false

-- How many of the effects are reports to the sink that the call is over.
unfoldable pub reports : Str → List Effect → ℕ
unfolding is_report
reports cid [] = 0
reports cid (x ∷ xs) = let rest = reports cid xs in if is_report cid x then suc rest else rest

-- The calls stay, and no report is made.
pub record IsQuiet (cid : Str) (h h' : Hub) : Type 0 where
  pub same_calls : h'.calls ≡ h.calls
  pub same_reports : reports cid h'.trace ≡ reports cid h.trace

pub fanout_voice-IsQuiet : (cid : Str) (e : Envelope) (h : Hub) → IsQuiet cid h (fanout_voice e h)
unfolding fanout_voice publish reports emit
fanout_voice-IsQuiet cid e h = elim (Bool-cases h.has_redis) [
  | inl r ↦ record { same_calls = rw r refl; same_reports = rw r refl }
  | inr r ↦ record { same_calls = rw r refl; same_reports = rw r refl }
]

tell_no_answer-IsQuiet :
    (now : Ambient) (cid who to : Str) (h : Hub) → IsQuiet cid h (tell_no_answer now cid who to h)
unfolding tell_no_answer
tell_no_answer-IsQuiet now cid who to h = elim (Bool-cases (is_empty who)) [
  | inl nobody ↦ rw nobody (record { same_calls = refl; same_reports = refl })
  | inr known ↦ rw known (fanout_voice-IsQuiet cid (no_answer_notice now cid to) h)
]

report_no_answer-reports :
    (cid : Str) (pa : PendingAccept) (h : Hub)
    → is_empty pa.visitor_id ≡ false
    → ((report_no_answer cid pa h).calls ≡ h.calls)
      × (reports cid (report_no_answer cid pa h).trace ≡ suc (reports cid h.trace))
unfolding report_no_answer reports emit
report_no_answer-reports cid pa h known = (rw known refl, rw known (rw (str_eq_refl cid) refl))

notify_no_answer-cases :
    (now : Ambient) (cid : Str) (pa : PendingAccept) (h : Hub)
    → notify_no_answer now cid pa h
      ≡ report_no_answer cid pa (
          tell_no_answer now cid pa.agent_from pa.agent_from
            (tell_no_answer now cid pa.visitor_id (visitor_prefix ++ pa.visitor_id) h))
unfolding notify_no_answer
notify_no_answer-cases now cid pa h = refl

-- The watchdog's notices make one report, if the visitor is known.
pub notify_no_answer-reports :
    (now : Ambient) (cid : Str) (pa : PendingAccept) (h : Hub)
    → is_empty pa.visitor_id ≡ false
    → ((notify_no_answer now cid pa h).calls ≡ h.calls)
      × (reports cid (notify_no_answer now cid pa h).trace ≡ suc (reports cid h.trace))
notify_no_answer-reports now cid pa h known =
    let told = tell_no_answer now cid pa.visitor_id (visitor_prefix ++ pa.visitor_id) h in
    let both = tell_no_answer now cid pa.agent_from pa.agent_from told in
    let first = tell_no_answer-IsQuiet now cid pa.visitor_id (visitor_prefix ++ pa.visitor_id) h in
    let second = tell_no_answer-IsQuiet now cid pa.agent_from pa.agent_from told in
    let (c, r) = report_no_answer-reports cid pa both known in
    rw (notify_no_answer-cases now cid pa h) (
      c ∙ second.same_calls ∙ first.same_calls,
      r ∙ ap suc (second.same_reports ∙ first.same_reports),
    )
