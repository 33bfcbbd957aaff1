-- ===== src/Ws/Hub.antt =====
-- The state of `Hub` in backend/internal/ws/hub.go, what it does to the outside, and delivery with
-- the broadcast to the other nodes. Writes to the log files are left out.
use custom_service.Common.{
  ℕ, Bool, false, true, [], Option, List, ◌∷◌, ◌++◌, if◌then◌else◌, Str, ℤ, pos, Map,
}
use custom_service.Ws.Protocol.{Envelope, agent_prefix}
use custom_service.Ws.Client.{Net, send, send_all}
use custom_service.Ws.Index.{Index, all_conns}
use custom_service.Ws.Fanout.{FanoutResult, fanout_local, fanout_voice_local, fanout_agent_local}

pub record PendingCall : Type 0 where
  pub env : Envelope
  pub visitor_id : Str
  pub expires : ℤ

pub record PendingAccept : Type 0 where
  pub call_id : Str
  pub visitor_id : Str
  pub agent_from : Str
  pub started_at : ℤ

-- The callbacks handed to `time.AfterFunc`, with the call they are about. The handle of a watchdog
-- tells it from an earlier one of the same call. A watchdog runs on a goroutine of its own, so what it
-- has still to do is a callback too: `watchdog_took` after LoadAndDelete of the pending accept, and
-- `watchdog_passed` after it has seen that the call is not over.
pub data Timer : Type 0 where
  forget_call forget_finished : Str → Timer
  watchdog : ℕ → Str → Timer
  watchdog_took watchdog_passed : ℕ → Str → PendingAccept → Timer

-- The voice calls. `timers` holds the callbacks that have been armed and not fired or stopped.
pub record Calls : Type 0 where
  pub pending_calls : Map PendingCall
  pub finished_calls : Map ℤ
  pub pending_accepts : Map PendingAccept
  pub accept_timers : Map ℕ
  pub timers : List Timer
  pub next_handle : ℕ

-- What leaves the hub: messages on the Redis channel, calls of the sink that return nothing, and
-- frames for the hall handler.
pub data Effect : Type 0 where
  published : Envelope → Effect
  visitor_connected visitor_disconnected : Str → Effect
  agent_connected agent_disconnected : Str → Effect
  message_persisted : Envelope → Str → Str → Effect
  delivery_persisted : Envelope → Str → Effect
  read_persisted : Envelope → Str → Str → Effect
  page_navigated : Str → Str → Str → Str → Effect
  visitor_called : Str → Str → Effect
  call_finished : Str → Str → Str → Str → ℤ → Effect
  hall_frame_handled : Str → Envelope → Effect

-- `trace` holds the effects, the latest first. `has_redis` and `has_hall` tell whether `rdb` and
-- `hall` are set.
pub record Hub : Type 0 where
  pub node_id : Str
  pub has_redis : Bool
  pub has_hall : Bool
  pub net : Net
  pub index : Index
  pub calls : Calls
  pub last_ts : ℤ
  pub trace : List Effect

-- The questions that the hub asks its MessageSink and waits for. The two preprocessing calls may
-- change the hub, and give the cleaned message or refuse it.
pub record Sink : Type 0 where
  pub preprocess_visitor_message : Envelope → Str → Hub → Hub × Option Envelope
  pub preprocess_agent_message : Envelope → Str → Hub → Hub × Option Envelope
  pub agent_owns_conv : Str → Str → Bool
  pub agent_can_read_conv : Str → Str → Bool

-- What a step reads from its surroundings: the clock, a fresh UUID and the printed time.
pub record Ambient : Type 0 where
  pub now_ms : ℤ
  pub uuid : Str
  pub server_now : Str

-- NewHub: nobody is there, and no hall handler is set.
unfoldable pub new_hub : Str → Bool → Hub
new_hub node_id has_redis = record {
  node_id = node_id;
  has_redis = has_redis;
  has_hall = false;
  net = record { clients = []; unregister = [] };
  index = record { visitors = []; agents = []; by_conv = []; hall_subs = [] };
  calls = record {
    pending_calls = [];
    finished_calls = [];
    pending_accepts = [];
    accept_timers = [];
    timers = [];
    next_handle = 0;
  };
  last_ts = pos 0;
  trace = [];
}

unfoldable pub set_hall_handler : Hub → Hub
set_hall_handler h = record h { has_hall = true }

unfoldable pub emit : Effect → Hub → Hub
emit x h = record h { trace = x ∷ h.trace }

unfoldable pub publish : Envelope → Hub → Hub
unfolding emit
publish e h = if h.has_redis then emit (published e) h else h

unfoldable pub send_to : Str → Envelope → Hub → Hub
unfolding send
send_to conn e h = record h { net = (send conn e h.net).0 }

-- The envelope as the caller holds it after FanoutToConv or fanoutVoice.
unfoldable pub stamped : Hub → Envelope → Envelope
stamped h e = record e { priority = pos 0; node = h.node_id }

unfoldable pub fanout_to_conv : Envelope → Hub → Hub × FanoutResult
unfolding stamped fanout_local publish
fanout_to_conv e h =
    let out = stamped h e in
    let (n, result) = fanout_local h.index out h.net in (publish out (record h { net = n }), result)

unfoldable pub fanout_voice : Envelope → Hub → Hub
unfolding stamped fanout_voice_local publish
fanout_voice e h =
    let out = stamped h e in publish out (record h { net = fanout_voice_local h.index out h.net })

unfoldable pub fanout_to_agent : Str → Envelope → Hub → Hub × ℕ
unfolding stamped fanout_agent_local publish
fanout_to_agent aid e h =
    let out = record (stamped h e) { to = agent_prefix ++ aid } in
    let (n, queued) = fanout_agent_local h.index aid out h.net in
    (publish out (record h { net = n }), queued)

unfoldable pub broadcast_to_all_agents : Envelope → Hub → Hub
unfolding send_all all_conns
broadcast_to_all_agents e h =
    let out = record e { node = h.node_id } in
    record h { net = send_all (all_conns h.index.agents) out h.net }
