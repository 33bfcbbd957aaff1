-- ===== src/Ws/Tests/Runs.antt =====
-- The invariants of the hub along one run: both connect, the visitor writes, and the agent is closed and
-- leaves.
use custom_service.Common.{refl, List, [], ◌∷◌, codes, str_eq, lookup, store, modify}
use custom_service.Ws.Protocol.{Envelope, zero_envelope}
use custom_service.Ws.Client.{Net}
use custom_service.Ws.Client.Sending.{AllBounded}
use custom_service.Ws.Index.{all_conns, Index}
use custom_service.Ws.Hub.{Hub, Ambient}
use custom_service.Ws.Registry.Invariant.{IsIndexed}
use custom_service.Ws.Registry.Bound.{IsBound}
use custom_service.Ws.Run.{Event, registers, unregisters, receives, closes_agent, step, run}
use custom_service.Ws.Run.Stable.Frames.{SinkKeeps}
use custom_service.Ws.Run.Stable.Steps.{AllFresh, IsFresh}
use custom_service.Ws.Run.Indexed.{run-IsIndexed}
use custom_service.Ws.Run.Bound.{run-IsBound}
use custom_service.Ws.Tests.{ann, bob, no_calls, hub_of, noon, plain_sink}

abbrev first_hub : Hub
first_hub =
    hub_of (codes "n1") (record { clients = []; unregister = [] })
      (record { visitors = []; agents = []; by_conv = []; hall_subs = [] }) no_calls

abbrev hello_there : Envelope
hello_there = record zero_envelope { type = codes "chat"; id = codes "m1" }

abbrev visit : List (Ambient × Event)
visit =
    (noon, registers ann)
    ∷ (noon, registers bob)
    ∷ (noon, receives (codes "a") hello_there)
    ∷ (noon, closes_agent (codes "u"))
    ∷ (noon, unregisters)
    ∷ []

plain-SinkKeeps : (Q : Index → Net → Type 0) → SinkKeeps Q plain_sink
plain-SinkKeeps Q = record { visitor_keeps = λ e conn h q. q; agent_keeps = λ e conn h q. q }

visit-AllFresh : AllFresh plain_sink visit first_hub
unfolding AllFresh IsFresh step lookup str_eq store modify
visit-AllFresh = (
  record { unknown = refl; no_high = refl; no_low = refl; open_still = refl },
  (
    record { unknown = refl; no_high = refl; no_low = refl; open_still = refl },
    (tt, (tt, (tt, tt))),
  ),
)

new-AllBounded : AllBounded first_hub.net
unfolding lookup
new-AllBounded k c h = absurd (cc)

run-IsIndexed_example :
    IsIndexed (run plain_sink visit first_hub).index (run plain_sink visit first_hub).net
unfolding all_conns
run-IsIndexed_example =
    run-IsIndexed plain_sink visit first_hub (plain-SinkKeeps IsIndexed) visit-AllFresh
      (record { visitors_held = tt; agents_held = tt; members_distinct = tt; agents_distinct = tt })

run-IsBound_example :
    IsBound (run plain_sink visit first_hub).index (run plain_sink visit first_hub).net
run-IsBound_example =
    run-IsBound plain_sink visit first_hub (plain-SinkKeeps IsBound) visit-AllFresh tt
