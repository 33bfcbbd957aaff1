-- ===== src/Ws/Tests/Twice.antt =====
-- A visitor types twice within a second.
use custom_service.Ws.Incoming.{handle_incoming}
use custom_service.Ws.Incoming.Typing.{stamp, handle_incoming-handle_incoming}
use custom_service.Ws.Tests.{plain_sink, ann, no_calls, hub_of, two_clients, both_online, noon}
use custom_service.Common.{◌≡◌, refl, codes, str_eq, is_empty, lookup, pos}
use custom_service.Ws.Protocol.{Envelope, zero_envelope}
use custom_service.Ws.Client.{is_visitor}
use custom_service.Ws.Hub.{Hub, Ambient}
use custom_service.Ws.Binding.{build_typing_envelope}

abbrev soon : Ambient
soon = record noon { now_ms = pos 1500 }

abbrev open_hub : Hub
open_hub = hub_of (codes "n1") two_clients both_online no_calls

abbrev ann_types : Envelope
ann_types = record zero_envelope {
  type = codes "typing";
  from = codes "visitor:v";
  conv_id = codes "C";
  ts = pos 1000;
  conn_id = codes "a";
}

handle_incoming-handle_incoming_example :
    let first = handle_incoming plain_sink noon (codes "a") ann_types open_hub in
    handle_incoming plain_sink soon (codes "a") ann_types first ≡ stamp soon first
unfolding lookup str_eq is_empty build_typing_envelope is_visitor
handle_incoming-handle_incoming_example =
    handle_incoming-handle_incoming plain_sink noon soon (codes "a") ann ann_types ann_types
      ann_types open_hub refl refl refl refl refl refl refl
