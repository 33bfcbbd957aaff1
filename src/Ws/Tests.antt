-- ===== src/Ws/Tests.antt =====
-- The theorems about the hub at work on small hubs.
pub mod OneCall
pub mod Runs
pub mod Texts
pub mod Twice
use custom_service.Common.{
  has_prefix, is_empty, ◌≡◌, refl, inl, inr, Bool, true, false, none, some, List, [], ◌∷◌,
  Bool-cases, Str, codes, str_eq, str_eq_iff, lookup, contains, Map, pos, ◌⊎◌, ◌≤ℤ◌, ◌<ℤ◌, ◌↔◌,
}
use custom_service.Ws.Protocol.{
  valid_conv_id, Envelope, zero_envelope, hall_moderation_action, text, object,
}
use custom_service.Ws.Client.{is_visitor, Kind, visitor, agent, Client, Net, receive, send}
use custom_service.Ws.Index.{Index, all_conns}
use custom_service.Ws.Fanout.{is_typing_echo, is_stale, fanout_local}
use custom_service.Ws.Fanout.Reach.{reaches, fanout_local-reaches}
use custom_service.Ws.Hub.{Hub, Calls, Sink, Ambient, stamped, fanout_to_conv, send_to}
use custom_service.Ws.Binding.{rebind_client, sender_ref}
use custom_service.Ws.Registry.{handle_unregister}
use custom_service.Ws.Registry.Invariant.{IsIndexed}
use custom_service.Ws.Registry.Bound.{IsBound, BoundTo}
use custom_service.Ws.Registry.Gone.{handle_unregister-gone}
use custom_service.Ws.Hall.{deliver_hall_moderation}
use custom_service.Ws.Hall.Kick.{deliver_hall_moderation-subs}
use custom_service.Ws.Incoming.{
  chat_from_agent, receive_published, persist_checked, error_frame, agent_conv_forbidden_text,
}

abbrev pub client_of : Kind → Str → Str → Str → Client
client_of kind id conv conn = record {
  conn_id = conn;
  kind = kind;
  id = id;
  site_id = [];
  conv_id = conv;
  high = [];
  low = [];
  closed = false;
  blocked = false;
  last_typing_ms = pos 0;
}

abbrev pub ann : Client
ann = client_of visitor (codes "v") (codes "C") (codes "a")

abbrev pub bob : Client
bob = client_of agent (codes "u") (codes "C") (codes "b")

abbrev pub no_calls : Calls
no_calls = record {
  pending_calls = [];
  finished_calls = [];
  pending_accepts = [];
  accept_timers = [];
  timers = [];
  next_handle = 0;
}

abbrev pub hub_of : Str → Net → Index → Calls → Hub
hub_of node n ix cs = record {
  node_id = node;
  has_redis = true;
  has_hall = true;
  net = n;
  index = ix;
  calls = cs;
  last_ts = pos 0;
  trace = [];
}

abbrev pub two_clients : Net
two_clients = record { clients = (codes "a", ann) ∷ (codes "b", bob) ∷ []; unregister = [] }

abbrev pub ann_online : Index
ann_online = record {
  visitors = (codes "v", codes "a") ∷ [];
  agents = [];
  by_conv = (codes "C", codes "a" ∷ []) ∷ [];
  hall_subs = codes "a" ∷ [];
}

abbrev pub both_online : Index
both_online = record ann_online {
  agents = (codes "u", codes "b" ∷ []) ∷ [];
  by_conv = (codes "C", codes "a" ∷ codes "b" ∷ []) ∷ [];
}

-- Everything passes, and no agent owns a conversation but the one it is in.
abbrev pub plain_sink : Sink
plain_sink = record {
  preprocess_visitor_message = λ e conn h. (h, some e);
  preprocess_agent_message = λ e conn h. (h, some e);
  agent_owns_conv = λ conv aid. false;
  agent_can_read_conv = λ conv aid. false;
}

abbrev pub noon : Ambient
noon = record { now_ms = pos 1000; uuid = codes "id-1"; server_now = codes "12:00" }

abbrev to_c : Envelope
to_c = record zero_envelope { type = codes "chat"; conv_id = codes "C"; id = codes "m1" }

fanout_local-reaches_example :
    lookup (codes "a") (fanout_local both_online to_c two_clients).0.clients
    ≡ some (receive to_c ann)
unfolding lookup str_eq reaches contains all_conns receive is_empty is_typing_echo is_stale
fanout_local-reaches_example =
    fanout_local-reaches both_online to_c two_clients (codes "a") ann (refl, (refl, tt)) (refl, tt)
      refl

abbrev kick : Envelope
kick = record zero_envelope {
  type = codes "hall_moderation";
  to = codes "visitor:v";
  extra = object ((codes "action", text (codes "kicked")) ∷ []);
}

deliver_hall_moderation-subs_example :
    contains
      (codes "a")
      (deliver_hall_moderation kick
        (hub_of (codes "n1") two_clients ann_online no_calls)).index.hall_subs
    ≡ false
unfolding lookup str_eq contains is_empty hall_moderation_action is_visitor
deliver_hall_moderation-subs_example =
    deliver_hall_moderation-subs (codes "v") (codes "a") ann kick
      (hub_of (codes "n1") two_clients ann_online no_calls) refl refl refl

ann-IsIndexed : IsIndexed ann_online two_clients
unfolding lookup str_eq contains all_conns
ann-IsIndexed = record {
  visitors_held = ((ann, refl, refl, refl, refl), tt);
  agents_held = tt;
  members_distinct = ((refl, tt), tt);
  agents_distinct = tt;
}

ann-BoundTo : BoundTo (codes "C") two_clients (codes "a")
unfolding lookup str_eq
ann-BoundTo = (ann, refl, refl)

ann-IsBound : IsBound ann_online two_clients
unfolding lookup contains is_empty
ann-IsBound = ((refl, λ k h. member k h), tt)
  where
    member : (k : Str) → contains k (codes "a" ∷ []) ≡ true → BoundTo (codes "C") two_clients k
    member k h = elim (Bool-cases (str_eq (codes "a") k)) [
      | inl same ↦ rw (← (str_eq_iff (codes "a") k).0 same) ann-BoundTo
      | inr other ↦ let q : false ≡ true = rw other at h in absurd (cc)
    ]

handle_unregister-gone_example :
    (¬ (
      lookup
        (codes "v")
        (handle_unregister
          (codes "a")
          (hub_of (codes "n1") two_clients ann_online no_calls)).index.visitors
      ≡ some (codes "a")))
    × (contains (codes "a") (
          all_conns
            (handle_unregister
              (codes "a")
              (hub_of (codes "n1") two_clients ann_online no_calls)).index.agents)
        ≡ false)
    × (contains (codes "a") (
          all_conns
            (handle_unregister
              (codes "a")
              (hub_of (codes "n1") two_clients ann_online no_calls)).index.by_conv)
        ≡ false)
    × (contains
          (codes "a")
          (handle_unregister
            (codes "a")
            (hub_of (codes "n1") two_clients ann_online no_calls)).index.hall_subs
        ≡ false)
unfolding lookup str_eq
handle_unregister-gone_example =
    handle_unregister-gone (codes "v") (codes "a") ann
      (hub_of (codes "n1") two_clients ann_online no_calls) refl ann-IsIndexed ann-IsBound
