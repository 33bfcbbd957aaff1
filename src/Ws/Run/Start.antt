-- ===== src/Ws/Run/Start.antt =====
-- The invariants of a new hub.
use custom_service.Common.{Bool, Str, lookup}
use custom_service.Ws.Client.Sending.{AllBounded}
use custom_service.Ws.Index.{all_conns}
use custom_service.Ws.Hub.{new_hub}
use custom_service.Ws.Registry.Invariant.{IsIndexed}
use custom_service.Ws.Registry.Bound.{IsBound}

pub new_hub-IsIndexed :
    (node : Str) (redis : Bool) → IsIndexed (new_hub node redis).index (new_hub node redis).net
unfolding new_hub all_conns
new_hub-IsIndexed node redis = record {
  visitors_held = tt;
  agents_held = tt;
  members_distinct = tt;
  agents_distinct = tt;
}

pub new_hub-IsBound :
    (node : Str) (redis : Bool) → IsBound (new_hub node redis).index (new_hub node redis).net
unfolding new_hub
new_hub-IsBound node redis = tt

pub new_hub-AllBounded : (node : Str) (redis : Bool) → AllBounded (new_hub node redis).net
unfolding new_hub lookup
new_hub-AllBounded node redis k c h = absurd (cc)
