-- ===== src/Ws/Index.antt =====
-- The maps of the hub in backend/internal/ws/hub.go that lead to connections: `visitors`, `agents`,
-- `byConv` and, of hub_hall.go, `hallReg.subs`; with the queries that only read them.
pub mod Sets
use custom_service.Common.{
  ℕ, Bool, true, false, none, some, List, [], ◌∷◌, ◌++◌, map, if◌then◌else◌, length, Str, is_empty,
  Map, lookup, store, delete, modify, contains, add, remove,
}

pub record Index : Type 0 where
  pub visitors : Map Str
  pub agents : Map (List Str)
  pub by_conv : Map (List Str)
  pub hall_subs : List Str

-- The set under a key; a missing key stands for no connection.
unfoldable pub conns_of : Str → Map (List Str) → List Str
conns_of k m = elim (lookup k m) [ none ↦ [] | some s ↦ s ]

-- The two nested `Range` loops over `agents`.
unfoldable pub all_conns : Map (List Str) → List Str
all_conns [] = []
all_conns ((k, s) ∷ m) = s ++ all_conns m

-- `LoadOrStore(convID, &sync.Map{})` and `Store(c.ConnID, c)`.
unfoldable pub attach_conv : Str → Str → Index → Index
unfolding conns_of
attach_conv conn conv ix =
    if is_empty conv
    then ix
    else record ix { by_conv = store conv (add conn (conns_of conv ix.by_conv)) ix.by_conv }

unfoldable pub detach_conv : Str → Str → Index → Index
detach_conv conn conv ix =
    if is_empty conv then ix else record ix { by_conv = modify conv (remove conn) ix.by_conv }

-- The agent's part of handleRegister: the connection joins those of the account.
unfoldable pub add_agent_conn : Str → Str → Index → Index
unfolding conns_of
add_agent_conn aid conn ix = record ix {
  agents = store aid (add conn (conns_of aid ix.agents)) ix.agents;
}

-- The agent's part of handleUnregister: the account goes with its last connection.
unfoldable pub remove_agent_conn : Str → Str → Index → Index
remove_agent_conn aid conn ix = elim (lookup aid ix.agents) [
  | none ↦ ix
  | some s ↦ elim (remove conn s) [
    | [] ↦ record ix { agents = delete aid ix.agents }
    | _ ∷ _ ↦ record ix { agents = modify aid (remove conn) ix.agents }
  ]
]

unfoldable pub hall_subscribe_conn : Str → Index → Index
hall_subscribe_conn conn ix = record ix { hall_subs = add conn ix.hall_subs }

unfoldable pub hall_unsubscribe : Str → Index → Index
hall_unsubscribe conn ix = record ix { hall_subs = remove conn ix.hall_subs }

unfoldable pub hall_subscribed : Str → Index → Bool
hall_subscribed conn ix = contains conn ix.hall_subs

unfoldable pub hall_subscriber_count : Index → ℕ
hall_subscriber_count ix = length ix.hall_subs

unfoldable pub online_agent_count : Index → ℕ
online_agent_count ix = length ix.agents

unfoldable pub online_visitor_count : Index → ℕ
online_visitor_count ix = length ix.visitors

unfoldable pub online_visitor_ids : Index → List Str
online_visitor_ids ix = map (λ p. p.0) ix.visitors

unfoldable pub visitor_online : Str → Index → Bool
visitor_online vid ix = elim (lookup vid ix.visitors) [ none ↦ false | some _ ↦ true ]

unfoldable pub agent_online : Str → Index → Bool
agent_online aid ix = elim (lookup aid ix.agents) [
  | none ↦ false
  | some s ↦ elim s [ [] ↦ false | _ ∷ _ ↦ true ]
]
