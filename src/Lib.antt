-- ===== src/Lib.antt =====
-- A verification library for the customer-service backend: the hub of its WebSocket connections,
-- the service that stores its messages, its rate limits, and the filter of the texts of its hall.
--
-- The backend (backend/, in Go) joins visitors of web sites with agents. Its hub,
-- backend/internal/ws, keeps the connections of one node: it registers and unregisters them, binds
-- each to a conversation, takes their frames, hands chats and receipts to a sink for checking and
-- storage, delivers frames to the connections of a conversation and over a Redis channel to the
-- other nodes, follows voice calls with timers, and keeps the subscriptions of the group hall.
--
-- Files, and the code they are about:
--   Common             helpers: tests on numbers, lists, byte strings, association lists, int64
--   Ws/Protocol        protocol.go; Protocol/Ids the checks of identifiers of protocol.go,
--                      hub_features.go and hub_hall.go; Protocol/Clock monotonicTS
--   Ws/Client          client.go: Send, close, SetConversationID
--   Ws/Index           the maps `visitors`, `agents`, `byConv` and `hallReg` of Hub
--   Ws/Fanout          fanoutLocal, fanoutVoiceLocal, fanoutAgentLocal, PushToVisitor, PushToAgent
--   Ws/Hub             the state of Hub; FanoutToConv, fanoutVoice, FanoutToAgent
--   Ws/Binding         attachConv to DetachAgentFromConv: the conversation of a connection
--   Ws/Registry        handleRegister, handleUnregister
--   Ws/Voice           the voice frames of handleIncoming; Voice/Watchdog fireAcceptWatchdog
--   Ws/Hall            hub_hall.go
--   Ws/Incoming        handleIncoming, fanoutFromRedis
--   Ws/Run             Run and the entry points of other goroutines, as a step relation
--   Service            backend/internal/service: Preprocess the two checks before storage, Pipeline
--                      PersistMessageAsync, Receipts the receipts and the replay of
--                      message_pipeline.go, Run the bounded pools, the hub and the service together
--   TextFilter         backend/internal/textfilter: Runes single runes, Views buildViews, Automaton
--                      automaton.go, Digits digitRunHits, Hosts hostOf and allowedHost, Mask the end
--                      of Check, Compile and Check the functions of these names
--   Security/RateLimit backend/internal/security/ratelimit.go
--   Security/Address   ClientIP of the same file
--   Security/Trace     ValidTraceID of backend/internal/security/sanitize.go
-- The modules below these prove their properties; Ws/Tests, Service/Tests,
-- TextFilter/Tests, Security/Tests and Security/RateLimit/Tests hold examples.
--
-- How the state corresponds. A `*Client` is a connection ID, and `Net.clients` is the heap that it
-- leads into; the struct stays there after the connection has left the maps, as a Go pointer would.
-- A sync.Map is an association list, and one whose keys are the connection IDs of its values is a
-- list of connection IDs. `Net.unregister` is the channel of that name without its bound: what the
-- bound does is not modelled. The two channels of a connection are lists within their capacities.
-- time.AfterFunc puts a callback on the list `timers`, and a callback that is still on the list may
-- run at any step, however much time has passed. What leaves the hub is a list of effects: messages
-- published on Redis, calls of the sink that return nothing, and frames for the hall handler. What
-- the hub waits for, the sink's checks, is the record `Sink`, an argument; its preprocessing may
-- change the hub. A string is the list of its bytes, but for the fixed Chinese texts, which are only
-- passed on and stand as code points. Numbers of type int64 wrap around.
--
-- The rate limiter runs on the record `Redis`, whose operations are the commands it sends and whose
-- laws, where a theorem needs them, are what the documentation of Redis says of them. A command that
-- fails, DEL as well, is taken to have changed nothing, and expiry with the time is not modelled.
--
-- The service runs on the record `Store`, whose operations are the functions of backend/internal/store
-- that it calls, each with the database that it leaves behind. `Service.Preprocess.sink_of` is the
-- service as the hub's sink. A task of the pools is one step, and the databases may change between
-- any two steps, by this node or by others.
--
-- The text filter works on the list of the runes of a valid string. The record `Library` holds what
-- it takes from package unicode and the regular expressions, of which the theorems assume that a
-- match lies in the text and begins and ends between runes. Where Go visits the edges of a node of
-- the automaton in a random order, the model takes the latest first.
--
-- Each event is one step, and steps come in any order. fireAcceptWatchdog, which runs on a timer's
-- goroutine, is three steps: taking the pending accept, the check of `finishedCalls`, and the rest. The
-- frame that ends a call is one step on the hub's goroutine; it deletes the pending accept before its
-- own check, so a watchdog's check within it acts like one just before it, and its other steps like
-- ones just before or after it. The Go code also lets calls from other goroutines run between the lines of the other steps; that is not
-- modelled. Most loops go through a list.
-- Those of the text filter that do not run on fuel: the search for digits on one more than the length
-- of the text, as every round moves on, a way back in the automaton and its queue on the number
-- of its nodes, since a way back visits no node twice and every node but the root is queued once.
--
-- Not modelled: the loops that read and write sockets, the upgrade of HTTP requests and JSON, which
-- belong to libraries; logs; the pushes to telephones; a panic in the middle of a task; the SQL of the
-- stores; the words and regular expressions of the text filter; the other services and the
-- handlers around the hub.
pub mod Common
pub mod Security
pub mod Service
pub mod TextFilter
pub mod Ws
