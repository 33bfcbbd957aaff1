-- ===== src/Ws/Protocol.antt =====
-- backend/internal/ws/protocol.go, and the readers of an envelope's free part in
-- backend/internal/ws/hub.go and hub_hall.go.
pub mod Ids
pub mod Clock
unfoldable pub use Ids.*
unfoldable pub use Clock.*
use custom_service.Common.{
  Str, codes, str_eq, has_prefix, trim_prefix, Map, lookup, ℤ, pos, Bool, true, false, Option, none,
  some, [], if◌then◌else◌,
}

-- A JSON value under `Extra`. `float64 z` is a float64 whose conversion by `int` is z.
pub data Value : Type 0 where
  text : Str → Value
  float64 : ℤ → Value
  int : ℤ → Value
  bool : Bool → Value
  other : Value

-- `Extra interface{}`: nil, a `map[string]any`, or a value of another type.
pub data Extra : Type 0 where
  absent : Extra
  object : Map Value → Extra
  opaque : Extra

pub record Envelope : Type 0 where
  pub type : Str
  pub id : Str
  pub client_id : Str
  pub from : Str
  pub to : Str
  pub conv_id : Str
  pub content : Str
  pub media_url : Str
  pub media_kind : Str
  pub media_name : Str
  pub media_size : ℤ
  pub ts : ℤ
  pub priority : ℤ
  pub node : Str
  pub conn_id : Str
  pub extra : Extra

-- The zero value of the struct, on which the composite literals are written.
abbrev pub zero_envelope : Envelope
zero_envelope = record {
  type = [];
  id = [];
  client_id = [];
  from = [];
  to = [];
  conv_id = [];
  content = [];
  media_url = [];
  media_kind = [];
  media_name = [];
  media_size = pos 0;
  ts = pos 0;
  priority = pos 0;
  node = [];
  conn_id = [];
  extra = absent;
}

-- `m, ok := e.Extra.(map[string]any)` and the lookup of a key in it.
unfoldable pub extra_value : Extra → Str → Option Value
extra_value (object m) key = lookup key m
extra_value absent key = none
extra_value opaque key = none

unfoldable pub as_string : Option Value → Str
as_string (some (text s)) = s
as_string _ = []

unfoldable pub extract_call_id : Envelope → Str
unfolding as_string extra_value
extract_call_id e = as_string (extra_value e.extra (codes "call_id"))

unfoldable pub extract_reason : Envelope → Str
unfolding as_string extra_value
extract_reason e = as_string (extra_value e.extra (codes "reason"))

unfoldable pub extract_code : Envelope → Str
unfolding as_string extra_value
extract_code e = as_string (extra_value e.extra (codes "code"))

unfoldable pub as_int : Option Value → ℤ
as_int (some (float64 z)) = z
as_int (some (int z)) = z
as_int _ = pos 0

unfoldable pub extract_duration_sec : Envelope → ℤ
unfolding as_int extra_value
extract_duration_sec e = as_int (extra_value e.extra (codes "duration"))

abbrev pub visitor_prefix : Str
visitor_prefix = codes "visitor:"

abbrev pub agent_prefix : Str
agent_prefix = codes "agent:"

unfoldable pub extract_visitor_id : Envelope → Str
extract_visitor_id e =
    if has_prefix e.from visitor_prefix
    then trim_prefix e.from visitor_prefix
    else if has_prefix e.to visitor_prefix
    then trim_prefix e.to visitor_prefix
    else []

unfoldable pub as_bool : Option Value → Bool
as_bool (some (bool b)) = b
as_bool _ = true

unfoldable pub hall_settings_enabled : Envelope → Bool
unfolding as_bool extra_value
hall_settings_enabled e = as_bool (extra_value e.extra (codes "enabled"))

unfoldable pub hall_moderation_action : Envelope → Str
unfolding as_string extra_value
hall_moderation_action e = as_string (extra_value e.extra (codes "action"))

-- The frame types of the `switch e.Type` of handleIncoming.
pub data Signal : Type 0 where
  voice_call voice_accept voice_reject voice_taken : Signal
  voice_offer voice_answer voice_ice voice_end : Signal

pub data Frame : Type 0 where
  ping chat delivery read page typing unknown : Frame
  voice : Signal → Frame

unfoldable pub frame : Str → Frame
frame t =
    if str_eq t (codes "ping")
    then ping
    else if str_eq t (codes "chat")
    then chat
    else if str_eq t (codes "delivery")
    then delivery
    else if str_eq t (codes "read")
    then read
    else if str_eq t (codes "page")
    then page
    else if str_eq t (codes "typing")
    then typing
    else if str_eq t (codes "voice_call")
    then voice voice_call
    else if str_eq t (codes "voice_accept")
    then voice voice_accept
    else if str_eq t (codes "voice_reject")
    then voice voice_reject
    else if str_eq t (codes "voice_taken")
    then voice voice_taken
    else if str_eq t (codes "voice_offer")
    then voice voice_offer
    else if str_eq t (codes "voice_answer")
    then voice voice_answer
    else if str_eq t (codes "voice_ice")
    then voice voice_ice
    else if str_eq t (codes "voice_end")
    then voice voice_end
    else unknown
