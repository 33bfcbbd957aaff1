-- ===== src/Ws/Client.antt =====
-- backend/internal/ws/client.go: one connection with its two bounded queues, and the heap of
-- connections. A `*Client` is a connection ID, under which the heap holds the struct.
pub mod Sending
use custom_service.Common.{
  ℕ, ◌++◌, Bool, true, false, none, some, List, [], ◌∷◌, ltb, leb_ℤ, if◌then◌else◌, length, Str,
  is_empty, Map, lookup, modify, ℤ, pos,
}
use custom_service.Ws.Protocol.{Envelope}

pub data Kind : Type 0 where
  visitor agent : Kind

abbrev pub send_buf_high : ℕ
send_buf_high = 256

abbrev pub send_buf_low : ℕ
send_buf_low = 1024

-- `env` stands for its JSON text.
pub record OutboundFrame : Type 0 where
  pub env : Envelope
  pub trace_id : Str

pub record Client : Type 0 where
  pub conn_id : Str
  pub kind : Kind
  pub id : Str
  pub site_id : Str
  pub conv_id : Str
  pub high : List OutboundFrame
  pub low : List OutboundFrame
  pub closed : Bool
  pub blocked : Bool
  pub last_typing_ms : ℤ

unfoldable pub new_client : Kind → Str → Str → Str → Str → Client
new_client kind id site conv conn_id = record {
  conn_id = conn_id;
  kind = kind;
  id = id;
  site_id = site;
  conv_id = conv;
  high = [];
  low = [];
  closed = false;
  blocked = false;
  last_typing_ms = pos 0;
}

unfoldable pub is_visitor : Client → Bool
is_visitor c = elim c.kind [ visitor ↦ true | agent ↦ false ]

-- The heap, and what waits in the channel `unregister`, oldest first.
pub record Net : Type 0 where
  pub clients : Map Client
  pub unregister : List Str

unfoldable pub conversation_id : Str → Net → Str
conversation_id conn n = elim (lookup conn n.clients) [ none ↦ [] | some c ↦ c.conv_id ]

unfoldable pub with_conv : Str → Client → Client
with_conv conv c = record c { conv_id = conv }

unfoldable pub set_conversation_id : Str → Str → Net → Net
unfolding with_conv
set_conversation_id conn conv n = record n { clients = modify conn (with_conv conv) n.clients }

unfoldable pub mark_closed : Client → Client
mark_closed c = record c { closed = true }

-- A second close does nothing.
unfoldable pub close : Str → Net → Net
unfolding mark_closed
close conn n = elim (lookup conn n.clients) [
  | none ↦ n
  | some c ↦ if c.closed then n else record n {
    clients = modify conn mark_closed n.clients;
    unregister = n.unregister ++ conn ∷ [];
  }
]

unfoldable pub is_low : Envelope → Bool
is_low e = leb_ℤ (pos 1) e.priority

unfoldable pub has_room : Envelope → Client → Bool
unfolding is_low
has_room e c =
    if is_low e then ltb (length c.low) send_buf_low else ltb (length c.high) send_buf_high

unfoldable pub frame_of : Envelope → Client → OutboundFrame
frame_of e c = record { env = e; trace_id = if is_empty e.id then c.conn_id else e.id }

unfoldable pub enqueue : Envelope → Client → Client
unfolding is_low frame_of
enqueue e c =
    if is_low e
    then record c { low = c.low ++ frame_of e c ∷ [] }
    else record c { high = c.high ++ frame_of e c ∷ [] }

-- `Send`: a full queue closes the connection.
unfoldable pub send : Str → Envelope → Net → Net × Bool
unfolding close has_room enqueue
send conn e n = elim (lookup conn n.clients) [
  | none ↦ (n, false)
  | some c ↦
      if c.closed
      then (n, false)
      else if has_room e c
      then (record n { clients = modify conn (enqueue e) n.clients }, true)
      else (close conn n, false)
]

-- What becomes of an open connection that is sent to.
unfoldable pub receive : Envelope → Client → Client
unfolding has_room enqueue mark_closed
receive e c = if c.closed then c else if has_room e c then enqueue e c else mark_closed c

-- A loop over connections that sends to each.
unfoldable pub send_all : List Str → Envelope → Net → Net
unfolding send
send_all [] e n = n
send_all (conn ∷ conns) e n = send_all conns e (send conn e n).0
