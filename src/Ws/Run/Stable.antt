-- ===== src/Ws/Run/Stable.antt =====
-- A predicate on the index and the heap that each elementary change keeps is kept by every event.
-- `Stable` lists the elementary changes; the modules below go through the code once for all such
-- predicates.
pub mod Sends
pub mod Moves
pub mod Calls
pub mod Halls
pub mod Frames
pub mod Steps
use custom_service.Common.{
  ◌≡◌, Bool, false, none, some, [], Str, lookup, store, modify, contains, List,
}
use custom_service.Ws.Protocol.{Envelope}
use custom_service.Ws.Client.{
  Kind, visitor, agent, Client, Net, send, close, conversation_id, set_conversation_id,
}
use custom_service.Ws.Index.{
  Index, all_conns, attach_conv, detach_conv, add_agent_conn, remove_agent_conn,
}
use custom_service.Ws.Registry.{entered, forget_visitor}

-- A write to a connection that leaves its owner, its conversation, its queues and its closing mark alone.
pub record IsSoft (f : Client → Client) : Type 0 where
  pub same_conn : (c : Client) → (f c).conn_id ≡ c.conn_id
  pub same_kind : (c : Client) → (f c).kind ≡ c.kind
  pub same_id : (c : Client) → (f c).id ≡ c.id
  pub same_conv : (c : Client) → (f c).conv_id ≡ c.conv_id
  pub same_high : (c : Client) → (f c).high ≡ c.high
  pub same_low : (c : Client) → (f c).low ≡ c.low
  pub same_closed : (c : Client) → (f c).closed ≡ c.closed

-- A connection just made: a fresh pointer, open, with empty queues.
pub record IsNew (c : Client) (n : Net) : Type 0 where
  pub unknown : lookup c.conn_id n.clients ≡ none
  pub no_high : c.high ≡ []
  pub no_low : c.low ≡ []
  pub open_still : c.closed ≡ false

pub record Stable (Q : Index → Net → Type 0) : Type 0 where
  pub after_send :
      (conn : Str) (e : Envelope) (ix : Index) (n : Net) → Q ix n → Q ix (send conn e n).0
  pub after_close : (conn : Str) (ix : Index) (n : Net) → Q ix n → Q ix (close conn n)
  pub after_write :
      (conn : Str) (f : Client → Client) (ix : Index) (n : Net)
      → IsSoft f
      → Q ix n
      → Q ix (record n { clients = modify conn f n.clients })
  pub after_pop :
      (rest : List Str) (ix : Index) (n : Net) → Q ix n → Q ix (record n { unregister = rest })
  pub after_move :
      (conn conv : Str) (ix : Index) (n : Net)
      → Q ix n
      → Q
          (attach_conv conn
            (conversation_id conn (set_conversation_id conn conv n))
            (detach_conv conn (conversation_id conn n) ix))
          (set_conversation_id conn conv n)
  pub after_unbind :
      (conn : Str) (c : Client) (ix : Index) (n : Net)
      → lookup conn n.clients ≡ some c
      → Q ix n
      → Q (detach_conv conn c.conv_id ix) (set_conversation_id conn [] n)
  pub after_detach :
      (conn conv : Str) (ix : Index) (n : Net) → Q ix n → Q (detach_conv conn conv ix) n
  pub after_hall :
      (subs : List Str) (ix : Index) (n : Net) → Q ix n → Q (record ix { hall_subs = subs }) n
  pub after_visitor :
      (c : Client) (ix : Index) (n : Net)
      → IsNew c n
      → c.kind ≡ visitor
      → Q ix n
      → Q
          (attach_conv c.conn_id c.conv_id
            (record ix { visitors = store c.id c.conn_id ix.visitors }))
          (entered c n)
  pub after_agent :
      (c : Client) (ix : Index) (n : Net)
      → IsNew c n
      → c.kind ≡ agent
      → Q ix n
      → Q (add_agent_conn c.id c.conn_id ix) (entered c n)
  pub after_forget :
      (vid conn : Str) (ix : Index) (n : Net) → Q ix n → Q (forget_visitor vid conn ix) n
  pub after_remove :
      (aid conn : Str) (ix : Index) (n : Net) → Q ix n → Q (remove_agent_conn aid conn ix) n
