-- ===== src/Ws.antt =====
-- The WebSocket hub, backend/internal/ws.
pub mod Protocol
pub mod Client
pub mod Index
pub mod Fanout
pub mod Hub
pub mod Binding
pub mod Registry
pub mod Voice
pub mod Hall
pub mod Incoming
pub mod Run
pub mod Tests
