-- ===== src/Security/Trace.antt =====
-- ValidTraceID of backend/internal/security/sanitize.go.
pub mod Format
use custom_service.Common.{ℕ, ◌||◌, ◌==◌, Bool, if◌then◌else◌, false, length, ltb, Str}
use custom_service.Ws.Protocol.Ids.{in_range, every_byte}

unfoldable pub trace_id_byte : ℕ → Bool
unfolding in_range
trace_id_byte b =
    in_range b'a' b'z' b || in_range b'A' b'Z' b || in_range b'0' b'9' b || b == b'-' || b == b'_'

unfoldable pub valid_trace_id : Str → Bool
unfolding every_byte trace_id_byte
valid_trace_id value =
    if ltb (length value) 8 || ltb 64 (length value) then false else every_byte trace_id_byte value
