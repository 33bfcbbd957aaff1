-- ===== src/Security/Trace/Format.antt =====
-- What ValidTraceID accepts, against a description by classes of bytes.
use custom_service.Common.{ℕ, ◌≤◌, ◌≡◌, ◌↔◌, ◌⊎◌, true, length, All, Str, arith}
use custom_service.Ws.Protocol.Ids.Format.{IsBetween, every_byte→All, All→every_byte}
use custom_service.Security.Trace.{trace_id_byte, valid_trace_id}

abbrev pub IsTraceIdByte : ℕ → Type 0
IsTraceIdByte b =
    IsBetween b'a' b'z' b ⊎ IsBetween b'A' b'Z' b ⊎ IsBetween b'0' b'9' b ⊎ (b ≡ b'-') ⊎ (b ≡ b'_')

trace_id_byte_iff : (b : ℕ) → (trace_id_byte b ≡ true) ↔ IsTraceIdByte b
unfolding trace_id_byte
trace_id_byte_iff b = (λ h. ground arith, λ h. ground arith)

-- A trace ID is accepted exactly when it has 8 to 64 bytes, each of them an ASCII letter, a digit, a
-- dash or an underscore: nothing in it can break a line of the log.
pub valid_trace_id_iff :
    (value : Str)
    → (valid_trace_id value ≡ true)
      ↔ ((8 ≤ length value) × (length value ≤ 64) × All IsTraceIdByte value)
unfolding valid_trace_id
valid_trace_id_iff value = (
  λ h. (
    ground arith,
    ground arith,
    every_byte→All _ _ value (λ b. (trace_id_byte_iff b).0) (ground arith),
  ),
  λ h.
      let e = All→every_byte _ _ value (λ b. (trace_id_byte_iff b).1) h.2 in
      ground (arith, h.0, h.1),
)
