-- ===== src/Ws/Tests/Texts.antt =====
-- The theorems about identifiers and time stamps at work on single values.
use custom_service.Common.{
  ◌≡◌, ◌↔◌, ◌⊎◌, ◌≤◌, true, false, codes, length, All, pos, ◌<ℤ◌, ◌≤ℤ◌, arith,
}
use custom_service.Ws.Protocol.Ids.{valid_message_id, valid_conv_id, safe_conv_for_log}
use custom_service.Ws.Protocol.Ids.Format.{
  IsMessageIdByte, IsConvIdByte, IsLoggable, valid_message_id_iff, valid_conv_id_iff,
  safe_conv_for_log_IsSafe,
}
use custom_service.Ws.Protocol.Clock.{monotonic_ts}
use custom_service.Ws.Protocol.Clock.Order.{monotonic_ts-lt}

valid_message_id_iff_example :
    (valid_message_id (codes "m-1") ≡ true)
    ↔ ((1 ≤ length (codes "m-1")) × (length (codes "m-1") ≤ 36) × All IsMessageIdByte (codes "m-1"))
valid_message_id_iff_example = valid_message_id_iff (codes "m-1")

valid_conv_id_iff_example :
    (valid_conv_id (codes "c") ≡ true) ↔ ((length (codes "c") ≡ 36) × All IsConvIdByte (codes "c"))
valid_conv_id_iff_example = valid_conv_id_iff (codes "c")

safe_conv_for_log_IsSafe_example :
    All IsLoggable (safe_conv_for_log (codes "a\nb"))
    × (length (safe_conv_for_log (codes "a\nb")) ≤ 40)
    × ((safe_conv_for_log (codes "a\nb") ≡ codes "a\nb") ⊎ (valid_conv_id (codes "a\nb") ≡ false))
safe_conv_for_log_IsSafe_example = safe_conv_for_log_IsSafe (codes "a\nb")

-- The clock stands still.
monotonic_ts-lt_example :
    (pos 5 <ℤ monotonic_ts (pos 5) (pos 5))
    × (pos 5 ≤ℤ monotonic_ts (pos 5) (pos 5))
    × ((monotonic_ts (pos 5) (pos 5) ≡ pos 5) ⊎ (pos 5 ≤ℤ pos 5))
monotonic_ts-lt_example = monotonic_ts-lt (pos 5) (pos 5) (omega arith)
