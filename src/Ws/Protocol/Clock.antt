-- ===== src/Ws/Protocol/Clock.antt =====
-- monotonicTS of backend/internal/ws/protocol.go.
pub mod Order
use custom_service.Common.{ℤ, pos, leb_ℤ, ◌+ℤ◌, wrap64, if◌then◌else◌}

unfoldable pub monotonic_ts : ℤ → ℤ → ℤ
unfolding ◌+ℤ◌ wrap64
monotonic_ts last now = if leb_ℤ now last then wrap64 (last +ℤ pos 1) else now
