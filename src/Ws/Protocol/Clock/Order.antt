-- ===== src/Ws/Protocol/Clock/Order.antt =====
-- The order of the time stamps of Ws/Protocol/Clock.
use custom_service.Common.{◌≡◌, ◌⊎◌, arith, ℤ, ◌≤ℤ◌, ◌<ℤ◌, max_int64}
use custom_service.Ws.Protocol.Clock.{monotonic_ts}

-- The stamp lies strictly after the last one and not before the clock, and it is the clock's reading
-- where that is already later; the last stamp must be below the largest int64.
pub monotonic_ts-lt :
    (last now : ℤ)
    → last <ℤ max_int64
    → (last <ℤ monotonic_ts last now)
      × (now ≤ℤ monotonic_ts last now)
      × ((monotonic_ts last now ≡ now) ⊎ (now ≤ℤ last))
unfolding monotonic_ts
monotonic_ts-lt last now h = (ground arith, ground arith, ground arith)
