-- ===== src/Security.antt =====
-- Rate limits, login locks and captchas, backend/internal/security.
pub mod RateLimit
pub mod Address
pub mod Trace
pub mod Tests
