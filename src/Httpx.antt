-- ===== src/Httpx.antt =====
-- internal/httpx.
pub mod Ratelimit
