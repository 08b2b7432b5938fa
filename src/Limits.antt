-- ===== src/Limits.antt =====
-- The three limiters of the server: requests per key (mcp/rateLimit.ts), sign-in attempts per source
-- (services/localLoginLimiter.ts) and live writes per company and day (agent/liveWriteLimit.ts).
pub mod RateLimiter
pub mod LocalLogin
pub mod WritePermit
