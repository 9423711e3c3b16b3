-- ===== src/Gateway.antt =====
-- gateway/: what stands between a client and the model servers.
pub mod Breaker
pub mod Redis
pub mod RateLimit
pub mod Quota
pub mod Auth
pub mod Routing
pub mod Billing
pub mod App
