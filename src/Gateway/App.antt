-- ===== src/Gateway/App.antt =====
-- gateway/app.py: one request through authentication, rate limit, routing, circuit breaker, model
-- call, quota and billing. Exceptions are values, and a step that raises gives back the state that
-- it has already changed. Latencies, which are only observed, are left out of the metrics.
pub mod Types
pub mod Handler
pub mod Served
pub mod Refused
pub mod Isolation
pub mod Errors
