-- ===== src/Gateway.antt =====
-- gateway.ts: what the API gateway calls. The model has a module for each part of `authorize`, and
-- one for each other function.
pub mod RateLimit
pub mod Quota
pub mod Credential
pub mod Authorize
pub mod Describe
pub mod Usage
pub mod Demo
