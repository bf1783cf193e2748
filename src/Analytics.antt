-- ===== src/Analytics.antt =====
-- The front end's analytics: ranges of dates (frontend/src/lib/analyticsRange.ts) and the endpoints
-- (frontend/src/lib/analyticsApi.ts).
pub mod Range
pub mod Js
pub mod Query
pub mod Endpoints
pub mod Spending
pub mod Treasury
pub mod Flow
pub mod Routing
pub mod RateLimit
mod Examples
