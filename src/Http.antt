-- ===== src/Http.antt =====
-- The HTTP layer of the frontend: frontend/src/apis/client.ts and frontend/src/apis/api-utils.ts,
-- with the storage helpers of frontend/src/config.ts that they use.
pub mod Types
pub mod Client
pub mod Envelope
pub mod Utils
pub mod Interceptors
pub mod Safe
mod Tests
