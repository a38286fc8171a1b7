-- ===== src/Http.antt =====
-- Requests and responses of the Fetch API, as far as the clients build and read them:
-- apps/web-v2/lib/api.ts, apps/web-v2/lib/server-api.ts and apps/web/src/lib/api.ts.
pub mod Types
pub mod Client
pub mod Server
pub mod Legacy
pub mod Results
pub mod Messages
pub mod Headers
