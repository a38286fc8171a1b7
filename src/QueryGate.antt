-- ===== src/QueryGate.antt =====
-- The console of apps/web-v2/components/databases/QueryConsoleClient.tsx, and the tests that stand
-- between it and a database: in internal/database/query.go and in apps/agent/db_query.go.
pub mod Keyword
pub mod Api
pub mod Agent
pub mod Console
pub mod Words
