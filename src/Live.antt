-- ===== src/Live.antt =====
-- The live views of the second web client: the provisioning console of
-- apps/web-v2/components/databases/ProvisionConsole.tsx and the log viewer of
-- apps/web-v2/components/apps/LogStream.tsx.
pub mod Console
pub mod Lifecycle
pub mod Kept
pub mod Lines
pub mod Window
