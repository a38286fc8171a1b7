-- ===== src/EnvVars.antt =====
-- The variables of an app: the dialog of apps/web-v2/components/apps/EnvVarsClient.tsx and the handler
-- that takes what it sends.
pub mod Dialog
pub mod Server
pub mod Agree
