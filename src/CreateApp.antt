-- ===== src/CreateApp.antt =====
-- The creation of an app: the dialog of apps/web-v2/components/apps/CreateAppDialog.tsx and the
-- handler that takes what it sends.
pub mod Dialog
pub mod Server
pub mod Created
