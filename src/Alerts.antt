-- ===== src/Alerts.antt =====
-- Alerts: the state machine of a rule in internal/observability/service.go, and the dialog of
-- apps/web-v2/components/notifications/NotificationsClient.tsx with the handler that takes a rule.
pub mod State
pub mod Reach
pub mod Dialog
pub mod Server
pub mod Created
