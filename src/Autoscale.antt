-- ===== src/Autoscale.antt =====
-- Autoscaling: the dialog of apps/web-v2/components/apps/AutoscaleClient.tsx, the handler that takes
-- what it sends, and the evaluation of the rules.
pub mod Dialog
pub mod Server
pub mod Evaluate
pub mod Bounds
pub mod Offered
