-- ===== src/Provision.antt =====
-- Databases: the dialog of apps/web-v2/components/databases/DatabasesListClient.tsx that orders one,
-- and the templates of internal/template/registry.go that Provision of internal/database/service.go
-- looks up.
pub mod Dialog
pub mod Registry
pub mod Offered
pub mod Ordered
