-- ===== src/TokenScopes.antt =====
-- The scopes of API tokens: apps/web-v2/components/teams/CreateTokenDialog.tsx against the checks of
-- internal/api/middleware/rbac.go and internal/model/model.go.
pub mod Dialog
pub mod Check
pub mod Grants
pub mod Submit
