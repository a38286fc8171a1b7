-- ===== src/AppUpdate.antt =====
-- What saving an app's settings does to the app: the calls of `appsApi.update` and
-- `appsApi.removeDomain` in apps/web-v2, and the handler of PUT /projects/{projectId}/apps/{appId}
-- in internal/api/handler/app.go, which replaces every field.
pub mod Decode
pub mod Server
pub mod Form
pub mod Effects
