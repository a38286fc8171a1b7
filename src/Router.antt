-- ===== src/Router.antt =====
-- The router of the API, internal/api/router.go: which handlers take a request.
pub mod Types
pub mod Target
pub mod TeamTable
pub mod AppTable
pub mod OtherTable
pub mod MountTable
pub mod Reading
pub mod Serve
pub mod Verdict
pub mod Dispatch
