-- ===== src/Session.antt =====
-- Sessions and the active team on the server side of the second web client: apps/web-v2/lib/auth.ts,
-- apps/web-v2/lib/team.ts and `switchTo` of apps/web-v2/components/layout/TeamSwitcher.tsx.
pub mod User
pub mod Teams
pub mod Guards
