-- ===== src/Scale.antt =====
-- The scale page of the second web client, apps/web-v2/components/apps/ScaleClient.tsx.
pub mod Form
pub mod Server
pub mod Edits
pub mod Sent
pub mod Pins
