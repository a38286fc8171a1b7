-- ===== src/Palette.antt =====
-- The command palette of the second web client, apps/web-v2/components/layout/CommandPalette.tsx.
pub mod Items
pub mod Search
pub mod Order
pub mod Keys
