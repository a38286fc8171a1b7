-- ===== src/Bytes.antt =====
-- The texts that byte counts are shown as: the `formatBytes` functions of apps/web-v2 and
-- apps/web/src.
pub mod Loop
pub mod Format
pub mod Shown
