-- ===== src/Traffic.antt =====
-- The traffic page of the second web client, apps/web-v2/components/apps/TrafficClient.tsx: the
-- draft of weights that the user edits.
pub mod Draft
pub mod Sync
pub mod Normalise
