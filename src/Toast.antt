-- ===== src/Toast.antt =====
-- The toast store of the first web client, apps/web/src/hooks/use-toast.ts.
pub mod Store
pub mod Queue
pub mod Accounts
pub mod Reach
pub mod Effects
pub mod Drain
pub mod Listeners
