-- ===== src/Witnesses.antt =====
-- The theorems at concrete inputs.
pub mod Data
mod Api
mod Wrappers
mod Toasts
mod Weights
mod Access
mod Streams
mod Scales
mod Palettes
mod Amounts
mod Creations
mod Rules
mod Alarms
mod Queries
mod Orders
