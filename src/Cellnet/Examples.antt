-- ===== src/Cellnet/Examples.antt =====
-- The theorems at concrete inputs.
mod Messages
mod Wire
mod Sessions
mod Peers
