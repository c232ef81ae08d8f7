-- ===== src/Examples.antt =====
-- The theorems at concrete inputs, and tests of the definitions.
mod Core
mod Secs2
mod Hsms
mod Session
mod Queue
mod Registry
mod Gem
mod Ring
mod EventBus
mod Host
