-- ===== src/Tests.antt =====
-- The theorems at concrete inputs, and tests of the definitions.
mod Core
mod Frame
mod Pacing
mod Pump
mod Client
mod Server
mod Schedule
mod Summary
mod Routes
mod Bench
mod Ends
mod Main
mod Link
mod Admission
