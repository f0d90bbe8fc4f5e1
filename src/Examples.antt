-- ===== src/Examples.antt =====
-- The theorems at concrete inputs, component by component.
mod Requests
mod Generations
mod Hierarchies
mod Recoveries
mod Frames
mod Texts
mod Messages
mod Transfers
mod Drivers
mod Operations
mod Batches
