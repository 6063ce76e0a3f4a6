-- ===== src/Tests.antt =====
-- Runs of the model on small inputs, and the theorems at inputs that meet their hypotheses.
mod World
mod Ranges
mod Streams
mod Listeners
mod Rewinds
mod Syncs
mod Scanners
mod Modes
mod Deliveries
mod Pipelines
mod SyncModes
mod Lives
mod Messages
