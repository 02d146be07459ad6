-- ===== src/Tests.antt =====
-- Runs of the model at fixed inputs, and the theorems at inputs that meet their hypotheses.
mod Managed
mod Layout
mod Channel
mod ByteChannel
mod Serialized
mod Threads
mod Closing
mod Objects
