-- ===== src/Managed.antt =====
-- include/shmchan/managed_channel.hpp: the channel that survives the death of a process.
pub mod State
pub mod Slots
pub mod Lock
pub mod Stores
pub mod Send
pub mod Receive
pub mod Queue
pub mod Invariant
pub mod Control
pub mod Fifo
pub mod Calls
pub mod Layout
pub mod Entry
pub mod Objects
