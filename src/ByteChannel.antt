-- ===== src/ByteChannel.antt =====
-- include/shmchan/byte_channel.hpp: the channel of messages of any size.
pub mod Memory
pub mod State
pub mod Enqueue
pub mod Dequeue
pub mod Copy
pub mod Chain
pub mod Store
pub mod Fields
pub mod Reclaim
pub mod Take
pub mod Unwritten
pub mod Send
pub mod Receive
pub mod Queue
pub mod Calls
pub mod Refine
pub mod Layout
