-- ===== src/Channel.antt =====
-- include/shmchan/channel.hpp: the fixed-size channel, and the names that all channels share.
pub mod Sender
pub mod Names
pub mod Ring
pub mod Passing
pub mod Send
pub mod Receive
pub mod Queue
pub mod Calls
pub mod Single
pub mod Layout
pub mod Threads
pub mod Closing
