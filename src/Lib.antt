-- ===== src/Lib.antt =====
-- shmchan: bounded message channels between the processes of one Linux host, over POSIX shared
-- memory (include/shmchan).
--
-- Parts and files:
-- - Common: Boolean tests, arrays as lists with native indices, and their lemmas.
-- - Status: the status codes and the result type of include/shmchan/channel.hpp.
-- - Channel: include/shmchan/channel.hpp. Channel.Sender has the word `sender_state` with
--   `active_sender_guard` and `close`; Channel.Ring has `try_enqueue` and `try_dequeue` with a
--   schedule for the races; Channel.Send and Channel.Receive have the calls and their loops;
--   Channel.Queue is the specification, a bounded queue, and Channel.Single relates the channel of
--   one slot to it, with the calls of Channel.Calls one after the other; Channel.Layout has the
--   creation and the validation. Channel.Threads has the accesses that any number of threads make in
--   `try_enqueue` and `try_dequeue` of one ring, in any order, with Threads.Invariant, Threads.Safety
--   and Threads.Progress; Channel.Closing has those of the calls round them, with the word of the
--   senders and `close`. Channel.Names has `normalize_name` and `managed_object_name`.
-- - ByteChannel: include/shmchan/byte_channel.hpp. ByteChannel.State has the shared object, an area of
--   bytes with the record headers in it as little-endian words, and the copies to and from records;
--   ByteChannel.Enqueue and ByteChannel.Dequeue have `try_enqueue`, `try_dequeue` and
--   `reclaim_consumed`; ByteChannel.Send and ByteChannel.Receive have the calls and their loops;
--   ByteChannel.Layout has the creation and the validation. ByteChannel.Memory reads the area as a
--   tape that goes round at the capacity, ByteChannel.Chain says which records lie on it, and
--   ByteChannel.Queue is the specification, a queue bounded by the bytes of its records.
-- - Managed: include/shmchan/managed_channel.hpp, the channel that survives the death of a process.
--   Managed.State is the shared object: `managed_shared_header` without its mutex, and the slots,
--   each with its payload area. Managed.Slots has `recover_managed_slots` and
--   `validate_managed_slots`; Managed.Lock has `managed_mutex_guard`; Managed.Send and
--   Managed.Receive have `send_impl` and `receive_impl`. Managed.Stores reads a critical section
--   as the list of its stores in program order. Managed.Invariant and Managed.Queue have the
--   invariants and the abstract view: the READY messages in the order of their sequences.
--   Managed.Control has `close` and `stats`. Managed.Layout has `checked_managed_layout`, the object
--   that a creation leaves and the test that an open applies; Managed.Objects has `create`, `open`,
--   `open_or_create` and `unlink` on the object of a name, which Managed.Entry describes.
--   Managed.Fifo is the specification, a bounded first-in first-out queue of messages;
--   Managed.Calls lets clients take turns on one channel, each turn with the mutex free or left by a
--   dead owner, and relates them to the queue.
-- - Serialized: include/shmchan/serialized_channel.hpp over ByteChannel, with the client's codec as
--   a parameter, whose `decode` may throw. Serialized.Typed has the typed calls one after the other
--   and their specification, a queue of values; Serialized.Typed.Refine relates the two.
-- - Tests: runs at fixed inputs, and the theorems at inputs that meet their hypotheses.
--
-- How the model reads the code:
-- - A shared object is a record, and an operation is a function from it to a result and the new
--   record. Machine integers are natural numbers with their wrap-around written out. The words
--   `state`, `reason` and a slot's `state` are raw numbers, since any process can leave any value.
-- - Under the robust mutex a critical section runs alone, so it is one function. To say what a
--   process leaves that is killed inside it, the section is also a list of stores, a payload copy
--   byte by byte; the process leaves what a prefix of the list has written. The kernel's promise
--   that the next locker sees EOWNERDEAD is the case `owner_dead` of Managed.Lock.
-- - The mutex calls, the futex, the clock and the other processes are a schedule: lists of
--   `Attempt` and `Round`, each with what others do to the object in the meantime. A call that
--   does not end within its schedule is `spinning` or `pending`, never a result.
-- - In a turn of Managed.Calls nobody else runs: the schedule has one round with one attempt. A
--   client that dies does so in a send, with the mutex held; a receive that dies is not a turn.
-- - Sizes that the ABI and the C library fix, of the header and the mutex, are parameters of
--   Managed.Layout; ByteChannel.Layout and Channel.Layout have those of x86-64.
-- - The refinement asks for as many free sequences as there are calls, since a send uses at most one;
--   it says nothing of a channel whose 2 ^ 64 sequences run out.
-- - Between two atomic operations of byte_channel.hpp others may do anything, by the schedule; the
--   stores of a sender into the range that it has claimed are made together.
-- - In Managed.Objects any system call may fail, as `Calls` says, and `between` is what others do
--   between a `shm_open` and the lock, where they do not unlink the name. Under the `flock` a call
--   runs alone, apart from those who use the channel already; what they do enters no result there.
-- - In Channel.Single, ByteChannel.Calls and Serialized.Typed clients take turns, each alone on the
--   channel, with one round for each loop. The refinement of a byte channel asks for positions left
--   for the records that the calls may send, so that no position wraps at 2 ^ 64.
-- - In Channel.Threads and Channel.Closing each access to the shared memory is a move, and all moves
--   come one after the other; that the acquire and release orders of the code make a thread see the
--   stores before the one that it reads is taken for granted. The values sent and returned are kept
--   for each position beside the memory. Only runs whose positions stay below 2 ^ 62 are looked at.
-- - Not modelled: the type tag of channel.hpp, the lock of `reclaim_consumed` and the handles of
--   the mappings, with the functions of serialized_channel.hpp that only pass them on; the system
--   calls that create, map and unlink the objects of channel.hpp and byte_channel.hpp; and the pauses
--   between two attempts to lock, which change nothing but time.
pub mod Common
pub mod Status
pub mod Channel
pub mod ByteChannel
pub mod Managed
pub mod Serialized
pub mod Tests
