-- ===== src/ByteChannel/Enqueue.antt =====
-- include/shmchan/byte_channel.hpp: `try_enqueue`. A round of its loop says what others do before
-- the load of the reclaim position and before the compare-exchange, and whether a weak
-- compare-exchange fails for no reason. A claimed range of the area is the caller's, and the stores
-- into it are made together.
use shmchan.Common.{
  ℕ, ◌+◌, ◌-◌, ◌%◌, Bool, not, ◌&&◌, ◌||◌, List, [], ◌∷◌, ltb, ◌==◌, if◌then◌else◌, length,
}
use shmchan.Status.{Bytes, u64_mod}
use shmchan.ByteChannel.State.{
  ByteRing, record_size, published_token, sub_u64, store_field, copy_to_record, signal_readable,
}

pub record Round : Type 0 where
  pub before : ByteRing → ByteRing
  pub between : ByteRing → ByteRing
  pub fails_weakly : Bool

-- How the loop ends; `pending` where the schedule has ended first.
pub data Enqueue : Type 0 where
  enqueued full pending : ByteRing → Enqueue

-- The stores of a sender that has claimed the range at `position`: all but the last, and the last
-- with its signal.
unfoldable pub write_record : ℕ → ℕ → Bytes → ByteRing → ByteRing
unfolding store_field copy_to_record
write_record position required message b = copy_to_record position message (
    store_field 3 position 0
      (store_field 2 position (length message) (store_field 1 position required b)))

unfoldable pub publish_record : ℕ → ByteRing → ByteRing
unfolding store_field
publish_record position b = signal_readable (store_field 0 position (published_token position) b)

-- The test of the loop: there is no room for `required` bytes.
unfoldable pub lacks_room : ℕ → ℕ → ByteRing → Bool
lacks_room position required b =
    let used = sub_u64 position b.reclaim_position in
    ltb b.capacity_bytes used || ltb (b.capacity_bytes - used) required

-- The loop of `try_enqueue`, with `position` the value that was loaded.
unfoldable pub enqueue_loop : List Round → ℕ → ℕ → Bytes → ByteRing → Enqueue
unfolding write_record publish_record lacks_room
enqueue_loop [] position required message b = pending b
enqueue_loop (r ∷ rest) position required message b =
    let b1 = r.before b in
    let b2 = r.between b1 in
    let again = enqueue_loop rest b2.write_position required message b2 in
    if lacks_room position required b1
    then full b1
    else if (b2.write_position == position) && not r.fails_weakly
    then enqueued (
        publish_record position (
          write_record position required message
            (record b2 { write_position = (position + required) % u64_mod })))
    else again

-- `try_enqueue`
unfoldable pub try_enqueue : List Round → Bytes → ByteRing → Enqueue
unfolding enqueue_loop record_size
try_enqueue rounds message b =
    enqueue_loop rounds b.write_position (record_size (length message)) message b
