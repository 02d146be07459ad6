-- ===== src/ByteChannel/Dequeue.antt =====
-- include/shmchan/byte_channel.hpp: `try_dequeue` and `reclaim_consumed`. What others do between two
-- atomic operations is part of the schedule. `reclaim_consumed` runs under a lock of its own; its
-- schedule starts when the lock is held.
use shmchan.Common.{
  ℕ, ◌+◌, ◌-◌, ◌%◌, Bool, true, false, not, ◌&&◌, ◌||◌, List, [], ◌∷◌, Option, none, some, ltb,
  ◌==◌, if◌then◌else◌,
}
use shmchan.Status.{Bytes, u64_mod}
use shmchan.ByteChannel.State.{
  ByteRing, record_alignment, published_token, claimed_token, consumed_token, field_at, state_of,
  store_field, copy_from_record, bad_total, signal_readable, signal_writable,
}
use shmchan.ByteChannel.Enqueue.{Round}

-- The loop of `reclaim_consumed`, with `position` the value that was loaded, and whether something
-- was reclaimed; `none` where the schedule has ended first.
unfoldable pub reclaim_loop : List Round → ℕ → Bool → ByteRing → Option (Bool × ByteRing)
reclaim_loop [] position reclaimed_any b = none
reclaim_loop (r ∷ rest) position reclaimed_any b =
    let b1 = r.before b in
    let b2 = r.between b1 in
    let total_size = field_at 1 b1 position in
    let next = (position + total_size) % u64_mod in
    let moved = reclaim_loop rest next true (record b2 { reclaim_position = next }) in
    let again = reclaim_loop rest b2.reclaim_position reclaimed_any b2 in
    if position == b1.claim_position
    then some (reclaimed_any, b1)
    else if not (state_of b1 position == consumed_token position)
    then some (reclaimed_any, b1)
    else if bad_total b1 total_size
    then some (reclaimed_any, b1)
    else if (b2.reclaim_position == position) && not r.fails_weakly
    then moved
    else again

-- `reclaim_consumed`
unfoldable pub reclaim_consumed : List Round → ByteRing → Option ByteRing
unfolding reclaim_loop
reclaim_consumed rounds b = elim (reclaim_loop rounds b.reclaim_position false b) [
  | none ↦ none
  | some (reclaimed_any, b1) ↦ some (if reclaimed_any then signal_writable b1 else b1)
]

-- What others do in a `try_dequeue` before its second load, before it claims the record and before
-- it moves the claim position on, and the schedule of its `reclaim_consumed`.
pub record Turn : Type 0 where
  pub before_write : ByteRing → ByteRing
  pub before_claim : ByteRing → ByteRing
  pub before_advance : ByteRing → ByteRing
  pub reclaims : List Round

-- How `try_dequeue` ends: with a message, with `std::nullopt`, by an exception, or not within the
-- schedule.
pub data Dequeue : Type 0 where
  dequeued : Bytes → ByteRing → Dequeue
  nothing threw : ByteRing → Dequeue
  pending : Dequeue

-- The consumed token and the reclaim, at the end of `try_dequeue` and before its exceptions.
unfoldable pub consume : List Round → ℕ → ByteRing → Option ByteRing
unfolding reclaim_consumed
consume rounds position b =
    reclaim_consumed rounds (store_field 0 position (consumed_token position) b)

-- An exception of `try_dequeue`.
unfoldable pub give_up : List Round → ℕ → ByteRing → Dequeue
unfolding consume
give_up rounds position b = elim (consume rounds position b) [ none ↦ pending | some b1 ↦ threw b1 ]

-- The end of `try_dequeue`, with the claim position moved on.
unfoldable pub take_record : List Round → ℕ → ℕ → ByteRing → Dequeue
unfolding consume
take_record rounds position payload_size b =
    let value = copy_from_record position payload_size b in
    elim (consume rounds position b) [ none ↦ pending | some b1 ↦ dequeued value b1 ]

-- `try_dequeue` after it has claimed the record at `position`.
unfoldable pub take_claimed : Turn → ℕ → ByteRing → Dequeue
unfolding give_up take_record
take_claimed t position b =
    let total_size = field_at 1 b position in
    let payload_size = field_at 2 b position in
    let b1 = t.before_advance b in
    if bad_total b total_size || ltb (total_size - record_alignment) payload_size
    then give_up t.reclaims position b
    else if b1.claim_position == position
    then take_record t.reclaims position payload_size
        (signal_readable (record b1 { claim_position = (position + total_size) % u64_mod }))
    else give_up t.reclaims position b1

-- `try_dequeue`
unfoldable pub try_dequeue : Turn → ByteRing → Dequeue
unfolding take_claimed
try_dequeue t b =
    let position = b.claim_position in
    let b1 = t.before_write b in
    let b2 = t.before_claim b1 in
    if position == b1.write_position
    then nothing b1
    else if state_of b2 position == published_token position
    then take_claimed t position (store_field 0 position (claimed_token position) b2)
    else nothing b2
