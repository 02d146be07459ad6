-- ===== src/ByteChannel/State.antt =====
-- include/shmchan/byte_channel.hpp: the shared object, its records and the copies to and from them.
use shmchan.Common.{
  ℕ, ◌+◌, ◌-◌, ◌*◌, ◌/◌, ◌%◌, Bool, ◌||◌, [], ◌++◌, ltb, ◌==◌, not, if◌then◌else◌, length, take,
  drop, min,
}
use shmchan.Status.{Bytes, u32_mod, u64_mod}
use shmchan.Channel.Sender.{SenderWords}
use shmchan.ByteChannel.Memory.{write_at, read_at, to_bytes, from_bytes}

-- The positions and the area of `shared_header`; `words` has the words of the senders and the
-- epochs, which have the code of channel.hpp.
pub record ByteRing : Type 0 where
  pub capacity_bytes : ℕ
  pub write_position : ℕ
  pub claim_position : ℕ
  pub reclaim_position : ℕ
  pub words : SenderWords
  pub area : Bytes

-- `sizeof(record_header)`, which the source asserts to be `record_alignment`.
abbrev pub record_alignment : ℕ
record_alignment = 32

-- `align_up`, for an alignment that is a power of two: the mask rounds down to a multiple.
unfoldable pub align_up : ℕ → ℕ → ℕ
align_up value alignment = (value + alignment - 1) % u64_mod / alignment * alignment

-- `record_size`
unfoldable pub record_size : ℕ → ℕ
unfolding align_up
record_size payload_size = align_up ((record_alignment + payload_size) % u64_mod) record_alignment

abbrev pub published_token : ℕ → ℕ
published_token position = (position + 1) % u64_mod

abbrev pub claimed_token : ℕ → ℕ
claimed_token position = (position + 2) % u64_mod

abbrev pub consumed_token : ℕ → ℕ
consumed_token position = (position + 3) % u64_mod

-- A subtraction of `std::uint64_t`.
abbrev pub sub_u64 : ℕ → ℕ → ℕ
sub_u64 a b = (a + u64_mod - b) % u64_mod

-- The word number `field` of the record at `position`: state, total size, payload size, reserved.
unfoldable pub field_at : ℕ → ByteRing → ℕ → ℕ
unfolding read_at from_bytes
field_at field b position = from_bytes (read_at b.area (position % b.capacity_bytes + field * 8) 8)

abbrev pub state_of : ByteRing → ℕ → ℕ
state_of b position = field_at 0 b position

unfoldable pub store_field : ℕ → ℕ → ℕ → ByteRing → ByteRing
unfolding write_at to_bytes
store_field field position value b = record b {
  area = write_at b.area (position % b.capacity_bytes + field * 8) (to_bytes 8 value);
}

-- `copy_to_record`
unfoldable pub copy_to_record : ℕ → Bytes → ByteRing → ByteRing
unfolding write_at
copy_to_record position message b =
    let payload_offset = (position % b.capacity_bytes + record_alignment) % b.capacity_bytes in
    let first_size = min (length message) (b.capacity_bytes - payload_offset) in
    let first = write_at b.area payload_offset (take first_size message) in
    if length message == 0 then b else record b {
      area =
          if first_size == length message
          then first
          else write_at first 0 (drop first_size message);
    }

-- `copy_from_record`, into a buffer of `size` bytes.
unfoldable pub copy_from_record : ℕ → ℕ → ByteRing → Bytes
unfolding read_at
copy_from_record position size b =
    let payload_offset = (position % b.capacity_bytes + record_alignment) % b.capacity_bytes in
    let first_size = min size (b.capacity_bytes - payload_offset) in
    let first = read_at b.area payload_offset first_size in
    if size == 0
    then []
    else if first_size == size
    then first
    else first ++ read_at b.area 0 (size - first_size)

-- The tests of a record's total size that `try_dequeue` and `reclaim_consumed` share.
unfoldable pub bad_total : ByteRing → ℕ → Bool
bad_total b total_size =
    ltb total_size record_alignment
    || ltb b.capacity_bytes total_size
    || not (total_size % record_alignment == 0)

-- `fetch_add` on an epoch, and the wake of its waiters.
abbrev pub signal_readable : ByteRing → ByteRing
signal_readable b = record b {
  words = record (b.words) { readable_epoch = (b.words.readable_epoch + 1) % u32_mod };
}

abbrev pub signal_writable : ByteRing → ByteRing
signal_writable b = record b {
  words = record (b.words) { writable_epoch = (b.words.writable_epoch + 1) % u32_mod };
}
