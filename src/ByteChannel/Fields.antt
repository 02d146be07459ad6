-- ===== src/ByteChannel/Fields.antt =====
-- include/shmchan/byte_channel.hpp: what the code reads of a record that lies in the area.
use shmchan.Common.{ℕ, ◌+◌, ◌*◌, ◌%◌, ◌≤◌, ◌<◌, ◌≡◌, ap, ◌∙◌, false, arith, length}
use shmchan.Status.{Bytes}
use shmchan.ByteChannel.State.{ByteRing, field_at, bad_total}
use shmchan.ByteChannel.Copy.{field_at-ring_read}
use shmchan.ByteChannel.Chain.{size_of, HasRecord, word_at}

-- What `field_at` reads of a record.
module _ (b : ByteRing) (p token : ℕ) (x : Bytes) (some_room : 32 < b.capacity_bytes)
    (whole : b.capacity_bytes % 32 ≡ 0) (aligned : p % 32 ≡ 0)
    (h : HasRecord b.capacity_bytes b.area p token x) where
  field_of :
      (field : ℕ) → field < 4 → field_at field b p ≡ word_at b.capacity_bytes b.area (p + field * 8)
  field_of field known = field_at-ring_read b (omega (arith, some_room)) p whole aligned field known

  pub state_field : field_at 0 b p ≡ token
  state_field =
      let here : p + 0 * 8 ≡ p = omega arith in
      field_of 0 (omega arith) ∙ ap (word_at b.capacity_bytes b.area) here ∙ h.state

  pub total_field : field_at 1 b p ≡ size_of x
  total_field = field_of 1 (omega arith) ∙ h.total_size

  pub payload_field : field_at 2 b p ≡ length x
  payload_field = field_of 2 (omega arith) ∙ h.payload_size

pub good_total :
    (b : ByteRing) (x : Bytes) → size_of x ≤ b.capacity_bytes → bad_total b (size_of x) ≡ false
unfolding bad_total
good_total b x fits = ground arith
