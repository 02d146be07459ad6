-- ===== src/ByteChannel/Chain/Written.antt =====
-- The stores that write a record into the area, and the record that they leave there.
use shmchan.Common.{ℕ, ◌+◌, ◌≤◌, ◌<◌, ◌≡◌, inl, inr, ap, ◌∙◌, List, [], ◌∷◌, arith, length}
use shmchan.Status.{Bytes, u64_mod}
use shmchan.ByteChannel.Memory.{
  to_bytes, from_bytes, ring_write, ring_read, ring_read-ring_write, ring_read-ring_write_self,
  length-ring_write, from_bytes-to_bytes_eight, length-to_bytes,
}
use shmchan.ByteChannel.Chain.{
  size_of, word_at, HasRecord, ring_writes, AllApart, ring_read-ring_writes,
}

module _ (capacity : ℕ) (some_room : 0 < capacity) where
  -- The stores of a sender at `p`, in program order.
  abbrev pub record_writes : ℕ → Bytes → List (ℕ × Bytes)
  record_writes p x =
      (p + 8, to_bytes 8 (size_of x))
      ∷ (p + 16, to_bytes 8 (length x))
      ∷ (p + 24, to_bytes 8 0)
      ∷ (p + 32, x)
      ∷ (p, to_bytes 8 (p + 1))
      ∷ []

  module _ (area : Bytes) (p : ℕ) (x : Bytes) (fits : size_of x ≤ capacity)
      (filled : capacity ≤ length area) (small : p + capacity < u64_mod) where
    -- A word that is written, and then writes elsewhere.
    word_at-written :
        (before : Bytes) (q n : ℕ) (rest : List (ℕ × Bytes))
        → capacity ≤ length before
        → n < u64_mod
        → AllApart capacity some_room rest q 8
        → 8 ≤ capacity
        → word_at capacity
            (ring_writes capacity (ring_write capacity before q (to_bytes 8 n)) rest)
            q
          ≡ n
    unfolding to_bytes
    word_at-written before q n rest room below apart wide =
        ap from_bytes (
          ring_read-ring_writes capacity some_room (ring_write capacity before q (to_bytes 8 n))
            rest q 8 apart
          ∙ ring_read-ring_write_self capacity some_room before q (to_bytes 8 n) room
              (omega (arith, wide)))
        ∙ from_bytes-to_bytes_eight n below

    abbrev total : Bytes
    total = to_bytes 8 (size_of x)

    abbrev payload_size : Bytes
    payload_size = to_bytes 8 (length x)

    abbrev reserved : Bytes
    reserved = to_bytes 8 0

    abbrev published : Bytes
    published = to_bytes 8 (p + 1)

    -- The area after the first stores.
    abbrev area_one : Bytes
    area_one = ring_write capacity area (p + 8) total

    abbrev area_two : Bytes
    area_two = ring_write capacity area_one (p + 16) payload_size

    abbrev area_three : Bytes
    area_three = ring_write capacity area_two (p + 24) reserved

    abbrev area_four : Bytes
    area_four = ring_write capacity area_three (p + 32) x

    room_four :
        (capacity ≤ length area_one)
        × (capacity ≤ length area_two)
        × (capacity ≤ length area_three)
        × (capacity ≤ length area_four)
    room_four = omega (
      arith,
      filled,
      length-ring_write capacity area (p + 8) total,
      length-ring_write capacity area_one (p + 16) payload_size,
      length-ring_write capacity area_two (p + 24) reserved,
      length-ring_write capacity area_three (p + 32) x,
    )

    lengths :
        (length total ≡ 8)
        × (length payload_size ≡ 8)
        × (length reserved ≡ 8)
        × (length published ≡ 8)
    lengths = (
      length-to_bytes 8 (size_of x),
      length-to_bytes 8 (length x),
      length-to_bytes 8 0,
      length-to_bytes 8 (p + 1),
    )

    pub HasRecord-written :
        HasRecord capacity (ring_writes capacity area (record_writes p x)) p (p + 1) x
    HasRecord-written = record {
      state =
          word_at-written area_four p (p + 1) [] room_four.3 (omega (arith, small, fits)) tt
            (omega (arith, fits));
      total_size =
          word_at-written area (p + 8) (size_of x)
            ((p + 16, payload_size) ∷ (p + 24, reserved) ∷ (p + 32, x) ∷ (p, published) ∷ []) filled
            (omega (arith, small, fits))
            (
              inr (omega arith, omega (arith, lengths, fits)),
              (
                inr (omega arith, omega (arith, lengths, fits)),
                (
                  inr (omega arith, omega (arith, fits)),
                  (inl (omega (arith, lengths), omega (arith, fits)), tt),
                ),
              ),
            )
            (omega (arith, fits));
      payload_size =
          word_at-written area_one (p + 16) (length x)
            ((p + 24, reserved) ∷ (p + 32, x) ∷ (p, published) ∷ []) room_four.0
            (omega (arith, small, fits))
            (
              inr (omega arith, omega (arith, lengths, fits)),
              (
                inr (omega arith, omega (arith, fits)),
                (inl (omega (arith, lengths), omega (arith, fits)), tt),
              ),
            )
            (omega (arith, fits));
      payload =
          ring_read-ring_writes capacity some_room area_four ((p, published) ∷ []) (p + 32)
            (length x) (inl (omega (arith, lengths), omega (arith, fits)), tt)
          ∙ ring_read-ring_write_self capacity some_room area_three (p + 32) x room_four.2
              (omega (arith, fits));
    }

  -- A record whose state is stored anew.
  pub HasRecord-marked :
      (area : Bytes) (p token token' : ℕ) (x : Bytes)
      → size_of x ≤ capacity
      → capacity ≤ length area
      → token' < u64_mod
      → HasRecord capacity area p token x
      → HasRecord capacity (ring_write capacity area p (to_bytes 8 token')) p token' x
  unfolding to_bytes
  HasRecord-marked area p token token' x fits filled small h = record {
    state =
        ap from_bytes (
          ring_read-ring_write_self capacity some_room area p (to_bytes 8 token') filled
            (omega (arith, fits)))
        ∙ from_bytes-to_bytes_eight token' small;
    total_size = ap from_bytes (kept (p + 8) 8 (omega arith) (omega arith)) ∙ h.total_size;
    payload_size = ap from_bytes (kept (p + 16) 8 (omega arith) (omega arith)) ∙ h.payload_size;
    payload = kept (p + 32) (length x) (omega arith) (omega arith) ∙ h.payload;
  }
    where
      kept :
          (q n : ℕ)
          → p + 8 ≤ q
          → q + n ≤ p + size_of x
          → ring_read capacity (ring_write capacity area p (to_bytes 8 token')) q n
            ≡ ring_read capacity area q n
      kept q n lo hi =
          ring_read-ring_write capacity some_room area p (to_bytes 8 token') q n
            (inl (omega arith, omega (arith, hi, fits)))
