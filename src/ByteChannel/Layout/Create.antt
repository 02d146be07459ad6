-- ===== src/ByteChannel/Layout/Create.antt =====
-- include/shmchan/byte_channel.hpp: a new channel and its open.
use shmchan.Common.{
  ℕ, ◌+◌, ◌-◌, ◌/◌, ◌*◌, ◌%◌, ◌^◌, ◌≤◌, ◌<◌, ◌≡◌, refl, arith, Bool-cases, inl, inr, true, false,
  ltb, leb, ◌==◌, [], length-replicate, if◌then◌else◌,
}
use shmchan.Status.{u64_mod}
use shmchan.ByteChannel.State.{ByteRing}
use shmchan.ByteChannel.Store.{HoldsQueue}
use shmchan.ByteChannel.Refine.{Represents}
use shmchan.ByteChannel.Layout.{
  ByteFormat, checked_capacity, checked_mapping_size, create, fresh_format, fresh_ring,
  validate_mapping, abi_mismatch,
}

-- The capacity that is used, the next multiple of 32.
abbrev pub rounded : ℕ → ℕ
rounded capacity = (capacity + 31) / 32 * 32

module _ (capacity : ℕ) (large : 32 < capacity) (small : capacity ≤ 2 ^ 62) where
  capacity_ok : checked_capacity capacity ≡ inr (rounded capacity)
  unfolding checked_capacity
  capacity_ok = ground arith

  size_ok : checked_mapping_size (rounded capacity) ≡ inr (576 + rounded capacity)
  unfolding checked_mapping_size
  size_ok = ground arith

  fresh-HoldsQueue :
      (budget : ℕ)
      → budget + 2 * rounded capacity < u64_mod
      → HoldsQueue budget (fresh_ring (rounded capacity)) []
  fresh-HoldsQueue budget room = record {
    some_room = omega (arith, large);
    whole = omega arith;
    bounded = omega (arith, small);
    filled = omega (arith, length-replicate {A = ℕ} (rounded capacity) 0);
    aligned = refl;
    reclaimed = refl;
    chain = refl;
    within = omega arith;
    no_wrap = omega (arith, room);
  }

  validates :
      (size : ℕ)
      → validate_mapping (fresh_format (rounded capacity) (576 + rounded capacity)) size
        ≡ (if 576 + rounded capacity == size then inr (rounded capacity) else inl abi_mismatch)
  unfolding validate_mapping
  validates size =
      let above : leb (rounded capacity) 32 ≡ false = ground arith in
      let below : ltb (u64_mod - 1) (rounded capacity) ≡ false = ground arith in
      let whole : (rounded capacity % 32 == 0) ≡ true = ground arith in
      elim (Bool-cases (576 + rounded capacity == size)) [
        | inl same ↦ rw (above, below, whole) (rw (size_ok, validate_mapping) (rw same))
        | inr other ↦ rw (above, below, whole) (rw (size_ok, validate_mapping) (rw other))
      ]

-- For a capacity above 32 and up to 2 ^ 62 bytes, `create` succeeds with the capacity rounded up to a
-- multiple of 32. The new channel represents an open empty queue of that capacity, and
-- `validate_mapping` accepts it at its own size and refuses it at any other.
pub create-Represents :
    (capacity budget size : ℕ)
    → 32 < capacity
    → capacity ≤ 2 ^ 62
    → budget + 2 * rounded capacity < u64_mod
    → (f : ByteFormat) × (b : ByteRing) × (create capacity ≡ inr (f, b))
      × Represents (rounded capacity) budget b (record { items = []; is_open = true })
      × (validate_mapping f size
          ≡ (if f.mapping_size == size then inr (rounded capacity) else inl abi_mismatch))
unfolding create validate_mapping
create-Represents capacity budget size large small room = (
  fresh_format (rounded capacity) (576 + rounded capacity),
  fresh_ring (rounded capacity),
  rw (capacity_ok capacity large small, create) (rw (size_ok capacity large small, create)),
  record { ring = fresh-HoldsQueue capacity large small budget room; size = refl; word = refl },
  validates capacity large small size,
)
