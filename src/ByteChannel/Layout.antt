-- ===== src/ByteChannel/Layout.antt =====
-- include/shmchan/byte_channel.hpp: `checked_capacity`, `checked_mapping_size`, the object that
-- `create` leaves, and `validate_mapping`. The system calls round them are not part of it.
pub mod Create
use shmchan.Common.{
  ℕ, ◌+◌, ◌-◌, ◌%◌, ◌^◌, Bool, not, ◌&&◌, ◌||◌, ltb, leb, ◌==◌, if◌then◌else◌, ◌⊎◌, inl, inr,
  replicate,
}
use shmchan.Status.{u64_mod}
use shmchan.ByteChannel.State.{ByteRing, align_up, record_alignment}

-- The exceptions of the creation and of the open.
pub data Fault : Type 0 where
  invalid_argument length_error not_initialized incompatible invalid_capacity invalid_size
        abi_mismatch :
      Fault

-- `sizeof(shared_header)` on x86-64, nine lines of 64 bytes.
abbrev pub header_size : ℕ
header_size = 576

-- `data_offset_value`
unfoldable pub data_offset_value : ℕ
unfolding align_up
data_offset_value = align_up header_size record_alignment

-- `checked_capacity`
unfoldable pub checked_capacity : ℕ → Fault ⊎ ℕ
unfolding align_up
checked_capacity capacity_bytes =
    if leb capacity_bytes record_alignment
    then inl invalid_argument
    else if ltb (u64_mod - 1 - (record_alignment - 1)) capacity_bytes
    then inl length_error
    else if ltb (2 ^ 63 - 1) (align_up capacity_bytes record_alignment)
    then inl length_error
    else inr (align_up capacity_bytes record_alignment)

-- `checked_mapping_size`
unfoldable pub checked_mapping_size : ℕ → Fault ⊎ ℕ
unfolding data_offset_value
checked_mapping_size capacity_bytes =
    if ltb (u64_mod - 1 - data_offset_value) capacity_bytes
    then inl length_error
    else if ltb (2 ^ 63 - 1) (data_offset_value + capacity_bytes)
    then inl length_error
    else inr (data_offset_value + capacity_bytes)

-- The fields of `shared_header` that are written once, and `initialization`.
pub record ByteFormat : Type 0 where
  pub magic : ℕ
  pub version : ℕ
  pub mapping_size : ℕ
  pub data_offset : ℕ
  pub capacity_bytes : ℕ
  pub header_size : ℕ
  pub record_header_size : ℕ
  pub record_alignment_value : ℕ
  pub initialization : ℕ

abbrev layout_magic : ℕ
layout_magic = 0x53484d4348414e42

-- What `create` writes, for a checked capacity and size. The area of a new object is zero, and so
-- are the record headers that are constructed in it.
abbrev pub fresh_format : ℕ → ℕ → ByteFormat
fresh_format capacity_bytes mapping_size = record {
  magic = layout_magic;
  version = 2;
  mapping_size = mapping_size;
  data_offset = data_offset_value;
  capacity_bytes = capacity_bytes;
  header_size = header_size;
  record_header_size = record_alignment;
  record_alignment_value = record_alignment;
  initialization = 1;
}

abbrev pub fresh_ring : ℕ → ByteRing
fresh_ring capacity_bytes = record {
  capacity_bytes = capacity_bytes;
  write_position = 0;
  claim_position = 0;
  reclaim_position = 0;
  words = record { sender_state = 0; readable_epoch = 0; writable_epoch = 0 };
  area = replicate capacity_bytes 0;
}

-- `create`, but for its system calls.
unfoldable pub create : ℕ → Fault ⊎ (ByteFormat × ByteRing)
unfolding checked_capacity checked_mapping_size
create capacity_bytes = elim (checked_capacity capacity_bytes) [
  | inl e ↦ inl e
  | inr checked ↦ elim (checked_mapping_size checked) [
    | inl e ↦ inl e
    | inr size ↦ inr (fresh_format checked size, fresh_ring checked)
  ]
]

-- `validate_mapping` of an object of `size` bytes; the capacity on success.
unfoldable pub validate_mapping : ByteFormat → ℕ → Fault ⊎ ℕ
unfolding checked_mapping_size data_offset_value
validate_mapping f size =
    if not (f.initialization == 1)
    then inl not_initialized
    else if not ((f.magic == layout_magic) && (f.version == 2))
    then inl incompatible
    else if leb f.capacity_bytes record_alignment
        || ltb (u64_mod - 1) f.capacity_bytes
        || not (f.capacity_bytes % record_alignment == 0)
    then inl invalid_capacity
    else elim (checked_mapping_size f.capacity_bytes) [
      | inl e ↦ inl invalid_size
      | inr expected ↦
          if not (
            (f.mapping_size == size)
            && (expected == size)
            && (f.data_offset == data_offset_value)
            && (f.header_size == header_size)
            && (f.record_header_size == record_alignment)
            && (f.record_alignment_value == record_alignment))
          then inl abi_mismatch
          else inr f.capacity_bytes
    ]
