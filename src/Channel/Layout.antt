-- ===== src/Channel/Layout.antt =====
-- include/shmchan/channel.hpp: `checked_mapping_size`, the object that `create` leaves, and
-- `validate_mapping`. The system calls round them are not part of it.
pub mod Create
use shmchan.Common.{
  ℕ, zero, suc, ◌+◌, ◌-◌, ◌/◌, ◌*◌, ◌^◌, not, ◌&&◌, ◌||◌, List, [], ◌∷◌, ltb, ◌==◌, if◌then◌else◌,
  ◌⊎◌, inl, inr,
}
use shmchan.Status.{u64_mod}
use shmchan.Channel.Ring.{Slot}
use shmchan.Channel.Send.{Fixed}

-- The exceptions of the creation and of the open.
pub data Fault : Type 0 where
  invalid_argument length_error not_initialized incompatible invalid_capacity invalid_size
        abi_mismatch :
      Fault

-- What the object says of the element type; the tag is a hash of its name.
pub record Element : Type 0 where
  pub size : ℕ
  pub alignment : ℕ
  pub type_tag : ℕ

-- `sizeof(slot)`: the sequence and the bytes of an element, in whole lines of 64 bytes.
abbrev pub slot_size : Element → ℕ
slot_size e = (8 + e.size + 63) / 64 * 64

-- `slots_offset_value`, which is `sizeof(shared_header)` on x86-64, eight lines.
abbrev pub slots_offset_value : ℕ
slots_offset_value = 512

-- `checked_mapping_size`
unfoldable pub checked_mapping_size : Element → ℕ → Fault ⊎ ℕ
checked_mapping_size e capacity =
    if capacity == 0
    then inl invalid_argument
    else if ltb (2 ^ 63 - 1) capacity
    then inl length_error
    else if ltb ((u64_mod - 1 - slots_offset_value) / slot_size e) capacity
    then inl length_error
    else if ltb (2 ^ 63 - 1) (slots_offset_value + capacity * slot_size e)
    then inl length_error
    else inr (slots_offset_value + capacity * slot_size e)

-- The fields of `shared_header` that are written once, and `initialization`.
pub record Format : Type 0 where
  pub magic : ℕ
  pub version : ℕ
  pub mapping_size : ℕ
  pub slots_offset : ℕ
  pub capacity : ℕ
  pub header_size : ℕ
  pub slot_size_value : ℕ
  pub slot_alignment : ℕ
  pub element : Element
  pub initialization : ℕ

abbrev layout_magic : ℕ
layout_magic = 0x53484d4348414e31

-- What `create` writes into the header, for a checked size.
abbrev pub fresh_format : Element → ℕ → ℕ → Format
fresh_format e capacity mapping_size = record {
  magic = layout_magic;
  version = 1;
  mapping_size = mapping_size;
  slots_offset = slots_offset_value;
  capacity = capacity;
  header_size = 512;
  slot_size_value = slot_size e;
  slot_alignment = 64;
  element = e;
  initialization = 1;
}

module _ {A : Type 0} (blank : A) where
  -- The slots from `index` on, with what a storage of zero bytes holds.
  unfoldable pub slots_from : ℕ → ℕ → List (Slot A)
  slots_from index zero = []
  slots_from index (suc count) =
      record { sequence = index; storage = blank } ∷ slots_from (index + 1) count

  abbrev pub fresh_channel : ℕ → Fixed A
  fresh_channel capacity = record {
    ring = record {
      capacity = capacity;
      enqueue_position = 0;
      dequeue_position = 0;
      readable_epoch = 0;
      writable_epoch = 0;
      slots = slots_from 0 capacity;
    };
    sender_state = 0;
  }

  -- `create`, but for its system calls.
  unfoldable pub create : Element → ℕ → Fault ⊎ (Format × Fixed A)
  unfolding checked_mapping_size slots_from
  create e capacity = elim (checked_mapping_size e capacity) [
    | inl fault ↦ inl fault
    | inr size ↦ inr (fresh_format e capacity size, fresh_channel capacity)
  ]

-- `validate_mapping` of an object of `size` bytes; the capacity on success.
unfoldable pub validate_mapping : Element → Format → ℕ → Fault ⊎ ℕ
unfolding checked_mapping_size
validate_mapping e f size =
    if not (f.initialization == 1)
    then inl not_initialized
    else if not ((f.magic == layout_magic) && (f.version == 1))
    then inl incompatible
    else if (f.capacity == 0) || ltb (u64_mod - 1) f.capacity
    then inl invalid_capacity
    else elim (checked_mapping_size e f.capacity) [
      | inl fault ↦ inl invalid_size
      | inr expected ↦
          if not (
            (f.mapping_size == size)
            && (expected == size)
            && (f.slots_offset == slots_offset_value)
            && (f.header_size == 512)
            && (f.slot_size_value == slot_size e)
            && (f.slot_alignment == 64)
            && (f.element.size == e.size)
            && (f.element.alignment == e.alignment)
            && (f.element.type_tag == e.type_tag))
          then inl abi_mismatch
          else inr f.capacity
    ]
