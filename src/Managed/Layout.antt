-- ===== src/Managed/Layout.antt =====
-- include/shmchan/managed_channel.hpp: the layout of the shared object, its creation and the test
-- that a process which opens it applies. What the ABI and the C library fix are parameters: the
-- sizes of the header and of the mutex, and the alignment of the mutex.
pub mod Areas
pub mod Fresh
use shmchan.Common.{
  ℕ, ◌+◌, ◌-◌, ◌*◌, ◌/◌, ◌%◌, ◌^◌, Bool, not, ◌&&◌, ◌||◌, ltb, leb, ◌==◌, if◌then◌else◌, replicate,
}
use shmchan.Status.{u32_mod, u64_mod}
use shmchan.Managed.State.{
  ManagedFormat, ManagedCounters, ManagedMessageSlot, ManagedMapping, state_code, initializing,
  healthy, destroying, reason_code, BreakReason, slot_code, free, sequence_exhausted,
}

-- The exceptions of the creation and of the open.
pub data LayoutError : Type 0 where
  invalid_argument length_error incompatible invalid_state corrupt_layout protocol_mismatch :
      LayoutError

pub data Result {ℓ} (A : Type ℓ) : Type ℓ where
  ok : A → Result A
  error : LayoutError → Result A

-- `protocol_descriptor`
pub record ProtocolDescriptor : Type 0 where
  pub id : ℕ
  pub version : ℕ

-- `managed_layout`
pub record ManagedLayout : Type 0 where
  pub mapping_size : ℕ
  pub slots_offset : ℕ
  pub payload_offset : ℕ
  pub payload_stride : ℕ

-- `managed_align_up`, for an alignment that is a power of two: its mask clears the low bits, which
-- is rounding down to a multiple.
unfoldable pub managed_align_up : ℕ → ℕ → ℕ
managed_align_up value alignment = (value + alignment - 1) % u64_mod / alignment * alignment

abbrev pub cache_line : ℕ
cache_line = 64

-- `sizeof(managed_message_slot)`, which the source asserts; it is its alignment too.
abbrev pub slot_size : ℕ
slot_size = 64

abbrev off_max : ℕ
off_max = 2 ^ 63 - 1

module _ (header_size : ℕ) where
  -- `checked_managed_layout` from the descriptor area on, its arguments positive and in range.
  unfoldable pub layout_areas : ℕ → ℕ → ℕ → Result ManagedLayout
  unfolding managed_align_up
  layout_areas capacity stride slots_offset =
      if ltb ((u64_mod - 1 - slots_offset) / slot_size) capacity
      then error length_error
      else (let payload_offset =
            managed_align_up ((slots_offset + capacity * slot_size % u64_mod) % u64_mod)
              cache_line in
          if ltb ((u64_mod - 1 - payload_offset) / stride) capacity
          then error length_error
          else (let mapping_size = (payload_offset + capacity * stride % u64_mod) % u64_mod in
              if ltb off_max mapping_size
              then error length_error
              else ok record {
                mapping_size = mapping_size;
                slots_offset = slots_offset;
                payload_offset = payload_offset;
                payload_stride = stride;
              }))

  -- `checked_managed_layout`
  unfoldable pub checked_managed_layout : ℕ → ℕ → Result ManagedLayout
  unfolding layout_areas
  checked_managed_layout capacity max_message_size =
      if (capacity == 0) || (max_message_size == 0)
      then error invalid_argument
      else if ltb (u32_mod - 1) max_message_size
      then error length_error
      else if ltb (u64_mod - 1 - (cache_line - 1)) max_message_size
      then error length_error
      else layout_areas capacity (managed_align_up max_message_size cache_line)
          (managed_align_up header_size slot_size)

  module _ (mutex_size mutex_alignment : ℕ) where
    abbrev no_counts : ManagedCounters
    no_counts = record {
      sent_messages = 0;
      sent_bytes = 0;
      received_messages = 0;
      received_bytes = 0;
      owner_death_recoveries = 0;
      discarded_incomplete_writes = 0;
      send_timeouts = 0;
      receive_timeouts = 0;
      waiting_senders = 0;
      waiting_receivers = 0;
    }

    abbrev pub fresh_format : ℕ → ℕ → ProtocolDescriptor → ManagedLayout → ManagedFormat
    fresh_format capacity max_message_size protocol layout = record {
      magic = 0x53484d4353494d50;
      layout_version = 1;
      header_size = header_size % u32_mod;
      mapping_size = layout.mapping_size;
      protocol_id_value = protocol.id;
      protocol_version = protocol.version;
      message_capacity = capacity;
      max_message_size = max_message_size;
      slots_offset = layout.slots_offset;
      payload_offset = layout.payload_offset;
      payload_stride = layout.payload_stride;
      slot_size = slot_size;
      mutex_size = mutex_size;
      mutex_alignment = mutex_alignment;
    }

    -- A constructed descriptor; `ftruncate` fills the payload areas of a new object with zeros.
    abbrev pub fresh_slot : ℕ → ManagedMessageSlot
    fresh_slot max_message_size = record {
      state = slot_code free;
      payload_size = 0;
      sequence = 0;
      payload = replicate max_message_size 0;
    }

    abbrev pub fresh_mapping : ℕ → ℕ → ProtocolDescriptor → ManagedLayout → ManagedMapping
    fresh_mapping capacity max_message_size protocol layout = record {
      header = record {
        format = fresh_format capacity max_message_size protocol layout;
        initialization = 1;
        state = state_code healthy;
        reason = reason_code BreakReason.none;
        event_epoch = 0;
        next_sequence = 1;
        next_slot_hint = 0;
        free_slots = capacity;
        writing_messages = 0;
        ready_messages = 0;
        counters = no_counts;
      };
      slots = replicate capacity (fresh_slot max_message_size);
    }

    -- What `initialize_managed_mapping_locked` leaves in the object.
    unfoldable pub initialize_managed_mapping : ℕ → ℕ → ProtocolDescriptor → Result ManagedMapping
    unfolding checked_managed_layout
    initialize_managed_mapping capacity max_message_size protocol =
        elim (checked_managed_layout capacity max_message_size) [
          | error e ↦ error e
          | ok layout ↦ ok (fresh_mapping capacity max_message_size protocol layout)
        ]

    -- `validate_managed_mapping` of an object whose file has `size` bytes.
    unfoldable pub validate_managed_mapping :
        ManagedMapping → ℕ → ProtocolDescriptor → Result ManagedMapping
    unfolding checked_managed_layout
    validate_managed_mapping m size protocol =
        let f = m.header.format in
        if not (
          (f.magic == 0x53484d4353494d50)
          && (f.layout_version == 1)
          && (f.header_size == header_size)
          && (f.mapping_size == size)
          && (f.slot_size == slot_size)
          && (f.mutex_size == mutex_size)
          && (f.mutex_alignment == mutex_alignment)
          && (m.header.initialization == 1))
        then error incompatible
        else if ltb (state_code destroying) m.header.state
            || ltb (reason_code sequence_exhausted) m.header.reason
        then error invalid_state
        else elim (checked_managed_layout f.message_capacity f.max_message_size) [
          | error e ↦ error e
          | ok expected ↦
              if not (
                (expected.mapping_size == size)
                && (expected.slots_offset == f.slots_offset)
                && (expected.payload_offset == f.payload_offset)
                && (expected.payload_stride == f.payload_stride))
              then error corrupt_layout
              else if not
                  ((f.protocol_id_value == protocol.id) && (f.protocol_version == protocol.version))
              then error protocol_mismatch
              else ok m
        ]
