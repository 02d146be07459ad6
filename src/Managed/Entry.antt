-- ===== src/Managed/Entry.antt =====
-- include/shmchan/managed_channel.hpp: the object of a name, and what a call on it takes and gives.
use shmchan.Common.{ℕ, Bool, false, [], replicate}
use shmchan.Status.{Bytes}
use shmchan.Managed.State.{ManagedMapping}
use shmchan.Managed.Layout.{LayoutError, ProtocolDescriptor}

-- A shared-memory object: the size that `fstat` gives, and what its bytes read as.
pub record ShmObject : Type 0 where
  pub size : ℕ
  pub mapping : ManagedMapping

-- `managed_channel_options`, but for the permissions.
pub record ManagedChannelOptions : Type 0 where
  pub message_capacity : ℕ
  pub max_message_size : ℕ
  pub protocol : ProtocolDescriptor

-- Which system calls of a call fail. The first `fstat` and the first `mmap` of an `open_or_create`
-- have flags of their own, since it makes both calls again.
pub record Calls : Type 0 where
  pub shm_open_fails : Bool
  pub lock_fails : Bool
  pub first_fstat_fails : Bool
  pub probe_mmap_fails : Bool
  pub fstat_fails : Bool
  pub truncate_fails : Bool
  pub ftruncate_fails : Bool
  pub mmap_fails : Bool
  pub mutex_fails : Bool
  pub unlink_fails : Bool

-- No system call fails.
abbrev pub all_well : Calls
all_well = record {
  shm_open_fails = false;
  lock_fails = false;
  first_fstat_fails = false;
  probe_mmap_fails = false;
  fstat_fails = false;
  truncate_fails = false;
  ftruncate_fails = false;
  mmap_fails = false;
  mutex_fails = false;
  unlink_fails = false;
}

-- The end of a call.
pub data Opened : Type 0 where
  mapped : ManagedMapping → Opened
  refused : LayoutError → Opened
  -- std::runtime_error and std::invalid_argument
  incomplete options_differ : Opened
  -- std::system_error
  system_error : Opened

-- What bytes that are all zero read as.
abbrev zero_mapping : ManagedMapping
zero_mapping = record {
  header = record {
    format = record {
      magic = 0;
      layout_version = 0;
      header_size = 0;
      mapping_size = 0;
      protocol_id_value = 0;
      protocol_version = 0;
      message_capacity = 0;
      max_message_size = 0;
      slots_offset = 0;
      payload_offset = 0;
      payload_stride = 0;
      slot_size = 0;
      mutex_size = 0;
      mutex_alignment = 0;
    };
    initialization = 0;
    state = 0;
    reason = 0;
    event_epoch = 0;
    next_sequence = 0;
    next_slot_hint = 0;
    free_slots = 0;
    writing_messages = 0;
    ready_messages = 0;
    counters = record {
      sent_messages = 0;
      sent_bytes = 0;
      received_messages = 0;
      received_bytes = 0;
      owner_death_recoveries = 0;
      discarded_incomplete_writes = 0;
      send_timeouts = 0;
      receive_timeouts = 0;
      waiting_senders = 0;
      waiting_receivers = 0;
    };
  };
  slots = [];
}

-- A new object, and one that has been truncated.
abbrev pub empty_object : ShmObject
empty_object = record { size = 0; mapping = zero_mapping }

abbrev pub zero_areas : ManagedChannelOptions → ℕ → Bytes
zero_areas options index = replicate options.max_message_size 0
