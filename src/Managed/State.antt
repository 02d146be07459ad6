-- ===== src/Managed/State.antt =====
-- include/shmchan/managed_channel.hpp: the contents of the shared-memory object.
-- The words that other processes can leave in any state (`state`, `reason`, a slot's `state`) are
-- kept as the raw numbers that the code loads and casts.
use shmchan.Common.{ℕ, ◌+◌, ◌-◌, ◌%◌, List, ◌==◌, if◌then◌else◌}
use shmchan.Status.{ChannelStatus, Bytes, u32_mod, u64_mod}

-- `enum class managed_channel_state`, and its underlying value
pub data ManagedChannelState : Type 0 where
  initializing healthy closed broken destroying : ManagedChannelState

abbrev pub state_code : ManagedChannelState → ℕ
state_code initializing = 0
state_code healthy = 1
state_code closed = 2
state_code broken = 3
state_code destroying = 4

-- `enum class break_reason`, and its underlying value
pub data BreakReason : Type 0 where
  none robust_mutex_not_recoverable corrupt_data sequence_exhausted : BreakReason

abbrev pub reason_code : BreakReason → ℕ
reason_code none = 0
reason_code robust_mutex_not_recoverable = 1
reason_code corrupt_data = 2
reason_code sequence_exhausted = 3

-- `enum class managed_slot_state`, and its underlying value
pub data ManagedSlotState : Type 0 where
  free writing ready : ManagedSlotState

abbrev pub slot_code : ManagedSlotState → ℕ
slot_code free = 0
slot_code writing = 1
slot_code ready = 2

-- `managed_message_slot`, together with `payload(index)`, the bytes of the payload area that
-- belong to the slot of the same index. `Layout` shows that these areas do not overlap.
pub record ManagedMessageSlot : Type 0 where
  pub state : ℕ
  pub payload_size : ℕ
  pub sequence : ℕ
  pub payload : Bytes

-- `managed_counters`
pub record ManagedCounters : Type 0 where
  pub sent_messages : ℕ
  pub sent_bytes : ℕ
  pub received_messages : ℕ
  pub received_bytes : ℕ
  pub owner_death_recoveries : ℕ
  pub discarded_incomplete_writes : ℕ
  pub send_timeouts : ℕ
  pub receive_timeouts : ℕ
  pub waiting_senders : ℕ
  pub waiting_receivers : ℕ

-- The fields of `managed_shared_header` that are written once, at creation.
pub record ManagedFormat : Type 0 where
  pub magic : ℕ
  pub layout_version : ℕ
  pub header_size : ℕ
  pub mapping_size : ℕ
  pub protocol_id_value : ℕ
  pub protocol_version : ℕ
  pub message_capacity : ℕ
  pub max_message_size : ℕ
  pub slots_offset : ℕ
  pub payload_offset : ℕ
  pub payload_stride : ℕ
  pub slot_size : ℕ
  pub mutex_size : ℕ
  pub mutex_alignment : ℕ

-- `managed_shared_header`, but for the mutex, which is the C library's.
pub record ManagedSharedHeader : Type 0 where
  pub format : ManagedFormat
  pub initialization : ℕ
  pub state : ℕ
  pub reason : ℕ
  pub event_epoch : ℕ
  pub next_sequence : ℕ
  pub next_slot_hint : ℕ
  pub free_slots : ℕ
  pub writing_messages : ℕ
  pub ready_messages : ℕ
  pub counters : ManagedCounters

-- `managed_mapping`: what its pointers lead to. `slots` holds `message_capacity` slots.
pub record ManagedMapping : Type 0 where
  pub header : ManagedSharedHeader
  pub slots : List ManagedMessageSlot

abbrev pub capacity_of : ManagedMapping → ℕ
capacity_of m = m.header.format.message_capacity

abbrev pub max_size_of : ManagedMapping → ℕ
max_size_of m = m.header.format.max_message_size

-- `++` and `--` of a `std::uint64_t`
abbrev pub increment : ℕ → ℕ
increment n = (n + 1) % u64_mod

abbrev pub decrement : ℕ → ℕ
decrement n = (n + u64_mod - 1) % u64_mod

-- `signal_managed_event`; the waiters that `futex_wake` lets run are other processes.
unfoldable pub signal_managed_event : ManagedSharedHeader → ManagedSharedHeader
signal_managed_event h = record h { event_epoch = (h.event_epoch + 1) % u32_mod }

-- `mark_managed_broken`
unfoldable pub mark_managed_broken : ManagedSharedHeader → BreakReason → ManagedSharedHeader
mark_managed_broken h why =
    signal_managed_event (record h { reason = reason_code why; state = state_code broken })

-- The mapping with its channel marked as broken.
unfoldable pub break_mapping : ManagedMapping → BreakReason → ManagedMapping
unfolding mark_managed_broken signal_managed_event
break_mapping m why = record m { header = mark_managed_broken m.header why }

-- `managed_byte_channel::operation_state`
unfoldable pub operation_state : ManagedMapping → ChannelStatus
operation_state m =
    if m.header.state == state_code healthy
    then ChannelStatus.success
    else if m.header.state == state_code closed
    then ChannelStatus.closed
    else ChannelStatus.broken
