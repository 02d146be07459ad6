-- ===== src/Managed/Control.antt =====
-- include/shmchan/managed_channel.hpp: `managed_byte_channel::close` and `stats`.
use shmchan.Common.{ℕ, Bool, true, false, List, ◌==◌, if◌then◌else◌, none}
use shmchan.Status.{ChannelStatus}
use shmchan.Managed.State.{
  ManagedCounters, ManagedMapping, healthy, closed, state_code, signal_managed_event,
}
use shmchan.Managed.Lock.{Attempt, blocking, holding, thrown, spinning, managed_mutex_guard}
use shmchan.Managed.Send.{Outcome, returned, threw, pending}

-- The part of `close` under the mutex, and the signal after it.
unfoldable pub close_locked : ManagedMapping → Outcome Bool
close_locked m =
    if m.header.state == state_code healthy
    then returned true (record m {
      header = signal_managed_event (record (m.header) { state = state_code closed });
    })
    else returned false m

-- `managed_byte_channel::close`
unfoldable pub close : List Attempt → ManagedMapping → Outcome Bool
close attempts m = elim (managed_mutex_guard blocking none attempts m) [
  | holding ChannelStatus.success owns m1 ↦ close_locked m1
  | holding other owns m1 ↦ returned false m1
  | thrown e m1 ↦ threw m1
  | spinning m1 ↦ pending m1
]

-- `managed_channel_stats`; the counters are `ManagedCounters`.
pub record ManagedChannelStats : Type 0 where
  pub state : ℕ
  pub reason : ℕ
  pub message_capacity : ℕ
  pub max_message_size : ℕ
  pub free_slots : ℕ
  pub writing_messages : ℕ
  pub ready_messages : ℕ
  pub counters : ManagedCounters

-- The counts are read only where the mutex was taken with success; state and reason before that.
stats_after : ManagedMapping → ManagedMapping → Bool → ManagedChannelStats
stats_after m m1 locked = record {
  state = m.header.state;
  reason = m.header.reason;
  message_capacity = m.header.format.message_capacity;
  max_message_size = m.header.format.max_message_size;
  free_slots = if locked then m1.header.free_slots else 0;
  writing_messages = if locked then m1.header.writing_messages else 0;
  ready_messages = if locked then m1.header.ready_messages else 0;
  counters = m1.header.counters;
}

-- `managed_byte_channel::stats`
unfoldable pub stats : List Attempt → ManagedMapping → Outcome ManagedChannelStats
unfolding stats_after
stats attempts m = elim (managed_mutex_guard blocking none attempts m) [
  | holding ChannelStatus.success owns m1 ↦ returned (stats_after m m1 true) m1
  | holding other owns m1 ↦ returned (stats_after m m1 false) m1
  | thrown e m1 ↦ threw m1
  | spinning m1 ↦ pending m1
]
