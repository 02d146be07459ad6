-- ===== src/Managed/Lock.antt =====
-- include/shmchan/managed_channel.hpp: `managed_mutex_guard`.
-- The robust mutex is the C library's. What its calls return, the clock and what other processes
-- do meanwhile form a schedule: one `Attempt` for each turn of the constructor's loop. The pause
-- between two turns (`contention_count`) has no effect but time, and is left out.
use shmchan.Common.{ℕ, Bool, true, false, List, [], ◌∷◌, Option, none, some, leb, if◌then◌else◌}
use shmchan.Status.{ChannelStatus}
use shmchan.Managed.State.{ManagedMapping, break_mapping, robust_mutex_not_recoverable}
use shmchan.Managed.Slots.{recover_managed_slots}

-- `enum class managed_lock_mode`
pub data ManagedLockMode : Type 0 where
  blocking nonblocking timed : ManagedLockMode

-- The results of `pthread_mutex_lock` and `pthread_mutex_trylock` that the code tells apart: 0,
-- EOWNERDEAD, ENOTRECOVERABLE, EBUSY, and any other error.
pub data LockResult : Type 0 where
  acquired owner_dead not_recoverable busy : LockResult
  error : ℕ → LockResult

pub record Attempt : Type 0 where
  pub others : ManagedMapping → ManagedMapping  -- done by others before the call returns
  pub result : LockResult
  pub consistent : Bool  -- `pthread_mutex_consistent` returns 0
  pub now : ℕ  -- the clock when the deadline is tested

-- How the constructor ends: with a status and perhaps the mutex, by an exception, or not within
-- the schedule.
pub data Guard : Type 0 where
  holding : ChannelStatus → (owns : Bool) → ManagedMapping → Guard
  thrown : ℕ → ManagedMapping → Guard
  spinning : ManagedMapping → Guard

-- `deadline.has_value() && now >= *deadline`
unfoldable pub expired : Option ℕ → ℕ → Bool
expired none now = false
expired (some deadline) now = leb deadline now

-- The tests of a turn that meets EBUSY: the status to give up with, if any.
unfoldable pub gives_up : ManagedLockMode → Option ℕ → ℕ → Option ChannelStatus
unfolding expired
gives_up nonblocking deadline now = some ChannelStatus.would_block
gives_up timed deadline now = if expired deadline now then some ChannelStatus.timed_out else none
gives_up blocking deadline now = none

-- The turn that meets EOWNERDEAD.
unfoldable pub take_over : Bool → ManagedMapping → Guard
take_over false m = holding ChannelStatus.broken true (break_mapping m robust_mutex_not_recoverable)
take_over true m =
    let (recovered, m') = recover_managed_slots m in
    holding (if recovered then ChannelStatus.success else ChannelStatus.broken) true m'

-- `managed_mutex_guard::managed_mutex_guard`
unfoldable pub managed_mutex_guard :
    ManagedLockMode → Option ℕ → List Attempt → ManagedMapping → Guard
managed_mutex_guard mode deadline [] m = spinning m
managed_mutex_guard mode deadline (a ∷ rest) m =
    let m' = a.others m in
    elim (a.result) [
      | acquired ↦ holding ChannelStatus.success true m'
      | owner_dead ↦ take_over a.consistent m'
      | not_recoverable ↦
          holding ChannelStatus.broken false (break_mapping m' robust_mutex_not_recoverable)
      | busy ↦ elim (gives_up mode deadline a.now) [
        | some status ↦ holding status false m'
        | none ↦ managed_mutex_guard mode deadline rest m'
      ]
      | error e ↦ thrown e m'
    ]
