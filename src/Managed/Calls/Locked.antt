-- ===== src/Managed/Calls/Locked.antt =====
-- A turn under the mutex, on a channel that is healthy or closed.
use shmchan.Common.{
  ℕ, suc, ◌+◌, ◌≤◌, ◌<◌, ◌≡◌, ◌≢◌, refl, Bool, inl, inr, true, false, [], ◌∷◌, arith, length,
  length-map, ℕ_discrete, ◌⊎◌, ◌==◌, Option,
}
use shmchan.Status.{ChannelStatus, Bytes, u64_mod}
use shmchan.Managed.State.{ManagedMapping, signal_managed_event, max_size_of, capacity_of}
use shmchan.Managed.Slots.{recover_managed_slots}
use shmchan.Managed.Lock.{ManagedLockMode, nonblocking, holding, take_over, managed_mutex_guard}
use shmchan.Managed.Queue.{contents, collect}
use shmchan.Managed.Invariant.{IsValid, IsRecoverable}
use shmchan.Managed.Invariant.Recovery.{recover-Recovers}
use shmchan.Managed.Invariant.Validation.{validate-IsValid}
use shmchan.Managed.Invariant.Scans.{count_state-sum}
use shmchan.Managed.Invariant.Counting.{length-collect}
use shmchan.Managed.Send.{SendStep, rejected, send_locked, send_valid}
use shmchan.Managed.Send.Delivery.{Delivers, publish-Delivers}
use shmchan.Managed.Receive.{receive_locked}
use shmchan.Managed.Receive.Take.{Takes, receive_valid-Takes}
use shmchan.Managed.State.{operation_state}
use shmchan.Managed.Calls.{attempt}

-- `m'` is valid, and the same channel with the same messages as `m`.
pub record Entered (m m' : ManagedMapping) : Type 0 where
  pub valid : IsValid m'
  pub queue : contents m' ≡ contents m
  pub state : m'.header.state ≡ m.header.state
  pub format : m'.header.format ≡ m.header.format
  pub next : m'.header.next_sequence ≡ m.header.next_sequence

take_over-recovered :
    (m : ManagedMapping)
    → (recover_managed_slots m).0 ≡ true
    → take_over true m ≡ holding ChannelStatus.success true (recover_managed_slots m).1
unfolding take_over
take_over-recovered m ok = rw ok

-- With the mutex free, or left by a dead owner, the guard takes it and leaves a valid mapping.
pub guard-Entered :
    (mode : ManagedLockMode) (deadline : Option ℕ) (orphaned : Bool) (m : ManagedMapping)
    → IsRecoverable m
    → (orphaned ≡ false → IsValid m)
    → (m' : ManagedMapping) × (managed_mutex_guard mode deadline (attempt orphaned ∷ []) m
        ≡ holding ChannelStatus.success true m')
      × Entered m m'
unfolding managed_mutex_guard attempt
guard-Entered mode deadline false m r v =
    (m, refl, record { valid = v refl; queue = refl; state = refl; format = refl; next = refl })
guard-Entered mode deadline true m r v =
    let (ok, valid, queue, state, format, next, _, _) = recover-Recovers m r in
    (
      (recover_managed_slots m).1,
      take_over-recovered m ok,
      record { valid = valid; queue = queue; state = state; format = format; next = next },
    )

-- Nothing of the invariant depends on the event epoch, or on the state.
pub header-IsValid :
    (m : ManagedMapping) (state epoch : ℕ)
    → IsValid m
    → IsValid (record m { header = record (m.header) { state = state; event_epoch = epoch } })
header-IsValid m state epoch v = record {
  recoverable = record {
    some_slots = v.recoverable.some_slots;
    few_slots = v.recoverable.few_slots;
    filled = v.recoverable.filled;
    small = v.recoverable.small;
    started = v.recoverable.started;
    in_range = v.recoverable.in_range;
    slots_ok = v.recoverable.slots_ok;
  };
  none_writing = v.none_writing;
  free_counted = v.free_counted;
  writing_counted = v.writing_counted;
  ready_counted = v.ready_counted;
}

pub signal-IsValid :
    (m : ManagedMapping) → IsValid m → IsValid (record m { header = signal_managed_event m.header })
unfolding signal_managed_event
signal-IsValid m v = header-IsValid m m.header.state _ v

-- The queue is full exactly when no slot is free.
pub free_slots-contents :
    (m : ManagedMapping) → IsValid m → m.header.free_slots + length (contents m) ≡ capacity_of m
unfolding contents
free_slots-contents m v = omega (
  arith,
  v.free_counted,
  v.none_writing,
  v.recoverable.filled,
  length-map (collect m.slots) (λ e. e.1),
  length-collect m.slots,
  count_state-sum (max_size_of m) m.header.next_sequence m.slots v.recoverable.slots_ok,
)

-- What `try_send` does under the mutex on a valid, healthy channel.
abbrev pub Sends : ManagedMapping → Bytes → SendStep → Type 0
Sends m x step =
    (m.header.free_slots ≡ 0) × (step ≡ rejected ChannelStatus.would_block m)
    ⊎ (m.header.free_slots ≢ 0) × Delivers m x step

pub send_locked-Sends :
    (m : ManagedMapping) (x : Bytes)
    → IsValid m
    → operation_state m ≡ ChannelStatus.success
    → length x ≤ max_size_of m
    → suc m.header.next_sequence < u64_mod
    → Sends m x (send_locked nonblocking m x)
unfolding send_locked send_valid
send_locked-Sends m x v healthy fits room =
    rw (healthy, send_locked)
      (rw (validate-IsValid m v) (elim (ℕ_discrete m.header.free_slots 0) [
        | yes e ↦ inl (e, ground arith)
        | no ne ↦ inr (
          ne,
          let nonzero : (m.header.free_slots == 0) ≡ false = ground arith in
              rw nonzero (publish-Delivers m x v fits ne room),
        )
      ]))

-- What `try_receive` does under the mutex on a valid channel.
pub receive_locked-Takes :
    (m : ManagedMapping) → IsValid m → Takes nonblocking m (receive_locked nonblocking m)
unfolding receive_locked
receive_locked-Takes m v = rw (validate-IsValid m v) (receive_valid-Takes nonblocking m v)
