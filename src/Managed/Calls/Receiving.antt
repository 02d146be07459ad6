-- ===== src/Managed/Calls/Receiving.antt =====
-- `try_receive` and `close` with the mutex free or orphaned, by their outcomes.
use shmchan.Common.{◌≡◌, inl, inr, Bool, Bool-cases, true, false, [], ◌∷◌, none, some}
use shmchan.Status.{ChannelStatus, Bytes, no_value}
use shmchan.Managed.State.{ManagedMapping, signal_managed_event, operation_state}
use shmchan.Managed.Lock.{nonblocking, blocking, holding, managed_mutex_guard}
use shmchan.Managed.Send.{returned}
use shmchan.Managed.Control.{close, close_locked}
use shmchan.Managed.Receive.{refused, took, receive_locked, receive_loop, receive_impl, try_receive}
use shmchan.Managed.Calls.{attempt, calm}

-- `operation_state` of a channel that is healthy or closed.
abbrev pub state_status : Bool → ChannelStatus
state_status true = ChannelStatus.success
state_status false = ChannelStatus.closed

module _ (o : Bool) (m : ManagedMapping) (b : Bool) (before : operation_state m ≡ state_status b)
    (m1 : ManagedMapping)
    (entered : managed_mutex_guard nonblocking none (attempt o ∷ []) m
      ≡ holding ChannelStatus.success true m1) where
  pub try_receive-refused :
      {s : ChannelStatus}
      → receive_locked nonblocking m1 ≡ refused s m1
      → try_receive (calm o ∷ []) m ≡ returned (no_value s) m1
  unfolding try_receive receive_impl receive_loop calm
  try_receive-refused e = elim (Bool-cases b) [
    | inl t ↦
        rw (before, receive_loop)
          (rw (t, receive_loop) (rw (entered, receive_loop) (rw (e, receive_loop))))
    | inr f ↦
        rw (before, receive_loop)
          (rw (f, receive_loop) (rw (entered, receive_loop) (rw (e, receive_loop))))
  ]

  pub try_receive-took :
      {x : Bytes} (m2 : ManagedMapping)
      → receive_locked nonblocking m1 ≡ took x m2
      → try_receive (calm o ∷ []) m
        ≡ returned
            (record { code = ChannelStatus.success; value = some x })
            (record m2 { header = signal_managed_event m2.header })
  unfolding try_receive receive_impl receive_loop calm
  try_receive-took m2 e = elim (Bool-cases b) [
    | inl t ↦
        rw (before, receive_loop)
          (rw (t, receive_loop) (rw (entered, receive_loop) (rw (e, receive_loop))))
    | inr f ↦
        rw (before, receive_loop)
          (rw (f, receive_loop) (rw (entered, receive_loop) (rw (e, receive_loop))))
  ]

pub close-entered :
    (o : Bool) (m m1 : ManagedMapping)
    → managed_mutex_guard blocking none (attempt o ∷ []) m ≡ holding ChannelStatus.success true m1
    → close (attempt o ∷ []) m ≡ close_locked m1
unfolding close
close-entered o m m1 e = rw (e, close)
