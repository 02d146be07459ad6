-- ===== src/Managed/Calls/Sending.antt =====
-- `try_send` with the mutex free or orphaned, by its outcomes.
use shmchan.Common.{◌≡◌, Bool, true, false, [], ◌∷◌, none, ltb, length}
use shmchan.Status.{ChannelStatus, Bytes}
use shmchan.Managed.State.{ManagedMapping, signal_managed_event, max_size_of, operation_state}
use shmchan.Managed.Lock.{nonblocking, holding, managed_mutex_guard}
use shmchan.Managed.Send.{
  rejected, sent, send_locked, send_signalled, send_loop, send_impl, try_send, returned,
}
use shmchan.Managed.Calls.{attempt, calm}

module _ (o : Bool) (x : Bytes) (m : ManagedMapping) where
  pub try_send-too_large :
      ltb (max_size_of m) (length x) ≡ true
      → try_send (calm o ∷ []) x m ≡ returned ChannelStatus.message_too_large m
  unfolding try_send send_impl
  try_send-too_large e = rw e

  module _ (fits : ltb (max_size_of m) (length x) ≡ false) where
    pub try_send-closed :
        operation_state m ≡ ChannelStatus.closed
        → try_send (calm o ∷ []) x m ≡ returned ChannelStatus.closed m
    unfolding try_send send_impl send_loop calm
    try_send-closed e = rw fits (rw (e, send_loop))

    module _ (healthy : operation_state m ≡ ChannelStatus.success) (m1 : ManagedMapping)
        (entered : managed_mutex_guard nonblocking none (attempt o ∷ []) m
          ≡ holding ChannelStatus.success true m1) where
      pub try_send-rejected :
          {s : ChannelStatus}
          → send_locked nonblocking m1 x ≡ rejected s m1
          → try_send (calm o ∷ []) x m ≡ returned s m1
      unfolding try_send send_impl send_loop calm
      try_send-rejected e =
          rw fits (rw (healthy, send_loop) (rw (entered, send_loop) (rw (e, send_loop))))

      pub try_send-sent :
          (m2 : ManagedMapping)
          → send_locked nonblocking m1 x ≡ sent m2
          → operation_state (record m2 { header = signal_managed_event m2.header })
            ≡ ChannelStatus.success
          → try_send (calm o ∷ []) x m
            ≡ returned ChannelStatus.success (record m2 { header = signal_managed_event m2.header })
      unfolding try_send send_impl send_loop calm send_signalled
      try_send-sent m2 e h =
          rw fits (rw (healthy, send_loop) (rw (entered, send_loop) (rw (e, send_loop) (rw h))))
