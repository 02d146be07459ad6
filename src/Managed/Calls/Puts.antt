-- ===== src/Managed/Calls/Puts.antt =====
-- A client's send, against the queue.
use shmchan.Common.{
  ℕ, suc, ◌+◌, ◌≤◌, ◌≡◌, ◌≢◌, refl, ap, ◌∙◌, Bool, Bool-cases, inl, inr, true, false, not, ◌&&◌, [],
  ◌∷◌, ◌++◌, none, arith, length, ◌⊎◌, ltb, ◌==◌, if◌then◌else◌,
}
use shmchan.Status.{ChannelStatus, Bytes}
use shmchan.Managed.State.{
  ManagedFormat, ManagedMapping, signal_managed_event, max_size_of, operation_state,
}
use shmchan.Managed.Lock.{nonblocking, holding, managed_mutex_guard}
use shmchan.Managed.Queue.{contents}
use shmchan.Managed.Invariant.{IsValid}
use shmchan.Managed.Send.{send_locked, rejected, sent, try_send, returned}
use shmchan.Managed.Fifo.{put, status, Fifo, offer, answer}
use shmchan.Managed.Calls.Holds.{Holds, operation_state-is_open, Matches, matches, make_world}
use shmchan.Managed.Calls.{World, attempt, calm, send_locks, turn}
use shmchan.Managed.Calls.Sending.{
  try_send-too_large, try_send-closed, try_send-rejected, try_send-sent,
}
use shmchan.Managed.Calls.Locked.{
  signal-IsValid, Entered, guard-Entered, free_slots-contents, send_locked-Sends,
}

pub send_locks-false :
    (m : ManagedMapping) (x : Bytes)
    → (ltb (max_size_of m) (length x) ≡ true) ⊎ (operation_state m ≡ ChannelStatus.closed)
    → send_locks m x ≡ false
unfolding send_locks
send_locks-false m x h = ground arith

pub within :
    (max : ℕ) (x : Bytes) (m : ManagedMapping)
    → ltb max (length x) ≡ false
    → max_size_of m ≡ max
    → length x ≤ max_size_of m
within max x m e f = ground arith

pub send_locks-true :
    (m : ManagedMapping) (x : Bytes)
    → ltb (max_size_of m) (length x) ≡ false
    → operation_state m ≡ ChannelStatus.success
    → send_locks m x ≡ true
unfolding send_locks
send_locks-true m x e f = ground arith

module _ (capacity max : ℕ) where
  turn-put :
      (w : World) (x : Bytes) (s : ChannelStatus) (m : ManagedMapping) (l : Bool)
      → try_send (calm w.orphaned ∷ []) x w.mapping ≡ returned s m
      → send_locks w.mapping x ≡ l
      → turn w (put x) ≡ (status s, record { mapping = m; orphaned = w.orphaned && not l })
  unfolding turn
  turn-put w x s m l e f = rw (e, turn) (rw f)

  module _ (w : World) (q : Fifo) (budget : ℕ) (x : Bytes)
      (h : Holds capacity max (suc budget) w q) where
    abbrev m : ManagedMapping
    m = w.mapping

    same_world :
        Holds capacity max budget (record { mapping = m; orphaned = w.orphaned && not false }) q
    same_world = record {
      recoverable = h.recoverable;
      valid = λ e. h.valid (ground arith);
      items = h.items;
      state = h.state;
      slots = h.slots;
      largest = h.largest;
      sequences = omega (arith, h.sequences);
    }

    put_too_large :
        ltb max (length x) ≡ true
        → Matches capacity max budget (turn w (put x)) (answer capacity max q (put x))
    unfolding answer
    put_too_large e =
        matches capacity max budget
          (turn-put w x ChannelStatus.message_too_large m false
            (try_send-too_large w.orphaned x m (rw h.largest e))
            (send_locks-false m x (inl (rw h.largest e))))
          (rw (e, offer)) (refl, same_world)

    module _ (fits : ltb max (length x) ≡ false) where
      fits' : ltb (max_size_of m) (length x) ≡ false
      fits' = rw h.largest fits

      put_closed :
          q.is_open ≡ false
          → Matches capacity max budget (turn w (put x)) (answer capacity max q (put x))
      unfolding answer
      put_closed is_shut =
          matches capacity max budget
            (turn-put w x ChannelStatus.closed m false
              (try_send-closed w.orphaned x m fits' is_closed)
              (send_locks-false m x (inr is_closed)))
            (rw (fits, offer) (rw (is_shut, offer))) (refl, same_world)
        where
          is_closed : operation_state m ≡ ChannelStatus.closed
          is_closed =
              operation_state-is_open m q.is_open h.state
              ∙ ap (λ b. if b then ChannelStatus.success else ChannelStatus.closed) is_shut

      module _ (is_open : q.is_open ≡ true) (m1 : ManagedMapping)
          (entered : managed_mutex_guard nonblocking none (attempt w.orphaned ∷ []) m
            ≡ holding ChannelStatus.success true m1)
          (n : Entered m m1) where
        is_healthy : operation_state m ≡ ChannelStatus.success
        is_healthy =
            operation_state-is_open m q.is_open h.state
            ∙ ap (λ b. if b then ChannelStatus.success else ChannelStatus.closed) is_open

        put_full :
            (m1.header.free_slots ≡ 0)
            → send_locked nonblocking m1 x ≡ rejected ChannelStatus.would_block m1
            → Matches capacity max budget (turn w (put x)) (answer capacity max q (put x))
        unfolding answer
        put_full none_free e =
            matches capacity max budget
              (turn-put w x ChannelStatus.would_block m1 true
                (try_send-rejected w.orphaned x m fits' is_healthy m1 entered e)
                (send_locks-true m x fits' is_healthy))
              (rw (fits, offer) (rw (is_open, offer) (rw (is_full, offer))))
              (
                refl,
                make_world capacity max budget m1 (w.orphaned && not true) q n.valid
                    (n.queue ∙ h.items) (n.state ∙ h.state)
                    (ap (λ (f : ManagedFormat). f.message_capacity) n.format ∙ h.slots)
                    (ap (λ (f : ManagedFormat). f.max_message_size) n.format ∙ h.largest)
                    (omega (arith, n.next, h.sequences)),
              )
          where
            is_full : (length q.items == capacity) ≡ true
            is_full = ground (
              arith,
              free_slots-contents m1 n.valid,
              ap length (n.queue ∙ h.items),
              ap (λ (f : ManagedFormat). f.message_capacity) n.format,
              h.slots,
            )

        put_sent :
            (m1.header.free_slots ≢ 0)
            → (m2 : ManagedMapping) → send_locked nonblocking m1 x ≡ sent m2
            → IsValid m2
            → contents m2 ≡ contents m1 ++ x ∷ []
            → m2.header.state ≡ m1.header.state
            → m2.header.format ≡ m1.header.format
            → m2.header.next_sequence ≡ m1.header.next_sequence + 1
            → Matches capacity max budget (turn w (put x)) (answer capacity max q (put x))
        unfolding answer signal_managed_event contents
        put_sent some_free m2 e v2 items state format next =
            matches capacity max budget
              (turn-put w x ChannelStatus.success
                (record m2 { header = signal_managed_event m2.header }) true
                (try_send-sent w.orphaned x m fits' is_healthy m1 entered m2 e (
                  operation_state-is_open _ q.is_open (state ∙ n.state ∙ h.state)
                  ∙ ap (λ b. if b then ChannelStatus.success else ChannelStatus.closed) is_open))
                (send_locks-true m x fits' is_healthy))
              (rw (fits, offer) (rw (is_open, offer) (rw (not_full, offer))))
              (
                refl,
                make_world capacity max budget _ (w.orphaned && not true)
                    (record q { items = q.items ++ x ∷ [] }) (signal-IsValid m2 v2)
                    (items ∙ ap (λ l. l ++ x ∷ []) (n.queue ∙ h.items)) (state ∙ n.state ∙ h.state)
                    (ap (λ (f : ManagedFormat). f.message_capacity) (format ∙ n.format) ∙ h.slots)
                    (ap (λ (f : ManagedFormat). f.max_message_size) (format ∙ n.format) ∙ h.largest)
                    (omega (arith, next, n.next, h.sequences)),
              )
          where
            not_full : (length q.items == capacity) ≡ false
            not_full = ground (
              arith,
              free_slots-contents m1 n.valid,
              ap length (n.queue ∙ h.items),
              ap (λ (f : ManagedFormat). f.message_capacity) n.format,
              h.slots,
            )

  pub put-Matches :
      (w : World) (q : Fifo) (budget : ℕ) (x : Bytes)
      → Holds capacity max (suc budget) w q
      → Matches capacity max budget (turn w (put x)) (answer capacity max q (put x))
  put-Matches w q budget x h = elim (Bool-cases (ltb max (length x))) [
    | inl big ↦ put_too_large w q budget x h big
    | inr fits ↦ elim (Bool-cases q.is_open) [
      | inr is_shut ↦ put_closed w q budget x h fits is_shut
      | inl is_open ↦
          let (m1, entered, n) =
            guard-Entered nonblocking none w.orphaned w.mapping h.recoverable h.valid in
          elim (send_locked-Sends m1 x n.valid
            (operation_state-is_open m1 q.is_open (n.state ∙ h.state)
              ∙ ap (λ b. if b then ChannelStatus.success else ChannelStatus.closed) is_open)
            (within max x m1 fits
              (ap (λ (f : ManagedFormat). f.max_message_size) n.format ∙ h.largest))
            (omega (arith, n.next, h.sequences))) [
              | inl (none_free, e) ↦ put_full w q budget x h fits is_open m1 entered n none_free e
              | inr (some_free, (m2, e, v2, items, state, format, next)) ↦
                  put_sent w q budget x h fits is_open m1 entered n some_free m2 e v2 items state
                    format next
            ]
    ]
  ]
