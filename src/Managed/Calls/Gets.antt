-- ===== src/Managed/Calls/Gets.antt =====
-- A client's receive and its close, against the queue.
use shmchan.Common.{
  ℕ, suc, ◌≡◌, refl, ap, ◌∙◌, sym, Bool, Bool-cases, inl, inr, true, false, not, ◌&&◌, [], ◌∷◌,
  none, arith, ◌==◌, if◌then◌else◌,
}
use shmchan.Status.{ReceiveResult, no_value, ChannelStatus, Bytes}
use shmchan.Managed.State.{
  ManagedFormat, ManagedMapping, signal_managed_event, operation_state, state_code, healthy, closed,
}
use shmchan.Managed.Lock.{blocking, nonblocking, holding, managed_mutex_guard}
use shmchan.Managed.Queue.{contents}
use shmchan.Managed.Invariant.{IsValid}
use shmchan.Managed.Send.{returned}
use shmchan.Managed.Fifo.{get, shut, received, done, Fifo, poll, answer}
use shmchan.Managed.Calls.Holds.{Holds, operation_state-is_open, Matches, matches, make_world}
use shmchan.Managed.Calls.{World, attempt, calm, receive_locks, turn}
use shmchan.Managed.Calls.Receiving.{
  state_status, try_receive-refused, try_receive-took, close-entered,
}
use shmchan.Managed.Control.{close, close_locked}
use shmchan.Managed.Receive.{refused, took, try_receive, find_nothing, receive_locked}
use shmchan.Managed.Send.{is_nonblocking}
use shmchan.Managed.Calls.Locked.{
  signal-IsValid, Entered, guard-Entered, header-IsValid, receive_locked-Takes,
}

find_nothing-status :
    (m : ManagedMapping) (b : Bool)
    → operation_state m ≡ state_status b
    → find_nothing nonblocking m
      ≡ refused (if b then ChannelStatus.would_block else ChannelStatus.closed) m
unfolding find_nothing is_nonblocking
find_nothing-status m b e = ground arith

receive_locks-true :
    (m : ManagedMapping) (b : Bool) → operation_state m ≡ state_status b → receive_locks m ≡ true
unfolding receive_locks
receive_locks-true m b e = ground arith

status_of :
    (b : Bool) → (if b then ChannelStatus.success else ChannelStatus.closed) ≡ state_status b
status_of true = refl
status_of false = refl

poll-empty :
    (capacity max : ℕ) (q : Fifo)
    → q.items ≡ []
    → poll capacity max q
      ≡ (no_value (if q.is_open then ChannelStatus.would_block else ChannelStatus.closed), q)
unfolding poll
poll-empty capacity max q e = ground arith

turn-get :
    (w : World) (r : ReceiveResult Bytes) (m : ManagedMapping)
    → try_receive (calm w.orphaned ∷ []) w.mapping ≡ returned r m
    → receive_locks w.mapping ≡ true
    → turn w get ≡ (received r, record { mapping = m; orphaned = w.orphaned && not true })
unfolding turn
turn-get w r m e f = rw (e, turn) (rw f)

module _ (capacity max : ℕ) (w : World) (q : Fifo) (budget : ℕ)
    (h : Holds capacity max (suc budget) w q) (m1 : ManagedMapping) (n : Entered w.mapping m1) where
  before : operation_state w.mapping ≡ state_status q.is_open
  before = operation_state-is_open w.mapping q.is_open h.state ∙ status_of q.is_open

  inside : operation_state m1 ≡ state_status q.is_open
  inside = operation_state-is_open m1 q.is_open (n.state ∙ h.state) ∙ status_of q.is_open

  module _
      (entered : managed_mutex_guard nonblocking none (attempt w.orphaned ∷ []) w.mapping
        ≡ holding ChannelStatus.success true m1) where
    get_empty :
        contents m1 ≡ []
        → receive_locked nonblocking m1 ≡ find_nothing nonblocking m1
        → Matches capacity max budget (turn w get) (answer capacity max q get)
    unfolding answer
    get_empty none_there e =
        matches capacity max budget
          (turn-get w _ m1
            (try_receive-refused w.orphaned w.mapping q.is_open before m1 entered
              (e ∙ find_nothing-status m1 q.is_open inside))
            (receive_locks-true w.mapping q.is_open before))
          (ap (λ p. (received p.0, p.1))
            (poll-empty capacity max q (sym (n.queue ∙ h.items) ∙ none_there)))
          (
            refl,
            make_world capacity max budget m1 (w.orphaned && not true) q n.valid (n.queue ∙ h.items)
                (n.state ∙ h.state)
                (ap (λ (f : ManagedFormat). f.message_capacity) n.format ∙ h.slots)
                (ap (λ (f : ManagedFormat). f.max_message_size) n.format ∙ h.largest)
                (omega (arith, n.next, h.sequences)),
          )

    get_took :
        (y : Bytes) (m2 : ManagedMapping)
        → contents m1 ≡ y ∷ contents m2
        → receive_locked nonblocking m1 ≡ took y m2
        → IsValid m2
        → m2.header.state ≡ m1.header.state
        → m2.header.format ≡ m1.header.format
        → m2.header.next_sequence ≡ m1.header.next_sequence
        → Matches capacity max budget (turn w get) (answer capacity max q get)
    unfolding answer signal_managed_event contents
    get_took y m2 front e v2 state format next =
        matches capacity max budget
          (turn-get w _ _ (try_receive-took w.orphaned w.mapping q.is_open before m1 entered m2 e)
            (receive_locks-true w.mapping q.is_open before))
          (rw (sym (n.queue ∙ h.items) ∙ front, poll))
          (
            refl,
            make_world capacity max budget _ (w.orphaned && not true)
                (record q { items = contents m2 }) (signal-IsValid m2 v2) refl
                (state ∙ n.state ∙ h.state)
                (ap (λ (f : ManagedFormat). f.message_capacity) (format ∙ n.format) ∙ h.slots)
                (ap (λ (f : ManagedFormat). f.max_message_size) (format ∙ n.format) ∙ h.largest)
                (omega (arith, next, n.next, h.sequences)),
          )

turn-shut :
    (w : World) (b : Bool) (m : ManagedMapping)
    → close (attempt w.orphaned ∷ []) w.mapping ≡ returned b m
    → turn w shut ≡ (done b, record { mapping = m; orphaned = false })
unfolding turn
turn-shut w b m e = rw (e, turn)

-- The state that `close` stores.
abbrev closed_mapping : ManagedMapping → ManagedMapping
closed_mapping m = record m {
  header = signal_managed_event (record (m.header) { state = state_code closed });
}

module _ (capacity max : ℕ) where
  pub get-Matches :
      (w : World) (q : Fifo) (budget : ℕ)
      → Holds capacity max (suc budget) w q
      → Matches capacity max budget (turn w get) (answer capacity max q get)
  get-Matches w q budget h =
      let (m1, entered, n) =
        guard-Entered nonblocking none w.orphaned w.mapping h.recoverable h.valid in
      elim (receive_locked-Takes m1 n.valid) [
        | inl (none_there, e) ↦ get_empty capacity max w q budget h m1 n entered none_there e
        | inr (y, m2, front, e, v2, state, format, next) ↦
            get_took capacity max w q budget h m1 n entered y m2 front e v2 state format next
      ]

  shut_open :
      (w : World) (q : Fifo) (budget : ℕ)
      → Holds capacity max (suc budget) w q
      → q.is_open ≡ true
      → (m1 : ManagedMapping)
      → managed_mutex_guard blocking none (attempt w.orphaned ∷ []) w.mapping
        ≡ holding ChannelStatus.success true m1
      → Entered w.mapping m1
      → Matches capacity max budget (turn w shut) (answer capacity max q shut)
  unfolding answer close_locked signal_managed_event contents
  shut_open w q budget h is_open m1 entered n =
      matches capacity max budget
        (turn-shut w true (closed_mapping m1)
          (close-entered w.orphaned w.mapping m1 entered ∙ rw healthy_state))
        (ap (λ b. (done b, record q { is_open = false })) is_open)
        (
          refl,
          make_world capacity max budget (closed_mapping m1) false (record q { is_open = false })
              (header-IsValid m1 _ _ n.valid) (n.queue ∙ h.items) refl
              (ap (λ (f : ManagedFormat). f.message_capacity) n.format ∙ h.slots)
              (ap (λ (f : ManagedFormat). f.max_message_size) n.format ∙ h.largest)
              (omega (arith, n.next, h.sequences)),
        )
    where
      healthy_state : (m1.header.state == state_code healthy) ≡ true
      healthy_state = ground (arith, n.state, h.state, is_open)

  shut_closed :
      (w : World) (q : Fifo) (budget : ℕ)
      → Holds capacity max (suc budget) w q
      → q.is_open ≡ false
      → (m1 : ManagedMapping)
      → managed_mutex_guard blocking none (attempt w.orphaned ∷ []) w.mapping
        ≡ holding ChannelStatus.success true m1
      → Entered w.mapping m1
      → Matches capacity max budget (turn w shut) (answer capacity max q shut)
  unfolding answer close_locked
  shut_closed w q budget h is_shut m1 entered n =
      matches capacity max budget
        (turn-shut w false m1 (close-entered w.orphaned w.mapping m1 entered ∙ rw closed_state))
        (ap (λ b. (done b, record q { is_open = false })) is_shut)
        (
          refl,
          make_world capacity max budget m1 false (record q { is_open = false }) n.valid
              (n.queue ∙ h.items) (ground (arith, n.state, h.state, is_shut))
              (ap (λ (f : ManagedFormat). f.message_capacity) n.format ∙ h.slots)
              (ap (λ (f : ManagedFormat). f.max_message_size) n.format ∙ h.largest)
              (omega (arith, n.next, h.sequences)),
        )
    where
      closed_state : (m1.header.state == state_code healthy) ≡ false
      closed_state = ground (arith, n.state, h.state, is_shut)

  pub shut-Matches :
      (w : World) (q : Fifo) (budget : ℕ)
      → Holds capacity max (suc budget) w q
      → Matches capacity max budget (turn w shut) (answer capacity max q shut)
  shut-Matches w q budget h =
      let (m1, entered, n) =
        guard-Entered blocking none w.orphaned w.mapping h.recoverable h.valid in
      elim (Bool-cases q.is_open) [
        | inl is_open ↦ shut_open w q budget h is_open m1 entered n
        | inr is_shut ↦ shut_closed w q budget h is_shut m1 entered n
      ]
