-- ===== src/Managed/Receive.antt =====
-- include/shmchan/managed_channel.hpp: `managed_byte_channel::receive_impl`.
pub mod Take
pub mod Crash
pub mod Death
use shmchan.Common.{
  ℕ, ◌+◌, ◌-◌, ◌%◌, true, false, ◌&&◌, ◌||◌, List, [], ◌∷◌, ◌++◌, Option, none, some, ltb, ◌==◌,
  if◌then◌else◌, length, get_elem?, take,
}
use shmchan.Status.{ChannelStatus, FutexWaitResult, ReceiveResult, no_value, Bytes, u64_mod}
use shmchan.Managed.State.{
  ManagedMessageSlot, ManagedMapping, free, ready, slot_code, corrupt_data, increment, decrement,
  signal_managed_event, break_mapping, capacity_of, max_size_of, operation_state,
}
use shmchan.Managed.Slots.{validate_managed_slots}
use shmchan.Managed.Stores.{Store, to_slot, to_header, perform_all}
use shmchan.Managed.Lock.{
  ManagedLockMode, blocking, nonblocking, timed, holding, thrown, spinning, expired,
  managed_mutex_guard,
}
use shmchan.Managed.Send.{
  Round, Outcome, returned, threw, pending, increment_u32, decrement_u32, is_nonblocking,
}

-- The loop that looks for the oldest READY slot: the index and sequence selected so far, and the
-- index of the next slot.
unfoldable pub select_ready : List ManagedMessageSlot → ℕ → ℕ → ℕ → ℕ × ℕ
select_ready [] index selected best = (selected, best)
select_ready (s ∷ rest) index selected best =
    elim (s.state == slot_code ready && ltb s.sequence best) [
      | true ↦ select_ready rest (index + 1) index s.sequence
      | false ↦ select_ready rest (index + 1) selected best
    ]

abbrev pub select_oldest : ManagedMapping → ℕ
select_oldest m = (select_ready m.slots 0 (capacity_of m) (u64_mod - 1)).0

-- The stores of `reset_managed_slot`, in program order.
unfoldable pub reset_stores : List Store
reset_stores =
    to_slot (λ s. record s { payload_size = 0 })
    ∷ to_slot (λ s. record s { sequence = 0 })
    ∷ to_slot (λ s. record s { state = slot_code free })
    ∷ []

-- The stores that account for a message taken.
unfoldable pub release_stores : Bytes → List Store
release_stores payload =
    to_header (λ h. record h { ready_messages = decrement h.ready_messages })
    ∷ to_header (λ h. record h { free_slots = increment h.free_slots })
    ∷ to_header (λ h. record h {
      counters = record (h.counters) { received_messages = increment h.counters.received_messages };
    })
    ∷ to_header (λ h. record h {
      counters = record (h.counters) {
        received_bytes = (h.counters.received_bytes + length payload) % u64_mod;
      };
    })
    ∷ []

-- All stores of a receive, in program order; the payload is in private memory before the first.
unfoldable pub receive_stores : Bytes → List Store
unfolding reset_stores release_stores
receive_stores payload = reset_stores ++ release_stores payload

-- What one turn of the loop does while it holds the mutex.
pub data ReceiveStep : Type 0 where
  refused : ChannelStatus → ManagedMapping → ReceiveStep
  took : Bytes → ManagedMapping → ReceiveStep
  empty : (epoch : ℕ) → ManagedMapping → ReceiveStep

-- The private copy of the payload.
unfoldable pub payload_of : ManagedMessageSlot → Bytes
payload_of s = take s.payload_size s.payload

-- The part under `selected != header.message_capacity`.
unfoldable pub take_slot : ManagedMapping → ℕ → ManagedMessageSlot → ReceiveStep
take_slot m selected s =
    if ltb (max_size_of m) s.payload_size || s.sequence == 0 || m.header.ready_messages == 0
    then refused ChannelStatus.broken (break_mapping m corrupt_data)
    else took (payload_of s) (perform_all selected (receive_stores (payload_of s)) m)

-- The part after the search, when nothing was found.
unfoldable pub find_nothing : ManagedLockMode → ManagedMapping → ReceiveStep
find_nothing mode m = elim (operation_state m) [
  | ChannelStatus.closed ↦ refused ChannelStatus.closed m
  | ChannelStatus.broken ↦ refused ChannelStatus.broken m
  | _ ↦
      if is_nonblocking mode
      then refused ChannelStatus.would_block m
      else empty m.header.event_epoch m
]

unfoldable pub receive_valid : ManagedLockMode → ManagedMapping → ReceiveStep
receive_valid mode m = elim (get_elem? m.slots (select_oldest m)) [
  | none ↦ find_nothing mode m
  | some s ↦ take_slot m (select_oldest m) s
]

unfoldable pub receive_locked : ManagedLockMode → ManagedMapping → ReceiveStep
receive_locked mode m =
    let (valid, m') = validate_managed_slots m in
    if valid then receive_valid mode m' else refused ChannelStatus.broken m'

unfoldable pub add_waiting_receivers : (ℕ → ℕ) → ManagedMapping → ManagedMapping
add_waiting_receivers f m = record m {
  header = record (m.header) {
    counters = record (m.header.counters) {
      waiting_receivers = f m.header.counters.waiting_receivers;
    };
  };
}

unfoldable pub count_receive_timeout : ManagedMapping → ManagedMapping
count_receive_timeout m = record m {
  header = record (m.header) {
    counters = record (m.header.counters) {
      receive_timeouts = increment m.header.counters.receive_timeouts;
    };
  };
}

-- The mapping when `receive_impl` comes back from its futex wait.
unfoldable pub receive_waited : Round → ManagedMapping → ManagedMapping
unfolding add_waiting_receivers
receive_waited r m =
    add_waiting_receivers decrement_u32 (r.after (add_waiting_receivers increment_u32 m))

-- The loop of `receive_impl`.
unfoldable pub receive_loop :
    ManagedLockMode → Option ℕ → List Round → ManagedMapping → Outcome (ReceiveResult Bytes)
receive_loop mode deadline [] m = pending m
receive_loop mode deadline (r ∷ rest) m =
    let m0 = r.before m in
    elim (operation_state m0) [
      | ChannelStatus.broken ↦ returned (no_value ChannelStatus.broken) m0
      | _ ↦ elim (managed_mutex_guard mode deadline r.attempts m0) [
        | holding ChannelStatus.success owns m1 ↦ elim (receive_locked mode m1) [
          | refused status m2 ↦ returned (no_value status) m2
          | took payload m2 ↦
              returned (record { code = ChannelStatus.success; value = some payload })
                (record m2 { header = signal_managed_event m2.header })
          | empty epoch m2 ↦ elim (r.wake) [
            | FutexWaitResult.failed ↦ threw (receive_waited r m2)
            | FutexWaitResult.changed ↦ receive_loop mode deadline rest (receive_waited r m2)
            | FutexWaitResult.timed_out ↦ elim (expired deadline r.now) [
              | true ↦
                  returned (no_value ChannelStatus.timed_out)
                    (count_receive_timeout (receive_waited r m2))
              | false ↦ receive_loop mode deadline rest (receive_waited r m2)
            ]
          ]
        ]
        | holding ChannelStatus.timed_out owns m1 ↦
            returned (no_value ChannelStatus.timed_out) (count_receive_timeout m1)
        | holding other owns m1 ↦ returned (no_value other) m1
        | thrown e m1 ↦ threw m1
        | spinning m1 ↦ pending m1
      ]
    ]

-- `managed_byte_channel::receive_impl`
unfoldable pub receive_impl :
    ManagedLockMode → Option ℕ → List Round → ManagedMapping → Outcome (ReceiveResult Bytes)
receive_impl mode deadline rounds m = receive_loop mode deadline rounds m

-- `try_receive`, `receive` and `receive_for`
unfoldable pub try_receive : List Round → ManagedMapping → Outcome (ReceiveResult Bytes)
try_receive = receive_impl nonblocking none

unfoldable pub receive : List Round → ManagedMapping → Outcome (ReceiveResult Bytes)
receive = receive_impl blocking none

unfoldable pub receive_for : ℕ → List Round → ManagedMapping → Outcome (ReceiveResult Bytes)
receive_for deadline = receive_impl timed (some deadline)
