-- ===== src/Managed/Send.antt =====
-- include/shmchan/managed_channel.hpp: `managed_byte_channel::send_impl`.
pub mod Search
pub mod Copy
pub mod Stages
pub mod Crash
pub mod Delivery
pub mod Death
use shmchan.Common.{
  ℕ, zero, suc, ◌+◌, ◌-◌, ◌%◌, Bool, true, false, List, [], ◌∷◌, ◌++◌, Option, none, some, ltb,
  ◌==◌, if◌then◌else◌, length, get_elem?, set,
}
use shmchan.Status.{ChannelStatus, FutexWaitResult, Bytes, u32_mod, u64_mod}
use shmchan.Managed.State.{
  ManagedMessageSlot, ManagedMapping, free, writing, ready, slot_code, corrupt_data,
  sequence_exhausted, increment, decrement, signal_managed_event, break_mapping, capacity_of,
  max_size_of, operation_state,
}
use shmchan.Managed.Slots.{validate_managed_slots}
use shmchan.Managed.Stores.{Store, to_slot, to_header, perform_all}
use shmchan.Managed.Lock.{
  ManagedLockMode, blocking, nonblocking, timed, Attempt, holding, thrown, spinning, expired,
  managed_mutex_guard,
}

-- `slots[index].state == free`
unfoldable pub is_free_at : List ManagedMessageSlot → ℕ → Bool
is_free_at slots index = elim (get_elem? slots index) [
  | none ↦ false
  | some s ↦ s.state == slot_code free
]

-- The search for a FREE slot, from `start` on and round the end, with `left` offsets to try. The
-- answer is `capacity` where none is free.
unfoldable pub find_free : List ManagedMessageSlot → ℕ → ℕ → ℕ → ℕ → ℕ
unfolding is_free_at
find_free slots capacity start offset zero = capacity
find_free slots capacity start offset (suc left) =
    let index = (start + offset) % capacity in
    elim (is_free_at slots index) [
      | true ↦ index
      | false ↦ find_free slots capacity start (offset + 1) left
    ]

abbrev pub select_free : ManagedMapping → ℕ
select_free m =
    let capacity = capacity_of m in
    find_free m.slots capacity (m.header.next_slot_hint % capacity) 0 capacity

-- The stores of `memcpy`, byte by byte from offset `k` on.
unfoldable pub copy_stores : ℕ → Bytes → List Store
copy_stores k [] = []
copy_stores k (b ∷ rest) =
    to_slot (λ s. record s { payload = set s.payload k b }) ∷ copy_stores (k + 1) rest

-- The stores up to the copy of the payload; `sequence` is the loaded `header.next_sequence`.
unfoldable pub claim_stores : ℕ → List Store
claim_stores sequence =
    to_slot (λ s. record s { state = slot_code writing })
    ∷ to_header (λ h. record h { free_slots = decrement h.free_slots })
    ∷ to_header (λ h. record h { writing_messages = increment h.writing_messages })
    ∷ to_slot (λ s. record s { payload_size = 0 })
    ∷ to_header (λ h. record h { next_sequence = increment sequence })
    ∷ to_slot (λ s. record s { sequence = sequence })
    ∷ []

unfoldable pub size_store : Bytes → Store
size_store message = to_slot (λ s. record s { payload_size = length message % u32_mod })

-- The publication point.
unfoldable pub ready_store : Store
ready_store = to_slot (λ s. record s { state = slot_code ready })

-- The stores from the publication on.
unfoldable pub account_stores : ℕ → ℕ → Bytes → List Store
account_stores capacity selected message =
    to_header (λ h. record h { writing_messages = decrement h.writing_messages })
    ∷ to_header (λ h. record h { ready_messages = increment h.ready_messages })
    ∷ to_header (λ h. record h { next_slot_hint = (selected + 1) % capacity })
    ∷ to_header (λ h. record h {
      counters = record (h.counters) { sent_messages = increment h.counters.sent_messages };
    })
    ∷ to_header (λ h. record h {
      counters = record (h.counters) {
        sent_bytes = (h.counters.sent_bytes + length message) % u64_mod;
      };
    })
    ∷ []

-- All stores of a send into slot `selected`, in program order.
unfoldable pub send_stores : ManagedMapping → ℕ → Bytes → List Store
unfolding copy_stores claim_stores size_store ready_store account_stores
send_stores m selected message =
    (claim_stores m.header.next_sequence ++ copy_stores 0 message ++ size_store message ∷ [])
    ++ ready_store ∷ account_stores (capacity_of m) selected message

-- What one turn of the loop does while it holds the mutex.
pub data SendStep : Type 0 where
  rejected : ChannelStatus → ManagedMapping → SendStep
  sent : ManagedMapping → SendStep
  full : (epoch : ℕ) → ManagedMapping → SendStep

-- The part under `header.free_slots != 0`.
unfoldable pub publish : ManagedMapping → Bytes → SendStep
publish m message =
    if m.header.next_sequence == u64_mod - 1
    then rejected ChannelStatus.broken (break_mapping m sequence_exhausted)
    else if select_free m == capacity_of m
    then rejected ChannelStatus.broken (break_mapping m corrupt_data)
    else sent (perform_all (select_free m) (send_stores m (select_free m) message) m)

unfoldable pub is_nonblocking : ManagedLockMode → Bool
is_nonblocking nonblocking = true
is_nonblocking _ = false

unfoldable pub send_valid : ManagedLockMode → ManagedMapping → Bytes → SendStep
unfolding is_nonblocking
send_valid mode m message =
    if m.header.free_slots == 0
    then (if is_nonblocking mode
        then rejected ChannelStatus.would_block m
        else full m.header.event_epoch m)
    else publish m message

unfoldable pub send_locked : ManagedLockMode → ManagedMapping → Bytes → SendStep
send_locked mode m message = elim (operation_state m) [
  | ChannelStatus.success ↦
      let (valid, m') = validate_managed_slots m in
      if valid then send_valid mode m' message else rejected ChannelStatus.broken m'
  | other ↦ rejected other m
]

-- What the environment contributes to one turn of the loop of `send_impl` or `receive_impl`.
pub record Round : Type 0 where
  pub before : ManagedMapping → ManagedMapping  -- others, before the first look at the state
  pub attempts : List Attempt
  pub after : ManagedMapping → ManagedMapping  -- others, after the mutex is released
  pub wake : FutexWaitResult
  pub now : ℕ  -- the clock after the wait

-- How a call ends: with a result, by an exception, or not within the schedule.
pub data Outcome (A : Type 0) : Type 0 where
  returned : A → ManagedMapping → Outcome A
  threw : ManagedMapping → Outcome A
  pending : ManagedMapping → Outcome A

unfoldable pub add_waiting_senders : (ℕ → ℕ) → ManagedMapping → ManagedMapping
add_waiting_senders f m = record m {
  header = record (m.header) {
    counters = record (m.header.counters) { waiting_senders = f m.header.counters.waiting_senders };
  };
}

unfoldable pub count_send_timeout : ManagedMapping → ManagedMapping
count_send_timeout m = record m {
  header = record (m.header) {
    counters = record (m.header.counters) {
      send_timeouts = increment m.header.counters.send_timeouts;
    };
  };
}

abbrev pub increment_u32 : ℕ → ℕ
increment_u32 n = (n + 1) % u32_mod

abbrev pub decrement_u32 : ℕ → ℕ
decrement_u32 n = (n + u32_mod - 1) % u32_mod

-- The mapping when `send_impl` comes back from its futex wait.
unfoldable pub send_waited : Round → ManagedMapping → ManagedMapping
unfolding add_waiting_senders
send_waited r m = add_waiting_senders decrement_u32 (r.after (add_waiting_senders increment_u32 m))

-- `lock.unlock()`, `signal_managed_event`, and the last look at the state
unfoldable pub send_signalled : Round → ManagedMapping → Outcome ChannelStatus
send_signalled r m =
    let m' = r.after (record m { header = signal_managed_event m.header }) in
    returned
      (elim (operation_state m') [
        | ChannelStatus.broken ↦ ChannelStatus.broken
        | _ ↦ ChannelStatus.success
      ])
      m'

-- The loop of `send_impl`.
unfoldable pub send_loop :
    ManagedLockMode → Option ℕ → List Round → Bytes → ManagedMapping → Outcome ChannelStatus
send_loop mode deadline [] message m = pending m
send_loop mode deadline (r ∷ rest) message m =
    let m0 = r.before m in
    elim (operation_state m0) [
      | ChannelStatus.success ↦ elim (managed_mutex_guard mode deadline r.attempts m0) [
        | holding ChannelStatus.success owns m1 ↦ elim (send_locked mode m1 message) [
          | rejected status m2 ↦ returned status m2
          | sent m2 ↦ send_signalled r m2
          | full epoch m2 ↦ elim (r.wake) [
            | FutexWaitResult.failed ↦ threw (send_waited r m2)
            | FutexWaitResult.changed ↦ send_loop mode deadline rest message (send_waited r m2)
            | FutexWaitResult.timed_out ↦ elim (expired deadline r.now) [
              | true ↦ returned ChannelStatus.timed_out (count_send_timeout (send_waited r m2))
              | false ↦ send_loop mode deadline rest message (send_waited r m2)
            ]
          ]
        ]
        | holding ChannelStatus.timed_out owns m1 ↦
            returned ChannelStatus.timed_out (count_send_timeout m1)
        | holding other owns m1 ↦ returned other m1
        | thrown e m1 ↦ threw m1
        | spinning m1 ↦ pending m1
      ]
      | other ↦ returned other m0
    ]

-- `managed_byte_channel::send_impl`
unfoldable pub send_impl :
    ManagedLockMode → Option ℕ → List Round → Bytes → ManagedMapping → Outcome ChannelStatus
send_impl mode deadline rounds message m =
    if ltb (max_size_of m) (length message)
    then returned ChannelStatus.message_too_large m
    else send_loop mode deadline rounds message m

-- `try_send`, `send` and `send_for`
unfoldable pub try_send : List Round → Bytes → ManagedMapping → Outcome ChannelStatus
try_send = send_impl nonblocking none

unfoldable pub send : List Round → Bytes → ManagedMapping → Outcome ChannelStatus
send = send_impl blocking none

unfoldable pub send_for : ℕ → List Round → Bytes → ManagedMapping → Outcome ChannelStatus
send_for deadline = send_impl timed (some deadline)
