-- ===== src/Channel/Threads/Progress.antt =====
-- include/shmchan/channel.hpp: a call of `try_enqueue` or `try_dequeue` that runs alone for a while,
-- whatever the other threads were doing.
use shmchan.Common.{
  ℕ, ◌+◌, ◌%◌, ◌^◌, ◌<◌, ◌≡◌, ◌≢◌, inl, inr, some, arith, refl, ◌∙◌, Bool, true, false,
}
use shmchan.Status.{u64_mod}
use shmchan.Channel.Ring.{difference}
use shmchan.Channel.Threads.{
  Memory, index, seen, Pc, idle, sending, saw_free, claimed, filled, published, receiving, saw_full,
  taken, copied, released, claim, fill, store_sequence, signal_readers, take, signal_writers,
  System, Reach, Move, see_free, win_send, copy_in, publish, end_send, see_full, win_receive,
  copy_out, release, end_receive, see_filled, see_empty, pass_by_send, pass_by_receive, lose_send,
  lose_receive,
}
use shmchan.Channel.Threads.Invariant.{claim_of, hold_of, free, written, full, read, Inv}
use shmchan.Channel.Threads.Invariant.Slots.{next_in_slot, same_slot}
use shmchan.Channel.Threads.Invariant.Frame.{at}
use shmchan.Channel.Threads.Safety.{Reach-Inv, waiting}

abbrev pub is_inside : {A : Type 0} → Pc A → Bool
is_inside idle = false
is_inside _ = true

-- The moves of one call, from a place inside it, with no move of another thread between them. A run
-- that has come to the outside goes on no further.
pub data Alone {A : Type 0} : Memory A → Pc A → Memory A → Pc A → Type 0 where
  here : {m : Memory A} {q : Pc A} → Alone m q m q
  next :
      {m m' m'' : Memory A} {q q' q'' : Pc A}
      → is_inside q ≡ true
      → Move m q m' q'
      → Alone m' q' m'' q''
      → Alone m q m'' q''

-- A `try_dequeue` of the next position, which is published.
module _ {A : Type 0} (m : Memory A)
    (there : difference (seen m m.dequeue_position) ((m.dequeue_position + 1) % u64_mod) ≡ 0) where
  abbrev d : ℕ
  d = m.dequeue_position

  abbrev value : A
  value = m.storage (index m d)

  abbrev freed : Memory A
  freed = store_sequence (take m d) d (d + m.capacity)

  -- The places that a lone call comes to.
  data Receives : Memory A → Pc A → Type 0 where
    at_head : Receives m (receiving d)
    at_exchange : Receives m (saw_full d)
    at_copy : Receives (take m d) (taken d)
    at_store : Receives (take m d) (copied value d)
    at_signal : Receives freed (released value d)
    at_end : Receives (signal_writers freed value d) idle

  Move-Receives :
      {m' m'' : Memory A} {q q' : Pc A}
      → Receives m' q
      → is_inside q ≡ true
      → Move m' q m'' q'
      → Receives m'' q'
  Move-Receives at_head busy (see_full e) = at_exchange
  Move-Receives at_head busy (see_empty low) = absurd (ground (arith, there))
  Move-Receives at_head busy (pass_by_receive more high) = absurd (ground (arith, there))
  Move-Receives at_exchange busy (win_receive same) = at_copy
  Move-Receives at_exchange busy lose_receive = at_head
  Move-Receives at_copy busy copy_out = at_store
  Move-Receives at_store busy release = at_signal
  Move-Receives at_signal busy end_receive = at_end
  Move-Receives at_end busy mv = cc

  Alone-Receives :
      {m' m'' : Memory A} {q q' : Pc A} → Receives m' q → Alone m' q m'' q' → Receives m'' q'
  Alone-Receives r here = r
  Alone-Receives r (next busy mv rest) = Alone-Receives (Move-Receives r busy mv) rest

  -- From each of these places the call can end.
  abbrev received : Memory A
  received = signal_writers freed value d

  copies : Alone (take m d) (taken d) received idle
  copies = next refl copy_out (next refl release (next refl end_receive here))

  claims : Alone m (saw_full d) received idle
  claims = next refl (win_receive refl) copies

  receives_on : {m' : Memory A} {q : Pc A} → Receives m' q → Alone m' q received idle
  receives_on at_head = next refl (see_full there) claims
  receives_on at_exchange = claims
  receives_on at_copy = copies
  receives_on at_store = next refl release (next refl end_receive here)
  receives_on at_signal = next refl end_receive here
  receives_on at_end = here

-- A `try_enqueue` of `v` at the next position, whose slot is free.
module _ {A : Type 0} (m : Memory A) (v : A)
    (there : difference (seen m m.enqueue_position) m.enqueue_position ≡ 0) where
  abbrev e : ℕ
  e = m.enqueue_position

  abbrev stored : Memory A
  stored = store_sequence (fill (claim m v e) v e) e (e + 1)

  data Sends : Memory A → Pc A → Type 0 where
    at_load : Sends m (sending v e)
    at_claim : Sends m (saw_free v e)
    at_fill : Sends (claim m v e) (claimed v e)
    at_publish : Sends (fill (claim m v e) v e) (filled v e)
    at_wake : Sends stored published
    at_return : Sends (signal_readers stored) idle

  Move-Sends :
      {m' m'' : Memory A} {q q' : Pc A}
      → Sends m' q
      → is_inside q ≡ true
      → Move m' q m'' q'
      → Sends m'' q'
  Move-Sends at_load busy (see_free now) = at_claim
  Move-Sends at_load busy (see_filled low) = absurd (ground (arith, there))
  Move-Sends at_load busy (pass_by_send more high) = absurd (ground (arith, there))
  Move-Sends at_claim busy (win_send same) = at_fill
  Move-Sends at_claim busy lose_send = at_load
  Move-Sends at_fill busy copy_in = at_publish
  Move-Sends at_publish busy publish = at_wake
  Move-Sends at_wake busy end_send = at_return
  Move-Sends at_return busy mv = cc

  Alone-Sends : {m' m'' : Memory A} {q q' : Pc A} → Sends m' q → Alone m' q m'' q' → Sends m'' q'
  Alone-Sends r here = r
  Alone-Sends r (next busy mv rest) = Alone-Sends (Move-Sends r busy mv) rest

  abbrev sent_on : Memory A
  sent_on = signal_readers stored

  fills : Alone (claim m v e) (claimed v e) sent_on idle
  fills = next refl copy_in (next refl publish (next refl end_send here))

  enters : Alone m (saw_free v e) sent_on idle
  enters = next refl (win_send refl) fills

  sends_on : {m' : Memory A} {q : Pc A} → Sends m' q → Alone m' q sent_on idle
  sends_on at_load = next refl (see_free there) enters
  sends_on at_claim = enters
  sends_on at_fill = fills
  sends_on at_publish = next refl publish (next refl end_send here)
  sends_on at_wake = next refl end_send here
  sends_on at_return = here

module _ {A : Type 0} (capacity : ℕ) (blank : ℕ → A) (several : 1 < capacity)
    (small : capacity < 2 ^ 62) {s : System A} (reached : Reach capacity blank s) where
  -- In every reachable state of a ring of several slots whose positions stay below 2 ^ 62: if a
  -- sender has claimed a position that no receiver has taken, and the sender of the next one to
  -- take is done with its slot, then from every state to which a `try_dequeue` alone can come, it
  -- can go on alone to an end at which it has returned the value that was sent with the next
  -- position and has moved `dequeue_position` on by one. A call at its end goes on no further, so
  -- every such call that ends has ended that way.
  pub receives_alone :
      {m' : Memory A} {q : Pc A}
      → s.mem.dequeue_position < s.mem.enqueue_position
      → ((j : ℕ) → claim_of (s.pc j) ≢ some s.mem.dequeue_position)
      → Alone s.mem (receiving s.mem.dequeue_position) m' q
      → (m'' : Memory A) × Alone m' q m'' idle
        × (m''.got s.mem.dequeue_position ≡ some (s.mem.sent s.mem.dequeue_position))
        × (m''.dequeue_position ≡ s.mem.dequeue_position + 1)
  receives_alone some_left done run =
      let inv = Reach-Inv capacity blank several small reached in
      elim (waiting s.mem s.pc inv s.mem.dequeue_position (omega arith) some_left) [
        | inr (j, owner) ↦ absurd (done j owner)
        | inl (now, holds) ↦
            let there : difference (seen s.mem s.mem.dequeue_position)
                  ((s.mem.dequeue_position + 1) % u64_mod)
                ≡ 0 =
              ground (arith, inv.room) in
            (
              received s.mem there,
              receives_on s.mem there (Alone-Receives s.mem there (at_head) run),
              ground arith,
              ground (arith, inv.room),
            )
      ]

  -- If there is room for another position, and the receiver of the one a round before has released
  -- the slot, then from every state to which a `try_enqueue` alone can come, it can go on alone to
  -- an end at which the slot of the next position holds its value, published, and
  -- `enqueue_position` has moved on by one; so every such call that ends has ended that way.
  pub sends_alone :
      (v : A) {m' : Memory A} {q : Pc A}
      → s.mem.enqueue_position < s.mem.dequeue_position + s.mem.capacity
      → ((j t : ℕ) → s.mem.enqueue_position ≡ t + s.mem.capacity → hold_of (s.pc j) ≢ some t)
      → Alone s.mem (sending v s.mem.enqueue_position) m' q
      → (m'' : Memory A) × Alone m' q m'' idle
        × (seen m'' s.mem.enqueue_position ≡ s.mem.enqueue_position + 1)
        × (m''.storage (index m'' s.mem.enqueue_position) ≡ v)
        × (m''.enqueue_position ≡ s.mem.enqueue_position + 1)
  sends_alone v has_room done run = (
    sent_on s.mem v there,
    sends_on s.mem v there (Alone-Sends s.mem v there at_load run),
    ground (arith, inv.room),
    ground arith,
    ground (arith, inv.room),
  )
    where
      inv : Inv s.mem s.pc
      inv = Reach-Inv capacity blank several small reached

      slot_free : seen s.mem s.mem.enqueue_position ≡ s.mem.enqueue_position
      slot_free = elim (at s.mem s.pc inv s.mem.enqueue_position) [
        | free t place now late early ↦
            now
            ∙ same_slot s.mem.capacity t s.mem.enqueue_position place (omega (arith, inv.ordered))
                (omega (arith, inv.several))
        | written t j place now late early owner ↦
            absurd (omega (arith, next_in_slot s.mem.capacity t s.mem.enqueue_position place))
        | full t place now late early holds ↦
            absurd (omega (arith, next_in_slot s.mem.capacity t s.mem.enqueue_position place))
        | read t j place now early late owner ↦ absurd (
            done j t
              (next_in_slot s.mem.capacity t s.mem.enqueue_position place
                (omega (arith, inv.ordered)) late)
              owner)
      ]

      there : difference (seen s.mem s.mem.enqueue_position) s.mem.enqueue_position ≡ 0
      there = ground (arith, slot_free, inv.room)
