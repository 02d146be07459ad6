-- ===== src/Managed/Calls/Deaths.antt =====
-- A client that dies in a send, against the queue.
use shmchan.Common.{
  ℕ, suc, ◌+◌, ◌≡◌, ◌≢◌, refl, ap, ◌∙◌, Bool-cases, inl, inr, true, false, [], ◌∷◌, ◌++◌, none,
  arith, length, ltb, ◌==◌, if◌then◌else◌, ℕ_discrete,
}
use shmchan.Status.{ChannelStatus, Bytes}
use shmchan.Managed.State.{ManagedFormat, ManagedMapping, max_size_of, capacity_of, operation_state}
use shmchan.Managed.Lock.{blocking, holding, managed_mutex_guard}
use shmchan.Managed.Fifo.{die_put, nothing, Fifo, offer, die, answer}
use shmchan.Managed.Calls.Holds.{Holds, operation_state-is_open, Matches, matches, make_world}
use shmchan.Managed.Calls.{World, attempt, send_locks, turn}
use shmchan.Managed.Send.Death.{send_died, send_died-Died}
use shmchan.Managed.Calls.Puts.{within, send_locks-false, send_locks-true}
use shmchan.Managed.Calls.{dying_send}
use shmchan.Managed.Calls.Locked.{Entered, guard-Entered, free_slots-contents}

offer-full :
    (capacity max : ℕ) (q : Fifo) (x : Bytes)
    → (length q.items == capacity) ≡ true
    → (offer capacity max q x).1 ≡ q
unfolding offer
offer-full capacity max q x e = ground arith

offer-too_large :
    (capacity max : ℕ) (q : Fifo) (x : Bytes)
    → ltb max (length x) ≡ true
    → (offer capacity max q x).1 ≡ q
unfolding offer
offer-too_large capacity max q x e = ground arith

offer-shut :
    (capacity max : ℕ) (q : Fifo) (x : Bytes) → q.is_open ≡ false → (offer capacity max q x).1 ≡ q
unfolding offer
offer-shut capacity max q x e = ground arith

offer-room :
    (capacity max : ℕ) (q : Fifo) (x : Bytes)
    → ltb max (length x) ≡ false
    → q.is_open ≡ true
    → (length q.items == capacity) ≡ false
    → (offer capacity max q x).1 ≡ record q { items = q.items ++ x ∷ [] }
unfolding offer
offer-room capacity max q x fits is_open room = rw (fits, offer) (rw (is_open, offer) (rw room))

die-stays :
    (capacity max : ℕ) (q : Fifo) (n : ℕ) (x : Bytes)
    → (offer capacity max q x).1 ≡ q
    → die capacity max q n x ≡ q
unfolding die
die-stays capacity max q n x e = ground arith

die-put :
    (capacity max : ℕ) (q : Fifo) (n : ℕ) (x : Bytes)
    → (offer capacity max q x).1 ≡ record q { items = q.items ++ x ∷ [] }
    → die capacity max q n x
      ≡ record q { items = if ltb n (length x + 8) then q.items else q.items ++ x ∷ [] }
unfolding die
die-put capacity max q n x e = elim (Bool-cases (ltb n (length x + 8))) [
  | inl early ↦ rw early
  | inr late ↦ rw late e
]

dying_send-full :
    (n : ℕ) (x : Bytes) (w : World) (m1 : ManagedMapping)
    → managed_mutex_guard blocking none (attempt w.orphaned ∷ []) w.mapping
      ≡ holding ChannelStatus.success true m1
    → m1.header.free_slots ≡ 0
    → dying_send n x w ≡ m1
unfolding dying_send
dying_send-full n x w m1 entered none_free =
    let is_zero : (m1.header.free_slots == 0) ≡ true = ground arith in
    rw (entered, dying_send) (rw is_zero)

dying_send-sent :
    (n : ℕ) (x : Bytes) (w : World) (m1 : ManagedMapping)
    → managed_mutex_guard blocking none (attempt w.orphaned ∷ []) w.mapping
      ≡ holding ChannelStatus.success true m1
    → m1.header.free_slots ≢ 0
    → dying_send n x w ≡ send_died n m1 x
unfolding dying_send
dying_send-sent n x w m1 entered some_free =
    let nonzero : (m1.header.free_slots == 0) ≡ false = ground arith in
    rw (entered, dying_send) (rw nonzero)

turn-die_put :
    (w : World) (n : ℕ) (x : Bytes)
    → send_locks w.mapping x ≡ true
    → turn w (die_put n x) ≡ (nothing, record { mapping = dying_send n x w; orphaned = true })
unfolding turn
turn-die_put w n x e = rw e

turn-die_put_outside :
    (w : World) (n : ℕ) (x : Bytes)
    → send_locks w.mapping x ≡ false
    → turn w (die_put n x) ≡ (nothing, w)
unfolding turn
turn-die_put_outside w n x e = rw e

module _ (capacity max : ℕ) (w : World) (q : Fifo) (budget n : ℕ) (x : Bytes)
    (h : Holds capacity max (suc budget) w q) where
  -- Outside the mutex a death changes nothing, and the queue refuses the message.
  die_outside :
      send_locks w.mapping x ≡ false
      → (offer capacity max q x).1 ≡ q
      → Matches capacity max budget (turn w (die_put n x)) (answer capacity max q (die_put n x))
  unfolding answer die
  die_outside e f =
      matches capacity max budget (turn-die_put_outside w n x e)
        (ap (λ p. (nothing, p)) (unchanged f))
        (
          refl,
          record {
            recoverable = h.recoverable;
            valid = h.valid;
            items = h.items;
            state = h.state;
            slots = h.slots;
            largest = h.largest;
            sequences = omega (arith, h.sequences);
          },
        )
    where
      unchanged :
          (offer capacity max q x).1 ≡ q
          → (if ltb n (length x + 8) then q else (offer capacity max q x).1) ≡ q
      unchanged f = ground arith

  -- What the queue becomes when the dying client comes as far as the mutex.
  abbrev after : Fifo
  after = die capacity max q n x

  module _ (fits : ltb max (length x) ≡ false) (is_open : q.is_open ≡ true) (m1 : ManagedMapping)
      (entered : managed_mutex_guard blocking none (attempt w.orphaned ∷ []) w.mapping
        ≡ holding ChannelStatus.success true m1)
      (e : Entered w.mapping m1) where
    same_capacity : capacity_of m1 ≡ capacity
    same_capacity = ap (λ (f : ManagedFormat). f.message_capacity) e.format ∙ h.slots

    same_max : max_size_of m1 ≡ max
    same_max = ap (λ (f : ManagedFormat). f.max_message_size) e.format ∙ h.largest

    is_healthy : operation_state w.mapping ≡ ChannelStatus.success
    is_healthy =
        operation_state-is_open w.mapping q.is_open h.state
        ∙ ap (λ b. if b then ChannelStatus.success else ChannelStatus.closed) is_open

    locks : send_locks w.mapping x ≡ true
    locks = send_locks-true w.mapping x (rw h.largest fits) is_healthy

    die_full :
        m1.header.free_slots ≡ 0
        → Matches capacity max budget (turn w (die_put n x)) (answer capacity max q (die_put n x))
    unfolding answer
    die_full none_free =
        matches capacity max budget (turn-die_put w n x locks)
          (ap (λ p. (nothing, p)) refused_anyway)
          (
            refl,
            rw stays (
                make_world capacity max budget m1 true q e.valid (e.queue ∙ h.items)
                  (e.state ∙ h.state) same_capacity same_max (omega (arith, e.next, h.sequences))),
          )
      where
        is_full : (length q.items == capacity) ≡ true
        is_full =
            ground
              (arith, free_slots-contents m1 e.valid, ap length (e.queue ∙ h.items), same_capacity)

        refused_anyway : after ≡ q
        refused_anyway = die-stays capacity max q n x (offer-full capacity max q x is_full)

        stays : dying_send n x w ≡ m1
        stays = dying_send-full n x w m1 entered none_free

    die_sent :
        m1.header.free_slots ≢ 0
        → Matches capacity max budget (turn w (die_put n x)) (answer capacity max q (die_put n x))
    unfolding answer
    die_sent some_free =
        let d =
          send_died-Died n m1 x e.valid (within max x m1 fits same_max) some_free
            (omega (arith, e.next, h.sequences)) in
        matches capacity max budget (turn-die_put w n x locks)
          (ap (λ p. (nothing, p))
            (die-put capacity max q n x
              (offer-room capacity max q x fits is_open (has_room some_free))))
          (
            refl,
            rw (dying_send-sent n x w m1 entered some_free) record {
              recoverable = d.recoverable;
              valid = λ t. cc;
              items =
                  d.queue
                  ∙ ap (λ l. if ltb n (length x + 8) then l else l ++ x ∷ []) (e.queue ∙ h.items);
              state = d.state ∙ e.state ∙ h.state;
              slots = ap (λ (f : ManagedFormat). f.message_capacity) d.format ∙ same_capacity;
              largest = ap (λ (f : ManagedFormat). f.max_message_size) d.format ∙ same_max;
              sequences = omega (arith, d.upper, e.next, h.sequences);
            },
          )
      where
        has_room : m1.header.free_slots ≢ 0 → (length q.items == capacity) ≡ false
        has_room some_free = ground (
          arith,
          some_free,
          free_slots-contents m1 e.valid,
          ap length (e.queue ∙ h.items),
          same_capacity,
        )

pub die_put-Matches :
    (capacity max : ℕ) (w : World) (q : Fifo) (budget n : ℕ) (x : Bytes)
    → Holds capacity max (suc budget) w q
    → Matches capacity max budget (turn w (die_put n x)) (answer capacity max q (die_put n x))
die_put-Matches capacity max w q budget n x h = elim (Bool-cases (ltb max (length x))) [
  | inl big ↦
      die_outside capacity max w q budget n x h
        (send_locks-false w.mapping x (inl (rw h.largest big)))
        (offer-too_large capacity max q x big)
  | inr fits ↦ elim (Bool-cases q.is_open) [
    | inr is_shut ↦
        die_outside capacity max w q budget n x h
          (send_locks-false w.mapping x (
            inr (
              operation_state-is_open w.mapping q.is_open h.state
              ∙ ap (λ b. if b then ChannelStatus.success else ChannelStatus.closed) is_shut)))
          (offer-shut capacity max q x is_shut)
    | inl is_open ↦
        let (m1, entered, e) =
          guard-Entered blocking none w.orphaned w.mapping h.recoverable h.valid in
        elim (ℕ_discrete m1.header.free_slots 0) [
          | yes z ↦ die_full capacity max w q budget n x h fits is_open m1 entered e z
          | no nz ↦ die_sent capacity max w q budget n x h fits is_open m1 entered e nz
        ]
  ]
]
