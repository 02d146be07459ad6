-- ===== src/Channel/Threads/Invariant.antt =====
-- include/shmchan/channel.hpp: what the slots and the threads of a ring say about one another.
pub mod Moves
pub mod Slots
pub mod Frame
pub mod Sends
pub mod Receives
pub mod Step
pub mod Phases
use shmchan.Common.{ℕ, ◌+◌, ◌%◌, ◌^◌, ◌<◌, ◌≤◌, ◌≡◌, ◌⊎◌, Option, none, some}
use shmchan.Channel.Threads.{
  Memory, index, seen, Pc, idle, sending, late_send, saw_free, claimed, filled, published,
  receiving, late_receive, saw_full, taken, copied, released,
}

module _ {A : Type 0} where
  -- The position that a sender has claimed, until it has published it.
  abbrev pub claim_of : Pc A → Option ℕ
  claim_of (claimed v p) = some p
  claim_of (filled v p) = some p
  claim_of _ = none

  -- The position that a receiver has claimed, until it has released the slot, and until it returns.
  abbrev pub hold_of : Pc A → Option ℕ
  hold_of (taken p) = some p
  hold_of (copied v p) = some p
  hold_of _ = none

  abbrev pub receipt_of : Pc A → Option ℕ
  receipt_of (taken p) = some p
  receipt_of (copied v p) = some p
  receipt_of (released v p) = some p
  receipt_of _ = none

  -- What the variables of a thread say about the memory.
  abbrev pub Knows : Memory A → Pc A → Type 0
  Knows m (sending v p) = p ≤ m.enqueue_position
  Knows m (saw_free v p) = (p ≤ m.enqueue_position) × ((p < m.enqueue_position) ⊎ (seen m p ≡ p))
  Knows m (claimed v p) = (p < m.enqueue_position) × (seen m p ≡ p) × (m.sent p ≡ v)
  Knows m (filled v p) =
      (p < m.enqueue_position) × (seen m p ≡ p) × (m.sent p ≡ v) × (m.storage (index m p) ≡ v)
  Knows m (receiving p) = p ≤ m.dequeue_position
  Knows m (saw_full p) = (p ≤ m.dequeue_position) × ((p < m.dequeue_position) ⊎ (seen m p ≡ p + 1))
  Knows m (taken p) =
      (p < m.dequeue_position)
      × (seen m p ≡ p + 1)
      × (m.storage (index m p) ≡ m.sent p)
      × (m.got p ≡ none)
  Knows m (copied v p) =
      (p < m.dequeue_position) × (seen m p ≡ p + 1) × (v ≡ m.sent p) × (m.got p ≡ none)
  Knows m (released v p) = (p < m.dequeue_position) × (v ≡ m.sent p) × (m.got p ≡ none)
  Knows m _ = Unit

  -- The four phases of a slot, with the position that it is at.
  pub data Phase (m : Memory A) (pc : ℕ → Pc A) (i : ℕ) : Type 0 where
    free :
        (t : ℕ)
        → index m t ≡ i
        → m.sequence i ≡ t
        → m.enqueue_position ≤ t
        → t < m.dequeue_position + m.capacity
        → Phase m pc i
    written :
        (t j : ℕ)
        → index m t ≡ i
        → m.sequence i ≡ t
        → m.dequeue_position ≤ t
        → t < m.enqueue_position
        → claim_of (pc j) ≡ some t
        → Phase m pc i
    full :
        (t : ℕ)
        → index m t ≡ i
        → m.sequence i ≡ t + 1
        → m.dequeue_position ≤ t
        → t < m.enqueue_position
        → m.storage i ≡ m.sent t
        → Phase m pc i
    read :
        (t j : ℕ)
        → index m t ≡ i
        → m.sequence i ≡ t + 1
        → t < m.dequeue_position
        → m.enqueue_position ≤ t + m.capacity
        → hold_of (pc j) ≡ some t
        → Phase m pc i

  pub record Inv (m : Memory A) (pc : ℕ → Pc A) : Type 0 where
    pub several : 1 < m.capacity
    pub room : m.enqueue_position + m.capacity < 2 ^ 62
    pub ordered : m.dequeue_position ≤ m.enqueue_position
    pub bounded : m.enqueue_position ≤ m.dequeue_position + m.capacity
    pub phase : (i : ℕ) → i < m.capacity → Phase m pc i
    pub knows : (j : ℕ) → Knows m (pc j)
    pub one_sender : (j k t : ℕ) → claim_of (pc j) ≡ some t → claim_of (pc k) ≡ some t → j ≡ k
    pub one_receiver : (j k t : ℕ) → receipt_of (pc j) ≡ some t → receipt_of (pc k) ≡ some t → j ≡ k
    pub returned : (t : ℕ) (v : A) → m.got t ≡ some v → (t < m.dequeue_position) × (v ≡ m.sent t)
    pub delivered :
        (t : ℕ)
        → t < m.dequeue_position
        → (m.got t ≡ some (m.sent t)) ⊎ ((j : ℕ) × (receipt_of (pc j) ≡ some t))
