-- ===== src/Channel/Threads.antt =====
-- include/shmchan/channel.hpp: `try_enqueue` and `try_dequeue` of a ring of several slots, called by
-- any number of threads at once. A move is one access to the shared memory, and the moves of all
-- threads come in any order; the copy of a value, into or out of a slot, is one move.
pub mod Invariant
pub mod Safety
pub mod Progress
use shmchan.Common.{
  ℕ, ◌+◌, ◌%◌, ◌<◌, ◌^◌, ◌≡◌, Bool, true, false, Option, none, some, ◌==◌, if◌then◌else◌,
}
use shmchan.Status.{u32_mod, u64_mod}
use shmchan.Channel.Ring.{difference, is_negative}

abbrev pub update {ℓ} : {A : Type ℓ} → (ℕ → A) → ℕ → A → ℕ → A
update f i a j = if i == j then a else f j

-- The header and the slots, `slots[i].sequence` and `slots[i].storage`. The last two fields are not
-- in the source: the value that the sender with each position sends, and the value that the
-- receiver with each position has returned.
pub record Memory (A : Type 0) : Type 0 where
  pub capacity : ℕ
  pub enqueue_position : ℕ
  pub dequeue_position : ℕ
  pub readable_epoch : ℕ
  pub writable_epoch : ℕ
  pub sequence : ℕ → ℕ
  pub storage : ℕ → A
  pub sent : ℕ → A
  pub got : ℕ → Option A

-- Where a thread stands, with the variables that are live there.
pub data Pc (A : Type 0) : Type 0 where
  idle : Pc A
  -- in `try_enqueue`: head of the loop; before a load of the position
  sending : (v : A) (p : ℕ) → Pc A
  late_send : (v : A) → Pc A
  -- before the compare-exchange, before the copy, before the store of the sequence, before the signal
  saw_free : (v : A) (p : ℕ) → Pc A
  claimed : (v : A) (p : ℕ) → Pc A
  filled : (v : A) (p : ℕ) → Pc A
  published : Pc A
  -- in `try_dequeue`, the same
  receiving : (p : ℕ) → Pc A
  late_receive : Pc A
  saw_full : (p : ℕ) → Pc A
  taken : (p : ℕ) → Pc A
  copied : (v : A) (p : ℕ) → Pc A
  released : (v : A) (p : ℕ) → Pc A

module _ {A : Type 0} where
  -- The index of the slot of a position.
  abbrev pub index : Memory A → ℕ → ℕ
  index m p = p % m.capacity

  -- The sequence that a thread with this position reads.
  abbrev pub seen : Memory A → ℕ → ℕ
  seen m p = m.sequence (index m p)

  -- The shared memory after each access that changes it.
  abbrev pub claim : Memory A → A → ℕ → Memory A
  claim m v p = record m { enqueue_position = (p + 1) % u64_mod; sent = update m.sent p v }

  abbrev pub fill : Memory A → A → ℕ → Memory A
  fill m v p = record m { storage = update m.storage (index m p) v }

  abbrev pub store_sequence : Memory A → ℕ → ℕ → Memory A
  store_sequence m p n = record m { sequence = update m.sequence (index m p) (n % u64_mod) }

  abbrev pub signal_readers : Memory A → Memory A
  signal_readers m = record m { readable_epoch = (m.readable_epoch + 1) % u32_mod }

  abbrev pub take : Memory A → ℕ → Memory A
  take m p = record m { dequeue_position = (p + 1) % u64_mod }

  abbrev pub signal_writers : Memory A → A → ℕ → Memory A
  signal_writers m v p = record m {
    writable_epoch = (m.writable_epoch + 1) % u32_mod;
    got = update m.got p (some v);
  }

  -- One access of one thread. A weak compare-exchange may fail although the position is the same.
  pub data Move (m : Memory A) : Pc A → Memory A → Pc A → Type 0 where
    start_send : (v : A) → Move m idle m (sending v m.enqueue_position)
    see_free : {v : A} {p : ℕ} → difference (seen m p) p ≡ 0 → Move m (sending v p) m (saw_free v p)
    -- returns false
    see_filled :
        {v : A} {p : ℕ} → is_negative (difference (seen m p) p) ≡ true → Move m (sending v p) m idle
    pass_by_send :
        {v : A} {p : ℕ}
        → (difference (seen m p) p == 0) ≡ false
        → is_negative (difference (seen m p) p) ≡ false
        → Move m (sending v p) m (late_send v)
    reload_send : {v : A} → Move m (late_send v) m (sending v m.enqueue_position)
    win_send :
        {v : A} {p : ℕ} → m.enqueue_position ≡ p → Move m (saw_free v p) (claim m v p) (claimed v p)
    lose_send : {v : A} {p : ℕ} → Move m (saw_free v p) m (sending v m.enqueue_position)
    copy_in : {v : A} {p : ℕ} → Move m (claimed v p) (fill m v p) (filled v p)
    publish : {v : A} {p : ℕ} → Move m (filled v p) (store_sequence m p (p + 1)) published
    -- returns true
    end_send : Move m published (signal_readers m) idle
    start_receive : Move m idle m (receiving m.dequeue_position)
    see_full :
        {p : ℕ}
        → difference (seen m p) ((p + 1) % u64_mod) ≡ 0
        → Move m (receiving p) m (saw_full p)
    -- returns nothing
    see_empty :
        {p : ℕ}
        → is_negative (difference (seen m p) ((p + 1) % u64_mod)) ≡ true
        → Move m (receiving p) m idle
    pass_by_receive :
        {p : ℕ}
        → (difference (seen m p) ((p + 1) % u64_mod) == 0) ≡ false
        → is_negative (difference (seen m p) ((p + 1) % u64_mod)) ≡ false
        → Move m (receiving p) m late_receive
    reload_receive : Move m late_receive m (receiving m.dequeue_position)
    win_receive : {p : ℕ} → m.dequeue_position ≡ p → Move m (saw_full p) (take m p) (taken p)
    lose_receive : {p : ℕ} → Move m (saw_full p) m (receiving m.dequeue_position)
    copy_out : {p : ℕ} → Move m (taken p) m (copied (m.storage (index m p)) p)
    release :
        {v : A} {p : ℕ} → Move m (copied v p) (store_sequence m p (p + m.capacity)) (released v p)
    -- returns `v`
    end_receive : {v : A} {p : ℕ} → Move m (released v p) (signal_writers m v p) idle

-- The places inside `try_enqueue`, and inside `try_dequeue`, where the call has not succeeded yet:
-- a move from there to the outside is a refusal.
abbrev pub in_try_enqueue : {A : Type 0} → Pc A → Bool
in_try_enqueue (sending _ _) = true
in_try_enqueue (late_send _) = true
in_try_enqueue (saw_free _ _) = true
in_try_enqueue (claimed _ _) = true
in_try_enqueue (filled _ _) = true
in_try_enqueue _ = false

abbrev pub in_try_dequeue : {A : Type 0} → Pc A → Bool
in_try_dequeue (receiving _) = true
in_try_dequeue late_receive = true
in_try_dequeue (saw_full _) = true
in_try_dequeue (taken _) = true
in_try_dequeue (copied _ _) = true
in_try_dequeue _ = false

-- Threads that are numbered; each calls what it likes as often as it likes.
pub record System (A : Type 0) : Type 0 where
  pub mem : Memory A
  pub pc : ℕ → Pc A

pub data Step {A : Type 0} (s : System A) : System A → Type 0 where
  pick :
      (i : ℕ) {m : Memory A} {p : Pc A}
      → Move s.mem (s.pc i) m p
      → Step s (record { mem = m; pc = update s.pc i p })

-- What `create` leaves, with every thread outside.
abbrev pub init : {A : Type 0} → ℕ → (ℕ → A) → System A
init capacity blank = record {
  mem = record {
    capacity = capacity;
    enqueue_position = 0;
    dequeue_position = 0;
    readable_epoch = 0;
    writable_epoch = 0;
    sequence = λ i. i;
    storage = blank;
    sent = blank;
    got = λ _. none;
  };
  pc = λ _. idle;
}

-- The positions are far from 2 ^ 63: fewer sends have been begun than it takes to get there.
abbrev pub HasRoom : {A : Type 0} → Memory A → Type 0
HasRoom m = m.enqueue_position + m.capacity < 2 ^ 62

-- The states that any run reaches on which the positions stay far from 2 ^ 63.
pub data Reach {A : Type 0} (capacity : ℕ) (blank : ℕ → A) : System A → Type 0 where
  start : Reach capacity blank (init capacity blank)
  later :
      {s t : System A} → Reach capacity blank s → Step s t → HasRoom t.mem → Reach capacity blank t
