-- ===== src/Channel/Ring.antt =====
-- include/shmchan/channel.hpp: `try_enqueue` and `try_dequeue` of the slots. The schedule of a loop
-- says what others do to the ring before the load of a slot's sequence and before the
-- compare-exchange, and whether a weak compare-exchange fails for no reason. After a successful
-- claim the slot is the caller's, and its stores are written together.
use shmchan.Common.{
  ℕ, ◌+◌, ◌-◌, ◌%◌, ◌^◌, Bool, false, not, ◌&&◌, List, [], ◌∷◌, none, some, ltb, ◌==◌,
  if◌then◌else◌, get_elem?, set,
}
use shmchan.Status.{u32_mod, u64_mod}

-- `slot`; the storage holds a value of the element type.
pub record Slot {ℓ} (A : Type ℓ) : Type ℓ where
  pub sequence : ℕ
  pub storage : A

-- The words and slots that the two operations use.
pub record Ring {ℓ} (A : Type ℓ) : Type ℓ where
  pub capacity : ℕ
  pub enqueue_position : ℕ
  pub dequeue_position : ℕ
  pub readable_epoch : ℕ
  pub writable_epoch : ℕ
  pub slots : List (Slot A)

-- How a loop ends; `pending` where the schedule has ended first, `faulted` on a slot outside the
-- array.
pub data Turnout {ℓ} (A : Type ℓ) (B : Type ℓ) : Type ℓ where
  finished : B → Ring A → Turnout A B
  failed : Ring A → Turnout A B
  pending faulted : Turnout A B

pub record Round {ℓ} (A : Type ℓ) : Type ℓ where
  pub before : Ring A → Ring A
  pub between : Ring A → Ring A
  pub fails_weakly : Bool

-- `static_cast<std::int64_t>(a - b)` is 0 or negative.
abbrev pub difference : ℕ → ℕ → ℕ
difference a b = (a + u64_mod - b) % u64_mod

abbrev pub is_negative : ℕ → Bool
is_negative d = not (ltb d (2 ^ 63))

module _ {ℓ} {A : Type ℓ} where
  -- The stores into slot `i` at the end of `try_enqueue`, and its signal.
  unfoldable pub fill_slot : ℕ → ℕ → A → Ring A → Ring A
  fill_slot i sequence value r = record r {
    slots = set r.slots i (record { sequence = sequence; storage = value });
    readable_epoch = (r.readable_epoch + 1) % u32_mod;
  }

  -- Those of `try_dequeue`; the value stays in the storage.
  unfoldable pub drain_slot : ℕ → ℕ → A → Ring A → Ring A
  drain_slot i sequence value r = record r {
    slots = set r.slots i (record { sequence = sequence; storage = value });
    writable_epoch = (r.writable_epoch + 1) % u32_mod;
  }

  -- `try_enqueue` of a ring of one slot, whose sequence is 0 if it is empty, 2 if it is full, and 1
  -- or 3 while somebody writes or reads it.
  unfoldable pub enqueue_single : A → Ring A → Turnout A Unit
  unfolding fill_slot
  enqueue_single value r = elim (get_elem? r.slots 0) [
    | none ↦ faulted
    | some s ↦ if s.sequence == 0 then finished tt (fill_slot 0 2 value r) else failed r
  ]

  unfoldable pub dequeue_single : Ring A → Turnout A A
  unfolding drain_slot
  dequeue_single r = elim (get_elem? r.slots 0) [
    | none ↦ faulted
    | some s ↦ if s.sequence == 2 then finished s.storage (drain_slot 0 0 s.storage r) else failed r
  ]

  -- The loop of `try_enqueue`, with `position` the value that was loaded.
  unfoldable pub enqueue_loop : List (Round A) → ℕ → A → Ring A → Turnout A Unit
  unfolding fill_slot
  enqueue_loop [] position value r = pending
  enqueue_loop (round ∷ rest) position value r =
      let r1 = round.before r in
      let r2 = round.between r1 in
      let again = enqueue_loop rest r2.enqueue_position value r2 in
      elim (get_elem? r1.slots (position % r1.capacity)) [
        | none ↦ faulted
        | some s ↦
            if difference s.sequence position == 0
            then (if (r2.enqueue_position == position) && not round.fails_weakly
                then finished tt (
                    fill_slot (position % r1.capacity) ((position + 1) % u64_mod) value
                      (record r2 { enqueue_position = (position + 1) % u64_mod }))
                else again)
            else if is_negative (difference s.sequence position)
            then failed r1
            else again
      ]

  -- `try_enqueue`
  unfoldable pub try_enqueue : List (Round A) → A → Ring A → Turnout A Unit
  unfolding enqueue_loop enqueue_single
  try_enqueue schedule value r =
      if r.capacity == 1
      then enqueue_single value r
      else enqueue_loop schedule r.enqueue_position value r

  -- The read of the storage of slot `i` in `try_dequeue`, after the claim, and the stores that follow.
  unfoldable pub take_value : ℕ → ℕ → Ring A → Turnout A A
  unfolding drain_slot
  take_value i sequence r = elim (get_elem? r.slots i) [
    | none ↦ faulted
    | some s ↦ finished s.storage (drain_slot i sequence s.storage r)
  ]

  -- The loop of `try_dequeue`.
  unfoldable pub dequeue_loop : List (Round A) → ℕ → Ring A → Turnout A A
  unfolding take_value
  dequeue_loop [] position r = pending
  dequeue_loop (round ∷ rest) position r =
      let r1 = round.before r in
      let r2 = round.between r1 in
      let again = dequeue_loop rest r2.dequeue_position r2 in
      elim (get_elem? r1.slots (position % r1.capacity)) [
        | none ↦ faulted
        | some s ↦
            if difference s.sequence ((position + 1) % u64_mod) == 0
            then (if (r2.dequeue_position == position) && not round.fails_weakly
                then take_value (position % r1.capacity) ((position + r1.capacity) % u64_mod)
                    (record r2 { dequeue_position = (position + 1) % u64_mod })
                else again)
            else if is_negative (difference s.sequence ((position + 1) % u64_mod))
            then failed r1
            else again
      ]

  -- `try_dequeue`
  unfoldable pub try_dequeue : List (Round A) → Ring A → Turnout A A
  unfolding dequeue_loop dequeue_single
  try_dequeue schedule r =
      if r.capacity == 1 then dequeue_single r else dequeue_loop schedule r.dequeue_position r

  -- A round in which nobody else runs.
  abbrev pub undisturbed : Round A
  undisturbed = record { before = λ r. r; between = λ r. r; fails_weakly = false }
