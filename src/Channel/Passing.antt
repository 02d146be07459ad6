-- ===== src/Channel/Passing.antt =====
-- include/shmchan/channel.hpp: a value that goes through an empty ring.
use shmchan.Common.{
  ℕ, ◌+◌, ◌%◌, ◌<◌, ◌≡◌, refl, true, false, [], ◌∷◌, some, arith, ◌==◌, get_elem?, set,
  get_elem?-set_self, lt-length, length-set,
}
use shmchan.Status.{u32_mod, u64_mod}
use shmchan.Channel.Ring.{
  Slot, Ring, finished, difference, enqueue_loop, dequeue_loop, take_value, try_enqueue,
  try_dequeue, undisturbed,
}

difference-zero : (p : ℕ) → p < u64_mod → (difference p p == 0) ≡ true
difference-zero p small = ground arith

module _ {ℓ} {A : Type ℓ} (r : Ring A) (s : Slot A) (v : A) (several : (r.capacity == 1) ≡ false)
    (head : r.dequeue_position ≡ r.enqueue_position)
    (at : get_elem? r.slots (r.enqueue_position % r.capacity) ≡ some s)
    (empty : s.sequence ≡ r.enqueue_position) (room : r.enqueue_position + r.capacity < u64_mod)
    (some_slots : 0 < r.capacity) where
  abbrev p : ℕ
  p = r.enqueue_position

  abbrev i : ℕ
  i = p % r.capacity

  abbrev filled : Ring A
  filled = record r {
    enqueue_position = p + 1;
    slots = set r.slots i (record { sequence = p + 1; storage = v });
    readable_epoch = (r.readable_epoch + 1) % u32_mod;
  }

  enqueue-filled : try_enqueue (undisturbed ∷ []) v r ≡ finished tt filled
  unfolding try_enqueue
  enqueue-filled =
      let zero' : (difference s.sequence p == 0) ≡ true = ground arith in
      let won : (p == p) ≡ true = ground arith in
      let next : (p + 1) % u64_mod ≡ p + 1 = omega (arith, room, some_slots) in
      rw several (rw (at, enqueue_loop) (rw (zero', won, next)))

  abbrev drained : Ring A
  drained = record filled {
    dequeue_position = p + 1;
    slots = set filled.slots i (record { sequence = p + r.capacity; storage = v });
    writable_epoch = (r.writable_epoch + 1) % u32_mod;
  }

  dequeue-drained : try_dequeue (undisturbed ∷ []) filled ≡ finished v drained
  unfolding try_dequeue
  dequeue-drained =
      let there =
        get_elem?-set_self r.slots i (record { sequence = p + 1; storage = v })
          (lt-length r.slots i s at) in
      let next : (p + 1) % u64_mod ≡ p + 1 = omega (arith, room, some_slots) in
      let zero' : (difference (p + 1) (p + 1) == 0) ≡ true =
        difference-zero (p + 1) (omega (arith, room, some_slots)) in
      let won : (p == p) ≡ true = ground arith in
      let ahead : (p + r.capacity) % u64_mod ≡ p + r.capacity = omega (arith, room) in
      rw (several, head)
        (rw (there, dequeue_loop) (rw (next, zero', won, ahead) (rw (there, take_value))))

-- A ring of several slots with nothing in it, the two positions equal, the slot there with that
-- position as its sequence, and no wrap-around near: `try_enqueue` undisturbed succeeds, and
-- `try_dequeue` after it returns the value. Both positions have then moved on by one, and the slot
-- has the sequence of the next turn round the ring.
pub try_enqueue-try_dequeue {ℓ} :
    {A : Type ℓ} (r : Ring A) (s : Slot A) (v : A)
    → (r.capacity == 1) ≡ false
    → r.dequeue_position ≡ r.enqueue_position
    → get_elem? r.slots (r.enqueue_position % r.capacity) ≡ some s
    → s.sequence ≡ r.enqueue_position
    → r.enqueue_position + r.capacity < u64_mod
    → 0 < r.capacity
    → (r1 : Ring A) × (r2 : Ring A) × (try_enqueue (undisturbed ∷ []) v r ≡ finished tt r1)
      × (try_dequeue (undisturbed ∷ []) r1 ≡ finished v r2)
      × (r2.enqueue_position ≡ r.enqueue_position + 1)
      × (r2.dequeue_position ≡ r.enqueue_position + 1)
      × (get_elem? r2.slots (r.enqueue_position % r.capacity)
          ≡ some record { sequence = r.enqueue_position + r.capacity; storage = v })
try_enqueue-try_dequeue r s v several head at empty room some_slots = (
  filled r s v several head at empty room some_slots,
  drained r s v several head at empty room some_slots,
  enqueue-filled r s v several head at empty room some_slots,
  dequeue-drained r s v several head at empty room some_slots,
  refl,
  refl,
  get_elem?-set_self (set r.slots (r.enqueue_position % r.capacity) _)
      (r.enqueue_position % r.capacity) _
      (omega (
        arith,
        length-set r.slots (r.enqueue_position % r.capacity)
            (record { sequence = r.enqueue_position + 1; storage = v }),
        lt-length r.slots (r.enqueue_position % r.capacity) s at,
      )),
)
