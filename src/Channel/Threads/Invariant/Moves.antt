-- ===== src/Channel/Threads/Invariant/Moves.antt =====
-- include/shmchan/channel.hpp: an access of one thread, and what the other threads know.
use shmchan.Common.{ℕ, ◌+◌, ◌<◌, ◌≡◌, ◌≢◌, some, arith}
use shmchan.Channel.Threads.{
  Memory, seen, Pc, idle, saw_free, claimed, filled, saw_full, taken, copied, released, claim, fill,
  store_sequence, take, signal_writers,
}
use shmchan.Channel.Threads.Invariant.{claim_of, receipt_of, Knows, Inv}
use shmchan.Channel.Threads.Invariant.Slots.{add-one-mod-ne}

module _ {A : Type 0} (m : Memory A) (pc : ℕ → Pc A) (inv : Inv m pc) where
  -- The next sender's claim.
  pub claim-Knows : (v : A) (q : Pc A) → Knows m q → Knows (claim m v m.enqueue_position) q
  claim-Knows v idle k = tt
  claim-Knows v q k = ground (arith, inv.room, inv.ordered)

  -- A sender's copy into the slot that it has claimed.
  pub fill-Knows :
      (v : A) (p : ℕ) (q : Pc A)
      → seen m p ≡ p
      → claim_of q ≢ some p
      → Knows m q
      → Knows (fill m v p) q
  fill-Knows v p idle own other k = tt
  fill-Knows v p (filled w u) own other k = ground (arith, other)
  fill-Knows v p (taken u) own other k = ground (arith, add-one-mod-ne m.capacity u inv.several)
  fill-Knows v p q own other k = k

  -- Its store of the sequence.
  pub publish-Knows :
      (p : ℕ) (q : Pc A)
      → seen m p ≡ p
      → p < m.enqueue_position
      → claim_of q ≢ some p
      → Knows m q
      → Knows (store_sequence m p (p + 1)) q
  publish-Knows p idle own early other k = tt
  publish-Knows p (saw_free w u) own early other k = ground (arith, inv.room)
  publish-Knows p (claimed w u) own early other k = ground (arith, inv.room, other)
  publish-Knows p (filled w u) own early other k = ground (arith, inv.room, other)
  publish-Knows p (saw_full u) own early other k =
      ground (arith, inv.room, add-one-mod-ne m.capacity u inv.several)
  publish-Knows p (taken u) own early other k =
      ground (arith, inv.room, add-one-mod-ne m.capacity u inv.several)
  publish-Knows p (copied w u) own early other k =
      ground (arith, inv.room, add-one-mod-ne m.capacity u inv.several)
  publish-Knows p q own early other k = k

  -- The next receiver's claim.
  pub take-Knows :
      (q : Pc A)
      → m.dequeue_position < m.enqueue_position
      → Knows m q
      → Knows (take m m.dequeue_position) q
  take-Knows idle some_left k = tt
  take-Knows q some_left k = ground (arith, inv.room)

  -- A receiver's store of the sequence.
  pub release-Knows :
      (p : ℕ) (q : Pc A)
      → seen m p ≡ p + 1
      → p < m.dequeue_position
      → receipt_of q ≢ some p
      → Knows m q
      → Knows (store_sequence m p (p + m.capacity)) q
  release-Knows p idle own early other k = tt
  release-Knows p (saw_free w u) own early other k =
      ground (arith, inv.room, add-one-mod-ne m.capacity p inv.several)
  release-Knows p (claimed w u) own early other k =
      ground (arith, inv.room, add-one-mod-ne m.capacity p inv.several)
  release-Knows p (filled w u) own early other k =
      ground (arith, inv.room, add-one-mod-ne m.capacity p inv.several)
  release-Knows p (saw_full u) own early other k = ground (arith, inv.room)
  release-Knows p (taken u) own early other k = ground (arith, inv.room, other)
  release-Knows p (copied w u) own early other k = ground (arith, inv.room, other)
  release-Knows p q own early other k = k

  -- Its return.
  pub return-Knows :
      (v : A) (p : ℕ) (q : Pc A)
      → receipt_of q ≢ some p
      → Knows m q
      → Knows (signal_writers m v p) q
  return-Knows v p idle other k = tt
  return-Knows v p (taken u) other k = ground (arith, other)
  return-Knows v p (copied w u) other k = ground (arith, other)
  return-Knows v p (released w u) other k = ground (arith, other)
  return-Knows v p q other k = k

  pub epochs-Knows :
      (r w : ℕ) (q : Pc A)
      → Knows m q
      → Knows (record m { readable_epoch = r; writable_epoch = w }) q
  epochs-Knows r w idle k = tt
  epochs-Knows r w q k = k
