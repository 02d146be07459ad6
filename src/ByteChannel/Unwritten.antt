-- ===== src/ByteChannel/Unwritten.antt =====
-- include/shmchan/byte_channel.hpp: a receiver that meets a range that a sender has claimed and not
-- yet written.
use shmchan.Common.{ℕ, ◌+◌, ◌≤◌, ◌≡◌, [], ◌∷◌, arith, sym, subst}
use shmchan.Status.{Bytes}
use shmchan.ByteChannel.State.{ByteRing}
use shmchan.ByteChannel.Dequeue.{try_dequeue}
use shmchan.ByteChannel.Chain.{size_of, HasRecord}
use shmchan.ByteChannel.Store.{HoldsQueue}
use shmchan.ByteChannel.Take.{alone, Dequeues, try_dequeue-Dequeues}

-- The ring when the compare-exchange of a sender of `x` has claimed its range, and no store into the
-- range is done.
abbrev pub claimed_by : Bytes → ByteRing → ByteRing
claimed_by x b = record b { write_position = b.write_position + size_of x }

-- A sender of `x` has claimed its range on an empty ring and not yet written to it. If the old bytes
-- there read as a published record of this position that holds `y`, then `try_dequeue` returns `y`,
-- which nobody has sent at this position.
pub try_dequeue-claimed_by :
    (budget : ℕ) (b : ByteRing) (x y : Bytes)
    → HoldsQueue (budget + size_of x) b []
    → size_of x ≤ b.capacity_bytes
    → size_of y ≡ size_of x
    → HasRecord b.capacity_bytes b.area b.write_position (b.write_position + 1) y
    → Dequeues budget (claimed_by x b) (y ∷ []) (try_dequeue alone (claimed_by x b))
try_dequeue-claimed_by budget b x y h room same stale =
    try_dequeue-Dequeues budget (claimed_by x b) (y ∷ []) (record {
      some_room = h.some_room;
      whole = h.whole;
      bounded = h.bounded;
      filled = h.filled;
      aligned = h.aligned;
      reclaimed = h.reclaimed;
      chain = (
        subst (λ q. HasRecord b.capacity_bytes b.area q (q + 1) y) (sym h.chain) stale,
        omega (arith, h.chain, same),
      );
      within = omega (arith, same, room);
      no_wrap = omega (arith, h.no_wrap);
    })
