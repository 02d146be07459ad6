-- ===== src/Managed/Invariant/Recovery.antt =====
-- include/shmchan/managed_channel.hpp: `recover_managed_slots` on mappings that keep the
-- invariants.
use shmchan.Common.{
  ℕ, ◌+◌, ◌%◌, ◌≡◌, refl, sym, ap, List, [], ◌∷◌, Bool, true, arith, length, All, map,
}
use shmchan.Status.{u64_mod}
use shmchan.Managed.State.{
  ManagedMessageSlot, ManagedMapping, free, writing, ready, slot_code, max_size_of,
}
use shmchan.Managed.Slots.{no_counts, reset_managed_slot, recover_managed_slots, store_recovered}
use shmchan.Managed.Queue.{contents, collect}
use shmchan.Managed.Invariant.{SlotIsOk, IsRecoverable, IsValid, count_state}
use shmchan.Managed.Invariant.Scans.{settle, recover_scan-Settled}

-- What `settle` does to a whole array.
record Cleaned (max next : ℕ) (slots : List ManagedMessageSlot) : Type 0 where
  same_length : length (map settle slots) ≡ length slots
  none_writing : count_state (slot_code writing) (map settle slots) ≡ 0
  all_free :
      count_state (slot_code free) (map settle slots)
      ≡ count_state (slot_code free) slots + count_state (slot_code writing) slots
  same_ready :
      count_state (slot_code ready) (map settle slots) ≡ count_state (slot_code ready) slots
  still_ok : All (SlotIsOk max next) (map settle slots)
  same_queue : collect (map settle slots) ≡ collect slots

map-settle-Cleaned :
    (max next : ℕ) (slots : List ManagedMessageSlot)
    → All (SlotIsOk max next) slots
    → Cleaned max next slots
unfolding reset_managed_slot collect
map-settle-Cleaned max next [] h = record {
  same_length = refl;
  none_writing = refl;
  all_free = refl;
  same_ready = refl;
  still_ok = tt;
  same_queue = refl;
}
map-settle-Cleaned max next (s ∷ rest) h = record {
  same_length = ground (arith, map-settle-Cleaned max next rest h.1);
  none_writing = ground (arith, map-settle-Cleaned max next rest h.1);
  all_free = ground (arith, map-settle-Cleaned max next rest h.1);
  same_ready = ground (arith, map-settle-Cleaned max next rest h.1);
  still_ok = (ground (arith, h.0), (map-settle-Cleaned max next rest h.1).still_ok);
  same_queue = ground (arith, map-settle-Cleaned max next rest h.1);
}

-- The mapping that recovery leaves.
abbrev recovered : ManagedMapping → ManagedMapping
recovered m =
    let written = count_state (slot_code writing) m.slots in
    record {
      header = store_recovered m.header (record {
        free_count = count_state (slot_code free) m.slots + written;
        writing_count = 0;
        ready_count = count_state (slot_code ready) m.slots;
        discarded = written;
      });
      slots = map settle m.slots;
    }

recover-eq : (m : ManagedMapping) → IsRecoverable m → recover_managed_slots m ≡ (true, recovered m)
unfolding recover_managed_slots
recover-eq m r = ground (
  arith,
  recover_scan-Settled (max_size_of m) m.header.next_sequence m.slots no_counts r.slots_ok,
)

recovered-IsValid : (m : ManagedMapping) → IsRecoverable m → IsValid (recovered m)
unfolding store_recovered
recovered-IsValid m r = record {
  recoverable = record {
    some_slots = r.some_slots;
    few_slots = r.few_slots;
    filled = omega (arith, r.filled, clean.same_length);
    small = r.small;
    started = r.started;
    in_range = r.in_range;
    slots_ok = clean.still_ok;
  };
  none_writing = clean.none_writing;
  free_counted = sym clean.all_free;
  writing_counted = refl;
  ready_counted = sym clean.same_ready;
}
  where
    clean : Cleaned (max_size_of m) m.header.next_sequence m.slots
    clean = map-settle-Cleaned (max_size_of m) m.header.next_sequence m.slots r.slots_ok

abbrev pub Recovers : ManagedMapping → Bool × ManagedMapping → Type 0
Recovers m (recovered, m') =
    (recovered ≡ true)
    × IsValid m'
    × (contents m' ≡ contents m)
    × (m'.header.state ≡ m.header.state)
    × (m'.header.format ≡ m.header.format)
    × (m'.header.next_sequence ≡ m.header.next_sequence)
    × (m'.header.counters.owner_death_recoveries
        ≡ (m.header.counters.owner_death_recoveries + 1) % u64_mod)
    × (m'.header.counters.discarded_incomplete_writes
        ≡ (m.header.counters.discarded_incomplete_writes + count_state (slot_code writing) m.slots)
          % u64_mod)

-- On every recoverable mapping `recover_managed_slots` succeeds: the mapping is valid again, its
-- READY messages are the same in the same order, the channel's state, its format and its next
-- sequence are the same, and the two
-- recovery counters (modulo 2^64) have gone up by one and by the number of WRITING slots.
pub recover-Recovers : (m : ManagedMapping) → IsRecoverable m → Recovers m (recover_managed_slots m)
unfolding contents store_recovered
recover-Recovers m r = rw (recover-eq m r) (
  refl,
  recovered-IsValid m r,
  ap (map (λ e. e.1)) clean.same_queue,
  refl,
  refl,
  refl,
  refl,
  refl,
)
  where
    clean : Cleaned (max_size_of m) m.header.next_sequence m.slots
    clean = map-settle-Cleaned (max_size_of m) m.header.next_sequence m.slots r.slots_ok
