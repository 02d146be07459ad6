-- ===== src/Managed/Slots.antt =====
-- include/shmchan/managed_channel.hpp: the scans over all slots, after an owner's death
-- (`recover_managed_slots`) and at the start of each operation (`validate_managed_slots`).
use shmchan.Common.{
  ℕ, ◌+◌, ◌%◌, Bool, true, false, ◌&&◌, ◌||◌, List, [], ◌∷◌, ltb, ◌==◌, if◌then◌else◌,
}
use shmchan.Status.{u64_mod}
use shmchan.Managed.State.{
  ManagedMessageSlot, ManagedMapping, ManagedSharedHeader, free, writing, ready, slot_code,
  corrupt_data, increment, signal_managed_event, break_mapping, max_size_of,
}

-- `reset_managed_slot`, when all of its stores are done
unfoldable pub reset_managed_slot : ManagedMessageSlot → ManagedMessageSlot
reset_managed_slot s = record s { payload_size = 0; sequence = 0; state = slot_code free }

-- The case of the `switch` that a slot takes; a READY slot that fails its check is `corrupt`.
pub data SlotCase : Type 0 where
  is_free is_writing is_ready corrupt : SlotCase

unfoldable pub slot_case : ℕ → ManagedMessageSlot → SlotCase
slot_case max s =
    if s.state == slot_code free
    then is_free
    else if s.state == slot_code writing
    then is_writing
    else if s.state == slot_code ready
    then (if ltb max s.payload_size || s.sequence == 0 then corrupt else is_ready)
    else corrupt

-- The local counts of a scan.
pub record SlotCounts : Type 0 where
  pub free_count : ℕ
  pub writing_count : ℕ
  pub ready_count : ℕ
  pub discarded : ℕ

abbrev pub no_counts : SlotCounts
no_counts = record { free_count = 0; writing_count = 0; ready_count = 0; discarded = 0 }

-- What a loop over the slots leaves: the array, the counts, and whether it came to the end.
pub record Scan : Type 0 where
  pub slots : List ManagedMessageSlot
  pub counts : SlotCounts
  pub complete : Bool

abbrev push_slot : ManagedMessageSlot → Scan → Scan
push_slot s r = record r { slots = s ∷ r.slots }

-- The loop of `recover_managed_slots`.
unfoldable pub recover_scan : ℕ → List ManagedMessageSlot → SlotCounts → Scan
recover_scan max [] c = record { slots = []; counts = c; complete = true }
recover_scan max (s ∷ rest) c = elim (slot_case max s) [
  | is_free ↦ push_slot s (recover_scan max rest (record c { free_count = increment c.free_count }))
  | is_writing ↦ push_slot (reset_managed_slot s) (
      recover_scan max rest
        (record c { free_count = increment c.free_count; discarded = increment c.discarded }))
  | is_ready ↦
      push_slot s (recover_scan max rest (record c { ready_count = increment c.ready_count }))
  | corrupt ↦ record { slots = s ∷ rest; counts = c; complete = false }
]

-- The stores of `recover_managed_slots` after a loop that came to its end.
unfoldable pub store_recovered : ManagedSharedHeader → SlotCounts → ManagedSharedHeader
unfolding signal_managed_event
store_recovered h c = signal_managed_event (record h {
  free_slots = c.free_count;
  writing_messages = c.writing_count;
  ready_messages = c.ready_count;
  counters = record (h.counters) {
    owner_death_recoveries = increment h.counters.owner_death_recoveries;
    discarded_incomplete_writes = (h.counters.discarded_incomplete_writes + c.discarded) % u64_mod;
  };
})

-- `recover_managed_slots`
unfoldable pub recover_managed_slots : ManagedMapping → Bool × ManagedMapping
recover_managed_slots m =
    let r = recover_scan (max_size_of m) m.slots no_counts in
    if r.complete
    then (true, record { header = store_recovered m.header r.counts; slots = r.slots })
    else (false, break_mapping (record m { slots = r.slots }) corrupt_data)

-- The loop of `validate_managed_slots`, which writes nothing.
unfoldable pub validate_scan : ℕ → List ManagedMessageSlot → SlotCounts → Scan
validate_scan max [] c = record { slots = []; counts = c; complete = true }
validate_scan max (s ∷ rest) c = elim (slot_case max s) [
  | is_free ↦
      push_slot s (validate_scan max rest (record c { free_count = increment c.free_count }))
  | is_writing ↦
      push_slot s (validate_scan max rest (record c { writing_count = increment c.writing_count }))
  | is_ready ↦
      push_slot s (validate_scan max rest (record c { ready_count = increment c.ready_count }))
  | corrupt ↦ record { slots = s ∷ rest; counts = c; complete = false }
]

-- The test on the counts that ends `validate_managed_slots`.
unfoldable pub counts_agree : ManagedSharedHeader → SlotCounts → Bool
counts_agree h c =
    c.writing_count == 0
    && c.free_count == h.free_slots
    && c.writing_count == h.writing_messages
    && c.ready_count == h.ready_messages
    && (c.free_count + c.writing_count + c.ready_count) % u64_mod == h.format.message_capacity

-- `validate_managed_slots`
unfoldable pub validate_managed_slots : ManagedMapping → Bool × ManagedMapping
validate_managed_slots m =
    let r = validate_scan (max_size_of m) m.slots no_counts in
    if r.complete && counts_agree m.header r.counts
    then (true, m)
    else (false, break_mapping m corrupt_data)
