-- ===== src/Managed/Invariant/Validation.antt =====
-- include/shmchan/managed_channel.hpp: which mappings `validate_managed_slots` accepts.
use shmchan.Common.{
  ℕ, ◌+◌, ◌%◌, ◌<◌, ◌≤◌, ◌≡◌, ◌⊎◌, inl, inr, refl, List, [], ◌∷◌, Bool, Bool-cases, true, false,
  ◌&&◌, arith, length, All,
}
use shmchan.Status.{u64_mod}
use shmchan.Managed.State.{
  ManagedMessageSlot, ManagedMapping, free, writing, ready, slot_code, capacity_of, max_size_of,
  break_mapping, corrupt_data,
}
use shmchan.Managed.Slots.{
  Scan, SlotCounts, slot_case, no_counts, validate_scan, counts_agree, validate_managed_slots,
}
use shmchan.Managed.Invariant.{SlotIsOk, IsValid, count_state}

-- A slot in one of its three states; a READY one has a message that fits and a sequence.
pub record SlotIsKnown (max : ℕ) (s : ManagedMessageSlot) : Type 0 where
  pub known : s.state ≤ slot_code ready
  pub size : s.state ≡ slot_code ready → s.payload_size ≤ max
  pub numbered : s.state ≡ slot_code ready → 0 < s.sequence

-- What anyone can see of a mapping whose mutex is free: known slots, none of them WRITING, as many
-- as the capacity says, and counted right in the header.
pub record IsConsistent (m : ManagedMapping) : Type 0 where
  pub slots_known : All (SlotIsKnown (max_size_of m)) m.slots
  pub none_writing : count_state (slot_code writing) m.slots ≡ 0
  pub filled : length m.slots ≡ capacity_of m
  pub free_counted : m.header.free_slots ≡ count_state (slot_code free) m.slots
  pub writing_counted : m.header.writing_messages ≡ 0
  pub ready_counted : m.header.ready_messages ≡ count_state (slot_code ready) m.slots

count_state-length :
    (max : ℕ) (slots : List ManagedMessageSlot)
    → All (SlotIsKnown max) slots
    → count_state (slot_code free) slots
        + count_state (slot_code writing) slots
        + count_state (slot_code ready) slots
      ≡ length slots
count_state-length max [] h = refl
count_state-length max (s ∷ rest) h = ground (arith, h.0, count_state-length max rest h.1)

record Counted (c : SlotCounts) (slots : List ManagedMessageSlot) (r : Scan) : Type 0 where
  complete : r.complete ≡ true
  free_count : r.counts.free_count ≡ c.free_count + count_state (slot_code free) slots
  writing_count : r.counts.writing_count ≡ c.writing_count + count_state (slot_code writing) slots
  ready_count : r.counts.ready_count ≡ c.ready_count + count_state (slot_code ready) slots

known-Counted :
    (max : ℕ) (slots : List ManagedMessageSlot) (c : SlotCounts)
    → All (SlotIsKnown max) slots
    → c.free_count + c.writing_count + c.ready_count + length slots < u64_mod
    → Counted c slots (validate_scan max slots c)
unfolding validate_scan slot_case
known-Counted max [] c h b = ground arith
known-Counted max (s ∷ rest) c h b = ground (
  arith,
  h.0,
  known-Counted max rest (record c { free_count = (c.free_count + 1) % u64_mod }) h.1,
  known-Counted max rest (record c { writing_count = (c.writing_count + 1) % u64_mod }) h.1,
  known-Counted max rest (record c { ready_count = (c.ready_count + 1) % u64_mod }) h.1,
)

-- A scan that comes to its end has met known slots only.
complete-known :
    (max : ℕ) (slots : List ManagedMessageSlot) (c : SlotCounts)
    → (validate_scan max slots c).complete ≡ true
    → All (SlotIsKnown max) slots
unfolding validate_scan slot_case
complete-known max [] c e = tt
complete-known max (s ∷ rest) c e = (
  record { known = ground arith; size = λ r. ground arith; numbered = λ r. ground arith },
  ground (
    arith,
    complete-known max rest (record c { free_count = (c.free_count + 1) % u64_mod }),
    complete-known max rest (record c { writing_count = (c.writing_count + 1) % u64_mod }),
    complete-known max rest (record c { ready_count = (c.ready_count + 1) % u64_mod }),
  ),
)

module _ (m : ManagedMapping) (few : length m.slots < u64_mod) where
  abbrev scan : Scan
  scan = validate_scan (max_size_of m) m.slots no_counts

  abbrev accepts : Bool
  accepts = scan.complete && counts_agree m.header scan.counts

  accepts-IsConsistent : accepts ≡ true → IsConsistent m
  unfolding counts_agree
  accepts-IsConsistent e =
      let all = complete-known (max_size_of m) m.slots no_counts (ground arith) in
      let counted = known-Counted (max_size_of m) m.slots no_counts all (omega (arith, few)) in
      let in_all = count_state-length (max_size_of m) m.slots all in
      record {
        slots_known = all;
        none_writing = ground (arith, counted);
        filled = ground (arith, counted, in_all, few);
        free_counted = ground (arith, counted);
        writing_counted = ground (arith, counted);
        ready_counted = ground (arith, counted);
      }

  IsConsistent-accepts : IsConsistent m → accepts ≡ true
  unfolding counts_agree
  IsConsistent-accepts k = ground (
    arith,
    known-Counted (max_size_of m) m.slots no_counts k.slots_known (omega (arith, few)),
    count_state-length (max_size_of m) m.slots k.slots_known,
    k.none_writing,
    k.filled,
    k.free_counted,
    k.writing_counted,
    k.ready_counted,
  )

-- `validate_managed_slots` accepts exactly the mappings that are consistent, and leaves them as they
-- are; on every other one it fails, and marks the channel as broken with corrupt data. The array has
-- fewer than 2 ^ 64 slots.
pub validate_managed_slots-exact :
    (m : ManagedMapping)
    → length m.slots < u64_mod
    → ((validate_managed_slots m ≡ (true, m)) × IsConsistent m)
      ⊎ ((validate_managed_slots m ≡ (false, break_mapping m corrupt_data)) × (¬ IsConsistent m))
unfolding validate_managed_slots
validate_managed_slots-exact m few = elim (Bool-cases (accepts m few)) [
  | inl e ↦ inl (rw e refl, accepts-IsConsistent m few e)
  | inr e ↦ inr (rw e refl, λ k. let e' = IsConsistent-accepts m few k in cc)
]

SlotIsOk-known :
    (max next : ℕ) (slots : List ManagedMessageSlot)
    → All (SlotIsOk max next) slots
    → All (SlotIsKnown max) slots
SlotIsOk-known max next [] h = tt
SlotIsOk-known max next (s ∷ rest) h = (
  record { known = h.0.known; size = h.0.size; numbered = h.0.numbered },
  SlotIsOk-known max next rest h.1,
)

-- A mapping that keeps the invariant of a free mutex passes validation unchanged.
pub validate-IsValid : (m : ManagedMapping) → IsValid m → validate_managed_slots m ≡ (true, m)
validate-IsValid m v =
    elim (validate_managed_slots-exact m
      (omega (arith, v.recoverable.filled, v.recoverable.few_slots))) [
        | inl (accepted, consistent) ↦ accepted
        | inr (refused, inconsistent) ↦ absurd (
            inconsistent (record {
              slots_known =
                  SlotIsOk-known (max_size_of m) m.header.next_sequence m.slots
                    v.recoverable.slots_ok;
              none_writing = v.none_writing;
              filled = v.recoverable.filled;
              free_counted = v.free_counted;
              writing_counted = v.writing_counted;
              ready_counted = v.ready_counted;
            }))
      ]
