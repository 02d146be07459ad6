-- ===== src/Managed/Invariant/Scans.antt =====
-- The scan of a recovery over well-formed slots comes to its end, with the right counts.
use shmchan.Common.{
  ℕ, ◌+◌, ◌%◌, ◌<◌, ◌≤◌, ◌≡◌, refl, List, [], ◌∷◌, true, arith, ◌==◌, if◌then◌else◌, length, All,
  map,
}
use shmchan.Status.{u64_mod}
use shmchan.Managed.State.{ManagedMessageSlot, free, writing, ready, slot_code}
use shmchan.Managed.Slots.{SlotCounts, Scan, slot_case, reset_managed_slot, recover_scan}
use shmchan.Managed.Invariant.{SlotIsOk, count_state}

-- What recovery makes of a slot.
abbrev pub settle : ManagedMessageSlot → ManagedMessageSlot
settle s = if s.state == slot_code writing then reset_managed_slot s else s

pub count_state-sum :
    (max next : ℕ) (slots : List ManagedMessageSlot)
    → All (SlotIsOk max next) slots
    → count_state (slot_code free) slots
        + count_state (slot_code writing) slots
        + count_state (slot_code ready) slots
      ≡ length slots
count_state-sum max next [] h = refl
count_state-sum max next (s ∷ rest) h = ground (arith, h.0, count_state-sum max next rest h.1)

pub record Settled (c : SlotCounts) (slots : List ManagedMessageSlot) (r : Scan) : Type 0 where
  pub complete : r.complete ≡ true
  pub kept : r.slots ≡ map settle slots
  pub free_count :
      r.counts.free_count
      ≡ c.free_count + count_state (slot_code free) slots + count_state (slot_code writing) slots
  pub writing_count : r.counts.writing_count ≡ c.writing_count
  pub ready_count : r.counts.ready_count ≡ c.ready_count + count_state (slot_code ready) slots
  pub discarded : r.counts.discarded ≡ c.discarded + count_state (slot_code writing) slots

pub recover_scan-Settled :
    (max next : ℕ) (slots : List ManagedMessageSlot) (c : SlotCounts)
    → All (SlotIsOk max next) slots
    → c.free_count + c.ready_count + length slots < u64_mod
    → c.discarded ≤ c.free_count
    → Settled c slots (recover_scan max slots c)
unfolding recover_scan slot_case
recover_scan-Settled max next [] c h b d = ground arith
recover_scan-Settled max next (s ∷ rest) c h b d = ground (
  arith,
  h.0,
  recover_scan-Settled max next rest (record c { free_count = (c.free_count + 1) % u64_mod }) h.1,
  recover_scan-Settled max next rest
      (record c {
        free_count = (c.free_count + 1) % u64_mod;
        discarded = (c.discarded + 1) % u64_mod;
      })
      h.1,
  recover_scan-Settled max next rest (record c { ready_count = (c.ready_count + 1) % u64_mod }) h.1,
)
