-- ===== src/Managed/Invariant/Update.antt =====
-- One slot and the header may change within the invariant.
use shmchan.Common.{ℕ, ◌≤◌, ◌<◌, ◌≡◌, ap, ◌∙◌, sym, List, [], ◌∷◌, arith, All, length-set, All-set}
use shmchan.Status.{u64_mod}
use shmchan.Managed.State.{
  ManagedFormat, ManagedMessageSlot, ManagedSharedHeader, ManagedMapping, max_size_of,
}
use shmchan.Managed.Stores.Effects.{updated}
use shmchan.Managed.Queue.Order.{BoundedBy}
use shmchan.Managed.Invariant.{SlotIsOk, IsRecoverable}

All-SlotIsOk :
    (max n n' : ℕ) (slots : List ManagedMessageSlot)
    → n ≤ n'
    → All (SlotIsOk max n) slots
    → All (SlotIsOk max n') slots
All-SlotIsOk max n n' [] le h = tt
All-SlotIsOk max n n' (s ∷ rest) le h = (
  record {
    area = h.0.area;
    known = h.0.known;
    size = h.0.size;
    numbered = h.0.numbered;
    handed_out = λ r. omega (arith, h.0.handed_out r);
  },
  All-SlotIsOk max n n' rest le h.1,
)

pub All-BoundedBy :
    (max n : ℕ) (slots : List ManagedMessageSlot)
    → All (SlotIsOk max n) slots
    → All (BoundedBy n) slots
All-BoundedBy max n [] h = tt
All-BoundedBy max n (s ∷ rest) h = (h.0.handed_out, All-BoundedBy max n rest h.1)

-- One slot and the header may change within the invariant.
pub updated-IsRecoverable :
    (m : ManagedMapping) (i : ℕ) (s : ManagedMessageSlot) (h : ManagedSharedHeader)
    → IsRecoverable m
    → h.format ≡ m.header.format
    → m.header.next_sequence ≤ h.next_sequence
    → h.next_sequence < u64_mod
    → SlotIsOk (max_size_of m) h.next_sequence s
    → IsRecoverable (updated i s h m)
updated-IsRecoverable m i s h r same lower upper good = record {
  some_slots = rw same r.some_slots;
  few_slots = rw same r.few_slots;
  filled =
      length-set m.slots i s ∙ r.filled ∙ ap (λ (f : ManagedFormat). f.message_capacity) (sym same);
  small = rw same r.small;
  started = omega (arith, r.started);
  in_range = upper;
  slots_ok = rw same (
      All-set (SlotIsOk (max_size_of m) h.next_sequence) m.slots i
        (All-SlotIsOk (max_size_of m) m.header.next_sequence h.next_sequence m.slots lower
          r.slots_ok)
        good);
}
