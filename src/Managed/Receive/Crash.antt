-- ===== src/Managed/Receive/Crash.antt =====
-- include/shmchan/managed_channel.hpp: a process that dies inside `reset_managed_slot` of a receive.
use shmchan.Common.{
  ℕ, zero, suc, ◌≡◌, refl, ap, ◌∙◌, List, [], ◌∷◌, false, some, arith, take, get_elem?, set,
  All-get_elem?, get_elem?-set_self, lt-length, set-set,
}
use shmchan.Status.{Bytes}
use shmchan.Managed.State.{
  ManagedMessageSlot, ManagedMapping, ready, broken, state_code, corrupt_data, reason_code,
  slot_code, increment, max_size_of, break_mapping,
}
use shmchan.Managed.Slots.{
  reset_managed_slot, SlotCounts, no_counts, slot_case, recover_scan, recover_managed_slots,
}
use shmchan.Managed.Stores.{perform_all}
use shmchan.Managed.Stores.Effects.{slot_effect, header_effect, updated, perform_all-eq}
use shmchan.Managed.Queue.{collect, entry}
use shmchan.Managed.Queue.Oldest.{IsOldest, IsOldest-get_elem?, collect-set_oldest}
use shmchan.Managed.Invariant.{SlotIsOk, IsValid, IsRecoverable}
use shmchan.Managed.Invariant.Update.{updated-IsRecoverable}
use shmchan.Managed.Receive.{payload_of, select_oldest, receive_stores}

-- A READY slot without a sequence stops the scan of a recovery.
recover_scan-unnumbered :
    (max : ℕ) (slots : List ManagedMessageSlot) (i : ℕ) (c : SlotCounts) (s : ManagedMessageSlot)
    → get_elem? slots i ≡ some s
    → s.state ≡ slot_code ready
    → s.sequence ≡ 0
    → (recover_scan max slots c).complete ≡ false
unfolding recover_scan slot_case
recover_scan-unnumbered max [] i c s e r z = cc
recover_scan-unnumbered max (x ∷ xs) zero c s e r z = ground arith
recover_scan-unnumbered max (x ∷ xs) (suc i) c s e r z = ground (
  arith,
  recover_scan-unnumbered max xs i (record c { free_count = increment c.free_count }) s e r z,
  recover_scan-unnumbered max xs i
      (record c { free_count = increment c.free_count; discarded = increment c.discarded }) s e r z,
  recover_scan-unnumbered max xs i (record c { ready_count = increment c.ready_count }) s e r z,
)

-- The oldest slot stays the oldest while it is READY with its sequence.
IsOldest-set :
    (slots : List ManagedMessageSlot) (k b : ℕ) (s : ManagedMessageSlot)
    → IsOldest k b slots
    → s.state ≡ slot_code ready
    → s.sequence ≡ b
    → IsOldest k b (set slots k s)
IsOldest-set [] k b s o r e = o
IsOldest-set (x ∷ xs) zero b s o r e = (r, e, o.2)
IsOldest-set (x ∷ xs) (suc k) b s o r e = (o.0, IsOldest-set xs k b s o.1 r e)

-- What a process leaves that dies after the first `n` stores of taking the oldest message, with
-- the payload already copied.
unfoldable pub receive_died : ℕ → ManagedMapping → Bytes → ManagedMapping
receive_died n m payload = perform_all (select_oldest m) (take n (receive_stores payload)) m

module _ (m : ManagedMapping) (v : IsValid m) (b : ℕ) (o : IsOldest (select_oldest m) b m.slots)
    (s : ManagedMessageSlot) (at : get_elem? m.slots (select_oldest m) ≡ some s)
    (payload : Bytes) where
  abbrev i : ℕ
  i = select_oldest m

  -- The slot after the first store of `reset_managed_slot`, and after the second.
  abbrev emptied : ManagedMessageSlot
  emptied = record s { payload_size = 0 }

  abbrev unnumbered : ManagedMessageSlot
  unnumbered = record s { payload_size = 0; sequence = 0 }

  pub receive_died-one : receive_died 1 m payload ≡ updated i emptied m.header m
  unfolding receive_died receive_stores slot_effect header_effect
  receive_died-one = perform_all-eq (take 1 (receive_stores payload)) i m at

  pub receive_died-two : receive_died 2 m payload ≡ updated i unnumbered m.header m
  unfolding receive_died receive_stores slot_effect header_effect
  receive_died-two = perform_all-eq (take 2 (receive_stores payload)) i m at

  slot_ok : SlotIsOk (max_size_of m) m.header.next_sequence s
  slot_ok =
      All-get_elem? (SlotIsOk (max_size_of m) m.header.next_sequence) m.slots i
        v.recoverable.slots_ok at

  numbered : (s.state ≡ slot_code ready) × (s.sequence ≡ b)
  numbered = IsOldest-get_elem? m.slots i b o at

  -- Dead after the first store: the message is still there, with no bytes left.
  pub emptied-IsRecoverable : IsRecoverable (updated i emptied m.header m)
  emptied-IsRecoverable =
      updated-IsRecoverable m i emptied m.header v.recoverable refl (omega arith)
        v.recoverable.in_range
        (record {
          area = slot_ok.area;
          known = slot_ok.known;
          size = λ _. omega arith;
          numbered = slot_ok.numbered;
          handed_out = slot_ok.handed_out;
        })

  pub queue-emptied :
      collect (set m.slots i emptied)
      ≡ (s.sequence, []) ∷ collect (set m.slots i (reset_managed_slot s))
  unfolding payload_of reset_managed_slot
  queue-emptied =
      collect-set_oldest (set m.slots i emptied) i b (reset_managed_slot s)
        (IsOldest-set m.slots i b emptied o numbered.0 numbered.1)
        (get_elem?-set_self m.slots i emptied (lt-length m.slots i s at)) (omega arith)
      ∙ ap (λ l. (s.sequence, []) ∷ collect l) (set-set m.slots i emptied (reset_managed_slot s))

  pub queue-front : collect m.slots ≡ entry s ∷ collect (set m.slots i (reset_managed_slot s))
  unfolding reset_managed_slot
  queue-front = collect-set_oldest m.slots i b (reset_managed_slot s) o at (omega arith)

  -- Dead after the second store: the recovery finds a READY slot without a sequence.
  pub recover-unnumbered : (recover_managed_slots (updated i unnumbered m.header m)).0 ≡ false
  unfolding recover_managed_slots
  recover-unnumbered = ground (
    arith,
    recover_scan-unnumbered (max_size_of m) (set m.slots i unnumbered) i no_counts unnumbered
        (get_elem?-set_self m.slots i unnumbered (lt-length m.slots i s at)) numbered.0 refl,
  )

  pub recover-unnumbered_state :
      ((recover_managed_slots (updated i unnumbered m.header m)).1.header.state ≡ state_code broken)
      × ((recover_managed_slots (updated i unnumbered m.header m)).1.header.reason
          ≡ reason_code corrupt_data)
  unfolding recover_managed_slots break_mapping
  recover-unnumbered_state = ground (
    arith,
    recover_scan-unnumbered (max_size_of m) (set m.slots i unnumbered) i no_counts unnumbered
        (get_elem?-set_self m.slots i unnumbered (lt-length m.slots i s at)) numbered.0 refl,
  )
