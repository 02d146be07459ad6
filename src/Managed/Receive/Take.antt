-- ===== src/Managed/Receive/Take.antt =====
-- include/shmchan/managed_channel.hpp: a receive that is not interrupted.
use shmchan.Common.{
  ℕ, zero, suc, ◌+◌, ◌-◌, ◌≤◌, ◌≡◌, ◌≢◌, ◌⊎◌, inl, inr, refl, ap, subst, List, [], ◌∷◌, false, ◌||◌,
  some, none, arith, length, get_elem?, map, All, All-get_elem?, Option-cases, ltb, ◌==◌,
  if◌then◌else◌,
}
use shmchan.Status.{Bytes, u64_mod}
use shmchan.Managed.State.{
  ManagedMessageSlot, ManagedMapping, free, writing, ready, slot_code, capacity_of, max_size_of,
}
use shmchan.Managed.Lock.{ManagedLockMode}
use shmchan.Managed.Slots.{reset_managed_slot}
use shmchan.Managed.Stores.{perform_all}
use shmchan.Managed.Stores.Effects.{slot_effect, header_effect, updated, perform_all-eq}
use shmchan.Managed.Queue.{contents, collect, entry}
use shmchan.Managed.Queue.Order.{NotBefore}
use shmchan.Managed.Queue.Oldest.{
  IsOldest, select_ready-Search, IsOldest-get_elem?, collect-set_oldest, collect-none,
}
use shmchan.Managed.Invariant.{SlotIsOk, IsValid, IsRecoverable, count_state}
use shmchan.Managed.Invariant.Scans.{count_state-sum}
use shmchan.Managed.Invariant.Update.{updated-IsRecoverable}
use shmchan.Managed.Invariant.Counting.{count_state-set}
use shmchan.Managed.Receive.{
  ReceiveStep, took, payload_of, select_ready, select_oldest, receive_stores, take_slot,
  find_nothing, receive_valid,
}

-- Either no slot is READY, and the search ends at no index, or it ends at the oldest.
abbrev pub Found : ManagedMapping → Type 0
Found m =
    (get_elem? m.slots (select_oldest m) ≡ none) × (collect m.slots ≡ [])
    ⊎ (b : ℕ) × IsOldest (select_oldest m) b m.slots

get_elem?-none : {A : Type 0} (xs : List A) (i : ℕ) → length xs ≤ i → get_elem? xs i ≡ none
get_elem?-none [] i h = refl
get_elem?-none (x ∷ xs) zero h = absurd (omega arith)
get_elem?-none (x ∷ xs) (suc i) h = get_elem?-none xs i (omega arith)

none_ready :
    (max n b : ℕ) (slots : List ManagedMessageSlot)
    → n ≤ b
    → All (SlotIsOk max n) slots
    → All (NotBefore b) slots
    → All (λ s. s.state ≢ slot_code ready) slots
none_ready max n b [] le h k = tt
none_ready max n b (s ∷ rest) le h k =
    ((λ r. omega (arith, h.0.handed_out r, k.0 r)), none_ready max n b rest le h.1 k.1)

pub select_oldest-Found : (m : ManagedMapping) → IsRecoverable m → Found m
select_oldest-Found m r = elim (select_ready-Search m.slots 0 (capacity_of m) (u64_mod - 1)) [
  | inl (e, b, h) ↦ inl (
    get_elem?-none m.slots (select_oldest m) (omega (arith, e, r.filled)),
    collect-none m.slots (
        none_ready (max_size_of m) m.header.next_sequence (u64_mod - 1) m.slots
          (omega (arith, r.in_range)) r.slots_ok h),
  )
  | inr (k, e, b, h) ↦ inr (best, subst (λ j. IsOldest j best m.slots) (omega (arith, e)) h)
]
  where
    best : ℕ
    best = (select_ready m.slots 0 (capacity_of m) (u64_mod - 1)).1

pub IsOldest-none :
    (slots : List ManagedMessageSlot) (k b : ℕ) → IsOldest k b slots → ¬ (get_elem? slots k ≡ none)
IsOldest-none [] k b o e = o
IsOldest-none (s ∷ rest) zero b o e = cc
IsOldest-none (s ∷ rest) (suc k) b o e = IsOldest-none rest k b o.1 e

module _ (m : ManagedMapping) (v : IsValid m) (b : ℕ) (o : IsOldest (select_oldest m) b m.slots)
    (s : ManagedMessageSlot) (at : get_elem? m.slots (select_oldest m) ≡ some s) where
  abbrev i : ℕ
  i = select_oldest m

  slot_ok : SlotIsOk (max_size_of m) m.header.next_sequence s
  slot_ok =
      All-get_elem? (SlotIsOk (max_size_of m) m.header.next_sequence) m.slots i
        v.recoverable.slots_ok at

  is_ready : s.state ≡ slot_code ready
  is_ready = (IsOldest-get_elem? m.slots i b o at).0

  abbrev taken : ManagedMapping
  taken =
      updated i (reset_managed_slot s) (header_effect (receive_stores (payload_of s)) m.header) m

  perform-receive_stores : perform_all i (receive_stores (payload_of s)) m ≡ taken
  unfolding receive_stores slot_effect reset_managed_slot
  perform-receive_stores = perform_all-eq (receive_stores (payload_of s)) i m at

  counted :
      (code : ℕ)
      → count_state code taken.slots + (if slot_code ready == code then 1 else 0)
        ≡ count_state code m.slots + (if slot_code free == code then 1 else 0)
  unfolding reset_managed_slot
  counted code =
      subst
        (λ (k : ℕ).
          count_state code taken.slots + (if k == code then 1 else 0)
          ≡ count_state code m.slots + (if slot_code free == code then 1 else 0))
        is_ready (count_state-set m.slots i s (reset_managed_slot s) code at)

  in_all :
      count_state (slot_code free) m.slots
        + count_state (slot_code writing) m.slots
        + count_state (slot_code ready) m.slots
      ≡ length m.slots
  in_all = count_state-sum (max_size_of m) m.header.next_sequence m.slots v.recoverable.slots_ok

  taken-IsValid : IsValid taken
  unfolding header_effect receive_stores reset_managed_slot
  taken-IsValid = record {
    recoverable =
        updated-IsRecoverable m i (reset_managed_slot s) taken.header v.recoverable refl
          (omega arith) v.recoverable.in_range
          (record {
            area = slot_ok.area;
            known = omega arith;
            size = λ e. cc;
            numbered = λ e. cc;
            handed_out = λ e. cc;
          });
    none_writing = omega (arith, counted (slot_code writing), v.none_writing);
    free_counted = omega (
      arith,
      counted (slot_code free),
      in_all,
      v.free_counted,
      v.recoverable.filled,
      v.recoverable.few_slots,
    );
    writing_counted = v.writing_counted;
    ready_counted = omega (
      arith,
      counted (slot_code ready),
      in_all,
      v.ready_counted,
      v.recoverable.filled,
      v.recoverable.few_slots,
    );
  }

  take_slot-taken : take_slot m i s ≡ took (payload_of s) taken
  unfolding take_slot
  take_slot-taken = rw passes (ap (took (payload_of s)) perform-receive_stores)
    where
      passes :
          (ltb (max_size_of m) s.payload_size || s.sequence == 0 || m.header.ready_messages == 0)
          ≡ false
      passes = ground (
        arith,
        slot_ok.size is_ready,
        slot_ok.numbered is_ready,
        counted (slot_code ready),
        v.ready_counted,
      )

  queue-taken : collect m.slots ≡ entry s ∷ collect taken.slots
  unfolding reset_managed_slot
  queue-taken = collect-set_oldest m.slots i b (reset_managed_slot s) o at (omega arith)

-- What a receive does under the mutex.
abbrev pub Takes : ManagedLockMode → ManagedMapping → ReceiveStep → Type 0
Takes mode m step =
    (contents m ≡ []) × (step ≡ find_nothing mode m)
    ⊎ (x : Bytes) × (m' : ManagedMapping) × (contents m ≡ x ∷ contents m')
      × (step ≡ took x m')
      × IsValid m'
      × (m'.header.state ≡ m.header.state)
      × (m'.header.format ≡ m.header.format)
      × (m'.header.next_sequence ≡ m.header.next_sequence)

-- A receive on a valid channel: the search finds nothing in an empty queue; from any other it takes
-- the front, whole, and leaves a mapping that is valid again, with the same state, format and next
-- sequence.
pub receive_valid-Takes :
    (mode : ManagedLockMode) (m : ManagedMapping) → IsValid m → Takes mode m (receive_valid mode m)
unfolding receive_valid contents header_effect receive_stores
receive_valid-Takes mode m v = elim (select_oldest-Found m v.recoverable) [
  | inl (nothing, empty) ↦ inl (ap (map (λ e. e.1)) empty, rw (nothing, receive_valid))
  | inr (b, o) ↦ elim (Option-cases (get_elem? m.slots (select_oldest m))) [
    | inl nothing ↦ absurd (IsOldest-none m.slots (select_oldest m) b o nothing)
    | inr (s, at) ↦ inr (
      payload_of s,
      taken m v b o s at,
      ap (map (λ e. e.1)) (queue-taken m v b o s at),
      rw (at, receive_valid) (take_slot-taken m v b o s at),
      taken-IsValid m v b o s at,
      refl,
      refl,
      refl,
    )
  ]
]
