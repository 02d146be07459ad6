-- ===== src/Managed/Invariant.antt =====
-- The invariants of a managed mapping: what holds whatever a dying process has left half done, and
-- what holds whenever the mutex is free.
pub mod Scans
pub mod Validation
pub mod Recovery
pub mod Counting
pub mod Update
use shmchan.Common.{
  ℕ, ◌+◌, ◌≤◌, ◌<◌, ◌≡◌, ◌^◌, List, [], ◌∷◌, ◌==◌, if◌then◌else◌, length, All, suc,
}
use shmchan.Status.{u32_mod, u64_mod}
use shmchan.Managed.State.{
  ManagedMessageSlot, ManagedMapping, free, writing, ready, slot_code, capacity_of, max_size_of,
}

abbrev pub count_state : ℕ → List ManagedMessageSlot → ℕ
count_state code [] = 0
count_state code (s ∷ rest) =
    if s.state == code then suc (count_state code rest) else count_state code rest

-- A slot in one of its three states; a READY one has a message that fits, and a sequence that was
-- handed out.
pub record SlotIsOk (max next : ℕ) (s : ManagedMessageSlot) : Type 0 where
  pub area : length s.payload ≡ max
  pub known : s.state ≤ slot_code ready
  pub size : s.state ≡ slot_code ready → s.payload_size ≤ max
  pub numbered : s.state ≡ slot_code ready → 0 < s.sequence
  pub handed_out : s.state ≡ slot_code ready → s.sequence < next

pub record IsRecoverable (m : ManagedMapping) : Type 0 where
  pub some_slots : 0 < capacity_of m
  pub few_slots : capacity_of m < 2 ^ 63
  pub filled : length m.slots ≡ capacity_of m
  pub small : max_size_of m < u32_mod
  pub started : 0 < m.header.next_sequence
  pub in_range : m.header.next_sequence < u64_mod
  pub slots_ok : All (SlotIsOk (max_size_of m) m.header.next_sequence) m.slots

pub record IsValid (m : ManagedMapping) : Type 0 where
  pub recoverable : IsRecoverable m
  pub none_writing : count_state (slot_code writing) m.slots ≡ 0
  pub free_counted : m.header.free_slots ≡ count_state (slot_code free) m.slots
  pub writing_counted : m.header.writing_messages ≡ 0
  pub ready_counted : m.header.ready_messages ≡ count_state (slot_code ready) m.slots
