-- ===== src/Managed/Layout/Fresh.antt =====
-- include/shmchan/managed_channel.hpp: a new channel, and its open by another process.
use shmchan.Common.{
  ℕ, zero, suc, ◌%◌, ◌^◌, ◌≤◌, ◌<◌, ◌≡◌, refl, sym, ap, true, false, arith, ◌==◌, if◌then◌else◌, [],
  replicate, length-replicate, All, not, Bool, ◌&&◌,
}
use shmchan.Status.{u32_mod}
use shmchan.Managed.State.{
  ManagedMessageSlot, ManagedMapping, slot_code, free, writing, ready, capacity_of, max_size_of,
}
use shmchan.Managed.Invariant.{IsValid, SlotIsOk, count_state}
use shmchan.Managed.Queue.{contents, collect}
use shmchan.Managed.Layout.{
  ok, error, ManagedLayout, ProtocolDescriptor, checked_managed_layout, initialize_managed_mapping,
  validate_managed_mapping, protocol_mismatch, fresh_mapping,
}
use shmchan.Managed.Layout.Areas.{
  HasAreas, checked_managed_layout-ok, checked_managed_layout-HasAreas,
}

==_self : (a : ℕ) → (a == a) ≡ true
==_self a = ground arith

if-not : {A : Type 0} (x y : A) (b : Bool) → (if not b then x else y) ≡ (if b then y else x)
if-not x y true = refl
if-not x y false = refl

module _ (max : ℕ) where
  abbrev slot : ManagedMessageSlot
  slot = record {
    state = slot_code free;
    payload_size = 0;
    sequence = 0;
    payload = replicate max 0;
  }

  fresh-SlotIsOk : (n : ℕ) → All (SlotIsOk max 1) (replicate n slot)
  fresh-SlotIsOk zero = tt
  fresh-SlotIsOk (suc n) = (
    record {
      area = length-replicate max 0;
      known = omega arith;
      size = λ e. absurd (omega (arith, e));
      numbered = λ e. absurd (omega (arith, e));
      handed_out = λ e. absurd (omega (arith, e));
    },
    fresh-SlotIsOk n,
  )

  count-free : (n : ℕ) → count_state (slot_code free) (replicate n slot) ≡ n
  count-free zero = refl
  count-free (suc n) = ap suc (count-free n)

  count-writing : (n : ℕ) → count_state (slot_code writing) (replicate n slot) ≡ 0
  count-writing zero = refl
  count-writing (suc n) = count-writing n

  count-ready : (n : ℕ) → count_state (slot_code ready) (replicate n slot) ≡ 0
  count-ready zero = refl
  count-ready (suc n) = count-ready n

  collect-fresh : (n : ℕ) → collect (replicate n slot) ≡ []
  unfolding collect
  collect-fresh zero = refl
  collect-fresh (suc n) = collect-fresh n

-- Valid, empty, of the given sizes, and accepted by an open with the same protocol and no other.
pub record IsFresh (header_size mutex_size mutex_alignment capacity max : ℕ)
    (protocol : ProtocolDescriptor) (m : ManagedMapping) : Type 0 where
  pub valid : IsValid m
  pub queue : contents m ≡ []
  pub all_slots : capacity_of m ≡ capacity
  pub largest : max_size_of m ≡ max
  pub opens :
      (p : ProtocolDescriptor)
      → validate_managed_mapping header_size mutex_size mutex_alignment m
          m.header.format.mapping_size p
        ≡ (if (protocol.id == p.id) && (protocol.version == p.version)
            then ok m
            else error protocol_mismatch)

module _ (header_size mutex_size mutex_alignment capacity max : ℕ) (protocol : ProtocolDescriptor)
    (l : ManagedLayout) (below : header_size < u32_mod)
    (laid_out : checked_managed_layout header_size capacity max ≡ ok l) where
  abbrev new_mapping : ManagedMapping
  new_mapping = fresh_mapping header_size mutex_size mutex_alignment capacity max protocol l

  areas : HasAreas header_size capacity max l
  areas = checked_managed_layout-HasAreas header_size capacity max l below laid_out

  new-IsValid : IsValid new_mapping
  new-IsValid = record {
    recoverable = record {
      some_slots = areas.positive;
      few_slots = omega (arith, areas.slots, areas.payloads, areas.whole);
      filled = length-replicate capacity (slot max);
      small = areas.small;
      started = omega arith;
      in_range = omega arith;
      slots_ok = fresh-SlotIsOk max capacity;
    };
    none_writing = count-writing max capacity;
    free_counted = sym (count-free max capacity);
    writing_counted = refl;
    ready_counted = sym (count-ready max capacity);
  }

  new-opens :
      (p : ProtocolDescriptor)
      → (ok_id ok_version : Bool) → (protocol.id == p.id) ≡ ok_id
      → (protocol.version == p.version) ≡ ok_version
      → validate_managed_mapping header_size mutex_size mutex_alignment new_mapping l.mapping_size p
        ≡ (if ok_id && ok_version then ok new_mapping else error protocol_mismatch)
  unfolding validate_managed_mapping
  new-opens p ok_id ok_version e f =
      let same : (header_size % u32_mod == header_size) ≡ true = ground (arith, below) in
      rw (same, ==_self l.mapping_size, ==_self mutex_size, ==_self mutex_alignment)
        (rw (laid_out, validate_managed_mapping)
          (rw
            (
              ==_self l.mapping_size,
              ==_self l.slots_offset,
              ==_self l.payload_offset,
              ==_self l.payload_stride,
              e,
              f,
            )
            (if-not _ _ (ok_id && ok_version))))

-- For a header below 2 ^ 32 bytes, a capacity between 1 and 2 ^ 30 and a largest message between 1
-- byte and 2 ^ 32 - 1: the creation succeeds. Its mapping is valid and its queue empty, and an
-- open of it with any protocol succeeds if id and version are the creator's, and fails with
-- `protocol_mismatch` if not.
pub create-IsFresh :
    (header_size mutex_size mutex_alignment capacity max : ℕ) (protocol : ProtocolDescriptor)
    → header_size < u32_mod
    → 0 < capacity
    → capacity ≤ 2 ^ 30
    → 0 < max
    → max < u32_mod
    → (m : ManagedMapping) × (initialize_managed_mapping header_size mutex_size mutex_alignment
          capacity max protocol
        ≡ ok m)
      × IsFresh header_size mutex_size mutex_alignment capacity max protocol m
unfolding initialize_managed_mapping contents
create-IsFresh header_size mutex_size mutex_alignment capacity max protocol below positive few some
      small =
    let (l, laid_out) =
      checked_managed_layout-ok header_size capacity max below positive few some small in
    (
      fresh_mapping header_size mutex_size mutex_alignment capacity max protocol l,
      rw (laid_out, initialize_managed_mapping),
      record {
        valid =
            new-IsValid header_size mutex_size mutex_alignment capacity max protocol l below
              laid_out;
        queue = rw (collect-fresh max capacity);
        all_slots = refl;
        largest = refl;
        opens = λ p.
            new-opens header_size mutex_size mutex_alignment capacity max protocol l below laid_out
              p (protocol.id == p.id) (protocol.version == p.version) refl refl;
      },
    )
