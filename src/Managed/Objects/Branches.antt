-- ===== src/Managed/Objects/Branches.antt =====
-- include/shmchan/managed_channel.hpp: `open_or_create` on every object that it may find.
use shmchan.Common.{
  ℕ, zero, suc, ◌+◌, ◌^◌, ◌≤◌, ◌<◌, ◌≡◌, refl, sym, ap, ◌∙◌, subst, Bool, true, false, not, ◌&&◌,
  ◌∷◌, arith, ltb, leb, ◌==◌, replicate,
}
use shmchan.Status.{u32_mod}
use shmchan.Managed.State.{ManagedMapping, slot_code, free}
use shmchan.Managed.Layout.{
  ok, ManagedLayout, checked_managed_layout, initialize_managed_mapping, fresh_mapping,
  validate_managed_mapping,
}
use shmchan.Managed.Layout.Areas.{
  HasAreas, checked_managed_layout-ok, checked_managed_layout-HasAreas,
}
use shmchan.Managed.Layout.Fresh.{IsFresh, create-IsFresh}
use shmchan.Managed.Entry.{ShmObject, ManagedChannelOptions, mapped, all_well, empty_object}
use shmchan.Managed.Objects.{
  slots_over, constructed, initialize_locked, map_locked, probe_fails, open_or_create_locked,
  needs_initialization,
}

ok-injective : {A : Type 0} {a b : A} → ok a ≡ ok b → a ≡ b
ok-injective e = cc

==_self : (a : ℕ) → (a == a) ≡ true
==_self a = ground arith

module _ (header_size mutex_size mutex_alignment : ℕ) (options : ManagedChannelOptions)
    (below : header_size < u32_mod) (positive : 0 < options.message_capacity)
    (few : options.message_capacity ≤ 2 ^ 30) (some : 0 < options.max_message_size)
    (small : options.max_message_size < u32_mod) where
  abbrev capacity : ℕ
  capacity = options.message_capacity

  abbrev max : ℕ
  max = options.max_message_size

  slots_over-replicate :
      (index count : ℕ)
      → slots_over (λ i. replicate max 0) index count
        ≡ replicate count (record {
          state = slot_code free;
          payload_size = 0;
          sequence = 0;
          payload = replicate max 0;
        })
  unfolding slots_over
  slots_over-replicate index zero = refl
  slots_over-replicate index (suc count) =
      ap
        (λ r.
          record {
            state = slot_code free;
            payload_size = 0;
            sequence = 0;
            payload = replicate max 0;
          }
          ∷ r)
        (slots_over-replicate (index + 1) count)

  module _ (l : ManagedLayout)
      (laid_out : checked_managed_layout header_size capacity max ≡ ok l) where
    abbrev made : ManagedMapping
    made = constructed header_size mutex_size mutex_alignment options (λ i. replicate max 0) l

    made-fresh_mapping :
        made ≡ fresh_mapping header_size mutex_size mutex_alignment capacity max options.protocol l
    made-fresh_mapping =
        ap
          (λ xs.
            record (fresh_mapping header_size mutex_size mutex_alignment capacity max
              options.protocol l) { slots = xs })
          (slots_over-replicate 0 capacity)

    made-IsFresh : IsFresh header_size mutex_size mutex_alignment capacity max options.protocol made
    unfolding initialize_managed_mapping
    made-IsFresh =
        let (m, created, fresh) =
          create-IsFresh header_size mutex_size mutex_alignment capacity max options.protocol below
            positive few some small in
        let same : initialize_managed_mapping header_size mutex_size mutex_alignment capacity max
              options.protocol
            ≡ ok (
                fresh_mapping header_size mutex_size mutex_alignment capacity max options.protocol
                  l) =
          rw (laid_out, initialize_managed_mapping) in
        subst (IsFresh header_size mutex_size mutex_alignment capacity max options.protocol)
          (ok-injective (sym created ∙ same) ∙ sym made-fresh_mapping) fresh

    initialize-empty :
        initialize_locked header_size mutex_size mutex_alignment all_well options
          (λ i. replicate max 0)
          empty_object
        ≡ (mapped made, record { size = l.mapping_size; mapping = made })
    unfolding initialize_locked
    initialize-empty = rw (laid_out, initialize_locked)

    -- The object that holds it, found by the next call.
    abbrev holding : ShmObject
    holding = record { size = l.mapping_size; mapping = made }

    areas : HasAreas header_size capacity max l
    areas = checked_managed_layout-HasAreas header_size capacity max l below laid_out

    found : needs_initialization header_size holding ≡ false
    unfolding needs_initialization
    found = ground (arith, areas.header, areas.slots, areas.payloads, positive)

    again :
        open_or_create_locked header_size mutex_size mutex_alignment all_well options holding
        ≡ (mapped made, holding)
    unfolding open_or_create_locked map_locked
    again =
        let large : ltb l.mapping_size header_size ≡ false =
          ground (arith, areas.header, areas.slots, areas.payloads) in
        let whole : leb header_size l.mapping_size ≡ true =
          ground (arith, areas.header, areas.slots, areas.payloads) in
        let some_bytes : (l.mapping_size == 0) ≡ false =
          ground (arith, areas.header, areas.slots, areas.payloads, positive) in
        rw (found, large, whole, some_bytes)
          (rw (opens, map_locked) (rw (==_self capacity, ==_self max) refl))
      where
        opens :
            validate_managed_mapping header_size mutex_size mutex_alignment made l.mapping_size
              options.protocol
            ≡ ok made
        opens =
            made-IsFresh.opens options.protocol
            ∙ rw (==_self options.protocol.id, ==_self options.protocol.version) refl

and-false : (a b : Bool) → (a && b && false) ≡ false
and-false true true = refl
and-false true false = refl
and-false false b = refl

-- The probe does not fail where no call does.
no_probe : (header_size : ℕ) (o : ShmObject) → probe_fails header_size all_well o ≡ false
no_probe header_size o = and-false (not (o.size == 0)) (leb header_size o.size)

-- What `open_or_create` promises where it has made the channel.
abbrev pub MakesChannel : ℕ → ℕ → ℕ → ManagedChannelOptions → ShmObject → Type 0
MakesChannel header_size mutex_size mutex_alignment options o =
    (m : ManagedMapping) × (open_or_create_locked header_size mutex_size mutex_alignment all_well
        options o
      ≡ (mapped m, record { size = m.header.format.mapping_size; mapping = m }))
    × IsFresh header_size mutex_size mutex_alignment options.message_capacity
        options.max_message_size options.protocol m
    × (open_or_create_locked header_size mutex_size mutex_alignment all_well options
          (record { size = m.header.format.mapping_size; mapping = m })
        ≡ (mapped m, record { size = m.header.format.mapping_size; mapping = m }))

-- For sizes in range and system calls that do not fail: where `open_or_create` finds an object that
-- is empty, too small, or not yet initialized, it makes a channel there that is valid, empty and of
-- the sizes asked for; and the next `open_or_create` with the same options, of another process,
-- returns that channel and leaves it as it is.
pub open_or_create-MakesChannel :
    (header_size mutex_size mutex_alignment : ℕ) (options : ManagedChannelOptions) (o : ShmObject)
    → header_size < u32_mod
    → 0 < options.message_capacity
    → options.message_capacity ≤ 2 ^ 30
    → 0 < options.max_message_size
    → options.max_message_size < u32_mod
    → needs_initialization header_size o ≡ true
    → MakesChannel header_size mutex_size mutex_alignment options o
unfolding open_or_create_locked
open_or_create-MakesChannel header_size mutex_size mutex_alignment options o below positive few some
      small needed =
    let (l, laid_out) =
      checked_managed_layout-ok header_size options.message_capacity options.max_message_size below
        positive few some small in
    (
      made header_size mutex_size mutex_alignment options below positive few some small l laid_out,
      rw (no_probe header_size o, needed)
          (initialize-empty header_size mutex_size mutex_alignment options below positive few some
            small l laid_out),
      made-IsFresh header_size mutex_size mutex_alignment options below positive few some small l
          laid_out,
      again header_size mutex_size mutex_alignment options below positive few some small l laid_out,
    )
