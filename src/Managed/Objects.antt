-- ===== src/Managed/Objects.antt =====
-- include/shmchan/managed_channel.hpp: creating, opening and unlinking the object of a name. The
-- entry of a name is its object, if there is one. A call sees the system calls as `Calls` says,
-- and `between` is what others do to the object between its `shm_open` and its lock, where they do
-- not unlink the name; under the lock it runs alone.
pub mod Branches
pub mod Keeps
pub mod Overwrite
pub mod Unlink
use shmchan.Common.{
  ℕ, zero, suc, ◌+◌, Bool, true, false, not, ◌&&◌, ◌||◌, List, [], ◌∷◌, Option, none, some, ltb,
  leb, ◌==◌, if◌then◌else◌, replicate,
}
use shmchan.Status.{Bytes}
use shmchan.Managed.State.{
  ManagedCounters, ManagedFormat, ManagedMessageSlot, ManagedMapping, state_code, slot_code, free,
  initializing, destroying, signal_managed_event,
}
use shmchan.Managed.Entry.{
  ShmObject, ManagedChannelOptions, Calls, all_well, Opened, mapped, refused, incomplete,
  options_differ, system_error, empty_object, zero_areas,
}
use shmchan.Managed.Layout.{
  LayoutError, Result, ok, error, ProtocolDescriptor, ManagedLayout, checked_managed_layout,
  fresh_mapping, validate_managed_mapping,
}

-- The descriptors that a creation constructs; the payload areas keep the bytes that are there.
unfoldable pub slots_over : (ℕ → Bytes) → ℕ → ℕ → List ManagedMessageSlot
slots_over left index zero = []
slots_over left index (suc count) =
    record { state = slot_code free; payload_size = 0; sequence = 0; payload = left index }
    ∷ slots_over left (index + 1) count

-- A mapping whose mutex could not be made.
abbrev pub half_constructed : ManagedMapping → ManagedMapping
half_constructed m = record m {
  header = record (m.header) { initialization = 0; state = state_code initializing };
}

-- The options are compared with the channel that was there.
abbrev pub same_sizes : ManagedChannelOptions → Opened → Opened
same_sizes options (mapped m) =
    if (m.header.format.message_capacity == options.message_capacity)
      && (m.header.format.max_message_size == options.max_message_size)
    then mapped m
    else options_differ
same_sizes options other = other

-- `create_managed_mapping` unlinks the name again where it throws after its `shm_open`.
abbrev pub kept_or_unlinked : Opened × ShmObject → Opened × Option ShmObject
kept_or_unlinked (mapped m, o) = (mapped m, some o)
kept_or_unlinked (other, o) = (other, none)

module _ (header_size : ℕ) where
  -- `open_or_create_managed_mapping` under the lock: whether it constructs the object.
  unfoldable pub needs_initialization : ShmObject → Bool
  needs_initialization o =
      (o.size == 0) || ltb o.size header_size || not (o.mapping.header.initialization == 1)

  -- The probe that maps an object which is large enough.
  abbrev pub probe_fails : Calls → ShmObject → Bool
  probe_fails c o = not (o.size == 0) && leb header_size o.size && c.probe_mmap_fails

module _ (header_size mutex_size mutex_alignment : ℕ) where
  -- The mapping that a creation leaves in an object whose payload areas hold `left`.
  abbrev pub constructed : ManagedChannelOptions → (ℕ → Bytes) → ManagedLayout → ManagedMapping
  constructed options left layout =
      record (fresh_mapping header_size mutex_size mutex_alignment options.message_capacity
        options.max_message_size options.protocol layout) {
          slots = slots_over left 0 options.message_capacity;
        }

  -- `initialize_managed_mapping_locked`
  unfoldable pub initialize_locked :
      Calls → ManagedChannelOptions → (ℕ → Bytes) → ShmObject → Opened × ShmObject
  unfolding slots_over
  initialize_locked c options left o =
      elim (checked_managed_layout header_size options.message_capacity options.max_message_size) [
        | error e ↦ (refused e, o)
        | ok layout ↦
            let m = constructed options left layout in
            if c.ftruncate_fails
            then (system_error, o)
            else if c.mmap_fails
            then (system_error, record o { size = layout.mapping_size })
            else if c.mutex_fails
            then (system_error, record { size = layout.mapping_size; mapping = half_constructed m })
            else (mapped m, record { size = layout.mapping_size; mapping = m })
      ]

  -- `map_managed_fd_locked`
  unfoldable pub map_locked : Calls → ProtocolDescriptor → ShmObject → Opened
  map_locked c protocol o =
      if c.fstat_fails
      then system_error
      else if ltb o.size header_size
      then incomplete
      else if c.mmap_fails
      then system_error
      else elim (validate_managed_mapping header_size mutex_size mutex_alignment o.mapping o.size
          protocol) [ error e ↦ refused e | ok m ↦ mapped m ]

  -- `create_managed_mapping`
  unfoldable pub create :
      Calls
      → (ShmObject → ShmObject)
      → (ℕ → Bytes)
      → ManagedChannelOptions
      → Option ShmObject
      → Opened × Option ShmObject
  unfolding initialize_locked
  create c between left options (some o) = (system_error, some o)
  create c between left options none =
      if c.shm_open_fails || c.lock_fails
      then (system_error, none)
      else kept_or_unlinked (initialize_locked c options left (between empty_object))

  -- `open_managed_mapping`
  unfoldable pub open_existing :
      Calls
      → (ShmObject → ShmObject)
      → ProtocolDescriptor
      → Option ShmObject
      → Opened × Option ShmObject
  unfolding map_locked
  open_existing c between protocol none = (system_error, none)
  open_existing c between protocol (some o) =
      if c.shm_open_fails
      then (system_error, some o)
      else if c.lock_fails
      then (system_error, some (between o))
      else (map_locked c protocol (between o), some (between o))

  unfoldable pub open_or_create_locked :
      Calls → ManagedChannelOptions → ShmObject → Opened × ShmObject
  unfolding initialize_locked map_locked needs_initialization
  open_or_create_locked c options o =
      if c.first_fstat_fails || probe_fails header_size c o
      then (system_error, o)
      else if needs_initialization header_size o
      then (if c.truncate_fails
          then (system_error, o)
          else initialize_locked c options (zero_areas options) empty_object)
      else (same_sizes options (map_locked c options.protocol o), o)

  -- `open_or_create_managed_mapping`; where it throws, the object stays.
  unfoldable pub open_or_create :
      Calls
      → (ShmObject → ShmObject)
      → ManagedChannelOptions
      → Option ShmObject
      → Opened × Option ShmObject
  unfolding open_or_create_locked
  open_or_create c between options entry =
      let o = between (elim entry [ none ↦ empty_object | some o ↦ o ]) in
      if c.shm_open_fails
      then (system_error, entry)
      else if c.lock_fails
      then (system_error, some o)
      else (let (r, o') = open_or_create_locked c options o in (r, some o'))

-- The end of an `unlink`, with what it returns.
pub data Unlinked : Type 0 where
  unlinked : Bool → Unlinked
  failed : Unlinked

module _ (header_size : ℕ) where
  -- `unlink`: an object that is a managed channel tells its users first. The last component is the
  -- object, which those that have it mapped keep.
  unfoldable pub mark_destroying : Calls → ShmObject → ShmObject
  mark_destroying c o =
      if not c.fstat_fails
        && leb header_size o.size
        && not c.mmap_fails
        && (o.mapping.header.format.magic == 0x53484d4353494d50)
        && (o.mapping.header.format.mapping_size == o.size)
      then record o {
        mapping = record (o.mapping) {
          header =
              signal_managed_event (record (o.mapping.header) { state = state_code destroying });
        };
      }
      else o

  unfoldable pub unlink :
      Calls
      → (ShmObject → ShmObject)
      → Option ShmObject
      → Unlinked × Option ShmObject × Option ShmObject
  unfolding mark_destroying
  unlink c between none = (unlinked false, none, none)
  unlink c between (some o) =
      if c.shm_open_fails
      then (failed, some o, some o)
      else if c.lock_fails
      then (failed, some (between o), some (between o))
      else (let o' = mark_destroying c (between o) in
          if c.unlink_fails then (failed, some o', some o') else (unlinked true, none, some o'))
