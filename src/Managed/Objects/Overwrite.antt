-- ===== src/Managed/Objects/Overwrite.antt =====
-- include/shmchan/managed_channel.hpp: a `create` whose object another process has made a channel of
-- before the creator gets the lock.
use shmchan.Common.{ℕ, zero, suc, ◌+◌, ◌^◌, ◌≤◌, ◌<◌, ◌≡◌, refl, [], none, some}
use shmchan.Status.{u32_mod, Bytes}
use shmchan.Managed.State.{ManagedMapping}
use shmchan.Managed.Queue.{contents, collect}
use shmchan.Managed.Layout.{ok, ManagedLayout, checked_managed_layout}
use shmchan.Managed.Layout.Areas.{checked_managed_layout-ok}
use shmchan.Managed.Entry.{ShmObject, ManagedChannelOptions, mapped, empty_object, all_well}
use shmchan.Managed.Objects.{slots_over, constructed, initialize_locked, create}

collect-slots_over :
    (left : ℕ → Bytes) (index count : ℕ) → collect (slots_over left index count) ≡ []
unfolding collect slots_over
collect-slots_over left index zero = refl
collect-slots_over left index (suc count) = collect-slots_over left (index + 1) count

initialize_locked-overwrites :
    (header_size mutex_size mutex_alignment : ℕ) (left : ℕ → Bytes)
    (options : ManagedChannelOptions) (l : ManagedLayout) (o : ShmObject)
    → checked_managed_layout header_size options.message_capacity options.max_message_size ≡ ok l
    → initialize_locked header_size mutex_size mutex_alignment all_well options left o ≡ (
      mapped (constructed header_size mutex_size mutex_alignment options left l),
      record {
        size = l.mapping_size;
        mapping = constructed header_size mutex_size mutex_alignment options left l;
      },
    )
unfolding initialize_locked
initialize_locked-overwrites header_size mutex_size mutex_alignment left options l o laid_out =
    rw (laid_out, initialize_locked)

-- For sizes in range and system calls that do not fail: whatever other processes have made of the
-- new object before the creator gets its lock, also a channel with messages in it, the creator
-- constructs its own channel over it. No message is left, and the sequences begin again at 1.
pub create-overwrites :
    (header_size mutex_size mutex_alignment : ℕ) (between : ShmObject → ShmObject)
    (left : ℕ → Bytes) (options : ManagedChannelOptions)
    → header_size < u32_mod
    → 0 < options.message_capacity
    → options.message_capacity ≤ 2 ^ 30
    → 0 < options.max_message_size
    → options.max_message_size < u32_mod
    → (m : ManagedMapping) × (create header_size mutex_size mutex_alignment all_well between left
          options none
        ≡ (mapped m, some (record { size = m.header.format.mapping_size; mapping = m })))
      × (contents m ≡ [])
      × (m.header.next_sequence ≡ 1)
unfolding create contents
create-overwrites header_size mutex_size mutex_alignment between left options below positive few
      large small =
    let (l, laid_out) =
      checked_managed_layout-ok header_size options.message_capacity options.max_message_size below
        positive few large small in
    (
      constructed header_size mutex_size mutex_alignment options left l,
      rw (
          initialize_locked-overwrites header_size mutex_size mutex_alignment left options l
            (between empty_object) laid_out),
      rw (collect-slots_over left 0 options.message_capacity) refl,
      refl,
    )
