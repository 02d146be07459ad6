-- ===== src/Tests/Objects.antt =====
-- An object of two slots: made, found again, refused, and made again over a channel that was there.
use shmchan.Common.{◌≡◌, refl, arith, [], ◌∷◌, none, some, false, true}
use shmchan.Status.{ChannelStatus, FutexWaitResult, no_value}
use shmchan.Managed.State.{ManagedMapping}
use shmchan.Managed.Queue.{contents}
use shmchan.Managed.Layout.{validate_managed_mapping}
use shmchan.Managed.Lock.{blocking}
use shmchan.Managed.Send.{Round, returned, send_impl}
use shmchan.Managed.Receive.{receive_impl}
use shmchan.Managed.Entry.{ShmObject, ManagedChannelOptions, all_well, mapped, empty_object}
use shmchan.Managed.Objects.{
  unlink, unlinked, constructed, create, open_or_create_locked, needs_initialization,
}
use shmchan.Managed.Objects.Branches.{MakesChannel, open_or_create-MakesChannel}
use shmchan.Managed.Objects.Keeps.{IsAccepted, open_or_create-keeps}
use shmchan.Managed.Objects.Overwrite.{create-overwrites}
use shmchan.Managed.Objects.Unlink.{HoldsChannel, unlink-ends}

abbrev two_slots : ManagedChannelOptions
two_slots = record {
  message_capacity = 2;
  max_message_size = 3;
  protocol = record { id = 5; version = 1 };
}

abbrev channel_of_two : ManagedMapping
channel_of_two =
    constructed 448 40 8 two_slots (λ i. 7 ∷ 7 ∷ 7 ∷ [])
      (record { mapping_size = 704; slots_offset = 448; payload_offset = 576; payload_stride = 64 })

-- The channel after a thousand sends.
abbrev in_use : ShmObject
in_use = record {
  size = 704;
  mapping = record channel_of_two {
    header = record (channel_of_two.header) { next_sequence = 1001 };
  };
}

empty_needed : needs_initialization 448 empty_object ≡ true
unfolding needs_initialization
empty_needed = refl

open_or_create-MakesChannel_example : MakesChannel 448 40 8 two_slots empty_object
open_or_create-MakesChannel_example =
    open_or_create-MakesChannel 448 40 8 two_slots empty_object (omega arith) (omega arith)
      (omega arith) (omega arith) (omega arith) empty_needed

in_use_there : needs_initialization 448 in_use ≡ false
unfolding needs_initialization
in_use_there = refl

open_or_create-keeps_example :
    ((open_or_create_locked 448 40 8 all_well two_slots in_use).1 ≡ in_use)
    × IsAccepted two_slots in_use (open_or_create_locked 448 40 8 all_well two_slots in_use).0
open_or_create-keeps_example = open_or_create-keeps 448 40 8 all_well two_slots in_use in_use_there

in_use_returned :
    (open_or_create_locked 448 40 8 all_well two_slots in_use).0 ≡ mapped (in_use.mapping)
unfolding open_or_create_locked validate_managed_mapping
in_use_returned = refl

create-overwrites_example :
    (m : ManagedMapping) × (create 448 40 8 all_well
        (λ o. in_use)
        (λ i. 7 ∷ 7 ∷ 7 ∷ [])
        two_slots
        none
      ≡ (mapped m, some (record { size = m.header.format.mapping_size; mapping = m })))
    × (contents m ≡ [])
    × (m.header.next_sequence ≡ 1)
create-overwrites_example =
    create-overwrites 448 40 8 (λ o. in_use) (λ i. 7 ∷ 7 ∷ 7 ∷ []) two_slots (omega arith)
      (omega arith) (omega arith) (omega arith) (omega arith)

in_use-HoldsChannel : HoldsChannel 448 in_use
in_use-HoldsChannel = record { large = omega arith; magic = refl; whole = refl }

abbrev alone : Round
alone = record {
  before = λ m. m;
  attempts = [];
  after = λ m. m;
  wake = FutexWaitResult.changed;
  now = 0;
}

unlink-ends_example :
    (o' : ShmObject) × (unlink 448 all_well (λ o. o) (some in_use) ≡ (unlinked true, none, some o'))
    × (o'.mapping.slots ≡ in_use.mapping.slots)
    × (¬ (o'.mapping.header.event_epoch ≡ 0))
    × (send_impl blocking none (alone ∷ []) (1 ∷ []) (o'.mapping)
        ≡ returned ChannelStatus.broken (o'.mapping))
    × (receive_impl blocking none (alone ∷ []) (o'.mapping)
        ≡ returned (no_value ChannelStatus.broken) (o'.mapping))
unlink-ends_example =
    unlink-ends 448 (λ o. o) in_use blocking none alone [] (1 ∷ []) in_use-HoldsChannel
      (omega arith) (omega arith) (λ m. refl)
