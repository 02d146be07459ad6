-- ===== src/Tests/Layout.antt =====
-- A layout of two slots, and the channel that is created in it.
use shmchan.Common.{◌≡◌, refl, arith}
use shmchan.Managed.State.{ManagedMapping}
use shmchan.Managed.Layout.{
  ok, ManagedLayout, ProtocolDescriptor, checked_managed_layout, initialize_managed_mapping,
}
use shmchan.Managed.Layout.Areas.{HasAreas, checked_managed_layout-HasAreas}
use shmchan.Managed.Layout.Fresh.{IsFresh, create-IsFresh}

abbrev two_slots_layout : ManagedLayout
two_slots_layout = record {
  mapping_size = 704;
  slots_offset = 448;
  payload_offset = 576;
  payload_stride = 64;
}

two_slots_laid_out : checked_managed_layout 448 2 3 ≡ ok two_slots_layout
unfolding checked_managed_layout
two_slots_laid_out = refl

checked_managed_layout-HasAreas_example : HasAreas 448 2 3 two_slots_layout
checked_managed_layout-HasAreas_example =
    checked_managed_layout-HasAreas 448 2 3 two_slots_layout (omega arith) two_slots_laid_out

abbrev raw_bytes : ProtocolDescriptor
raw_bytes = record { id = 5; version = 1 }

create-IsFresh_example :
    (m : ManagedMapping) × (initialize_managed_mapping 448 40 8 2 3 raw_bytes ≡ ok m)
    × IsFresh 448 40 8 2 3 raw_bytes m
create-IsFresh_example =
    create-IsFresh 448 40 8 2 3 raw_bytes (omega arith) (omega arith) (omega arith) (omega arith)
      (omega arith)
