-- ===== src/Managed/Objects/Keeps.antt =====
-- include/shmchan/managed_channel.hpp: `open_or_create` on an object that is a channel already.
use shmchan.Common.{
  ℕ, ◌≡◌, refl, ap, ◌∙◌, subst, Bool-cases, inl, inr, false, ◌&&◌, ◌||◌, arith, ◌==◌,
}
use shmchan.Managed.State.{ManagedMapping}
use shmchan.Managed.Layout.{ok, ProtocolDescriptor, validate_managed_mapping}
use shmchan.Managed.Entry.{
  ShmObject, ManagedChannelOptions, Calls, Opened, mapped, refused, incomplete, options_differ,
  system_error,
}
use shmchan.Managed.Objects.{
  map_locked, probe_fails, same_sizes, open_or_create_locked, needs_initialization,
}

mapped-injective : {a b : ManagedMapping} → mapped a ≡ mapped b → a ≡ b
mapped-injective e = cc

-- A mapping that is accepted is the one that was there, of the protocol asked for.
module _ (header_size mutex_size mutex_alignment : ℕ) (protocol : ProtocolDescriptor) where
  validate-ok :
      (m m' : ManagedMapping) (size : ℕ)
      → validate_managed_mapping header_size mutex_size mutex_alignment m size protocol ≡ ok m'
      → (m' ≡ m)
        × (m.header.format.protocol_id_value ≡ protocol.id)
        × (m.header.format.protocol_version ≡ protocol.version)
  unfolding validate_managed_mapping
  validate-ok m m' size e = ground arith

map_locked-mapped :
    (header_size mutex_size mutex_alignment : ℕ) (c : Calls) (protocol : ProtocolDescriptor)
    (o : ShmObject) (m : ManagedMapping)
    → map_locked header_size mutex_size mutex_alignment c protocol o ≡ mapped m
    → validate_managed_mapping header_size mutex_size mutex_alignment o.mapping o.size protocol
      ≡ ok m
unfolding map_locked
map_locked-mapped header_size mutex_size mutex_alignment c protocol o m e = ground arith

same_sizes-mapped :
    (options : ManagedChannelOptions) (r : Opened) (m : ManagedMapping)
    → same_sizes options r ≡ mapped m
    → (r ≡ mapped m)
      × (m.header.format.message_capacity ≡ options.message_capacity)
      × (m.header.format.max_message_size ≡ options.max_message_size)
same_sizes-mapped options (mapped m') m e =
    elim (Bool-cases (
      (m'.header.format.message_capacity == options.message_capacity)
      && (m'.header.format.max_message_size == options.max_message_size))) [
        | inl t ↦
            let e' : mapped m' ≡ mapped m = rw t at e in
            let same = mapped-injective e' in
            (
              e',
              subst (λ k. k.header.format.message_capacity ≡ options.message_capacity) same
                  (ground arith),
              subst (λ k. k.header.format.max_message_size ≡ options.max_message_size) same
                  (ground arith),
            )
        | inr t ↦ let e' : options_differ ≡ mapped m = rw t at e in cc
      ]
same_sizes-mapped options (refused x) m e = cc
same_sizes-mapped options incomplete m e = cc
same_sizes-mapped options options_differ m e = cc
same_sizes-mapped options system_error m e = cc

accepted :
    (header_size mutex_size mutex_alignment : ℕ) (c : Calls) (options : ManagedChannelOptions)
    (o : ShmObject) (m : ManagedMapping)
    → same_sizes options (map_locked header_size mutex_size mutex_alignment c options.protocol o)
      ≡ mapped m
    → (m ≡ o.mapping)
      × (m.header.format.message_capacity ≡ options.message_capacity)
      × (m.header.format.max_message_size ≡ options.max_message_size)
      × (m.header.format.protocol_id_value ≡ options.protocol.id)
      × (m.header.format.protocol_version ≡ options.protocol.version)
accepted header_size mutex_size mutex_alignment c options o m e =
    let (was, capacity_ok, max_ok) =
      same_sizes-mapped options
        (map_locked header_size mutex_size mutex_alignment c options.protocol o) m e in
    let (same, id_ok, version_ok) =
      validate-ok header_size mutex_size mutex_alignment options.protocol o.mapping m o.size
        (map_locked-mapped header_size mutex_size mutex_alignment c options.protocol o m was) in
    (
      same,
      capacity_ok,
      max_ok,
      ap (λ k. k.header.format.protocol_id_value) same ∙ id_ok,
      ap (λ k. k.header.format.protocol_version) same ∙ version_ok,
    )

-- What `open_or_create` promises of a channel `o` that it has found and returns.
pub IsAccepted : ManagedChannelOptions → ShmObject → Opened → Type 0
IsAccepted options o (mapped m) =
    (m ≡ o.mapping)
    × (m.header.format.message_capacity ≡ options.message_capacity)
    × (m.header.format.max_message_size ≡ options.max_message_size)
    × (m.header.format.protocol_id_value ≡ options.protocol.id)
    × (m.header.format.protocol_version ≡ options.protocol.version)
IsAccepted options o other = Unit

same_sizes-IsAccepted :
    (header_size mutex_size mutex_alignment : ℕ) (c : Calls) (options : ManagedChannelOptions)
    (o : ShmObject) (r : Opened)
    → same_sizes options (map_locked header_size mutex_size mutex_alignment c options.protocol o)
      ≡ r
    → IsAccepted options o r
unfolding IsAccepted
same_sizes-IsAccepted header_size mutex_size mutex_alignment c options o (mapped m) e =
    accepted header_size mutex_size mutex_alignment c options o m e
same_sizes-IsAccepted header_size mutex_size mutex_alignment c options o (refused x) e = tt
same_sizes-IsAccepted header_size mutex_size mutex_alignment c options o incomplete e = tt
same_sizes-IsAccepted header_size mutex_size mutex_alignment c options o options_differ e = tt
same_sizes-IsAccepted header_size mutex_size mutex_alignment c options o system_error e = tt

-- Where it finds an initialized object, `open_or_create` leaves it as it is, whatever the outcome;
-- and where it returns a channel, that is the one it found, with the sizes and the protocol that
-- were asked for.
pub open_or_create-keeps :
    (header_size mutex_size mutex_alignment : ℕ) (c : Calls) (options : ManagedChannelOptions)
    (o : ShmObject)
    → needs_initialization header_size o ≡ false
    → ((open_or_create_locked header_size mutex_size mutex_alignment c options o).1 ≡ o)
      × IsAccepted options o
          (open_or_create_locked header_size mutex_size mutex_alignment c options o).0
unfolding open_or_create_locked IsAccepted
open_or_create-keeps header_size mutex_size mutex_alignment c options o there =
    elim (Bool-cases (c.first_fstat_fails || probe_fails header_size c o)) [
      | inl e ↦ rw (e) (refl, tt)
      | inr e ↦
          rw (e, there)
            (
              refl,
              same_sizes-IsAccepted header_size mutex_size mutex_alignment c options o
                  (same_sizes options
                    (map_locked header_size mutex_size mutex_alignment c options.protocol o))
                  refl,
            )
    ]
