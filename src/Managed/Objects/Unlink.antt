-- ===== src/Managed/Objects/Unlink.antt =====
-- include/shmchan/managed_channel.hpp: what `unlink` means for those who have the channel mapped.
use shmchan.Common.{
  ℕ, ◌≤◌, ◌<◌, ◌≡◌, refl, sym, subst, ◌∙◌, true, false, List, ◌∷◌, Option, none, some, arith, ltb,
  leb, ◌==◌, length,
}
use shmchan.Status.{u32_mod, Bytes, ChannelStatus, no_value}
use shmchan.Managed.State.{
  ManagedMapping, state_code, destroying, signal_managed_event, operation_state, max_size_of,
}
use shmchan.Managed.Lock.{ManagedLockMode}
use shmchan.Managed.Send.{Round, returned, send_impl, send_loop}
use shmchan.Managed.Receive.{receive_impl, receive_loop}
use shmchan.Managed.Entry.{ShmObject, all_well}
use shmchan.Managed.Objects.{unlinked, mark_destroying, unlink}

-- The channel whose name has been unlinked.
abbrev destroyed : ManagedMapping → ManagedMapping
destroyed m = record m {
  header = signal_managed_event (record (m.header) { state = state_code destroying });
}

-- The object holds a channel, as `unlink` tests it.
pub record HoldsChannel (header_size : ℕ) (o : ShmObject) : Type 0 where
  pub large : header_size ≤ o.size
  pub magic : o.mapping.header.format.magic ≡ 0x53484d4353494d50
  pub whole : o.mapping.header.format.mapping_size ≡ o.size

mark_destroying-destroyed :
    (header_size : ℕ) (o : ShmObject)
    → HoldsChannel header_size o
    → mark_destroying header_size all_well o ≡ record o { mapping = destroyed (o.mapping) }
unfolding mark_destroying
mark_destroying-destroyed header_size o h =
    let large : leb header_size o.size ≡ true = ground (arith, h.large) in
    let magic : (o.mapping.header.format.magic == 0x53484d4353494d50) ≡ true =
      ground (arith, h.magic) in
    let whole : (o.mapping.header.format.mapping_size == o.size) ≡ true = ground (arith, h.whole) in
    rw (large, magic, whole)

epoch-destroyed :
    (m : ManagedMapping)
    → m.header.event_epoch < u32_mod
    → ¬ ((destroyed m).header.event_epoch ≡ m.header.event_epoch)
unfolding signal_managed_event
epoch-destroyed m small = omega arith

operation_state-destroyed :
    (m : ManagedMapping)
    → m.header.state ≡ state_code destroying
    → operation_state m ≡ ChannelStatus.broken
unfolding operation_state
operation_state-destroyed m e = rw (e)

state-destroyed : (m : ManagedMapping) → (destroyed m).header.state ≡ state_code destroying
unfolding signal_managed_event
state-destroyed m = refl

send_loop-broken :
    (mode : ManagedLockMode) (deadline : Option ℕ) (r : Round) (rest : List Round) (message : Bytes)
    (m : ManagedMapping)
    → operation_state (r.before m) ≡ ChannelStatus.broken
    → send_loop mode deadline (r ∷ rest) message m ≡ returned ChannelStatus.broken (r.before m)
unfolding send_loop
send_loop-broken mode deadline r rest message m state = rw (state, send_loop)

send_impl-broken :
    (mode : ManagedLockMode) (deadline : Option ℕ) (r : Round) (rest : List Round) (message : Bytes)
    (m : ManagedMapping)
    → length message ≤ max_size_of m
    → operation_state (r.before m) ≡ ChannelStatus.broken
    → send_impl mode deadline (r ∷ rest) message m ≡ returned ChannelStatus.broken (r.before m)
unfolding send_impl
send_impl-broken mode deadline r rest message m fits state =
    let short : ltb (max_size_of m) (length message) ≡ false = ground (arith, fits) in
    rw (short) (send_loop-broken mode deadline r rest message m state)

receive_impl-broken :
    (mode : ManagedLockMode) (deadline : Option ℕ) (r : Round) (rest : List Round)
    (m : ManagedMapping)
    → operation_state (r.before m) ≡ ChannelStatus.broken
    → receive_impl mode deadline (r ∷ rest) m
      ≡ returned (no_value ChannelStatus.broken) (r.before m)
unfolding receive_impl receive_loop
receive_impl-broken mode deadline r rest m state = rw (state, receive_impl, receive_loop)

max_size_of-destroyed : (m : ManagedMapping) → max_size_of (destroyed m) ≡ max_size_of m
unfolding signal_managed_event
max_size_of-destroyed m = refl

-- For an object that holds a channel, and system calls that do not fail: `unlink` takes the name
-- away, and its users keep the object with all its slots; its epoch has moved, so that no wait that
-- began before goes on; and a send of a message that fits and a receive, of any mode, return
-- BROKEN at once, where the others have left the state as it is.
pub unlink-ends :
    (header_size : ℕ) (between : ShmObject → ShmObject) (o : ShmObject) (mode : ManagedLockMode)
    (deadline : Option ℕ) (r : Round) (rest : List Round) (message : Bytes)
    → HoldsChannel header_size (between o)
    → (between o).mapping.header.event_epoch < u32_mod
    → length message ≤ max_size_of ((between o).mapping)
    → ((m : ManagedMapping) → (r.before m).header.state ≡ m.header.state)
    → (o' : ShmObject) × (unlink header_size all_well between (some o)
        ≡ (unlinked true, none, some o'))
      × (o'.mapping.slots ≡ (between o).mapping.slots)
      × (¬ (o'.mapping.header.event_epoch ≡ (between o).mapping.header.event_epoch))
      × (send_impl mode deadline (r ∷ rest) message (o'.mapping)
          ≡ returned ChannelStatus.broken (r.before (o'.mapping)))
      × (receive_impl mode deadline (r ∷ rest) (o'.mapping)
          ≡ returned (no_value ChannelStatus.broken) (r.before (o'.mapping)))
unfolding unlink
unlink-ends header_size between o mode deadline r rest message holds small fits keeps =
    let m = destroyed ((between o).mapping) in
    let state : operation_state (r.before m) ≡ ChannelStatus.broken =
      operation_state-destroyed (r.before m) (keeps m ∙ state-destroyed ((between o).mapping)) in
    let short : length message ≤ max_size_of m =
      subst (λ k. length message ≤ k) (sym (max_size_of-destroyed ((between o).mapping))) fits in
    (
      record (between o) { mapping = m },
      rw (mark_destroying-destroyed header_size (between o) holds) refl,
      refl,
      epoch-destroyed ((between o).mapping) small,
      send_impl-broken mode deadline r rest message m short state,
      receive_impl-broken mode deadline r rest m state,
    )
