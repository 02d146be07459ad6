-- ===== src/Managed/Queue.antt =====
-- The abstract view of a managed channel: its READY messages, ordered by their sequence.
pub mod Order
pub mod Publish
pub mod Oldest
use shmchan.Common.{ℕ, List, [], ◌∷◌, map, leb, ◌==◌, if◌then◌else◌}
use shmchan.Status.{Bytes}
use shmchan.Managed.State.{ManagedMessageSlot, ManagedMapping, ready, slot_code}
use shmchan.Managed.Receive.{payload_of}

-- A published message with its sequence.
abbrev pub Entry : Type 0
Entry = ℕ × Bytes

abbrev pub entry : ManagedMessageSlot → Entry
entry s = (s.sequence, payload_of s)

-- Among equal sequences the slot of the smaller index comes first.
unfoldable pub insert : Entry → List Entry → List Entry
insert e [] = e ∷ []
insert e (x ∷ xs) = if leb e.0 x.0 then e ∷ x ∷ xs else x ∷ insert e xs

unfoldable pub collect : List ManagedMessageSlot → List Entry
unfolding insert
collect [] = []
collect (s ∷ rest) =
    if s.state == slot_code ready then insert (entry s) (collect rest) else collect rest

-- What a consumer will receive, in order.
unfoldable pub contents : ManagedMapping → List Bytes
contents m = map (λ e. e.1) (collect m.slots)
