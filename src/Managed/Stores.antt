-- ===== src/Managed/Stores.antt =====
-- A critical section as the list of its stores to shared memory, in program order. A process that
-- dies inside leaves what a prefix of the list has written.
pub mod Effects
use shmchan.Common.{ℕ, zero, suc, List, [], ◌∷◌}
use shmchan.Managed.State.{ManagedMessageSlot, ManagedSharedHeader, ManagedMapping}

-- A store to the selected slot or to the header.
pub data Store : Type 0 where
  to_slot : (ManagedMessageSlot → ManagedMessageSlot) → Store
  to_header : (ManagedSharedHeader → ManagedSharedHeader) → Store

abbrev pub modify {ℓ} : {A : Type ℓ} → List A → ℕ → (A → A) → List A
modify [] i f = []
modify (x ∷ xs) zero f = f x ∷ xs
modify (x ∷ xs) (suc i) f = x ∷ modify xs i f

unfoldable pub perform : ℕ → Store → ManagedMapping → ManagedMapping
perform i (to_slot f) m = record m { slots = modify m.slots i f }
perform i (to_header f) m = record m { header = f m.header }

-- All stores of the list, with slot `i` selected.
unfoldable pub perform_all : ℕ → List Store → ManagedMapping → ManagedMapping
perform_all i [] m = m
perform_all i (s ∷ rest) m = perform_all i rest (perform i s m)
