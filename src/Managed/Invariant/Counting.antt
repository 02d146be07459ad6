-- ===== src/Managed/Invariant/Counting.antt =====
-- How a change of one slot changes the counts.
use shmchan.Common.{
  ℕ, zero, suc, ◌+◌, ◌≡◌, List, [], ◌∷◌, some, arith, ◌==◌, if◌then◌else◌, get_elem?, set, length,
}
use shmchan.Managed.State.{ManagedMessageSlot, slot_code, ready}
use shmchan.Managed.Queue.{Entry, insert, collect, entry}
use shmchan.Managed.Invariant.{count_state}

pub count_state-set :
    (slots : List ManagedMessageSlot) (i : ℕ) (s s' : ManagedMessageSlot) (code : ℕ)
    → get_elem? slots i ≡ some s
    → count_state code (set slots i s') + (if s.state == code then 1 else 0)
      ≡ count_state code slots + (if s'.state == code then 1 else 0)
count_state-set [] i s s' code e = cc
count_state-set (x ∷ xs) zero s s' code e = ground arith
count_state-set (x ∷ xs) (suc i) s s' code e = ground (arith, count_state-set xs i s s' code e)

length-insert : (e : Entry) (xs : List Entry) → length (insert e xs) ≡ suc (length xs)
unfolding insert
length-insert e [] = omega arith
length-insert e (x ∷ xs) = ground (arith, length-insert e xs)

-- The queue holds one message for each READY slot.
pub length-collect :
    (slots : List ManagedMessageSlot) → length (collect slots) ≡ count_state (slot_code ready) slots
unfolding collect
length-collect [] = omega arith
length-collect (s ∷ rest) =
    ground (arith, length-collect rest, length-insert (entry s) (collect rest))
