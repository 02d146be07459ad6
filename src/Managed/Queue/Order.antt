-- ===== src/Managed/Queue/Order.antt =====
-- Insertion by sequence, at both ends of the queue.
use shmchan.Common.{◌≤◌, ◌<◌, ◌≡◌, refl, List, [], ◌∷◌, ◌++◌, arith, All, ℕ}
use shmchan.Managed.State.{ManagedMessageSlot, ready, slot_code}
use shmchan.Managed.Queue.{Entry, entry, insert, collect}

pub insert-last :
    (e : Entry) (xs : List Entry) → All (λ (x : Entry). x.0 < e.0) xs → insert e xs ≡ xs ++ e ∷ []
unfolding insert
insert-last e [] h = refl
insert-last e (x ∷ xs) h = ground (arith, insert-last e xs h.1)

pub insert-append :
    (x e : Entry) (xs : List Entry) → x.0 < e.0 → insert x (xs ++ e ∷ []) ≡ insert x xs ++ e ∷ []
unfolding insert
insert-append x e [] h = ground arith
insert-append x e (y ∷ xs) h = ground (arith, insert-append x e xs h)

pub insert-first :
    (e : Entry) (xs : List Entry) → All (λ (x : Entry). e.0 ≤ x.0) xs → insert e xs ≡ e ∷ xs
unfolding insert
insert-first e [] h = refl
insert-first e (x ∷ xs) h = ground arith

-- A bound on the sequences of the READY slots, carried over to the queue.
abbrev pub BoundedBy : ℕ → ManagedMessageSlot → Type 0
BoundedBy n s = s.state ≡ slot_code ready → s.sequence < n

abbrev pub NotBefore : ℕ → ManagedMessageSlot → Type 0
NotBefore n s = s.state ≡ slot_code ready → n ≤ s.sequence

module _ (P : Entry → Type 0) where
  All-insert : (e : Entry) (xs : List Entry) → P e → All P xs → All P (insert e xs)
  unfolding insert
  All-insert e [] p h = (p, tt)
  All-insert e (x ∷ xs) p h = ground (arith, All-insert e xs p h.1)

  pub All-collect :
      (slots : List ManagedMessageSlot)
      → All (λ s. s.state ≡ slot_code ready → P (entry s)) slots
      → All P (collect slots)
  unfolding collect
  All-collect [] h = tt
  All-collect (s ∷ rest) h =
      ground (arith, All-collect rest h.1, All-insert (entry s) (collect rest))
