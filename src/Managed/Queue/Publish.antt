-- ===== src/Managed/Queue/Publish.antt =====
-- What a change of one slot does to the queue.
use shmchan.Common.{
  ℕ, zero, suc, ◌<◌, ◌≡◌, refl, ◌≢◌, List, [], ◌∷◌, ◌++◌, some, arith, get_elem?, set, All,
}
use shmchan.Managed.State.{ManagedMessageSlot, ready, slot_code}
use shmchan.Managed.Queue.{entry, collect}
use shmchan.Managed.Queue.Order.{BoundedBy, All-collect, insert-last, insert-append}

-- A slot that is not READY before and after is not seen.
pub collect-set_unready :
    (slots : List ManagedMessageSlot) (i : ℕ) {s : ManagedMessageSlot} (s' : ManagedMessageSlot)
    → get_elem? slots i ≡ some s
    → s.state ≢ slot_code ready
    → s'.state ≢ slot_code ready
    → collect (set slots i s') ≡ collect slots
unfolding collect
collect-set_unready [] i s' e h h' = refl
collect-set_unready (x ∷ xs) zero s' e h h' = ground arith
collect-set_unready (x ∷ xs) (suc i) s' e h h' = ground (arith, collect-set_unready xs i s' e h h')

-- A slot that becomes READY with the greatest sequence is the new end of the queue.
pub collect-set_ready :
    (slots : List ManagedMessageSlot) (i : ℕ) {s : ManagedMessageSlot} (s' : ManagedMessageSlot)
    → get_elem? slots i ≡ some s
    → s.state ≢ slot_code ready
    → s'.state ≡ slot_code ready
    → All (BoundedBy s'.sequence) slots
    → collect (set slots i s') ≡ collect slots ++ entry s' ∷ []
unfolding collect
collect-set_ready [] i s' e h h' b = cc
collect-set_ready (x ∷ xs) zero s' e h h' b =
    ground
      (arith, insert-last (entry s') (collect xs) (All-collect (λ e. e.0 < s'.sequence) xs b.1))
collect-set_ready (x ∷ xs) (suc i) s' e h h' b =
    ground
      (arith, collect-set_ready xs i s' e h h' b.1, insert-append (entry x) (entry s') (collect xs))
