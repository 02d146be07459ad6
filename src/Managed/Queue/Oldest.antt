-- ===== src/Managed/Queue/Oldest.antt =====
-- The search of `receive_impl` finds the front of the queue.
use shmchan.Common.{
  ℕ, zero, suc, ◌+◌, ◌≤◌, ◌<◌, ◌≡◌, refl, sym, ◌≢◌, ◌⊎◌, inl, inr, List, [], ◌∷◌, some, arith,
  get_elem?, set, All, Bool-cases, ◌&&◌, ltb, ◌==◌,
}
use shmchan.Managed.State.{ManagedMessageSlot, ready, slot_code}
use shmchan.Managed.Receive.{select_ready}
use shmchan.Managed.Queue.{entry, insert, collect}
use shmchan.Managed.Queue.Order.{NotBefore, All-collect, insert-first}

-- Slot `k` is READY with sequence `b`, and none of the others is before it in the queue.
abbrev pub IsOldest : ℕ → ℕ → List ManagedMessageSlot → Type 0
IsOldest k b [] = ⊥
IsOldest zero b (s ∷ rest) = (s.state ≡ slot_code ready) × (s.sequence ≡ b) × All (NotBefore b) rest
IsOldest (suc k) b (s ∷ rest) = NotBefore (suc b) s × IsOldest k b rest

All-NotBefore :
    (m n : ℕ) (slots : List ManagedMessageSlot)
    → m ≤ n
    → All (NotBefore n) slots
    → All (NotBefore m) slots
All-NotBefore m n [] h a = tt
All-NotBefore m n (s ∷ rest) h a = ((λ r. omega (arith, a.0 r)), All-NotBefore m n rest h a.1)

abbrev Search : List ManagedMessageSlot → ℕ → ℕ → ℕ → ℕ × ℕ → Type 0
Search slots index selected best r =
    (r.0 ≡ selected) × (r.1 ≡ best) × All (NotBefore best) slots
    ⊎ (k : ℕ) × (r.0 ≡ index + k) × (r.1 < best) × IsOldest k r.1 slots

-- The loop keeps its start values where no READY slot is before `best`, and else ends at the
-- oldest slot.
pub select_ready-Search :
    (slots : List ManagedMessageSlot) (index selected best : ℕ)
    → Search slots index selected best (select_ready slots index selected best)
unfolding select_ready
select_ready-Search [] index selected best = inl (refl, refl, tt)
select_ready-Search (s ∷ rest) index selected best =
    elim (Bool-cases (s.state == slot_code ready && ltb s.sequence best)) [
      | inl here ↦
          rw (here, select_ready)
            (elim (select_ready-Search rest (index + 1) index s.sequence) [
              | inl (e, b, h) ↦ inr (
                zero,
                omega (arith, e),
                ground arith,
                (ground arith, sym b, All-NotBefore _ _ rest (omega (arith, b)) h),
              )
              | inr (k, e, b, h) ↦ inr (suc k, omega (arith, e), ground arith, ((λ _. b), h))
            ])
      | inr past ↦
          rw (past, select_ready)
            (elim (select_ready-Search rest (index + 1) selected best) [
              | inl (e, b, h) ↦ inl (e, b, (ground arith, h))
              | inr (k, e, b, h) ↦ inr (suc k, omega arith, b, (ground arith, h))
            ])
    ]

pub IsOldest-get_elem? :
    (slots : List ManagedMessageSlot) (k b : ℕ) {s : ManagedMessageSlot}
    → IsOldest k b slots
    → get_elem? slots k ≡ some s
    → (s.state ≡ slot_code ready) × (s.sequence ≡ b)
IsOldest-get_elem? [] k b o e = absurd o
IsOldest-get_elem? (x ∷ xs) zero b o e = ground arith
IsOldest-get_elem? (x ∷ xs) (suc k) b o e = IsOldest-get_elem? xs k b o.1 e

-- Taking the oldest slot takes the front of the queue.
pub collect-set_oldest :
    (slots : List ManagedMessageSlot) (k b : ℕ) {s : ManagedMessageSlot} (s' : ManagedMessageSlot)
    → IsOldest k b slots
    → get_elem? slots k ≡ some s
    → s'.state ≢ slot_code ready
    → collect slots ≡ entry s ∷ collect (set slots k s')
unfolding collect insert
collect-set_oldest [] k b s' o e h = absurd o
collect-set_oldest (x ∷ xs) zero b s' o e h = ground (
  arith,
  insert-first (entry x) (collect xs)
      (All-collect (λ y. x.sequence ≤ y.0) xs (All-NotBefore x.sequence b xs (omega arith) o.2)),
)
collect-set_oldest (x ∷ xs) (suc k) b s' o e h =
    ground (arith, collect-set_oldest xs k b s' o.1 e h, IsOldest-get_elem? xs k b o.1 e)

-- Where no slot is READY the queue is empty.
pub collect-none :
    (slots : List ManagedMessageSlot)
    → All (λ s. s.state ≢ slot_code ready) slots
    → collect slots ≡ []
unfolding collect
collect-none [] h = refl
collect-none (s ∷ rest) h = ground (arith, collect-none rest h.1)
