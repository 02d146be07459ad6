-- ===== src/Managed/Send/Search.antt =====
-- include/shmchan/managed_channel.hpp: the search of `send_impl` for a FREE slot.
use shmchan.Common.{
  ℕ, zero, suc, ◌+◌, ◌-◌, ◌%◌, ◌≤◌, ◌<◌, ◌≡◌, ◌≢◌, ◌⊎◌, inl, inr, refl, List, [], ◌∷◌, true, false,
  some, arith, ◌==◌, length, get_elem?, dec_le, dec_lt, Bool-cases, Option-cases, ◌∙◌, ap,
}
use native.Mathlib.Nat.{mod-eq_of_lt, mod-eq-sub-mod, mod-lt}
use shmchan.Managed.State.{ManagedMessageSlot, ManagedMapping, free, slot_code, capacity_of}
use shmchan.Managed.Send.{is_free_at, find_free, select_free}
use shmchan.Managed.Invariant.{count_state}

abbrev Search : List ManagedMessageSlot → ℕ → ℕ → ℕ → ℕ → ℕ → Type 0
Search slots capacity start offset left r =
    (r ≡ capacity)
      × ((k : ℕ)
          → offset ≤ k
          → k < offset + left
          → is_free_at slots ((start + k) % capacity) ≡ false)
    ⊎ (k : ℕ) × (r ≡ (start + k) % capacity) × (is_free_at slots r ≡ true)

find_free-Search :
    (slots : List ManagedMessageSlot) (capacity start offset left : ℕ)
    → Search slots capacity start offset left (find_free slots capacity start offset left)
unfolding find_free
find_free-Search slots capacity start offset zero = inl (refl, λ k h h'. absurd (omega arith))
find_free-Search slots capacity start offset (suc left) =
    elim (Bool-cases (is_free_at slots ((start + offset) % capacity))) [
      | inl found ↦ rw (found, find_free) (inr (offset, refl, found))
      | inr taken ↦
          rw (taken, find_free)
            (elim (find_free-Search slots capacity start (offset + 1) left) [
              | inl (e, h) ↦ inl (
                e,
                λ k a b. elim (dec_lt offset k) [
                  | yes later ↦ h k (omega arith) (omega arith)
                  | no now ↦ let here : k ≡ offset = omega arith in rw here taken
                ],
              )
              | inr found ↦ inr found
            ])
    ]

-- Some slot that the count sees is FREE.
some_free :
    (slots : List ManagedMessageSlot)
    → count_state (slot_code free) slots ≢ 0
    → (j : ℕ) × (j < length slots) × (is_free_at slots j ≡ true)
unfolding is_free_at
some_free [] h = absurd (h refl)
some_free (s ∷ rest) h = elim (Bool-cases (s.state == slot_code free)) [
  | inl here ↦ (0, omega arith, here)
  | inr there ↦ let (j, lt, e) = some_free rest (ground arith) in (suc j, omega arith, e)
]

-- Going round from `start` comes to every index.
round_to :
    (capacity start j : ℕ)
    → start < capacity
    → j < capacity
    → (k : ℕ) × (k < capacity) × ((start + k) % capacity ≡ j)
round_to capacity start j hs hj = elim (dec_le start j) [
  | yes up ↦ (j - start, omega arith, ap (λ n. n % capacity) (omega arith) ∙ mod-eq_of_lt hj)
  | no down ↦ (
    j + capacity - start,
    omega arith,
    omega (
      arith,
      mod-eq-sub-mod {n = start + (j + capacity - start)} {m = capacity} (omega arith),
      mod-eq_of_lt {n = start + (j + capacity - start) - capacity} {m = capacity} (omega arith),
    ),
  )
]

is_free_at-some :
    (slots : List ManagedMessageSlot) (i : ℕ)
    → is_free_at slots i ≡ true
    → (s : ManagedMessageSlot) × (get_elem? slots i ≡ some s) × (s.state ≡ slot_code free)
unfolding is_free_at
is_free_at-some slots i h = elim (Option-cases (get_elem? slots i)) [
  | inl nothing ↦ absurd (ground arith)
  | inr (s, e) ↦ (s, e, ground arith)
]

-- With a FREE slot in the array the search finds one.
pub select_free_lem :
    (m : ManagedMapping)
    → 0 < capacity_of m
    → length m.slots ≡ capacity_of m
    → count_state (slot_code free) m.slots ≢ 0
    → (select_free m < capacity_of m)
      × (s : ManagedMessageSlot) × (get_elem? m.slots (select_free m) ≡ some s)
      × (s.state ≡ slot_code free)
select_free_lem m pos e h = elim (find_free-Search m.slots capacity start 0 capacity) [
  | inl (_, none_free) ↦
      let (j, lt, found) = some_free m.slots h in
      let (k, below, there) = round_to capacity start j (mod-lt _ pos) (omega arith) in
      absurd (cc (none_free k (omega arith) (omega arith), ap (is_free_at m.slots) there, found))
  | inr (k, at, found) ↦
      let (s, e', f) = is_free_at-some m.slots (select_free m) found in
      (rw at (mod-lt _ pos), s, e', f)
]
  where
    capacity : ℕ
    capacity = capacity_of m

    start : ℕ
    start = m.header.next_slot_hint % capacity
