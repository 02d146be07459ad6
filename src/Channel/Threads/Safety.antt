-- ===== src/Channel/Threads/Safety.antt =====
-- include/shmchan/channel.hpp: what holds of a ring in every state that its threads reach.
use native.Mathlib.Nat.{mod-eq_of_lt}
use shmchan.Common.{
  ℕ, ◌+◌, ◌%◌, ◌^◌, ◌<◌, ◌≤◌, ◌≡◌, ◌⊎◌, inl, inr, Option, none, some, arith, refl, ap, ◌∙◌, sym,
  true,
}
use shmchan.Status.{u64_mod}
use shmchan.Channel.Ring.{difference, is_negative}
use shmchan.Channel.Threads.{
  Memory, index, seen, Pc, idle, claimed, filled, taken, copied, receiving, released, System, pick,
  Reach, start, later, init, Move, see_empty, in_try_dequeue,
}
use shmchan.Channel.Threads.Invariant.{
  claim_of, hold_of, receipt_of, Knows, free, written, full, read, Inv,
}
use shmchan.Channel.Threads.Invariant.Slots.{add-one-mod-ne, next_in_slot, same_slot}
use shmchan.Channel.Threads.Invariant.Step.{Move-Inv}
use shmchan.Channel.Threads.Invariant.Frame.{at, known, seen-lt}

module _ {A : Type 0} (capacity : ℕ) (blank : ℕ → A) where
  pub init-Inv :
      1 < capacity → capacity < 2 ^ 62 → Inv (init capacity blank).mem (init capacity blank).pc
  init-Inv several small = record {
    several = several;
    room = omega (arith, small);
    ordered = omega arith;
    bounded = omega arith;
    phase = λ i inside. free i (mod-eq_of_lt inside) refl (omega arith) (omega arith);
    knows = λ j. tt;
    one_sender = λ j k t. cc;
    one_receiver = λ j k t. cc;
    returned = λ t v. cc;
    delivered = λ t before. absurd (omega arith);
  }

  pub Reach-Inv :
      {s : System A} → 1 < capacity → capacity < 2 ^ 62 → Reach capacity blank s → Inv s.mem s.pc
  Reach-Inv several small start = init-Inv several small
  Reach-Inv several small (later {s} r (pick i mv) room) =
      Move-Inv s.mem s.pc (Reach-Inv several small r) i mv refl room

-- The position whose slot a thread is writing or reading.
abbrev pub access_of : {A : Type 0} → Pc A → Option ℕ
access_of q = elim (claim_of q) [ some p ↦ some p | none ↦ hold_of q ]

module _ {A : Type 0} (m : Memory A) (pc : ℕ → Pc A) (inv : Inv m pc) where
  access-seen :
      (q : Pc A) (p : ℕ)
      → Knows m q
      → access_of q ≡ some p
      → ((claim_of q ≡ some p) × (seen m p ≡ p)) ⊎ ((receipt_of q ≡ some p) × (seen m p ≡ p + 1))
  access-seen (claimed v u) p k e = inl (ground arith)
  access-seen (filled v u) p k e = inl (ground arith)
  access-seen (taken u) p k e = inr (ground arith)
  access-seen (copied v u) p k e = inr (ground arith)
  access-seen q p k e = cc

  -- Two threads in one slot are one thread.
  alone_in_slot :
      (j k p u : ℕ)
      → access_of (pc j) ≡ some p
      → access_of (pc k) ≡ some u
      → index m p ≡ index m u
      → j ≡ k
  alone_in_slot j k p u a b same = elim (access-seen (pc j) p (inv.knows j) a) [
    | inl (x, now) ↦ elim (access-seen (pc k) u (inv.knows k) b) [
      | inl (y, now') ↦ inv.one_sender j k p x (ground arith)
      | inr (y, now') ↦ absurd (ground (arith, add-one-mod-ne m.capacity u inv.several))
    ]
    | inr (x, now) ↦ elim (access-seen (pc k) u (inv.knows k) b) [
      | inl (y, now') ↦ absurd (ground (arith, add-one-mod-ne m.capacity p inv.several))
      | inr (y, now') ↦ inv.one_receiver j k p x (ground arith)
    ]
  ]

  -- A refusal to receive.
  run_dry :
      (p : ℕ)
      → p ≤ m.dequeue_position
      → seen m p ≤ p
      → (m.dequeue_position ≡ m.enqueue_position)
        ⊎ ((j : ℕ) × (claim_of (pc j) ≡ some m.dequeue_position))
  run_dry p near low = elim (at m pc inv p) [
    | free t place now late early ↦ inl (omega (arith, inv.ordered))
    | written t j place now late early owner ↦
        let same : t ≡ m.dequeue_position = omega arith in inr (j, owner ∙ ap some same)
    | full t place now late early holds ↦ absurd (omega arith)
    | read t j place now early late owner ↦
        inl (omega (arith, next_in_slot m.capacity t p place, inv.ordered))
  ]

  -- A position that was claimed by a sender and not yet by a receiver.
  pub waiting :
      (t : ℕ)
      → m.dequeue_position ≤ t
      → t < m.enqueue_position
      → ((seen m t ≡ t + 1) × (m.storage (index m t) ≡ m.sent t))
        ⊎ ((j : ℕ) × (claim_of (pc j) ≡ some t))
  waiting t lower upper = elim (at m pc inv t) [
    | free u place now late early ↦
        absurd (omega (arith, next_in_slot m.capacity t u (sym place), inv.bounded))
    | written u j place now late early owner ↦
        let same : u ≡ t = one u place late early in inr (j, owner ∙ ap some same)
    | full u place now late early holds ↦
        let same : u ≡ t = one u place late early in inl (omega arith, holds ∙ ap m.sent same)
    | read u j place now early late owner ↦
        absurd (omega (arith, next_in_slot m.capacity u t place, inv.bounded))
  ]
    where
      one :
          (u : ℕ) → index m u ≡ index m t → m.dequeue_position ≤ u → u < m.enqueue_position → u ≡ t
      one u place late early =
          same_slot m.capacity u t place (omega (arith, inv.bounded)) (omega (arith, inv.bounded))

pub refusal-receiving :
    {A : Type 0} {m m' : Memory A} {q q' : Pc A}
    → Move m q m' q'
    → q' ≡ idle
    → in_try_dequeue q ≡ true
    → (p : ℕ) × (q ≡ receiving p) × (is_negative (difference (seen m p) ((p + 1) % u64_mod)) ≡ true)
refusal-receiving (see_empty {p} low) out inside = (p, refl, low)
refusal-receiving mv out inside = cc

module _ {A : Type 0} (m : Memory A) (pc : ℕ → Pc A) (inv : Inv m pc) where
  -- A refusal to receive, as a move.
  pub refused_dry :
      (i : ℕ) {m' : Memory A}
      → Move m (pc i) m' idle
      → in_try_dequeue (pc i) ≡ true
      → (m.dequeue_position ≡ m.enqueue_position)
        ⊎ ((j : ℕ) × (claim_of (pc j) ≡ some m.dequeue_position))
  refused_dry i mv inside =
      let (p, was, negative) = refusal-receiving mv refl inside in
      let near = known m pc inv i (receiving p) was in
      run_dry m pc inv p near (ground (arith, seen-lt m pc inv p, inv.room, inv.ordered))

module _ {A : Type 0} (capacity : ℕ) (blank : ℕ → A) (several : 1 < capacity)
    (small : capacity < 2 ^ 62) {s : System A} (reached : Reach capacity blank s) where
  -- In every reachable state of a ring of several slots, of which fewer than 2 ^ 62 positions have
  -- been claimed: two threads that are each between the claim of a position and the store of its
  -- sequence, in slots that are the same, are one thread. So nobody writes a slot that another
  -- thread writes or reads.
  pub no_data_race :
      (j k p u : ℕ)
      → access_of (s.pc j) ≡ some p
      → access_of (s.pc k) ≡ some u
      → p % s.mem.capacity ≡ u % s.mem.capacity
      → j ≡ k
  no_data_race = alone_in_slot s.mem s.pc (Reach-Inv capacity blank several small reached)

  -- A receiver that is about to return has the value that the sender of its position has sent, and
  -- nobody has returned that position before. Of all positions below `dequeue_position` each has
  -- been returned with the value sent, or is in the hands of a thread; nothing else was returned.
  pub exactly_once :
      ((j p : ℕ) (v : A) → s.pc j ≡ released v p → (v ≡ s.mem.sent p) × (s.mem.got p ≡ none))
      × ((t : ℕ)
          → t < s.mem.dequeue_position
          → (s.mem.got t ≡ some (s.mem.sent t)) ⊎ ((j : ℕ) × (receipt_of (s.pc j) ≡ some t)))
      × ((t : ℕ) (v : A) → s.mem.got t ≡ some v → (t < s.mem.dequeue_position) × (v ≡ s.mem.sent t))
  exactly_once =
      let inv = Reach-Inv capacity blank several small reached in
      (
        (λ j p v was.
            let (before, same, fresh) = known s.mem s.pc inv j (released v p) was in (same, fresh)),
        inv.delivered,
        inv.returned,
      )

  -- Where no thread is inside: the values below `dequeue_position` have all been returned, each as
  -- it was sent; those from there up to `enqueue_position` lie in their slots, ready to be taken;
  -- and there are at most `capacity` of these.
  pub none_lost :
      ((j : ℕ) → s.pc j ≡ idle)
      → ((t : ℕ) → t < s.mem.dequeue_position → s.mem.got t ≡ some (s.mem.sent t))
        × ((t : ℕ)
            → s.mem.dequeue_position ≤ t
            → t < s.mem.enqueue_position
            → (seen s.mem t ≡ t + 1) × (s.mem.storage (index s.mem t) ≡ s.mem.sent t))
        × (s.mem.enqueue_position ≤ s.mem.dequeue_position + s.mem.capacity)
  none_lost quiet =
      let inv = Reach-Inv capacity blank several small reached in
      (
        (λ t before. elim (inv.delivered t before) [
          | inl there ↦ there
          | inr (j, owner) ↦ let still = quiet j in absurd (ground arith)
        ]),
        (λ t lower upper. elim (waiting s.mem s.pc inv t lower upper) [
          | inl there ↦ there
          | inr (j, owner) ↦ let still = quiet j in absurd (ground arith)
        ]),
        inv.bounded,
      )

  -- A thread inside `try_dequeue` that has not succeeded leaves it, so finds nothing, only where
  -- every position that was claimed by a sender has been taken, or the sender of the next one has
  -- not published it.
  pub refuses_when_empty :
      (i : ℕ) {m' : Memory A}
      → Move s.mem (s.pc i) m' idle
      → in_try_dequeue (s.pc i) ≡ true
      → (s.mem.dequeue_position ≡ s.mem.enqueue_position)
        ⊎ ((j : ℕ) × (claim_of (s.pc j) ≡ some s.mem.dequeue_position))
  refuses_when_empty i mv inside =
      refused_dry s.mem s.pc (Reach-Inv capacity blank several small reached) i mv inside
