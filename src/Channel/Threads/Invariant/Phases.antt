-- ===== src/Channel/Threads/Invariant/Phases.antt =====
-- include/shmchan/channel.hpp: an access of one thread, and the phases of the slots.
use native.Mathlib.Nat.{add-mod_right}
use shmchan.Common.{ℕ, ◌+◌, ◌<◌, ◌≤◌, ◌≡◌, ◌≢◌, arith, ◌∙◌, ℕ_discrete}
use shmchan.Channel.Threads.{
  Memory, index, seen, update, Pc, saw_free, claimed, filled, published, saw_full, taken, copied,
  released, claim, fill, store_sequence, take, signal_writers,
}
use shmchan.Channel.Threads.Invariant.{
  claim_of, hold_of, Knows, Phase, free, written, full, read, Inv,
}
use shmchan.Channel.Threads.Invariant.Slots.{add-one-mod-ne}

module _ {A : Type 0} (m : Memory A) (pc : ℕ → Pc A) where
  pub epochs-Phase :
      (r w k : ℕ) → Phase m pc k → Phase (record m { readable_epoch = r; writable_epoch = w }) pc k
  epochs-Phase r w k (free t at now late early) = free t at now late early
  epochs-Phase r w k (written t j at now late early owner) = written t j at now late early owner
  epochs-Phase r w k (full t at now late early holds) = full t at now late early holds
  epochs-Phase r w k (read t j at now early late owner) = read t j at now early late owner

  pub signal_writers-Phase : (v : A) (p k : ℕ) → Phase m pc k → Phase (signal_writers m v p) pc k
  signal_writers-Phase v p k (free t at now late early) = free t at now late early
  signal_writers-Phase v p k (written t j at now late early owner) =
      written t j at now late early owner
  signal_writers-Phase v p k (full t at now late early holds) = full t at now late early holds
  signal_writers-Phase v p k (read t j at now early late owner) = read t j at now early late owner

module _ {A : Type 0} (m : Memory A) (pc : ℕ → Pc A) (inv : Inv m pc) (i : ℕ) where
  -- The thread claims and holds what it did before.
  pub same-Phase :
      (q : Pc A) (k : ℕ)
      → claim_of q ≡ claim_of (pc i)
      → hold_of q ≡ hold_of (pc i)
      → Phase m pc k
      → Phase m (update pc i q) k
  same-Phase q k c h (free t at now late early) = free t at now late early
  same-Phase q k c h (written t j at now late early owner) =
      written t j at now late early (ground arith)
  same-Phase q k c h (full t at now late early holds) = full t at now late early holds
  same-Phase q k c h (read t j at now early late owner) = read t j at now early late (ground arith)

  -- Who may claim the next position, has the slot free for it.
  abbrev e : ℕ
  e = m.enqueue_position

  abbrev d : ℕ
  d = m.dequeue_position

  pub claimable : seen m e ≡ e → Phase m pc (index m e) → e < d + m.capacity
  claimable own (free t at now late early) = omega arith
  claimable own (written t j at now late early owner) = absurd (omega arith)
  claimable own (full t at now late early holds) =
      absurd (ground (arith, add-one-mod-ne m.capacity t inv.several))
  claimable own (read t j at now early late owner) =
      absurd (ground (arith, add-one-mod-ne m.capacity t inv.several))

  pub claim-Phase :
      (v : A) (k : ℕ)
      → pc i ≡ saw_free v e
      → seen m e ≡ e
      → Phase m pc k
      → Phase (claim m v e) (update pc i (claimed v e)) k
  claim-Phase v k was own ph = elim (ℕ_discrete (index m e) k) [
    | yes here ↦
        written e i here (ground arith) inv.ordered (ground (arith, inv.room)) (ground arith)
    | no there ↦ elsewhere there ph
  ]
    where
      elsewhere : index m e ≢ k → Phase m pc k → Phase (claim m v e) (update pc i (claimed v e)) k
      elsewhere there (free t at now late early) =
          free t at now (ground (arith, inv.room, there)) early
      elsewhere there (written t j at now late early owner) =
          written t j at now late (ground (arith, inv.room)) (ground arith)
      elsewhere there (full t at now late early holds) =
          full t at now late (ground (arith, inv.room)) (ground arith)
      elsewhere there (read t j at now early late owner) =
          read t j at now early (ground (arith, inv.room, there, add-mod_right t m.capacity))
            (ground arith)

  pub fill-Phase :
      (v : A) (p k : ℕ)
      → pc i ≡ claimed v p
      → seen m p ≡ p
      → p < e
      → Phase m pc k
      → Phase (fill m v p) (update pc i (filled v p)) k
  fill-Phase v p k was own early ph =
      elsewhere (same-Phase (filled v p) k (ground arith) (ground arith) ph)
    where
      elsewhere :
          Phase m (update pc i (filled v p)) k → Phase (fill m v p) (update pc i (filled v p)) k
      elsewhere (free t at now late early) = free t at now late early
      elsewhere (written t j at now late early owner) = written t j at now late early owner
      elsewhere (full t at now late early holds) =
          full t at now late early (ground (arith, add-one-mod-ne m.capacity t inv.several))
      elsewhere (read t j at now early late owner) = read t j at now early late owner

  -- What is published is not yet received.
  unpublished : (p : ℕ) → seen m p ≡ p → p < e → Phase m pc (index m p) → d ≤ p
  unpublished p own before (free t at now late early) = absurd (omega arith)
  unpublished p own before (written t j at now late early owner) = omega arith
  unpublished p own before (full t at now late early holds) =
      absurd (ground (arith, add-one-mod-ne m.capacity t inv.several))
  unpublished p own before (read t j at now early late owner) =
      absurd (ground (arith, add-one-mod-ne m.capacity t inv.several))

  pub publish-Phase :
      (v : A) (p k : ℕ)
      → pc i ≡ filled v p
      → Knows m (filled v p)
      → Phase m pc (index m p)
      → Phase m pc k
      → Phase (store_sequence m p (p + 1)) (update pc i published) k
  publish-Phase v p k was (before, own, mine, there) ph ph' = elim (ℕ_discrete (index m p) k) [
    | yes here ↦
        full p here (ground (arith, inv.room)) (unpublished p own before ph) before (ground arith)
    | no other ↦ elsewhere other ph'
  ]
    where
      elsewhere :
          index m p ≢ k
          → Phase m pc k
          → Phase (store_sequence m p (p + 1)) (update pc i published) k
      elsewhere other (free t at now late early) = free t at (ground (arith, other)) late early
      elsewhere other (written t j at now late early owner) =
          written t j at (ground (arith, other)) late early (ground (arith, other))
      elsewhere other (full t at now late early holds) =
          full t at (ground (arith, other)) late early holds
      elsewhere other (read t j at now early late owner) =
          read t j at (ground (arith, other)) early late (ground arith)

  -- Who may take the next position, finds its message.
  pub takeable :
      seen m d ≡ d + 1 → Phase m pc (index m d) → (d < e) × (m.storage (index m d) ≡ m.sent d)
  takeable own (free t at now late early) =
      absurd (ground (arith, add-one-mod-ne m.capacity d inv.several))
  takeable own (written t j at now late early owner) =
      absurd (ground (arith, add-one-mod-ne m.capacity d inv.several))
  takeable own (full t at now late early holds) = ground arith
  takeable own (read t j at now early late owner) = absurd (omega arith)

  pub take-Phase :
      (k : ℕ)
      → pc i ≡ saw_full d
      → seen m d ≡ d + 1
      → d < e
      → Phase m pc k
      → Phase (take m d) (update pc i (taken d)) k
  take-Phase k was own some_left ph = elim (ℕ_discrete (index m d) k) [
    | yes here ↦ read d i here (ground arith) (ground (arith, inv.room)) inv.bounded (ground arith)
    | no there ↦ elsewhere there ph
  ]
    where
      elsewhere : index m d ≢ k → Phase m pc k → Phase (take m d) (update pc i (taken d)) k
      elsewhere there (free t at now late early) = free t at now late (ground (arith, inv.room))
      elsewhere there (written t j at now late early owner) =
          written t j at now (ground (arith, inv.room, there)) early (ground arith)
      elsewhere there (full t at now late early holds) =
          full t at now (ground (arith, inv.room, there)) early holds
      elsewhere there (read t j at now early late owner) =
          read t j at now (ground (arith, inv.room)) late (ground arith)

  -- The slot that is released is free for the sender one round later.
  unreleased : (p : ℕ) → seen m p ≡ p + 1 → p < d → Phase m pc (index m p) → e ≤ p + m.capacity
  unreleased p own before (free t at now late early) =
      absurd (ground (arith, add-one-mod-ne m.capacity p inv.several))
  unreleased p own before (written t j at now late early owner) =
      absurd (ground (arith, add-one-mod-ne m.capacity p inv.several))
  unreleased p own before (full t at now late early holds) = absurd (omega arith)
  unreleased p own before (read t j at now early late owner) = omega arith

  pub release-Phase :
      (v : A) (p k : ℕ)
      → pc i ≡ copied v p
      → seen m p ≡ p + 1
      → p < d
      → Phase m pc (index m p)
      → Phase m pc k
      → Phase (store_sequence m p (p + m.capacity)) (update pc i (released v p)) k
  release-Phase v p k was own before ph ph' = elim (ℕ_discrete (index m p) k) [
    | yes here ↦
        free (p + m.capacity) (add-mod_right p m.capacity ∙ here)
          (ground (arith, inv.room, inv.ordered)) (unreleased p own before ph) (omega arith)
    | no other ↦ elsewhere other ph'
  ]
    where
      elsewhere :
          index m p ≢ k
          → Phase m pc k
          → Phase (store_sequence m p (p + m.capacity)) (update pc i (released v p)) k
      elsewhere other (free t at now late early) = free t at (ground (arith, other)) late early
      elsewhere other (written t j at now late early owner) =
          written t j at (ground (arith, other)) late early (ground arith)
      elsewhere other (full t at now late early holds) =
          full t at (ground (arith, other)) late early holds
      elsewhere other (read t j at now early late owner) =
          read t j at (ground (arith, other)) early late (ground (arith, other))
