-- ===== src/Channel/Threads/Invariant/Receives.antt =====
-- include/shmchan/channel.hpp: the accesses of a receiver keep the invariant.
use native.Mathlib.Nat.{lt_irrefl}
use shmchan.Common.{ℕ, ◌+◌, ◌≡◌, inl, inr, none, arith, refl, subst, ℕ_discrete, Option-cases}
use shmchan.Channel.Threads.{
  Memory, seen, update, Pc, idle, saw_full, taken, copied, released, store_sequence, take,
  signal_writers,
}
use shmchan.Channel.Threads.Invariant.{claim_of, receipt_of, Knows, Inv}
use shmchan.Channel.Threads.Invariant.Moves.{take-Knows, release-Knows, return-Knows}
use shmchan.Channel.Threads.Invariant.Phases.{
  same-Phase, signal_writers-Phase, takeable, take-Phase, release-Phase,
}
use shmchan.Channel.Threads.Invariant.Frame.{
  kept-IsUnique, lost-IsUnique, gained-IsUnique, receipt-lt, at, update-Knows, other_receipt, known,
}

module _ {A : Type 0} (m : Memory A) (pc : ℕ → Pc A) (inv : Inv m pc) (i : ℕ) where
  pub take-Inv :
      pc i ≡ saw_full m.dequeue_position
      → seen m m.dequeue_position ≡ m.dequeue_position + 1
      → Inv (take m m.dequeue_position) (update pc i (taken m.dequeue_position))
  take-Inv was own =
      let (some_left, there) = takeable m pc inv i own (at m pc inv m.dequeue_position) in
      record {
        several = inv.several;
        room = inv.room;
        ordered = ground (arith, inv.room);
        bounded = ground (arith, inv.room, inv.bounded);
        phase = λ k inside. take-Phase m pc inv i k was own some_left (inv.phase k inside);
        knows =
            update-Knows m pc inv i (take m m.dequeue_position) (taken m.dequeue_position)
              (ground (arith, inv.room), own, there, nothing_got)
              (λ j ne. take-Knows m pc inv (pc j) some_left (inv.knows j));
        one_sender =
            kept-IsUnique pc i (taken m.dequeue_position) claim_of (ground arith) inv.one_sender;
        one_receiver =
            gained-IsUnique pc i (taken m.dequeue_position) receipt_of m.dequeue_position refl
              (λ j theirs.
                lt_irrefl m.dequeue_position
                  (receipt-lt m pc inv (pc j) m.dequeue_position (inv.knows j) theirs))
              inv.one_receiver;
        returned = λ t w got. ground (arith, inv.returned t w got, inv.room);
        delivered = λ t before. elim (ℕ_discrete t m.dequeue_position) [
          | yes last ↦ inr (i, ground arith)
          | no other ↦ elim (inv.delivered t (ground (arith, inv.room))) [
            | inl there ↦ inl there
            | inr (j, owner) ↦ inr (j, ground arith)
          ]
        ];
      }
    where
      nothing_got : m.got m.dequeue_position ≡ none
      nothing_got = elim (Option-cases (m.got m.dequeue_position)) [
        | inl e ↦ e
        | inr (w, e) ↦ absurd (lt_irrefl m.dequeue_position (inv.returned m.dequeue_position w e).0)
      ]

  pub release-Inv :
      (v : A) (p : ℕ)
      → pc i ≡ copied v p
      → Knows m (copied v p)
      → Inv (store_sequence m p (p + m.capacity)) (update pc i (released v p))
  release-Inv v p was (before, own, value, fresh) = record {
    several = inv.several;
    room = inv.room;
    ordered = inv.ordered;
    bounded = inv.bounded;
    phase = λ k inside.
        release-Phase m pc inv i v p k was own before (at m pc inv p) (inv.phase k inside);
    knows =
        update-Knows m pc inv i (store_sequence m p (p + m.capacity)) (released v p)
          (before, value, fresh)
          (λ j ne.
            release-Knows m pc inv p (pc j) own before
              (other_receipt m pc inv i p (ground arith) j ne) (inv.knows j));
    one_sender = kept-IsUnique pc i (released v p) claim_of (ground arith) inv.one_sender;
    one_receiver = kept-IsUnique pc i (released v p) receipt_of (ground arith) inv.one_receiver;
    returned = inv.returned;
    delivered = λ t early. elim (inv.delivered t early) [
      | inl there ↦ inl there
      | inr (j, owner) ↦ inr (j, ground arith)
    ];
  }

  pub return-Inv :
      (v : A) (p : ℕ)
      → pc i ≡ released v p
      → Knows m (released v p)
      → Inv (signal_writers m v p) (update pc i idle)
  return-Inv v p was (before, value, fresh) = record {
    several = inv.several;
    room = inv.room;
    ordered = inv.ordered;
    bounded = inv.bounded;
    phase = λ k inside.
        signal_writers-Phase m (update pc i idle) v p k
          (same-Phase m pc inv i idle k (ground arith) (ground arith) (inv.phase k inside));
    knows = update-Knows m pc inv i (signal_writers m v p) idle tt (λ j ne.
        return-Knows m pc inv v p (pc j) (other_receipt m pc inv i p (ground arith) j ne)
          (inv.knows j));
    one_sender = lost-IsUnique pc i idle claim_of refl inv.one_sender;
    one_receiver = lost-IsUnique pc i idle receipt_of refl inv.one_receiver;
    returned = λ t w got. ground (arith, inv.returned t w);
    delivered = λ t early. elim (inv.delivered t early) [
      | inl there ↦ inl (ground arith)
      | inr (j, owner) ↦ elim (ℕ_discrete i j) [
        | yes mine ↦ inl (ground arith)
        | no other ↦ inr (j, ground arith)
      ]
    ];
  }

  pub win_receive-Inv :
      (p : ℕ) → m.dequeue_position ≡ p → pc i ≡ saw_full p → Inv (take m p) (update pc i (taken p))
  win_receive-Inv p won =
      subst (λ u. pc i ≡ saw_full u → Inv (take m u) (update pc i (taken u))) won
        (λ was.
          take-Inv was (let k = known m pc inv i (saw_full m.dequeue_position) was in ground arith))
