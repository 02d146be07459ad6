-- ===== src/Channel/Threads/Invariant/Sends.antt =====
-- include/shmchan/channel.hpp: the accesses of a sender keep the invariant.
use native.Mathlib.Nat.{lt_irrefl}
use shmchan.Common.{ℕ, ◌+◌, ◌≡◌, inl, inr, arith, refl, subst}
use shmchan.Channel.Threads.{
  Memory, seen, update, Pc, saw_free, claimed, filled, published, claim, fill, store_sequence,
  HasRoom,
}
use shmchan.Channel.Threads.Invariant.{claim_of, receipt_of, Knows, Inv}
use shmchan.Channel.Threads.Invariant.Moves.{claim-Knows, fill-Knows, publish-Knows}
use shmchan.Channel.Threads.Invariant.Phases.{claimable, claim-Phase, fill-Phase, publish-Phase}
use shmchan.Channel.Threads.Invariant.Frame.{
  kept-IsUnique, lost-IsUnique, gained-IsUnique, claim-lt, at, update-Knows, other_claim, known,
}

module _ {A : Type 0} (m : Memory A) (pc : ℕ → Pc A) (inv : Inv m pc) (i : ℕ) where
  -- The slot of the next position is free where it reads as such.
  pub claim-Inv :
      (v : A)
      → pc i ≡ saw_free v m.enqueue_position
      → HasRoom (claim m v m.enqueue_position)
      → seen m m.enqueue_position ≡ m.enqueue_position
      → Inv (claim m v m.enqueue_position) (update pc i (claimed v m.enqueue_position))
  claim-Inv v was room own = record {
    several = inv.several;
    room = room;
    ordered = ground (arith, inv.room, inv.ordered);
    bounded = ground (arith, inv.room, claimable m pc inv i own (at m pc inv m.enqueue_position));
    phase = λ k inside. claim-Phase m pc inv i v k was own (inv.phase k inside);
    knows =
        update-Knows m pc inv i (claim m v m.enqueue_position) (claimed v m.enqueue_position)
          (ground (arith, inv.room)) (λ j ne. claim-Knows m pc inv v (pc j) (inv.knows j));
    one_sender =
        gained-IsUnique pc i (claimed v m.enqueue_position) claim_of m.enqueue_position refl
          (λ j theirs.
            lt_irrefl m.enqueue_position
              (claim-lt m pc inv (pc j) m.enqueue_position (inv.knows j) theirs))
          inv.one_sender;
    one_receiver =
        kept-IsUnique pc i (claimed v m.enqueue_position) receipt_of (ground arith)
          inv.one_receiver;
    returned = λ t w got.
        let (before, same) = inv.returned t w got in (before, ground (arith, inv.ordered));
    delivered = λ t before. elim (inv.delivered t before) [
      | inl there ↦ inl (ground (arith, inv.ordered))
      | inr (j, owner) ↦ inr (j, ground arith)
    ];
  }

  pub fill-Inv :
      (v : A) (p : ℕ)
      → pc i ≡ claimed v p
      → Knows m (claimed v p)
      → Inv (fill m v p) (update pc i (filled v p))
  fill-Inv v p was (before, own, mine) = record {
    several = inv.several;
    room = inv.room;
    ordered = inv.ordered;
    bounded = inv.bounded;
    phase = λ k inside. fill-Phase m pc inv i v p k was own before (inv.phase k inside);
    knows = update-Knows m pc inv i (fill m v p) (filled v p) (ground arith) (λ j ne.
        fill-Knows m pc inv v p (pc j) own (other_claim m pc inv i p (ground arith) j ne)
          (inv.knows j));
    one_sender = kept-IsUnique pc i (filled v p) claim_of (ground arith) inv.one_sender;
    one_receiver = kept-IsUnique pc i (filled v p) receipt_of (ground arith) inv.one_receiver;
    returned = inv.returned;
    delivered = λ t before. elim (inv.delivered t before) [
      | inl there ↦ inl there
      | inr (j, owner) ↦ inr (j, ground arith)
    ];
  }

  pub publish-Inv :
      (v : A) (p : ℕ)
      → pc i ≡ filled v p
      → Knows m (filled v p)
      → Inv (store_sequence m p (p + 1)) (update pc i published)
  publish-Inv v p was facts = record {
    several = inv.several;
    room = inv.room;
    ordered = inv.ordered;
    bounded = inv.bounded;
    phase =
        λ k inside. publish-Phase m pc inv i v p k was facts (at m pc inv p) (inv.phase k inside);
    knows = update-Knows m pc inv i (store_sequence m p (p + 1)) published tt (λ j ne.
        publish-Knows m pc inv p (pc j) facts.1 facts.0
          (other_claim m pc inv i p (ground arith) j ne) (inv.knows j));
    one_sender = lost-IsUnique pc i published claim_of refl inv.one_sender;
    one_receiver = lost-IsUnique pc i published receipt_of refl inv.one_receiver;
    returned = inv.returned;
    delivered = λ t before. elim (inv.delivered t before) [
      | inl there ↦ inl there
      | inr (j, owner) ↦ inr (j, ground arith)
    ];
  }

  pub win_send-Inv :
      (v : A) (p : ℕ)
      → m.enqueue_position ≡ p
      → pc i ≡ saw_free v p
      → HasRoom (claim m v p)
      → Inv (claim m v p) (update pc i (claimed v p))
  win_send-Inv v p won =
      subst
        (λ u.
          pc i ≡ saw_free v u
          → HasRoom (claim m v u)
          → Inv (claim m v u) (update pc i (claimed v u)))
        won
        (λ was room.
          claim-Inv v was room
            (let k = known m pc inv i (saw_free v m.enqueue_position) was in ground arith))
