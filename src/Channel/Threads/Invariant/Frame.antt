-- ===== src/Channel/Threads/Invariant/Frame.antt =====
-- include/shmchan/channel.hpp: what a move leaves as it was.
use native.Mathlib.Nat.{mod-lt}
use shmchan.Common.{
  ℕ, ◌+◌, ◌%◌, ◌^◌, ◌<◌, ◌≡◌, ◌≢◌, inl, inr, Option, none, some, arith, subst, Bool-cases, ◌==◌,
}
use shmchan.Status.{u64_mod}
use shmchan.Channel.Ring.{difference}
use shmchan.Channel.Threads.{Memory, index, seen, update, Pc}
use shmchan.Channel.Threads.Invariant.{
  claim_of, hold_of, receipt_of, Knows, Phase, free, written, full, read, Inv,
}
use shmchan.Channel.Threads.Invariant.Moves.{epochs-Knows}
use shmchan.Channel.Threads.Invariant.Phases.{same-Phase, epochs-Phase}

-- No position belongs to two threads.
abbrev pub IsUnique : {A : Type 0} → (Pc A → Option ℕ) → (ℕ → Pc A) → Type 0
IsUnique f pc = (j k t : ℕ) → f (pc j) ≡ some t → f (pc k) ≡ some t → j ≡ k

module _ {A : Type 0} (pc : ℕ → Pc A) (i : ℕ) (q : Pc A) (f : Pc A → Option ℕ) where
  pub kept-IsUnique : f q ≡ f (pc i) → IsUnique f pc → IsUnique f (update pc i q)
  kept-IsUnique same h j k t a b = ground (arith, h j k t)

  pub lost-IsUnique : f q ≡ none → IsUnique f pc → IsUnique f (update pc i q)
  lost-IsUnique gone h j k t a b = ground (arith, h j k t)

  pub gained-IsUnique :
      (u : ℕ)
      → f q ≡ some u
      → ((j : ℕ) → f (pc j) ≢ some u)
      → IsUnique f pc
      → IsUnique f (update pc i q)
  gained-IsUnique u mine fresh h j k t a b = ground (arith, h j k t, fresh j, fresh k)

module _ {A : Type 0} (m : Memory A) (pc : ℕ → Pc A) (inv : Inv m pc) where
  pub claim-lt : (q : Pc A) (u : ℕ) → Knows m q → claim_of q ≡ some u → u < m.enqueue_position
  claim-lt q u k mine = ground arith

  pub receipt-lt : (q : Pc A) (u : ℕ) → Knows m q → receipt_of q ≡ some u → u < m.dequeue_position
  receipt-lt q u k mine = ground arith

  pub at : (p : ℕ) → Phase m pc (index m p)
  at p = inv.phase (index m p) (mod-lt p (omega (arith, inv.several)))

  -- What a thread reads is near the positions, so that the signed difference is that of numbers.
  pub seen-lt : (p : ℕ) → seen m p < 2 ^ 63
  seen-lt p = elim (at p) [
    | free t place now late early ↦ omega (arith, inv.room, inv.ordered)
    | written t j place now late early owner ↦ omega (arith, inv.room)
    | full t place now late early holds ↦ omega (arith, inv.room)
    | read t j place now early late owner ↦ omega (arith, inv.room, inv.ordered)
  ]

  pub reads_same : (p : ℕ) → p < 2 ^ 63 → difference (seen m p) p ≡ 0 → seen m p ≡ p
  reads_same p small same = ground (arith, seen-lt p)

  pub reads_next :
      (p : ℕ) → p < 2 ^ 62 → difference (seen m p) ((p + 1) % u64_mod) ≡ 0 → seen m p ≡ p + 1
  reads_next p small same = ground (arith, seen-lt p)

  pub epochs-Inv : (r w : ℕ) → Inv (record m { readable_epoch = r; writable_epoch = w }) pc
  epochs-Inv r w = record {
    several = inv.several;
    room = inv.room;
    ordered = inv.ordered;
    bounded = inv.bounded;
    phase = λ k inside. epochs-Phase m pc r w k (inv.phase k inside);
    knows = λ j. epochs-Knows m pc inv r w (pc j) (inv.knows j);
    one_sender = inv.one_sender;
    one_receiver = inv.one_receiver;
    returned = inv.returned;
    delivered = inv.delivered;
  }

module _ {A : Type 0} (m : Memory A) (pc : ℕ → Pc A) (inv : Inv m pc) (i : ℕ) where
  pub update-Knows :
      (m' : Memory A) (q : Pc A)
      → Knows m' q
      → ((j : ℕ) → i ≢ j → Knows m' (pc j))
      → (j : ℕ) → Knows m' (update pc i q j)
  update-Knows m' q own others j = elim (Bool-cases (i == j)) [
    | inl e ↦ rw e own
    | inr e ↦ rw e (others j (ground arith))
  ]

  -- A position of another thread is another one.
  pub other_claim : (p : ℕ) → claim_of (pc i) ≡ some p → (j : ℕ) → i ≢ j → claim_of (pc j) ≢ some p
  other_claim p mine j ne theirs = ne (inv.one_sender i j p mine theirs)

  pub other_receipt :
      (p : ℕ) → receipt_of (pc i) ≡ some p → (j : ℕ) → i ≢ j → receipt_of (pc j) ≢ some p
  other_receipt p mine j ne theirs = ne (inv.one_receiver i j p mine theirs)

  -- A move that leaves the memory and the thread's positions as they were.
  pub stay-Inv :
      (q : Pc A)
      → claim_of q ≡ claim_of (pc i)
      → hold_of q ≡ hold_of (pc i)
      → receipt_of q ≡ receipt_of (pc i)
      → Knows m q
      → Inv m (update pc i q)
  stay-Inv q c h r own = record {
    several = inv.several;
    room = inv.room;
    ordered = inv.ordered;
    bounded = inv.bounded;
    phase = λ k inside. same-Phase m pc inv i q k c h (inv.phase k inside);
    knows = update-Knows m q own (λ j ne. inv.knows j);
    one_sender = kept-IsUnique pc i q claim_of c inv.one_sender;
    one_receiver = kept-IsUnique pc i q receipt_of r inv.one_receiver;
    returned = inv.returned;
    delivered = λ t before. elim (inv.delivered t before) [
      | inl there ↦ inl there
      | inr (j, owner) ↦ inr (j, ground arith)
    ];
  }

  -- What is known of a variable that the thread stands at.
  pub known : (p : Pc A) → pc i ≡ p → Knows m p
  known p was = subst (Knows m) was (inv.knows i)
