-- ===== src/Channel/Closing/Drained.antt =====
-- include/shmchan/channel.hpp: a channel that is closed gives out all that was sent.
use shmchan.Common.{
  ◌∙◌, ℕ, ◌^◌, ◌<◌, ◌≤◌, ◌≡◌, ◌≢◌, ◌⊎◌, inl, inr, true, false, some, arith, refl, sym, ap, subst,
  dec_lt, Bool,
}
use shmchan.Channel.Sender.{channel_closed_bit, word_of}
use shmchan.Channel.Threads.{Memory, in_try_dequeue, Pc, idle, Move, win_send}
use shmchan.Channel.Threads.Invariant.{claim_of, receipt_of}
use shmchan.Channel.Threads.Safety.{init-Inv, refused_dry}
use shmchan.Channel.Closing.{
  Task, outside, registering, inside, last_out, first, checking, second, last_try, last_look,
  told_closed, say_closed, closing_readers, second_empty, first_empty, last_empty, first_done,
  second_done, last_done, try_last, closing_writers, World, is_receiving, Act, register, attempt,
  leave, leave_last, try_first, try_second, close_open, Step, pick, Reach, start, later,
}
use shmchan.Channel.Closing.Count.{total, weight-le-total, total-eq-zero}
use shmchan.Channel.Closing.Invariant.{pc_of, counts, Plays, WorldInv}
use shmchan.Channel.Closing.Steps.{Act-WorldInv}

module _ {A : Type 0} (n capacity : ℕ) (blank : ℕ → A) where
  total-outside : total {A = Task A} counts n (λ _. outside) ≡ 0
  total-outside = total-eq-zero counts n (λ _. outside) (λ j. refl)

  pub Reach-WorldInv :
      {w : World A}
      → 1 < capacity
      → capacity < 2 ^ 62
      → Reach n capacity blank w
      → WorldInv n w.mem w.sender_state w.task
  Reach-WorldInv several small start = record {
    ring = init-Inv capacity blank several small;
    is_shut = false;
    few = omega (arith, total-outside);
    counted = sym total-outside;
    plays = λ j. tt;
  }
  Reach-WorldInv several small (later {w} r (pick i below act) room) =
      Act-WorldInv n (Reach-WorldInv several small r) i below act refl room

  -- Only the first `n` threads are ever inside.
  Reach-outside : {w : World A} → Reach n capacity blank w → (j : ℕ) → n ≤ j → w.task j ≡ outside
  Reach-outside start j beyond = refl
  Reach-outside (later {w} r (pick i below act) room) j beyond =
      let still = Reach-outside r j beyond in ground arith

receive-enqueue_position :
    {A : Type 0} {m m' : Memory A} {q q' : Pc A}
    → Move m q m' q'
    → is_receiving q' ≡ true
    → m'.enqueue_position ≡ m.enqueue_position
receive-enqueue_position (win_send won) r = cc
receive-enqueue_position mv r = refl

-- Nor does a move to the outside claim one.
idle-enqueue_position :
    {A : Type 0} {m m' : Memory A} {q q' : Pc A}
    → Move m q m' q'
    → q' ≡ idle
    → m'.enqueue_position ≡ m.enqueue_position
idle-enqueue_position (win_send won) out = cc
idle-enqueue_position mv out = refl

-- Who has claimed a position is a registered sender.
claim-inside :
    {A : Type 0} (word t : ℕ) (task : Task A)
    → Plays word task
    → claim_of (pc_of task) ≡ some t
    → counts task ≡ 1
claim-inside word t (inside q) p e = refl
claim-inside word t (first q) p e = cc
claim-inside word t (second q) p e = let h = p.0 in cc
claim-inside word t (last_try q) p e = cc
claim-inside word t last_look p e = cc
claim-inside word t told_closed p e = cc
claim-inside word t outside p e = cc
claim-inside word t (registering c) p e = cc
claim-inside word t last_out p e = cc
claim-inside word t checking p e = cc
claim-inside word t closing_readers p e = cc
claim-inside word t closing_writers p e = cc

module _ {A : Type 0} (n capacity : ℕ) (blank : ℕ → A) (several : 1 < capacity)
    (small : capacity < 2 ^ 62) {w : World A} (reached : Reach n capacity blank w) where
  inv : WorldInv n w.mem w.sender_state w.task
  inv = Reach-WorldInv n capacity blank several small reached

  writes-counted :
      (j p : ℕ) → claim_of (pc_of (w.task j)) ≡ some p → (j < n) × (counts (w.task j) ≡ 1)
  writes-counted j p e = elim (dec_lt j n) [
    | yes below ↦ (below, claim-inside w.sender_state p (w.task j) (inv.plays j) e)
    | no beyond ↦
        let out = Reach-outside n capacity blank reached j (omega arith) in absurd (ground arith)
  ]

  some_inside : (j p : ℕ) → claim_of (pc_of (w.task j)) ≡ some p → 0 < total counts n w.task
  some_inside j p e =
      let (below, one) = writes-counted j p e in
      omega (arith, weight-le-total counts n j w.task below)

  -- In every reachable state the word is the count of the registered senders, with the bit of a
  -- closed channel, and the count has not run into the bit; a thread that is writing a slot is one
  -- of the threads that are counted.
  pub word_counts :
      (is_shut : Bool) × (w.sender_state ≡ word_of is_shut (total counts n w.task))
      × (total counts n w.task < 2 ^ 31)
      × ((j p : ℕ) → claim_of (pc_of (w.task j)) ≡ some p → (j < n) × (counts (w.task j) ≡ 1))
  word_counts = (inv.is_shut, inv.counted, inv.few, writes-counted)

  -- Nobody is writing where the word reads closed with no senders.
  nobody : w.sender_state ≡ channel_closed_bit → (j p : ℕ) → claim_of (pc_of (w.task j)) ≢ some p
  nobody done j p e = ground (arith, some_inside j p e, inv.few, inv.counted)

  -- The two ways in which a receiver says `closed`.
  says-closed :
      {t t' : Task A} {m' : Memory A} {word word' : ℕ}
      → Act w.mem word t m' word' t'
      → t' ≡ told_closed
      → ((t ≡ last_look) × (word ≡ channel_closed_bit))
        ⊎ ((q : Pc A) × (t ≡ second q) × (in_try_dequeue q ≡ true) × Move w.mem q m' idle)
  says-closed (say_closed now) said = inl (refl, now)
  says-closed (second_empty {q} mv early) said = inr (q, refl, early, mv)
  says-closed act said = cc

  -- A `try_dequeue` that was begun after the word read closed with no senders, and that fails.
  all_taken :
      (i : ℕ) (q : Pc A) {m' : Memory A}
      → w.task i ≡ second q
      → in_try_dequeue q ≡ true
      → Move w.mem q m' idle
      → (w.sender_state ≡ channel_closed_bit) × (w.mem.dequeue_position ≡ w.mem.enqueue_position)
  all_taken i q {m'} was early mv =
      let at_q : pc_of (w.task i) ≡ q = ap pc_of was in
      let seen_done = subst (Plays w.sender_state) was (inv.plays i) in
      (
        seen_done.1,
        elim (refused_dry w.mem (λ j. pc_of (w.task j)) inv.ring i
            (subst (λ x. Move w.mem x m' idle) (sym at_q) mv) (ap in_try_dequeue at_q ∙ early)) [
              | inl all ↦ all
              | inr (j, owner) ↦ absurd (nobody seen_done.1 j w.mem.dequeue_position owner)
            ],
      )

  -- A receiver says `closed` only where the word reads closed with no senders, and, if it does not
  -- say so at the look after a wait that has timed out, every position has been taken: each value
  -- sent has been returned, or is in the hands of a receiver.
  pub drained :
      (i : ℕ) {m' : Memory A} {word' : ℕ}
      → Act w.mem w.sender_state (w.task i) m' word' told_closed
      → (w.sender_state ≡ channel_closed_bit)
        × ((w.task i ≡ last_look)
            ⊎ ((w.mem.dequeue_position ≡ w.mem.enqueue_position)
                × ((t : ℕ)
                    → t < w.mem.enqueue_position
                    → (w.mem.got t ≡ some (w.mem.sent t))
                      ⊎ ((j : ℕ) × (receipt_of (pc_of (w.task j)) ≡ some t)))))
  drained i act = elim (says-closed act refl) [
    | inl (late, done) ↦ (done, inl late)
    | inr (q, was, early, mv) ↦
        let (done, taken_all) = all_taken i q was early mv in
        (done, inr (taken_all, λ t before. inv.ring.delivered t (rw taken_all before)))
  ]

  no_senders : w.sender_state ≡ channel_closed_bit → total counts n w.task ≡ 0
  no_senders done = ground (arith, inv.few, inv.counted)

  not_inside :
      (i : ℕ) (q : Pc A) → i < n → w.task i ≡ inside q → w.sender_state ≢ channel_closed_bit
  not_inside i q below was done =
      let one = ap counts was in
      omega (arith, weight-le-total counts n i w.task below, no_senders done)

  act_keeps :
      (i : ℕ) {m : Memory A} {word : ℕ} {t t' : Task A}
      → i < n
      → Act w.mem w.sender_state t m word t'
      → w.task i ≡ t
      → w.sender_state ≡ channel_closed_bit
      → (word ≡ channel_closed_bit) × (m.enqueue_position ≡ w.mem.enqueue_position)
  act_keeps i below (register {c} is_open more same) was done = absurd (ground arith)
  act_keeps i below (attempt {q} mv s) was done = absurd (not_inside i q below was done)
  act_keeps i below (leave e) was done = absurd (not_inside i idle below was done)
  act_keeps i below (leave_last e) was done = absurd (not_inside i idle below was done)
  act_keeps i below (try_first mv r) was done = (done, receive-enqueue_position mv r)
  act_keeps i below (try_second mv r) was done = (done, receive-enqueue_position mv r)
  act_keeps i below (try_last mv r) was done = (done, receive-enqueue_position mv r)
  act_keeps i below (first_empty mv h) was done = (done, idle-enqueue_position mv refl)
  act_keeps i below (second_empty mv h) was done = (done, idle-enqueue_position mv refl)
  act_keeps i below (last_empty mv h) was done = (done, idle-enqueue_position mv refl)
  act_keeps i below (first_done mv) was done = (done, idle-enqueue_position mv refl)
  act_keeps i below (second_done mv) was done = (done, idle-enqueue_position mv refl)
  act_keeps i below (last_done mv) was done = (done, idle-enqueue_position mv refl)
  act_keeps i below (close_open is_open) was done = absurd (ground arith)
  act_keeps i below act was done = (done, refl)

-- Once the word reads closed with no senders, it stays so, and no position is claimed for a send.
pub closed_for_good :
    {A : Type 0} (n capacity : ℕ) (blank : ℕ → A)
    → 1 < capacity
    → capacity < 2 ^ 62
    → {w x : World A} → Reach n capacity blank w
    → w.sender_state ≡ channel_closed_bit
    → Step n w x
    → (x.sender_state ≡ channel_closed_bit) × (x.mem.enqueue_position ≡ w.mem.enqueue_position)
closed_for_good n capacity blank several small reached done (pick i below act) =
    act_keeps n capacity blank several small reached i below act refl done
