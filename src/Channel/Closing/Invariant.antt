-- ===== src/Channel/Closing/Invariant.antt =====
-- include/shmchan/channel.hpp: the word counts the senders that are inside.
use shmchan.Common.{
  ℕ, ◌+◌, ◌-◌, ◌%◌, ◌^◌, ◌<◌, ◌≡◌, ◌≢◌, inl, inr, Bool, Bool-cases, true, false, none, arith, refl,
  sym, ap, ◌∙◌, subst, ◌==◌,
}
use mathlib.Core.Path.{fun_ext}
use shmchan.Status.{u32_mod}
use shmchan.Channel.Sender.{channel_closed_bit, is_closed, active_senders, word_of}
use shmchan.Channel.Threads.{Memory, update, Pc, idle, HasRoom, Move}
use shmchan.Channel.Threads.Invariant.{claim_of, Inv}
use shmchan.Channel.Threads.Invariant.Frame.{stay-Inv}
use shmchan.Channel.Threads.Invariant.Step.{Move-Inv}
use shmchan.Channel.Closing.{
  Task, outside, registering, inside, last_out, first, checking, second, last_try, last_look,
  told_closed, closing_readers, closing_writers,
}
use shmchan.Channel.Closing.Count.{total, total-update, weight-le-total}

module _ {A : Type 0} where
  -- Where a task stands in the ring.
  abbrev pub pc_of : Task A → Pc A
  pc_of (inside q) = q
  pc_of (first q) = q
  pc_of (second q) = q
  pc_of (last_try q) = q
  pc_of _ = idle

  abbrev pub counts : Task A → ℕ
  counts (inside q) = 1
  counts _ = 0

  -- What a task says of the word.
  abbrev pub Plays : ℕ → Task A → Type 0
  Plays word (first q) = claim_of q ≡ none
  Plays word (second q) = (claim_of q ≡ none) × (word ≡ channel_closed_bit)
  Plays word (last_try q) = claim_of q ≡ none
  Plays word _ = Unit

  pub record WorldInv (n : ℕ) (m : Memory A) (word : ℕ) (task : ℕ → Task A) : Type 0 where
    pub ring : Inv m (λ j. pc_of (task j))
    pub is_shut : Bool
    pub few : total counts n task < 2 ^ 31
    pub counted : word ≡ word_of is_shut (total counts n task)
    pub plays : (j : ℕ) → Plays word (task j)

  pcs-update :
      (task : ℕ → Task A) (i : ℕ) (t : Task A)
      → update (λ j. pc_of (task j)) i (pc_of t) ≡ (λ j. pc_of (update task i t j))
  pcs-update task i t = fun_ext (λ j. elim (Bool-cases (i == j)) [ inl e ↦ rw e | inr e ↦ rw e ])

  -- A move that leaves the word and the count.
  module _ (n : ℕ) {m : Memory A} {word : ℕ} {task : ℕ → Task A} (inv : WorldInv n m word task)
      (i : ℕ) (below : i < n) where
    step_ring :
        {m' : Memory A} (t : Task A)
        → Inv m' (update (λ j. pc_of (task j)) i (pc_of t))
        → Inv m' (λ j. pc_of (update task i t j))
    step_ring {m'} t = subst (Inv m') (pcs-update task i t)

    update-Plays :
        (word' : ℕ) (t : Task A)
        → Plays word' t
        → ((j : ℕ) → i ≢ j → Plays word' (task j))
        → (j : ℕ) → Plays word' (update task i t j)
    update-Plays word' t own others j = elim (Bool-cases (i == j)) [
      | inl e ↦ rw e own
      | inr e ↦ rw e (others j (ground arith))
    ]

    pub same_word :
        (m' : Memory A) (t : Task A)
        → counts t ≡ counts (task i)
        → Plays word t
        → Inv m' (update (λ j. pc_of (task j)) i (pc_of t))
        → WorldInv n m' word (update task i t)
    same_word m' t same own ring = record {
      ring = step_ring t ring;
      is_shut = inv.is_shut;
      few = omega (arith, inv.few, total-update counts n i task t below);
      counted =
          let equal : total counts n (update task i t) ≡ total counts n task =
            omega (arith, total-update counts n i task t below) in
          inv.counted ∙ ap (word_of inv.is_shut) (sym equal);
      plays = update-Plays word t own (λ j ne. inv.plays j);
    }

    -- A move that changes the word, which nobody has seen drained.
    new_word :
        (word' : ℕ) (t : Task A) (is_shut : Bool)
        → word ≢ channel_closed_bit
        → total counts n (update task i t) < 2 ^ 31
        → word' ≡ word_of is_shut (total counts n (update task i t))
        → Plays word' t
        → Inv m (update (λ j. pc_of (task j)) i (pc_of t))
        → WorldInv n m word' (update task i t)
    new_word word' t is_shut busy few counted own ring = record {
      ring = step_ring t ring;
      is_shut = is_shut;
      few = few;
      counted = counted;
      plays = update-Plays word' t own (λ j ne. still (task j) (inv.plays j));
    }
      where
        still : (t : Task A) → Plays word t → Plays word' t
        still (second q) p = absurd (busy p.1)
        still (first q) p = p
        still outside p = tt
        still (registering c) p = tt
        still (inside q) p = tt
        still last_out p = tt
        still (last_try q) p = p
        still last_look p = tt
        still told_closed p = tt
        still checking p = tt
        still closing_readers p = tt
        still closing_writers p = tt

    -- The ring where the thread stays outside of it, before and after.
    pub rest :
        (t : Task A)
        → pc_of (task i) ≡ idle
        → pc_of t ≡ idle
        → Inv m (update (λ j. pc_of (task j)) i (pc_of t))
    rest t out out' =
        stay-Inv m (λ j. pc_of (task j)) inv.ring i (pc_of t) (ground arith) (ground arith)
          (ground arith) (rw out' tt)

    pub ring_move :
        {q : Pc A} {q' : Pc A} {m' : Memory A} (t : Task A)
        → pc_of (task i) ≡ q
        → Move m q m' q'
        → pc_of t ≡ q'
        → HasRoom m'
        → Inv m' (update (λ j. pc_of (task j)) i (pc_of t))
    ring_move {q} {q'} {m'} t was mv now room =
        subst (λ p. Inv m' (update (λ j. pc_of (task j)) i p)) (sym now)
          (Move-Inv m (λ j. pc_of (task j)) inv.ring i mv was room)

    -- The word of a channel that is open, and of one with a sender inside.
    word_open : is_closed word ≡ false → word ≡ total counts n task
    word_open is_open = ground (arith, inv.few, inv.counted)

    word_busy : (q : Pc A) → task i ≡ inside q → 0 < total counts n task
    word_busy q was = omega (arith, weight-le-total counts n i task below, ap counts was)

    pub register-WorldInv :
        (c : ℕ)
        → task i ≡ registering c
        → is_closed c ≡ false
        → active_senders c ≢ channel_closed_bit - 1
        → word ≡ c
        → WorldInv n m ((c + 1) % u32_mod) (update task i (inside idle))
    register-WorldInv c was is_open more same =
        let is_open' : is_closed word ≡ false = ap is_closed same ∙ is_open in
        let plain = word_open is_open' in
        let one_more = total-update counts n i task (inside idle) below in
        let before = ap counts was in
        new_word ((c + 1) % u32_mod) (inside idle) false (λ e. omega (arith, inv.few))
          (ground (arith, inv.few)) (omega (arith, inv.few)) tt
          (rest (inside idle) (ground arith) refl)

    pub leave-WorldInv :
        (t : Task A)
        → task i ≡ inside idle
        → counts t ≡ 0
        → pc_of t ≡ idle
        → Plays ((word + u32_mod - 1) % u32_mod) t
        → WorldInv n m ((word + u32_mod - 1) % u32_mod) (update task i t)
    leave-WorldInv t was none_now out own =
        let one_less = total-update counts n i task t below in
        let before = ap counts was in
        let busy = word_busy idle was in
        new_word ((word + u32_mod - 1) % u32_mod) t inv.is_shut
          (λ e. ground (arith, inv.few, inv.counted)) (omega (arith, inv.few))
          (ground (arith, inv.few, inv.counted)) own (rest t (ground arith) out)

    pub close-WorldInv :
        task i ≡ outside
        → is_closed word ≡ false
        → WorldInv n m (word + channel_closed_bit) (update task i closing_readers)
    close-WorldInv was is_open =
        let plain = word_open is_open in
        let as_many = total-update counts n i task closing_readers below in
        let before = ap counts was in
        new_word (word + channel_closed_bit) closing_readers true (λ e. omega (arith, inv.few))
          (omega (arith, inv.few)) (omega arith) tt (rest closing_readers (ground arith) refl)
