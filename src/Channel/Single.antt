-- ===== src/Channel/Single.antt =====
-- include/shmchan/channel.hpp: a channel of one slot against the queue of one value.
use shmchan.Common.{
  ℕ, ◌+◌, ◌%◌, ◌≡◌, refl, sym, ap, ap₂, ◌∙◌, Bool, true, false, not, List, [], ◌∷◌, Option, none,
  some,
}
use shmchan.Status.{ChannelStatus, no_value, u32_mod}
use shmchan.Channel.Sender.{word_of, register, unregister}
use shmchan.Channel.Sender
use shmchan.Channel.Ring.{try_enqueue, try_dequeue}
use shmchan.Channel.Send.{Fixed, attempt, try_send, close}
use shmchan.Channel.Receive.{try_receive}
use shmchan.Channel.Queue.{Queue, Call, put, get, shut, Reply, answer, status, got, done}
use shmchan.Channel.Queue
use shmchan.Channel.Calls
use shmchan.Channel.Calls.{turn}

-- What a channel of one slot has besides its value: the words that are not used, the epochs, and
-- what is in the storage of an empty slot.
pub record Rest (A : Type 0) : Type 0 where
  pub enqueue_position : ℕ
  pub dequeue_position : ℕ
  pub readable_epoch : ℕ
  pub writable_epoch : ℕ
  pub stale : A

module _ {A : Type 0} where
  -- The channel of one slot that holds this value or none, with nobody inside.
  abbrev pub single : Rest A → Option A → Bool → Fixed A
  single r content is_open = record {
    ring = record {
      capacity = 1;
      enqueue_position = r.enqueue_position;
      dequeue_position = r.dequeue_position;
      readable_epoch = r.readable_epoch;
      writable_epoch = r.writable_epoch;
      slots =
          elim content [
            | none ↦ record { sequence = 0; storage = r.stale }
            | some x ↦ record { sequence = 2; storage = x }
          ]
          ∷ [];
    };
    sender_state = word_of (not is_open) 0;
  }

  abbrev pub queue : Option A → Bool → Queue A
  queue content is_open = record {
    items = elim content [ none ↦ [] | some x ↦ x ∷ [] ];
    is_open = is_open;
  }

  -- A call and the queue's answer, with the same reply.
  Agree : Rest A → Option A → Bool → Call A → Type 0
  Agree r content is_open call =
      (reply : Reply A) × (r' : Rest A) × (content' : Option A) × (open' : Bool) × (turn
          (single r content is_open) call
        ≡ (reply, single r' content' open'))
      × (answer 1 (queue content is_open) call ≡ (reply, queue content' open'))

  turn-Agree :
      (r : Rest A) (content : Option A) (is_open : Bool) (call : Call A)
      → Agree r content is_open call
  unfolding Agree turn answer attempt try_send try_receive close register try_enqueue unregister
      try_dequeue Sender.closed_and_senders_done Sender.close
  turn-Agree r none true (put x) = (
    status ChannelStatus.success,
    record r { readable_epoch = (r.readable_epoch + 1) % u32_mod },
    some x,
    true,
    refl,
    refl,
  )
  turn-Agree r (some y) true (put x) =
      (status ChannelStatus.would_block, r, some y, true, refl, refl)
  turn-Agree r content false (put x) = (status ChannelStatus.closed, r, content, false, refl, refl)
  turn-Agree r none true get = (got (no_value ChannelStatus.would_block), r, none, true, refl, refl)
  turn-Agree r none false get = (got (no_value ChannelStatus.closed), r, none, false, refl, refl)
  turn-Agree r (some y) is_open get = (
    got (record { code = ChannelStatus.success; value = some y }),
    record r { writable_epoch = (r.writable_epoch + 1) % u32_mod; stale = y },
    none,
    is_open,
    refl,
    refl,
  )
  turn-Agree r content true shut = (
    done true,
    record r {
      writable_epoch = (r.writable_epoch + 1) % u32_mod;
      readable_epoch = (r.readable_epoch + 1) % u32_mod;
    },
    content,
    false,
    refl,
    refl,
  )
  turn-Agree r content false shut = (done false, r, content, false, refl, refl)

  -- A channel of one slot that is not being used, empty or full, open or closed: the replies of
  -- `try_send`, `try_receive` and `close`, called one after the other in any order, are those of a
  -- queue of at most one value.
  pub run-single :
      (calls : List (Call A)) (r : Rest A) (content : Option A) (is_open : Bool)
      → Calls.run (single r content is_open) calls ≡ Queue.run 1 (queue content is_open) calls
  unfolding Calls.run Queue.run Agree
  run-single [] r content is_open = refl
  run-single (call ∷ rest) r content is_open =
      let (reply, r', content', open', e, e') = turn-Agree r content is_open call in
      ap₂ ◌∷◌ (ap (λ p. p.0) e ∙ sym (ap (λ p. p.0) e')) (
        ap (λ p. Calls.run p.1 rest) e
        ∙ run-single rest r' content' open'
        ∙ sym (ap (λ p. Queue.run 1 p.1 rest) e'))
