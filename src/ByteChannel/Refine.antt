-- ===== src/ByteChannel/Refine.antt =====
-- include/shmchan/byte_channel.hpp: turns of clients on the channel, against the bounded queue.
pub mod Runs
use native.Mathlib.Nat.{add-zero}
use shmchan.Common.{
  subst, ℕ, zero, suc, ◌+◌, ◌-◌, ◌^◌, ◌≤◌, ◌<◌, ◌≡◌, ◌⊎◌, inl, inr, refl, sym, ap, ap₂, ◌∙◌, Bool,
  Bool-cases, true, false, not, ◌&&◌, List, [], ◌∷◌, ◌++◌, arith, length, ltb, ◌==◌, if◌then◌else◌,
}
use shmchan.Status.{ChannelStatus, ReceiveResult, no_value, Bytes}
use shmchan.Channel.Sender
use shmchan.Channel.Sender.{
  register, registered, refused, unregister, is_closed, word_of, register-word_of,
  unregister-word_of, close-word_of, closed_and_senders_done, channel_closed_bit,
}
use shmchan.ByteChannel.State.{ByteRing}
use shmchan.ByteChannel.Enqueue.{enqueued, full, try_enqueue}
use shmchan.ByteChannel.Dequeue.{dequeued, try_dequeue}
use shmchan.ByteChannel.Chain.{size_of, total_of}
use shmchan.ByteChannel.Store.{HoldsQueue, undisturbed, Enqueues, try_enqueue-Enqueues}
use shmchan.ByteChannel.Take.{alone, Dequeues, try_dequeue-Dequeues}
use shmchan.ByteChannel.Send.{
  returned, try_send, try_send_entered, close, with_sender_state, leave, closed_or,
}
use shmchan.ByteChannel.Receive.{try_receive, receive_closed, or_else, received}
use shmchan.ByteChannel.Queue
use shmchan.ByteChannel.Queue.{
  Call, put, get, shut, Reply, status, got, done, nothing, Queue, offer, poll, answer,
}
use shmchan.ByteChannel.Calls
use shmchan.ByteChannel.Calls.{calm, quiet, visit, turn, bytes_of}

-- The ring holds the queue, with nobody inside.
pub record Represents (capacity budget : ℕ) (b : ByteRing) (q : Queue) : Type 0 where
  pub ring : HoldsQueue budget b q.items
  pub size : b.capacity_bytes ≡ capacity
  pub word : b.words.sender_state ≡ word_of (not q.is_open) 0

-- Neither the words nor a larger budget matter to what a ring holds.
pub HoldsQueue-words :
    {budget : ℕ} (more : ℕ) {b : ByteRing} {xs : List Bytes} (words : Sender.SenderWords)
    → HoldsQueue (budget + more) b xs
    → HoldsQueue budget (record b { words = words }) xs
HoldsQueue-words more words h = record {
  some_room = h.some_room;
  whole = h.whole;
  bounded = h.bounded;
  filled = h.filled;
  aligned = h.aligned;
  reclaimed = h.reclaimed;
  chain = h.chain;
  within = h.within;
  no_wrap = omega (arith, h.no_wrap);
}

pub weaker :
    {budget : ℕ} {b : ByteRing} {xs : List Bytes}
    → HoldsQueue budget b xs
    → HoldsQueue (budget + 0) b xs
weaker {budget} {b} {xs} h = subst (λ n. HoldsQueue n b xs) (sym (add-zero budget)) h

-- The word after the last of the senders has left.
left_alone : (b : ByteRing) → b.words.sender_state ≡ 1 → (unregister b.words).sender_state ≡ 0
left_alone b e = (unregister-word_of b.words false 0 (omega arith) e).0

-- `try_send` alone, by its outcomes.
module _ (b : ByteRing) (x : Bytes) where
  try_send-too_large :
      ltb (b.capacity_bytes - 32) (length x) ≡ true
      → try_send calm x b ≡ returned ChannelStatus.message_too_large b
  unfolding try_send
  try_send-too_large e = rw e

  try_send-shut :
      ltb (b.capacity_bytes - 32) (length x) ≡ false
      → b.words.sender_state ≡ word_of true 0
      → try_send calm x b ≡ returned ChannelStatus.closed (with_sender_state (word_of true 0) b)
  unfolding try_send
  try_send-shut e word = rw e (
      rw (
        ap (register (quiet ∷ [])) word ∙ register-word_of quiet [] true 0 (omega arith) refl refl,
        try_send,
      ))

  try_send-open :
      ltb (b.capacity_bytes - 32) (length x) ≡ false
      → b.words.sender_state ≡ word_of false 0
      → try_send calm x b ≡ try_send_entered calm x (with_sender_state 1 b)
  unfolding try_send
  try_send-open e word = rw e (
      rw (
        ap (register (quiet ∷ [])) word ∙ register-word_of quiet [] false 0 (omega arith) refl refl,
        try_send,
      ))

  module _ (inside : b.words.sender_state ≡ 1) where
    entered-full :
        try_enqueue (undisturbed ∷ []) x b ≡ full b
        → try_send_entered calm x b ≡ returned ChannelStatus.would_block (leave b)
    unfolding try_send_entered
    entered-full e =
        let open_word : is_closed b.words.sender_state ≡ false = ground (arith, inside) in
        rw open_word (rw (e, try_send_entered) (rw open_word))

    entered-sent :
        (b' : ByteRing)
        → try_enqueue (undisturbed ∷ []) x b ≡ enqueued b'
        → try_send_entered calm x b ≡ returned ChannelStatus.success (leave b')
    unfolding try_send_entered
    entered-sent b' e =
        let open_word : is_closed b.words.sender_state ≡ false = ground (arith, inside) in
        rw open_word (rw (e, try_send_entered))

module _ (capacity : ℕ) where
  -- The same reply, and again a ring that represents the queue.
  abbrev pub Matches : ℕ → Reply × ByteRing → Reply × Queue → Type 0
  Matches budget (r, b) (r', q) = (r ≡ r') × Represents capacity budget b q

  pub matches :
      (budget : ℕ) {t t' : Reply × ByteRing} {a a' : Reply × Queue}
      → t ≡ t'
      → a ≡ a'
      → Matches budget t' a'
      → Matches budget t a
  matches budget e f h = rw (e, f) h

  turn-put :
      (b b' : ByteRing) (x : Bytes) (s : ChannelStatus)
      → try_send calm x b ≡ returned s b'
      → turn b (put x) ≡ (status s, b')
  unfolding turn
  turn-put b b' x s e = rw (e, turn)

  module _ (budget : ℕ) (b : ByteRing) (q : Queue) (x : Bytes)
      (h : Represents capacity (budget + size_of x) b q) where
    pub put_too_large :
        ltb (capacity - 32) (length x) ≡ true
        → Matches budget (turn b (put x)) (answer capacity q (put x))
    unfolding answer
    put_too_large large =
        matches budget
          (turn-put b b x ChannelStatus.message_too_large
            (try_send-too_large b x (rw h.size large)))
          (rw (large, offer))
          (
            refl,
            record {
              ring = HoldsQueue-words (size_of x) b.words h.ring;
              size = h.size;
              word = h.word;
            },
          )

    module _ (fits : ltb (capacity - 32) (length x) ≡ false) where
      pub put_shut : q.is_open ≡ false → Matches budget (turn b (put x)) (answer capacity q (put x))
      unfolding answer
      put_shut is_shut =
          matches budget
            (turn-put b (with_sender_state (word_of true 0) b) x ChannelStatus.closed
              (try_send-shut b x (rw h.size fits) (h.word ∙ ap (λ o. word_of (not o) 0) is_shut)))
            (rw (fits, offer) (rw (is_shut, offer)))
            (
              refl,
              record {
                ring = HoldsQueue-words (size_of x) _ h.ring;
                size = h.size;
                word = sym (ap (λ o. word_of (not o) 0) is_shut);
              },
            )

      abbrev pub inside : ByteRing
      inside = with_sender_state 1 b

      pub inside-HoldsQueue : HoldsQueue (budget + size_of x) inside q.items
      inside-HoldsQueue = HoldsQueue-words 0 inside.words (weaker h.ring)

      pub put_open :
          q.is_open ≡ true
          → Enqueues budget inside q.items x (try_enqueue (undisturbed ∷ []) x inside)
          → Matches budget (turn b (put x)) (answer capacity q (put x))
      unfolding answer
      put_open is_open (inl (no_room, e)) =
          matches budget
            (turn-put b (leave inside) x ChannelStatus.would_block
              (entering ∙ entered-full inside x refl e))
            (rw (fits, offer) (rw (is_open, offer) (rw lacks)))
            (
              refl,
              record {
                ring = HoldsQueue-words (size_of x) _ h.ring;
                size = h.size;
                word = left_alone inside refl ∙ sym (ap (λ o. word_of (not o) 0) is_open);
              },
            )
        where
          entering : try_send calm x b ≡ try_send_entered calm x inside
          entering =
              try_send-open b x (rw h.size fits) (h.word ∙ ap (λ o. word_of (not o) 0) is_open)

          lacks : ltb capacity (total_of q.items + size_of x) ≡ true
          lacks = ground (arith, no_room, h.size)
      put_open is_open (inr (room, (b', e, holds, same, word))) =
          matches budget
            (turn-put b (leave b') x ChannelStatus.success
              (entering ∙ entered-sent inside x refl b' e))
            (rw (fits, offer) (rw (is_open, offer) (rw has_room)))
            (
              refl,
              record {
                ring = HoldsQueue-words 0 _ (weaker holds);
                size = same ∙ h.size;
                word = left_alone b' word ∙ sym (ap (λ o. word_of (not o) 0) is_open);
              },
            )
        where
          entering : try_send calm x b ≡ try_send_entered calm x inside
          entering =
              try_send-open b x (rw h.size fits) (h.word ∙ ap (λ o. word_of (not o) 0) is_open)

          has_room : ltb capacity (total_of q.items + size_of x) ≡ false
          has_room = ground (arith, room, h.size)
