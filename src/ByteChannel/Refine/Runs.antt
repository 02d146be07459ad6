-- ===== src/ByteChannel/Refine/Runs.antt =====
-- include/shmchan/byte_channel.hpp: receives, closes, and runs of calls.
use native.Mathlib.Nat.{add-zero, zero-add}
use shmchan.Common.{
  ℕ, ◌+◌, ◌-◌, ◌≡◌, refl, ap, ap₂, ◌∙◌, subst, Bool, Bool-cases, inl, inr, true, false, not, List,
  [], ◌∷◌, arith, length, ltb, if◌then◌else◌,
}
use shmchan.Status.{ChannelStatus, ReceiveResult, no_value, Bytes}
use shmchan.Channel.Sender.{closed_and_senders_done, word_of, close-word_of}
use shmchan.ByteChannel.State.{ByteRing}
use shmchan.ByteChannel.Dequeue.{dequeued, try_dequeue}
use shmchan.ByteChannel.Dequeue
use shmchan.ByteChannel.Chain.{size_of}
use shmchan.ByteChannel.Store.{try_enqueue-Enqueues}
use shmchan.ByteChannel.Take.{alone, Dequeues, try_dequeue-Dequeues}
use shmchan.ByteChannel.Send.{returned, close}
use shmchan.ByteChannel.Receive.{try_receive, receive_closed, or_else, received}
use shmchan.ByteChannel.Queue
use shmchan.ByteChannel.Queue.{
  Call, put, get, shut, Reply, status, got, done, nothing, Queue, poll, answer,
}
use shmchan.ByteChannel.Calls
use shmchan.ByteChannel.Calls.{visit, turn, bytes_of}
use shmchan.ByteChannel.Refine.{
  Represents, HoldsQueue-words, weaker, Matches, matches, put_too_large, put_shut, put_open, inside,
  inside-HoldsQueue,
}

-- `try_receive` alone, by its outcomes.
module _ (b : ByteRing) where
  try_receive-took :
      (x : Bytes) (b' : ByteRing)
      → try_dequeue alone b ≡ dequeued x b'
      → try_receive visit b ≡ returned (received x) b'
  unfolding try_receive or_else
  try_receive-took x b' e = rw (e, or_else)

  try_receive-empty :
      try_dequeue alone b ≡ Dequeue.nothing b
      → closed_and_senders_done b.words ≡ false
      → try_receive visit b ≡ returned (no_value ChannelStatus.would_block) b
  unfolding try_receive or_else
  try_receive-empty e f = rw (e, or_else) (rw (f, try_receive))

  try_receive-done :
      try_dequeue alone b ≡ Dequeue.nothing b
      → closed_and_senders_done b.words ≡ true
      → try_receive visit b ≡ returned (no_value ChannelStatus.closed) b
  unfolding try_receive or_else receive_closed
  try_receive-done e f = rw (e, or_else) (rw (f, try_receive) (rw (e, or_else)))

module _ (capacity : ℕ) where
  turn-get :
      (b b' : ByteRing) (r : ReceiveResult Bytes)
      → try_receive visit b ≡ returned r b'
      → turn b get ≡ (got r, b')
  unfolding turn
  turn-get b b' r e = rw (e, turn)

  done_word :
      (b : ByteRing) (is_open : Bool)
      → b.words.sender_state ≡ word_of (not is_open) 0
      → closed_and_senders_done b.words ≡ not is_open
  unfolding closed_and_senders_done
  done_word b true e = ground arith
  done_word b false e = ground arith

  poll-empty :
      (q : Queue) (is_open : Bool)
      → q.items ≡ []
      → q.is_open ≡ is_open
      → poll capacity q
        ≡ (no_value (if is_open then ChannelStatus.would_block else ChannelStatus.closed), q)
  unfolding poll
  poll-empty q is_open e f = ground arith

  get_empty :
      (budget : ℕ) (b : ByteRing) (q : Queue)
      → Represents capacity budget b q
      → q.items ≡ []
      → try_dequeue alone b ≡ Dequeue.nothing b
      → Matches capacity budget (turn b get) (answer capacity q get)
  unfolding answer
  get_empty budget b q h none_there e = elim (Bool-cases q.is_open) [
    | inl is_open ↦
        matches capacity budget
          (turn-get b b (no_value ChannelStatus.would_block)
            (try_receive-empty b e (done_word b q.is_open h.word ∙ ap not is_open)))
          (ap (λ p. (got p.0, p.1)) (poll-empty q true none_there is_open)) (refl, h)
    | inr is_shut ↦
        matches capacity budget
          (turn-get b b (no_value ChannelStatus.closed)
            (try_receive-done b e (done_word b q.is_open h.word ∙ ap not is_shut)))
          (ap (λ p. (got p.0, p.1)) (poll-empty q false none_there is_shut)) (refl, h)
  ]

  get-Matches :
      (budget : ℕ) (b : ByteRing) (q : Queue) (items : List Bytes)
      → q.items ≡ items
      → Represents capacity budget b q
      → Dequeues budget b items (try_dequeue alone b)
      → Matches capacity budget (turn b get) (answer capacity q get)
  unfolding answer
  get-Matches budget b q [] there h e = get_empty budget b q h there e
  get-Matches budget b q (x ∷ rest) there h (b', e, holds, same, word) =
      matches capacity budget (turn-get b b' (received x) (try_receive-took b x b' e))
        (rw (there, poll))
        (refl, record { ring = holds; size = same ∙ h.size; word = word ∙ h.word })

  shut-Matches :
      (budget : ℕ) (b : ByteRing) (q : Queue)
      → Represents capacity budget b q
      → Matches capacity budget (turn b shut) (answer capacity q shut)
  unfolding answer turn close
  shut-Matches budget b q h =
      let (open_before, word, drained) =
        close-word_of b.words (not q.is_open) 0 (omega arith) h.word in
      (
        ap done (open_before ∙ not_not q.is_open),
        record { ring = HoldsQueue-words 0 _ (weaker h.ring); size = h.size; word = word },
      )
    where
      not_not : (b : Bool) → not (not b) ≡ b
      not_not true = refl
      not_not false = refl

  put-Matches :
      (budget : ℕ) (b : ByteRing) (q : Queue) (x : Bytes)
      → Represents capacity (budget + size_of x) b q
      → Matches capacity budget (turn b (put x)) (answer capacity q (put x))
  put-Matches budget b q x h = elim (Bool-cases (ltb (capacity - 32) (length x))) [
    | inl large ↦ put_too_large capacity budget b q x h large
    | inr fits ↦ elim (Bool-cases q.is_open) [
      | inr is_shut ↦ put_shut capacity budget b q x h fits is_shut
      | inl is_open ↦ put_open capacity budget b q x h fits is_open (
          try_enqueue-Enqueues budget (inside capacity budget b q x h fits) q.items x
            (ground (arith, h.size, h.ring.some_room))
            (inside-HoldsQueue capacity budget b q x h fits))
    ]
  ]

-- One call and the queue's answer.
pub turn-Matches :
    (capacity budget : ℕ) (c : Call) (b : ByteRing) (q : Queue)
    → Represents capacity (budget + bytes_of (c ∷ [])) b q
    → Matches capacity budget (turn b c) (answer capacity q c)
turn-Matches capacity budget (put x) b q h =
    put-Matches capacity budget b q x
      (subst (λ n. Represents capacity n b q) (ap (λ n. budget + n) (zero-add (size_of x))) h)
turn-Matches capacity budget get b q h =
    let h' = subst (λ n. Represents capacity n b q) (add-zero budget) h in
    get-Matches capacity budget b q q.items refl h' (try_dequeue-Dequeues budget b q.items h'.ring)
turn-Matches capacity budget shut b q h =
    shut-Matches capacity budget b q (subst (λ n. Represents capacity n b q) (add-zero budget) h)

pub bytes_of-cons :
    (c : Call) (rest : List Call) → bytes_of (c ∷ rest) ≡ bytes_of rest + bytes_of (c ∷ [])
bytes_of-cons (put x) rest = omega arith
bytes_of-cons get rest = omega arith
bytes_of-cons shut rest = omega arith

-- A ring of a byte channel that nobody is using represents a queue bounded by the bytes of its
-- records, with positions left for the records that the calls may send: the replies of `try_send`,
-- `try_receive` and `close`, called one after the other in any order, are those of the queue.
pub run-Queue :
    (capacity : ℕ) (calls : List Call) (b : ByteRing) (q : Queue)
    → Represents capacity (bytes_of calls) b q
    → Calls.run b calls ≡ Queue.run capacity q calls
unfolding Calls.run Queue.run
run-Queue capacity [] b q h = refl
run-Queue capacity (c ∷ rest) b q h =
    let (r, h') =
      turn-Matches capacity (bytes_of rest) c b q
        (subst (λ n. Represents capacity n b q) (bytes_of-cons c rest) h) in
    ap₂ ◌∷◌ r (run-Queue capacity rest (turn b c).1 (answer capacity q c).1 h')
