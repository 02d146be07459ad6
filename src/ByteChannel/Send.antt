-- ===== src/ByteChannel/Send.antt =====
-- include/shmchan/byte_channel.hpp: `try_send`, `send` and `send_for`, and `close`. The words of the
-- senders have the same code as in channel.hpp. What others do between two steps is part of the
-- schedule; a call that does not end within it is `pending`.
use shmchan.Common.{ℕ, ◌-◌, Bool, true, false, List, [], ◌∷◌, ltb, if◌then◌else◌, length}
use shmchan.Status.{ChannelStatus, FutexWaitResult, Bytes}
use shmchan.Channel.Sender
use shmchan.Channel.Sender.{
  SenderWords, Race, registered, refused, too_many, register, unregister, is_closed,
}
use shmchan.ByteChannel.State.{ByteRing, record_alignment}
use shmchan.ByteChannel.Enqueue.{Round, Enqueue, enqueued, full, try_enqueue}

-- The end of a call: a result, an exception, or none within the schedule.
pub data Outcome {ℓ} (A : Type ℓ) : Type ℓ where
  returned : A → ByteRing → Outcome A
  threw : ByteRing → Outcome A
  pending : Outcome A

-- `max_message_size`
abbrev pub max_message_size : ByteRing → ℕ
max_message_size b = b.capacity_bytes - record_alignment

-- `is_closed_state`
abbrev pub is_closed_state : ByteRing → Bool
is_closed_state b = is_closed b.words.sender_state

-- The ring with another word of the senders.
abbrev pub with_sender_state : ℕ → ByteRing → ByteRing
with_sender_state word b = record b { words = record (b.words) { sender_state = word } }

-- A guard is constructed.
abbrev pub enter : List Race → ByteRing → Sender.Registration
enter races b = register races b.words.sender_state

-- A registered guard is destroyed.
abbrev pub leave : ByteRing → ByteRing
leave b = record b { words = unregister b.words }

-- `byte_channel::close`
unfoldable pub close : ByteRing → Bool × ByteRing
close b = let (done, words) = Sender.close b.words in (done, record b { words = words })

-- What others do in a `try_send`: round the registration, before the load of the write position, and
-- after a refusal.
pub record Meeting : Type 0 where
  pub races : List Race
  pub entered : ByteRing → ByteRing
  pub before_try : ByteRing → ByteRing
  pub rounds : List Round
  pub after_full : ByteRing → ByteRing

-- `closed` or another status, by the last look at the word.
abbrev pub closed_or : ChannelStatus → ByteRing → ChannelStatus
closed_or status b = if is_closed_state b then ChannelStatus.closed else status

-- `try_send` of a message that fits, after the registration.
unfoldable pub try_send_entered : Meeting → Bytes → ByteRing → Outcome ChannelStatus
try_send_entered t message b =
    if is_closed_state b
    then returned ChannelStatus.closed (leave b)
    else elim (try_enqueue t.rounds message (t.before_try b)) [
      | enqueued b1 ↦ returned ChannelStatus.success (leave b1)
      | full b1 ↦
          let b2 = t.after_full b1 in returned (closed_or ChannelStatus.would_block b2) (leave b2)
      | Enqueue.pending b1 ↦ pending
    ]

-- `try_send`
unfoldable pub try_send : Meeting → Bytes → ByteRing → Outcome ChannelStatus
unfolding try_send_entered
try_send t message b =
    if ltb (max_message_size b) (length message)
    then returned ChannelStatus.message_too_large b
    else elim (enter t.races b) [
      | registered word ↦ try_send_entered t message (t.entered (with_sender_state word b))
      | refused word ↦ returned ChannelStatus.closed (with_sender_state word b)
      | too_many word ↦ threw (with_sender_state word b)
      | Sender.Registration.pending word ↦ pending
    ]

-- One turn of the loop of `send_impl`: what others do before the look at the word, before each
-- load of the write position, after a refusal and in the wait, and what the wait returns.
pub record SendRound : Type 0 where
  pub before : ByteRing → ByteRing
  pub before_try : ByteRing → ByteRing
  pub rounds : List Round
  pub after_full : ByteRing → ByteRing
  pub waited : ByteRing → ByteRing
  pub wake : FutexWaitResult
  pub before_last : ByteRing → ByteRing
  pub last_rounds : List Round
  pub at_end : ByteRing → ByteRing

-- The last attempt of a `send_for` whose time is over.
unfoldable pub send_last : SendRound → Bytes → ByteRing → Outcome ChannelStatus
send_last r message b =
    if is_closed_state b
    then returned ChannelStatus.closed (leave b)
    else elim (try_enqueue r.last_rounds message (r.before_last b)) [
      | enqueued b1 ↦ returned ChannelStatus.success (leave b1)
      | full b1 ↦ let b2 = r.at_end b1 in returned (closed_or ChannelStatus.timed_out b2) (leave b2)
      | Enqueue.pending b1 ↦ pending
    ]

-- The loop of `send_impl`; without a deadline a timeout of the wait is not looked at.
unfoldable pub send_loop : Bool → List SendRound → Bytes → ByteRing → Outcome ChannelStatus
unfolding send_last
send_loop has_deadline [] message b = pending
send_loop has_deadline (r ∷ rest) message b =
    let b1 = r.before b in
    elim (is_closed_state b1) [
      | true ↦ returned ChannelStatus.closed (leave b1)
      | false ↦ elim (try_enqueue r.rounds message (r.before_try b1)) [
        | enqueued b2 ↦ returned ChannelStatus.success (leave b2)
        | Enqueue.pending b2 ↦ pending
        | full b2 ↦ elim (is_closed_state (r.after_full b2)) [
          | true ↦ returned ChannelStatus.closed (leave (r.after_full b2))
          | false ↦ elim (r.wake) [
            | FutexWaitResult.failed ↦ threw (leave (r.waited (r.after_full b2)))
            | FutexWaitResult.changed ↦
                send_loop has_deadline rest message (r.waited (r.after_full b2))
            | FutexWaitResult.timed_out ↦ elim has_deadline [
              | true ↦ send_last r message (r.waited (r.after_full b2))
              | false ↦ send_loop has_deadline rest message (r.waited (r.after_full b2))
            ]
          ]
        ]
      ]
    ]

-- `send_impl`
unfoldable pub send_impl :
    Bool → List Race → List SendRound → Bytes → ByteRing → Outcome ChannelStatus
unfolding send_loop
send_impl has_deadline races rounds message b =
    if ltb (max_message_size b) (length message)
    then returned ChannelStatus.message_too_large b
    else elim (enter races b) [
      | registered word ↦ send_loop has_deadline rounds message (with_sender_state word b)
      | refused word ↦ returned ChannelStatus.closed (with_sender_state word b)
      | too_many word ↦ threw (with_sender_state word b)
      | Sender.Registration.pending word ↦ pending
    ]
