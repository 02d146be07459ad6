-- ===== src/Channel/Send.antt =====
-- include/shmchan/channel.hpp: `channel<T>::try_send`, `send` and `send_for`, and `close`. What others
-- do between two steps is part of the schedule; a call that does not end within it is `pending`.
use shmchan.Common.{ℕ, Bool, true, false, List, [], ◌∷◌}
use shmchan.Status.{ChannelStatus, FutexWaitResult}
use shmchan.Channel.Sender
use shmchan.Channel.Sender.{
  SenderWords, Race, registered, refused, too_many, register, unregister, is_closed,
}
use shmchan.Channel.Ring.{Ring, Round, Turnout, finished, failed, try_enqueue}

-- `shared_header` with the slots.
pub record Fixed (A : Type 0) : Type 0 where
  pub ring : Ring A
  pub sender_state : ℕ

-- The end of a call: a result, an exception, none within the schedule, or an access outside the
-- array of the slots.
pub data Outcome (A B : Type 0) : Type 0 where
  returned : B → Fixed A → Outcome A B
  threw : Fixed A → Outcome A B
  pending faulted : Outcome A B

-- What others do in a `try_send`: round the registration, before the first load of the ring, and
-- after a refusal.
pub record Meeting (A : Type 0) : Type 0 where
  pub races : List Race
  pub entered : Fixed A → Fixed A
  pub before_try : Fixed A → Fixed A
  pub rounds : List (Round A)
  pub after_full : Fixed A → Fixed A

-- One turn of the loop of `send_impl`, with what the wait returns.
pub record SendRound (A : Type 0) : Type 0 where
  pub before : Fixed A → Fixed A
  pub before_try : Fixed A → Fixed A
  pub rounds : List (Round A)
  pub after_full : Fixed A → Fixed A
  pub waited : Fixed A → Fixed A
  pub wake : FutexWaitResult
  pub before_last : Fixed A → Fixed A
  pub last_rounds : List (Round A)
  pub at_end : Fixed A → Fixed A

module _ {A : Type 0} where
  -- The words of the senders, read and written.
  abbrev pub words_of : Fixed A → SenderWords
  words_of f = record {
    sender_state = f.sender_state;
    readable_epoch = f.ring.readable_epoch;
    writable_epoch = f.ring.writable_epoch;
  }

  abbrev pub with_words : Fixed A → SenderWords → Fixed A
  with_words f w = record {
    ring = record (f.ring) { readable_epoch = w.readable_epoch; writable_epoch = w.writable_epoch };
    sender_state = w.sender_state;
  }

  -- `is_closed_state`
  abbrev pub is_closed_state : Fixed A → Bool
  is_closed_state f = is_closed f.sender_state

  -- A guard is constructed, and a registered guard is destroyed.
  abbrev pub enter : List Race → Fixed A → Sender.Registration
  enter races f = register races f.sender_state

  abbrev pub leave : Fixed A → Fixed A
  leave f = with_words f (unregister (words_of f))

  -- `channel::close`
  unfoldable pub close : Fixed A → Bool × Fixed A
  close f = let (done, words) = Sender.close (words_of f) in (done, with_words f words)

  -- An attempt on the ring of `f`, and how the call goes on.
  unfoldable pub attempt :
      {B C : Type 0}
      → Fixed A
      → Turnout A B
      → (B → Fixed A → Outcome A C)
      → (Fixed A → Outcome A C)
      → Outcome A C
  attempt f (finished y r) success next = success y (record f { ring = r })
  attempt f (failed r) success next = next (record f { ring = r })
  attempt f Turnout.pending success next = pending
  attempt f Turnout.faulted success next = faulted

  -- `closed` or another status, by the last look at the word.
  abbrev pub closed_or : ChannelStatus → Fixed A → ChannelStatus
  closed_or status f = elim (is_closed_state f) [ true ↦ ChannelStatus.closed | false ↦ status ]

  -- An attempt to send, of a sender inside the channel.
  unfoldable pub put_or_else :
      List (Round A) → A → Fixed A → (Fixed A → Outcome A ChannelStatus) → Outcome A ChannelStatus
  unfolding attempt
  put_or_else rounds value f next =
      attempt f (try_enqueue rounds value f.ring)
        (λ _ f1. returned ChannelStatus.success (leave f1)) next

  -- `try_send`, after the registration.
  unfoldable pub try_send_entered : Meeting A → A → Fixed A → Outcome A ChannelStatus
  unfolding put_or_else
  try_send_entered t value f = elim (is_closed_state f) [
    | true ↦ returned ChannelStatus.closed (leave f)
    | false ↦ put_or_else t.rounds value (t.before_try f) (λ f1.
        returned (closed_or ChannelStatus.would_block (t.after_full f1)) (leave (t.after_full f1)))
  ]

  -- A sender's call: the guard, and what a registered sender does.
  unfoldable pub as_sender :
      List Race → Fixed A → (Fixed A → Outcome A ChannelStatus) → Outcome A ChannelStatus
  as_sender races f inside = elim (enter races f) [
    | registered word ↦ inside (record f { sender_state = word })
    | refused word ↦ returned ChannelStatus.closed (record f { sender_state = word })
    | too_many word ↦ threw (record f { sender_state = word })
    | Sender.Registration.pending word ↦ pending
  ]

  -- `try_send`
  unfoldable pub try_send : Meeting A → A → Fixed A → Outcome A ChannelStatus
  unfolding try_send_entered as_sender
  try_send t value f = as_sender t.races f (λ f1. try_send_entered t value (t.entered f1))

  -- The last attempt of a `send_for` whose time is over.
  unfoldable pub send_last : SendRound A → A → Fixed A → Outcome A ChannelStatus
  unfolding put_or_else
  send_last r value f = elim (is_closed_state f) [
    | true ↦ returned ChannelStatus.closed (leave f)
    | false ↦
        put_or_else r.last_rounds value (r.before_last f)
          (λ f1. returned (closed_or ChannelStatus.timed_out (r.at_end f1)) (leave (r.at_end f1)))
  ]

  -- The loop of `send_impl`; without a deadline the result of the wait is not looked at.
  unfoldable pub send_loop : Bool → List (SendRound A) → A → Fixed A → Outcome A ChannelStatus
  unfolding put_or_else send_last
  send_loop has_deadline [] value f = pending
  send_loop has_deadline (r ∷ rest) value f = elim (is_closed_state (r.before f)) [
    | true ↦ returned ChannelStatus.closed (leave (r.before f))
    | false ↦ put_or_else r.rounds value (r.before_try (r.before f)) (λ f1.
        elim (is_closed_state (r.after_full f1)) [
          | true ↦ returned ChannelStatus.closed (leave (r.after_full f1))
          | false ↦ elim (r.wake) [
            | FutexWaitResult.failed ↦ threw (leave (r.waited (r.after_full f1)))
            | FutexWaitResult.changed ↦
                send_loop has_deadline rest value (r.waited (r.after_full f1))
            | FutexWaitResult.timed_out ↦ elim has_deadline [
              | true ↦ send_last r value (r.waited (r.after_full f1))
              | false ↦ send_loop has_deadline rest value (r.waited (r.after_full f1))
            ]
          ]
        ])
  ]

  -- `send_impl`
  unfoldable pub send_impl :
      Bool → List Race → List (SendRound A) → A → Fixed A → Outcome A ChannelStatus
  unfolding send_loop as_sender
  send_impl has_deadline races rounds value f =
      as_sender races f (send_loop has_deadline rounds value)
