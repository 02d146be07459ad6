-- ===== src/Channel/Receive.antt =====
-- include/shmchan/channel.hpp: `channel<T>::try_receive`, `receive` and `receive_for`.
use shmchan.Common.{Bool, true, false, List, [], ◌∷◌, some}
use shmchan.Status.{ChannelStatus, ReceiveResult, no_value, FutexWaitResult}
use shmchan.Channel.Sender
use shmchan.Channel.Ring.{Round, try_dequeue}
use shmchan.Channel.Send.{Fixed, Outcome, returned, threw, pending, words_of, attempt}

-- What others do in the attempts of a `try_receive`, and before the look at the senders' word.
pub record Visit (A : Type 0) : Type 0 where
  pub first : List (Round A)
  pub between : Fixed A → Fixed A
  pub before_second : Fixed A → Fixed A
  pub second : List (Round A)

-- One turn of the loop of `receive_impl`.
pub record ReceiveRound (A : Type 0) : Type 0 where
  pub before : Fixed A → Fixed A
  pub visit : Visit A
  pub waited : Fixed A → Fixed A
  pub wake : FutexWaitResult
  pub last : List (Round A)
  pub at_end : Fixed A → Fixed A

module _ {A : Type 0} where
  -- `closed_and_senders_done`
  abbrev closed_and_senders_done : Fixed A → Bool
  closed_and_senders_done f = Sender.closed_and_senders_done (words_of f)

  -- An attempt whose value is the call's result, and what follows if there is none.
  unfoldable pub get_or_else :
      List (Round A)
      → Fixed A
      → (Fixed A → Outcome A (ReceiveResult A))
      → Outcome A (ReceiveResult A)
  unfolding attempt
  get_or_else rounds f next =
      attempt f (try_dequeue rounds f.ring)
        (λ x f1. returned (record { code = ChannelStatus.success; value = some x }) f1) next

  -- The second attempt, of a channel that is closed and has no senders left.
  unfoldable pub receive_closed : Visit A → Fixed A → Outcome A (ReceiveResult A)
  unfolding get_or_else
  receive_closed v f =
      get_or_else v.second (v.before_second f) (λ f1. returned (no_value ChannelStatus.closed) f1)

  -- `try_receive`
  unfoldable pub try_receive : Visit A → Fixed A → Outcome A (ReceiveResult A)
  unfolding get_or_else receive_closed
  try_receive v f = get_or_else v.first f (λ f1. elim (closed_and_senders_done (v.between f1)) [
    | true ↦ receive_closed v (v.between f1)
    | false ↦ returned (no_value ChannelStatus.would_block) (v.between f1)
  ])

  -- The last attempt of a `receive_for` whose time is over.
  unfoldable pub receive_last : ReceiveRound A → Fixed A → Outcome A (ReceiveResult A)
  unfolding get_or_else
  receive_last r f = get_or_else r.last f (λ f1.
      returned
        (no_value (elim (closed_and_senders_done (r.at_end f1)) [
          | true ↦ ChannelStatus.closed
          | false ↦ ChannelStatus.timed_out
        ]))
        (r.at_end f1))

  -- `receive_impl`; without a deadline the result of the wait is not looked at.
  unfoldable pub receive_impl : Bool → List (ReceiveRound A) → Fixed A → Outcome A (ReceiveResult A)
  unfolding get_or_else receive_closed receive_last
  receive_impl has_deadline [] f = pending
  receive_impl has_deadline (r ∷ rest) f = get_or_else r.visit.first (r.before f) (λ f1.
      elim (closed_and_senders_done (r.visit.between f1)) [
        | true ↦ receive_closed r.visit (r.visit.between f1)
        | false ↦ elim (r.wake) [
          | FutexWaitResult.failed ↦ threw (r.waited (r.visit.between f1))
          | FutexWaitResult.changed ↦ receive_impl has_deadline rest (r.waited (r.visit.between f1))
          | FutexWaitResult.timed_out ↦ elim has_deadline [
            | true ↦ receive_last r (r.waited (r.visit.between f1))
            | false ↦ receive_impl has_deadline rest (r.waited (r.visit.between f1))
          ]
        ]
      ])
