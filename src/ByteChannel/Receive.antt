-- ===== src/ByteChannel/Receive.antt =====
-- include/shmchan/byte_channel.hpp: `try_receive`, `receive` and `receive_for`.
use shmchan.Common.{Bool, true, false, List, [], ◌∷◌, some}
use shmchan.Status.{ChannelStatus, ReceiveResult, no_value, FutexWaitResult, Bytes}
use shmchan.Channel.Sender.{closed_and_senders_done}
use shmchan.ByteChannel.State.{ByteRing}
use shmchan.ByteChannel.Dequeue.{Turn, Dequeue, dequeued, nothing, try_dequeue}
use shmchan.ByteChannel.Send.{Outcome, returned, threw, pending}

-- `{channel_status::success, std::move(value)}`
abbrev pub received : Bytes → ReceiveResult Bytes
received x = record { code = ChannelStatus.success; value = some x }

-- A `try_dequeue` whose message is the call's result, and what follows if there is none.
unfoldable pub or_else :
    Dequeue → (ByteRing → Outcome (ReceiveResult Bytes)) → Outcome (ReceiveResult Bytes)
or_else (dequeued x b) next = returned (received x) b
or_else (nothing b) next = next b
or_else (Dequeue.threw b) next = threw b
or_else Dequeue.pending next = pending

-- What others do in a `try_receive`: in its attempts, and before the look at the senders' word.
pub record Visit : Type 0 where
  pub first : Turn
  pub between : ByteRing → ByteRing
  pub second : Turn

-- The second attempt, of a channel that is closed and has no senders left.
unfoldable pub receive_closed : Turn → ByteRing → Outcome (ReceiveResult Bytes)
unfolding or_else
receive_closed t b = or_else (try_dequeue t b) (λ b1. returned (no_value ChannelStatus.closed) b1)

-- `try_receive`
unfoldable pub try_receive : Visit → ByteRing → Outcome (ReceiveResult Bytes)
unfolding or_else receive_closed
try_receive v b = or_else (try_dequeue v.first b) (λ b1.
    elim (closed_and_senders_done (v.between b1).words) [
      | true ↦ receive_closed v.second (v.between b1)
      | false ↦ returned (no_value ChannelStatus.would_block) (v.between b1)
    ])

-- One turn of the loop of `receive_impl`.
pub record ReceiveRound : Type 0 where
  pub before : ByteRing → ByteRing
  pub visit : Visit
  pub waited : ByteRing → ByteRing
  pub wake : FutexWaitResult
  pub last : Turn
  pub at_end : ByteRing → ByteRing

-- The last attempt of a `receive_for` whose time is over.
unfoldable pub receive_last : ReceiveRound → ByteRing → Outcome (ReceiveResult Bytes)
unfolding or_else
receive_last r b = or_else (try_dequeue r.last b) (λ b1.
    returned
      (no_value (elim (closed_and_senders_done (r.at_end b1).words) [
        | true ↦ ChannelStatus.closed
        | false ↦ ChannelStatus.timed_out
      ]))
      (r.at_end b1))

-- The loop of `receive_impl`.
unfoldable pub receive_impl : Bool → List ReceiveRound → ByteRing → Outcome (ReceiveResult Bytes)
unfolding or_else receive_closed receive_last
receive_impl has_deadline [] b = pending
receive_impl has_deadline (r ∷ rest) b = or_else (try_dequeue r.visit.first (r.before b)) (λ b1.
    elim (closed_and_senders_done (r.visit.between b1).words) [
      | true ↦ receive_closed r.visit.second (r.visit.between b1)
      | false ↦ elim (r.wake) [
        | FutexWaitResult.failed ↦ threw (r.waited (r.visit.between b1))
        | FutexWaitResult.changed ↦ receive_impl has_deadline rest (r.waited (r.visit.between b1))
        | FutexWaitResult.timed_out ↦ elim has_deadline [
          | true ↦ receive_last r (r.waited (r.visit.between b1))
          | false ↦ receive_impl has_deadline rest (r.waited (r.visit.between b1))
        ]
      ]
    ])
