-- ===== src/Serialized/Typed.antt =====
-- include/shmchan/serialized_channel.hpp: turns of clients, against a queue of typed values.
pub mod Refine
use shmchan.Common.{
  ℕ, ◌+◌, ◌-◌, ◌≡◌, refl, sym, ap, ap₂, ◌∙◌, Bool, Bool-cases, inl, inr, true, false, not, List, [],
  ◌∷◌, ◌++◌, map, some, none, Option, ltb, if◌then◌else◌, length, arith,
}
use mathlib.Core.List.{map-append}
use shmchan.Status.{ChannelStatus, ReceiveResult, no_value, Bytes}
use shmchan.ByteChannel.State.{ByteRing}
use shmchan.ByteChannel.Chain.{size_of, total_of}
use shmchan.ByteChannel.Send.{Outcome, returned, threw, pending, close}
use shmchan.ByteChannel.Receive
use shmchan.ByteChannel.Send
use shmchan.ByteChannel.Queue
use shmchan.ByteChannel.Calls
use shmchan.ByteChannel.Calls.{calm, visit, bytes_of}
use shmchan.ByteChannel.Refine.{Represents}
use shmchan.ByteChannel.Refine.Runs.{turn-Matches, bytes_of-cons}
use shmchan.Serialized.{Codec, decode_result, decoded, try_send, try_receive}

pub data Call (T : Type 0) : Type 0 where
  put : T → Call T
  get shut : Call T

pub data Reply (T : Type 0) : Type 0 where
  status : ChannelStatus → Reply T
  got : ReceiveResult T → Reply T
  done : Bool → Reply T
  nothing : Reply T

pub record TypedQueue (T : Type 0) : Type 0 where
  pub items : List T
  pub is_open : Bool

module _ {T : Type 0} (c : Codec T) where
  -- One client's call, alone on the channel.
  unfoldable pub turn : ByteRing → Call T → Reply T × ByteRing
  unfolding try_send try_receive
  turn b (put value) = elim (try_send c calm value b) [
    | returned s b' ↦ (status s, b')
    | threw b' ↦ (nothing, b')
    | pending ↦ (nothing, b)
  ]
  turn b get = elim (try_receive c visit b) [
    | returned r b' ↦ (got r, b')
    | threw b' ↦ (nothing, b')
    | pending ↦ (nothing, b)
  ]
  turn b shut = let (d, b') = close b in (done d, b')

  unfoldable pub run : ByteRing → List (Call T) → List (Reply T)
  unfolding turn
  run b [] = []
  run b (call ∷ rest) = let (r, b') = turn b call in r ∷ run b' rest

  -- The specification: values, bounded by the sizes of their encodings.
  module _ (capacity : ℕ) where
    unfoldable pub answer : TypedQueue T → Call T → Reply T × TypedQueue T
    answer q (put value) =
        if ltb (capacity - 32) (length (c.encode value))
        then (status ChannelStatus.message_too_large, q)
        else if not q.is_open
        then (status ChannelStatus.closed, q)
        else if ltb capacity (total_of (map c.encode q.items) + size_of (c.encode value))
        then (status ChannelStatus.would_block, q)
        else (status ChannelStatus.success, record q { items = q.items ++ value ∷ [] })
    answer q get = elim (q.items) [
      | [] ↦ (
        got (no_value (if q.is_open then ChannelStatus.would_block else ChannelStatus.closed)),
        q,
      )
      | value ∷ rest ↦ (
        got (record { code = ChannelStatus.success; value = some value }),
        record q { items = rest },
      )
    ]
    answer q shut = (done q.is_open, record q { is_open = false })

    unfoldable pub specified : TypedQueue T → List (Call T) → List (Reply T)
    unfolding answer
    specified q [] = []
    specified q (call ∷ rest) = let (r, q') = answer q call in r ∷ specified q' rest
