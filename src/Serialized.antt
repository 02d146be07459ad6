-- ===== src/Serialized.antt =====
-- include/shmchan/serialized_channel.hpp: typed messages over a byte channel. The codec is the
-- client's and a parameter; its `decode` may throw, which is `none`.
pub mod Typed
use shmchan.Common.{ℕ, ◌≡◌, Bool, List, Option, none, some, refl}
use shmchan.Status.{ChannelStatus, ReceiveResult, no_value, Bytes}
use shmchan.Channel.Sender.{Race}
use shmchan.ByteChannel.State.{ByteRing}
use shmchan.ByteChannel.Send.{Outcome, returned, threw, pending, Meeting, SendRound}
use shmchan.ByteChannel.Receive.{Visit, ReceiveRound}
use shmchan.ByteChannel.Send
use shmchan.ByteChannel.Receive

-- What the channel uses of a codec.
pub record Codec (T : Type 0) : Type 0 where
  pub encode : T → Bytes
  pub decode : Bytes → Option T

module _ {T : Type 0} (c : Codec T) where
  -- `decode` of a result of the byte channel.
  unfoldable pub decode_result : ReceiveResult Bytes → ByteRing → Outcome (ReceiveResult T)
  decode_result r b = elim (r.value) [
    | none ↦ returned (no_value r.code) b
    | some bytes ↦ elim (c.decode bytes) [
      | none ↦ threw b
      | some value ↦ returned (record { code = ChannelStatus.success; value = some value }) b
    ]
  ]

  unfoldable pub decoded : Outcome (ReceiveResult Bytes) → Outcome (ReceiveResult T)
  unfolding decode_result
  decoded (returned r b) = decode_result r b
  decoded (threw b) = threw b
  decoded pending = pending

  -- `try_send`; the encoding is complete before the byte channel is called.
  unfoldable pub try_send : Meeting → T → ByteRing → Outcome ChannelStatus
  try_send t value b = Send.try_send t (c.encode value) b

  -- `send` and `send_for`
  unfoldable pub send : Bool → List Race → List SendRound → T → ByteRing → Outcome ChannelStatus
  send has_deadline races rounds value b =
      Send.send_impl has_deadline races rounds (c.encode value) b

  -- `try_receive`
  unfoldable pub try_receive : Visit → ByteRing → Outcome (ReceiveResult T)
  unfolding decoded
  try_receive v b = decoded (Receive.try_receive v b)

  -- `receive` and `receive_for`
  unfoldable pub receive : Bool → List ReceiveRound → ByteRing → Outcome (ReceiveResult T)
  unfolding decoded
  receive has_deadline rounds b = decoded (Receive.receive_impl has_deadline rounds b)

-- `string_codec`: a string is its bytes.
abbrev pub string_codec : Codec Bytes
string_codec = record { encode = λ value. value; decode = λ bytes. some bytes }
