-- ===== src/ByteChannel/Queue.antt =====
-- The specification of a byte channel: a queue of messages bounded by the bytes of their records.
use shmchan.Common.{
  ℕ, ◌+◌, ◌-◌, Bool, false, not, List, [], ◌∷◌, ◌++◌, some, ltb, if◌then◌else◌, length,
}
use shmchan.Status.{ChannelStatus, ReceiveResult, no_value, Bytes}
use shmchan.ByteChannel.Chain.{size_of, total_of}

pub data Call : Type 0 where
  put : Bytes → Call
  get shut : Call

pub data Reply : Type 0 where
  status : ChannelStatus → Reply
  got : ReceiveResult Bytes → Reply
  done : Bool → Reply
  nothing : Reply

pub record Queue : Type 0 where
  pub items : List Bytes
  pub is_open : Bool

module _ (capacity : ℕ) where
  -- A message that fits in no empty queue is too large; a closed queue refuses, and one without
  -- room for the record.
  unfoldable pub offer : Queue → Bytes → ChannelStatus × Queue
  offer q x =
      if ltb (capacity - 32) (length x)
      then (ChannelStatus.message_too_large, q)
      else if not q.is_open
      then (ChannelStatus.closed, q)
      else if ltb capacity (total_of q.items + size_of x)
      then (ChannelStatus.would_block, q)
      else (ChannelStatus.success, record q { items = q.items ++ x ∷ [] })

  -- A closed queue still gives out what it has.
  unfoldable pub poll : Queue → ReceiveResult Bytes × Queue
  poll q = elim (q.items) [
    | [] ↦ (no_value (if q.is_open then ChannelStatus.would_block else ChannelStatus.closed), q)
    | x ∷ rest ↦
        (record { code = ChannelStatus.success; value = some x }, record q { items = rest })
  ]

  unfoldable pub answer : Queue → Call → Reply × Queue
  unfolding offer poll
  answer q (put x) = let (s, q') = offer q x in (status s, q')
  answer q get = let (r, q') = poll q in (got r, q')
  answer q shut = (done q.is_open, record q { is_open = false })

  unfoldable pub run : Queue → List Call → List Reply
  unfolding answer
  run q [] = []
  run q (c ∷ rest) = let (r, q') = answer q c in r ∷ run q' rest
