-- ===== src/Managed/Fifo.antt =====
-- The specification of a managed channel: a bounded first-in first-out queue of messages, in which
-- a send by a dying process has either happened or not.
use shmchan.Common.{
  ℕ, ◌+◌, Bool, false, List, [], ◌∷◌, ◌++◌, some, ltb, ◌==◌, if◌then◌else◌, length,
}
use shmchan.Status.{
  ChannelStatus, success, closed, would_block, message_too_large, ReceiveResult, no_value, Bytes,
}

-- What a client can do, with the death of a client after `n` stores of a send.
pub data Call : Type 0 where
  put : Bytes → Call
  get : Call
  shut : Call
  die_put : (n : ℕ) → Bytes → Call

-- What a call returns; a dead client sees nothing.
pub data Reply : Type 0 where
  status : ChannelStatus → Reply
  received : ReceiveResult Bytes → Reply
  done : Bool → Reply
  nothing : Reply

pub record Fifo : Type 0 where
  pub items : List Bytes
  pub is_open : Bool

module _ (capacity max : ℕ) where
  -- A full queue refuses, a closed one too; a message that is too large is refused before.
  unfoldable pub offer : Fifo → Bytes → ChannelStatus × Fifo
  offer q x =
      if ltb max (length x)
      then (message_too_large, q)
      else if q.is_open
      then (if length q.items == capacity
          then (would_block, q)
          else (success, record q { items = q.items ++ x ∷ [] }))
      else (closed, q)

  unfoldable pub poll : Fifo → ReceiveResult Bytes × Fifo
  poll q = elim (q.items) [
    | [] ↦ (no_value (if q.is_open then would_block else closed), q)
    | x ∷ rest ↦ (record { code = success; value = some x }, record q { items = rest })
  ]

  -- The message of a dying sender is there if its READY store, number `length x + 8`, was done.
  unfoldable pub die : Fifo → ℕ → Bytes → Fifo
  unfolding offer
  die q n x = if ltb n (length x + 8) then q else (offer q x).1

  unfoldable pub answer : Fifo → Call → Reply × Fifo
  unfolding offer poll die
  answer q (put x) = let (s, q') = offer q x in (status s, q')
  answer q get = let (r, q') = poll q in (received r, q')
  answer q shut = (done q.is_open, record q { is_open = false })
  answer q (die_put n x) = (nothing, die q n x)

  unfoldable pub run : Fifo → List Call → List Reply
  unfolding answer
  run q [] = []
  run q (c ∷ rest) = let (r, q') = answer q c in r ∷ run q' rest
