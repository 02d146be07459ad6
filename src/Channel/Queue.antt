-- ===== src/Channel/Queue.antt =====
-- The specification of a fixed-size channel: a bounded queue of values that can be closed.
use shmchan.Common.{ℕ, Bool, false, not, List, [], ◌∷◌, ◌++◌, some, ltb, if◌then◌else◌, length}
use shmchan.Status.{ChannelStatus, ReceiveResult, no_value}

pub data Call (A : Type 0) : Type 0 where
  put : A → Call A
  get shut : Call A

pub data Reply (A : Type 0) : Type 0 where
  status : ChannelStatus → Reply A
  got : ReceiveResult A → Reply A
  done : Bool → Reply A
  nothing : Reply A

pub record Queue (A : Type 0) : Type 0 where
  pub items : List A
  pub is_open : Bool

module _ {A : Type 0} (capacity : ℕ) where
  unfoldable pub answer : Queue A → Call A → Reply A × Queue A
  answer q (put x) =
      if not q.is_open
      then (status ChannelStatus.closed, q)
      else if ltb (length q.items) capacity
      then (status ChannelStatus.success, record q { items = q.items ++ x ∷ [] })
      else (status ChannelStatus.would_block, q)
  answer q get = elim (q.items) [
    | [] ↦
        (got (no_value (if q.is_open then ChannelStatus.would_block else ChannelStatus.closed)), q)
    | x ∷ rest ↦
        (got (record { code = ChannelStatus.success; value = some x }), record q { items = rest })
  ]
  answer q shut = (done q.is_open, record q { is_open = false })

  unfoldable pub run : Queue A → List (Call A) → List (Reply A)
  unfolding answer
  run q [] = []
  run q (call ∷ rest) = let (r, q') = answer q call in r ∷ run q' rest
