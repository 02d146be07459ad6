-- ===== src/Managed/Calls.antt =====
-- Clients that take turns on one managed channel: `try_send`, `try_receive` and `close` with the
-- mutex free, or left by a client that died in a send.
pub mod Locked
pub mod Sending
pub mod Receiving
pub mod Holds
pub mod Puts
pub mod Gets
pub mod Deaths
pub mod Refine
use shmchan.Common.{
  ℕ, Bool, true, false, ◌&&◌, List, [], ◌∷◌, none, not, ltb, ◌==◌, if◌then◌else◌, length,
}
use shmchan.Status.{ChannelStatus, FutexWaitResult, Bytes}
use shmchan.Managed.State.{ManagedMapping, max_size_of, operation_state}
use shmchan.Managed.Lock.{Attempt, acquired, owner_dead, holding, blocking, managed_mutex_guard}
use shmchan.Managed.Send.{Round, returned, try_send}
use shmchan.Managed.Send.Death.{send_died}
use shmchan.Managed.Receive.{try_receive}
use shmchan.Managed.Control.{close}
use shmchan.Managed.Fifo.{Call, put, get, shut, die_put, Reply, status, received, done, nothing}

-- The shared object, and whether the last owner of its mutex died.
pub record World : Type 0 where
  pub mapping : ManagedMapping
  pub orphaned : Bool

-- One attempt to lock that meets nobody.
unfoldable pub attempt : Bool → Attempt
attempt orphaned = record {
  others = λ m. m;
  result = if orphaned then owner_dead else acquired;
  consistent = true;
  now = 0;
}

unfoldable pub calm : Bool → Round
unfolding attempt
calm orphaned = record {
  before = λ m. m;
  attempts = attempt orphaned ∷ [];
  after = λ m. m;
  wake = FutexWaitResult.changed;
  now = 0;
}

-- Whether a send, or a receive, comes as far as the mutex.
unfoldable pub send_locks : ManagedMapping → Bytes → Bool
send_locks m x = elim (operation_state m) [
  | ChannelStatus.success ↦ not (ltb (max_size_of m) (length x))
  | _ ↦ false
]

unfoldable pub receive_locks : ManagedMapping → Bool
receive_locks m = elim (operation_state m) [ ChannelStatus.broken ↦ false | _ ↦ true ]

-- A client that dies in a send, holding the mutex: the first `n` stores are done if it gets to the
-- stores.
unfoldable pub dying_send : ℕ → Bytes → World → ManagedMapping
unfolding attempt
dying_send n x w = elim (managed_mutex_guard blocking none (attempt w.orphaned ∷ []) w.mapping) [
  | holding ChannelStatus.success owns m1 ↦
      if m1.header.free_slots == 0 then m1 else send_died n m1 x
  | _ ↦ w.mapping
]

-- One client's turn. The mutex is free after a call that took it.
unfoldable pub turn : World → Call → Reply × World
unfolding calm dying_send send_locks receive_locks
turn w (put x) = elim (try_send (calm w.orphaned ∷ []) x w.mapping) [
  | returned s m ↦
      (status s, record { mapping = m; orphaned = w.orphaned && not (send_locks w.mapping x) })
  | _ ↦ (nothing, w)
]
turn w get = elim (try_receive (calm w.orphaned ∷ []) w.mapping) [
  | returned r m ↦
      (received r, record { mapping = m; orphaned = w.orphaned && not (receive_locks w.mapping) })
  | _ ↦ (nothing, w)
]
turn w shut = elim (close (attempt w.orphaned ∷ []) w.mapping) [
  | returned b m ↦ (done b, record { mapping = m; orphaned = false })
  | _ ↦ (nothing, w)
]
turn w (die_put n x) =
    if send_locks w.mapping x
    then (nothing, record { mapping = dying_send n x w; orphaned = true })
    else (nothing, w)

unfoldable pub run : World → List Call → List Reply
unfolding turn
run w [] = []
run w (c ∷ rest) = let (r, w') = turn w c in r ∷ run w' rest
