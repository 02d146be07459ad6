-- ===== src/Channel/Closing.antt =====
-- include/shmchan/channel.hpp: the calls round `try_enqueue` and `try_dequeue`, by threads that run
-- at once, and `close`. A move is one access to the shared memory. Between two attempts a sender
-- looks at its word and may wait, which changes nothing: how often it tries, and what, is left open.
-- So is how long a receiver waits: one that does begins again, or times out.
pub mod Count
pub mod Invariant
pub mod Steps
pub mod Drained
use shmchan.Common.{ℕ, ◌+◌, ◌-◌, ◌%◌, ◌<◌, ◌≡◌, ◌≢◌, Bool, true, false, none}
use shmchan.Status.{u32_mod, u64_mod}
use shmchan.Channel.Sender.{channel_closed_bit, is_closed, active_senders}
use shmchan.Channel.Threads.{
  Memory, update, in_try_dequeue, Pc, idle, sending, late_send, saw_free, claimed, filled,
  published, receiving, late_receive, saw_full, taken, copied, released, signal_readers, HasRoom,
  Move,
}
use shmchan.Channel.Threads

-- Where a thread stands in a call.
pub data Task (A : Type 0) : Type 0 where
  outside : Task A
  -- in the constructor of `active_sender_guard`, with the word that it has read
  registering : (current : ℕ) → Task A
  -- a registered sender, in `try_enqueue` or between two attempts
  inside : (q : Pc A) → Task A
  -- in the destructor, before the signal of the last sender
  last_out : Task A
  -- in the first `try_dequeue` of a receiver; before the look at the word; in the second one
  first : (q : Pc A) → Task A
  checking : Task A
  second : (q : Pc A) → Task A
  -- in the `try_dequeue` after a wait that has timed out; before the last look at the word
  last_try : (q : Pc A) → Task A
  last_look : Task A
  -- a receiver that has returned `closed`
  told_closed : Task A
  -- in `close`, before its two signals
  closing_readers closing_writers : Task A

pub record World (A : Type 0) : Type 0 where
  pub mem : Memory A
  pub sender_state : ℕ
  pub task : ℕ → Task A

module _ {A : Type 0} where
  -- The places in `try_enqueue`, and those in `try_dequeue`.
  abbrev pub is_sending : Pc A → Bool
  is_sending idle = true
  is_sending (sending _ _) = true
  is_sending (late_send _) = true
  is_sending (saw_free _ _) = true
  is_sending (claimed _ _) = true
  is_sending (filled _ _) = true
  is_sending published = true
  is_sending _ = false

  abbrev pub is_receiving : Pc A → Bool
  is_receiving (receiving _) = true
  is_receiving late_receive = true
  is_receiving (saw_full _) = true
  is_receiving (taken _) = true
  is_receiving (copied _ _) = true
  is_receiving (released _ _) = true
  is_receiving _ = false

  abbrev pub wake_writers : Memory A → Memory A
  wake_writers m = record m { writable_epoch = (m.writable_epoch + 1) % u32_mod }

  -- One access of one thread, with the word before and after.
  pub data Act (m : Memory A) (word : ℕ) : Task A → Memory A → ℕ → Task A → Type 0 where
    load_word : Act m word outside m word (registering word)
    -- `try_send` and the others return `closed`
    refuse : {c : ℕ} → is_closed c ≡ true → Act m word (registering c) m word outside
    -- std::overflow_error
    overflow :
        {c : ℕ}
        → active_senders c ≡ channel_closed_bit - 1
        → Act m word (registering c) m word outside
    register :
        {c : ℕ}
        → is_closed c ≡ false
        → active_senders c ≢ channel_closed_bit - 1
        → word ≡ c
        → Act m word (registering c) m ((c + 1) % u32_mod) (inside idle)
    lose_register :
        {c : ℕ} → is_closed c ≡ false → Act m word (registering c) m word (registering word)
    attempt :
        {q q' : Pc A} {m' : Memory A}
        → Move m q m' q'
        → is_sending q' ≡ true
        → Act m word (inside q) m' word (inside q')
    leave :
        word ≢ channel_closed_bit + 1
        → Act m word (inside idle) m ((word + u32_mod - 1) % u32_mod) outside
    leave_last :
        word ≡ channel_closed_bit + 1
        → Act m word (inside idle) m ((word + u32_mod - 1) % u32_mod) last_out
    wake : Act m word last_out (signal_readers m) word outside
    begin_first : Act m word outside m word (first (receiving m.dequeue_position))
    try_first :
        {q q' : Pc A} {m' : Memory A}
        → Move m q m' q'
        → is_receiving q' ≡ true
        → Act m word (first q) m' word (first q')
    first_empty :
        {q : Pc A} {m' : Memory A}
        → Move m q m' idle
        → in_try_dequeue q ≡ true
        → Act m word (first q) m' word checking
    first_done :
        {v : A} {p : ℕ} {m' : Memory A}
        → Move m (released v p) m' idle
        → Act m word (first (released v p)) m' word outside
    -- `closed_and_senders_done` is false: the call returns, or waits and begins again
    see_senders : word ≢ channel_closed_bit → Act m word checking m word outside
    see_done : word ≡ channel_closed_bit → Act m word checking m word (second idle)
    begin_second : Act m word (second idle) m word (second (receiving m.dequeue_position))
    try_second :
        {q q' : Pc A} {m' : Memory A}
        → Move m q m' q'
        → is_receiving q' ≡ true
        → Act m word (second q) m' word (second q')
    -- returns `closed`
    second_empty :
        {q : Pc A} {m' : Memory A}
        → Move m q m' idle
        → in_try_dequeue q ≡ true
        → Act m word (second q) m' word told_closed
    second_done :
        {v : A} {p : ℕ} {m' : Memory A}
        → Move m (released v p) m' idle
        → Act m word (second (released v p)) m' word outside
    -- the wait of a call with a deadline times out
    time_out : word ≢ channel_closed_bit → Act m word checking m word (last_try idle)
    begin_last : Act m word (last_try idle) m word (last_try (receiving m.dequeue_position))
    try_last :
        {q q' : Pc A} {m' : Memory A}
        → Move m q m' q'
        → is_receiving q' ≡ true
        → Act m word (last_try q) m' word (last_try q')
    last_empty :
        {q : Pc A} {m' : Memory A}
        → Move m q m' idle
        → in_try_dequeue q ≡ true
        → Act m word (last_try q) m' word last_look
    last_done :
        {v : A} {p : ℕ} {m' : Memory A}
        → Move m (released v p) m' idle
        → Act m word (last_try (released v p)) m' word outside
    -- returns `closed`, and `timed_out`
    say_closed : word ≡ channel_closed_bit → Act m word last_look m word told_closed
    say_timed_out : word ≢ channel_closed_bit → Act m word last_look m word outside
    go_on : Act m word told_closed m word outside
    close_open :
        is_closed word ≡ false → Act m word outside m (word + channel_closed_bit) closing_readers
    close_closed : is_closed word ≡ true → Act m word outside m word outside
    close_readers : Act m word closing_readers (signal_readers m) word closing_writers
    close_writers : Act m word closing_writers (wake_writers m) word outside

-- `n` threads, of which any may act.
pub data Step {A : Type 0} (n : ℕ) (w : World A) : World A → Type 0 where
  pick :
      (i : ℕ) {m : Memory A} {word : ℕ} {t : Task A}
      → i < n
      → Act w.mem w.sender_state (w.task i) m word t
      → Step n w (record { mem = m; sender_state = word; task = update w.task i t })

-- A new channel, with every thread outside.
abbrev pub new_world : {A : Type 0} → ℕ → (ℕ → A) → World A
new_world capacity blank = record {
  mem = (Threads.init capacity blank).mem;
  sender_state = 0;
  task = λ _. outside;
}

pub data Reach {A : Type 0} (n capacity : ℕ) (blank : ℕ → A) : World A → Type 0 where
  start : Reach n capacity blank (new_world capacity blank)
  later :
      {w x : World A}
      → Reach n capacity blank w
      → Step n w x
      → HasRoom x.mem
      → Reach n capacity blank x
