-- ===== src/Channel/Closing/Steps.antt =====
-- include/shmchan/channel.hpp: every access of a call keeps the count of the senders.
use shmchan.Common.{ℕ, ◌+◌, ◌%◌, ◌<◌, ◌≡◌, true, none, arith, refl, ap, subst}
use shmchan.Status.{u32_mod}
use shmchan.Channel.Threads.{Memory, update, Pc, idle, receiving, HasRoom, Move, start_receive}
use shmchan.Channel.Threads.Invariant.{claim_of}
use shmchan.Channel.Threads.Invariant.Frame.{epochs-Inv}
use shmchan.Channel.Closing.{
  Task, outside, registering, inside, last_out, first, checking, second, closing_writers, last_try,
  last_look, told_closed, go_on, time_out, begin_last, try_last, last_empty, last_done, say_closed,
  say_timed_out, is_receiving, Act, load_word, refuse, overflow, register, lose_register, attempt,
  leave, leave_last, wake, begin_first, try_first, first_empty, first_done, see_senders, see_done,
  begin_second, try_second, second_empty, second_done, close_open, close_closed, close_readers,
  close_writers,
}
use shmchan.Channel.Closing.Invariant.{
  pc_of, counts, Plays, WorldInv, same_word, rest, ring_move, register-WorldInv, leave-WorldInv,
  close-WorldInv,
}

module _ {A : Type 0} (n : ℕ) {m : Memory A} {word : ℕ} {task : ℕ → Task A}
    (inv : WorldInv n m word task) (i : ℕ) (below : i < n) where
  -- A move that changes nothing but the task, which is outside of the ring.
  only_task :
      (t : Task A)
      → counts t ≡ counts (task i)
      → Plays word t
      → pc_of (task i) ≡ idle
      → pc_of t ≡ idle
      → WorldInv n m word (update task i t)
  only_task t same own out out' =
      same_word n inv i below m t same own (rest n inv i below t out out')

  -- A move of the ring.
  in_ring :
      {q q' : Pc A} {m' : Memory A} (t : Task A)
      → counts t ≡ counts (task i)
      → Plays word t
      → pc_of (task i) ≡ q
      → Move m q m' q'
      → pc_of t ≡ q'
      → HasRoom m'
      → WorldInv n m' word (update task i t)
  in_ring {q} {q'} {m'} t same own was mv now room =
      same_word n inv i below m' t same own (ring_move n inv i below t was mv now room)

  -- A change of the epochs.
  signals :
      (r w : ℕ) (t : Task A)
      → counts t ≡ counts (task i)
      → Plays word t
      → pc_of (task i) ≡ idle
      → pc_of t ≡ idle
      → WorldInv n (record m { readable_epoch = r; writable_epoch = w }) word (update task i t)
  signals r w t same own out out' =
      same_word n inv i below (record m { readable_epoch = r; writable_epoch = w }) t same own
        (epochs-Inv m _ (rest n inv i below t out out') r w)

  receiving-none : (q : Pc A) → is_receiving q ≡ true → claim_of q ≡ none
  receiving-none q e = ground arith

  task-Plays : (t : Task A) → task i ≡ t → Plays word t
  task-Plays t was = subst (Plays word) was (inv.plays i)

  pub Act-WorldInv :
      {t t' : Task A} {m' : Memory A} {word' : ℕ}
      → Act m word t m' word' t'
      → task i ≡ t
      → HasRoom m'
      → WorldInv n m' word' (update task i t')
  Act-WorldInv load_word was room =
      only_task (registering word) (ground arith) tt (ground arith) refl
  Act-WorldInv (refuse e) was room = only_task outside (ground arith) tt (ground arith) refl
  Act-WorldInv (overflow e) was room = only_task outside (ground arith) tt (ground arith) refl
  Act-WorldInv (register {c} is_open more same) was room =
      register-WorldInv n inv i below c was is_open more same
  Act-WorldInv (lose_register e) was room =
      only_task (registering word) (ground arith) tt (ground arith) refl
  Act-WorldInv (attempt {q} {q'} mv s) was room =
      in_ring (inside q') (ground arith) tt (ap pc_of was) mv refl room
  Act-WorldInv (leave e) was room = leave-WorldInv n inv i below outside was refl refl tt
  Act-WorldInv (leave_last e) was room = leave-WorldInv n inv i below last_out was refl refl tt
  Act-WorldInv wake was room =
      signals ((m.readable_epoch + 1) % u32_mod) m.writable_epoch outside (ground arith) tt
        (ground arith) refl
  Act-WorldInv begin_first was room =
      in_ring (first (receiving m.dequeue_position)) (ground arith) refl (ap pc_of was)
        start_receive refl room
  Act-WorldInv (try_first {q} {q'} mv r) was room =
      in_ring (first q') (ground arith) (receiving-none q' r) (ap pc_of was) mv refl room
  Act-WorldInv (first_empty mv h) was room =
      in_ring checking (ground arith) tt (ap pc_of was) mv refl room
  Act-WorldInv (first_done mv) was room =
      in_ring outside (ground arith) tt (ap pc_of was) mv refl room
  Act-WorldInv (see_senders e) was room = only_task outside (ground arith) tt (ground arith) refl
  Act-WorldInv (see_done e) was room =
      only_task (second idle) (ground arith) (refl, e) (ground arith) refl
  Act-WorldInv begin_second was room =
      in_ring (second (receiving m.dequeue_position)) (ground arith)
        (refl, (task-Plays (second idle) was).1) (ap pc_of was) start_receive refl room
  Act-WorldInv (try_second {q} {q'} mv r) was room =
      in_ring (second q') (ground arith) (receiving-none q' r, (task-Plays (second q) was).1)
        (ap pc_of was) mv refl room
  Act-WorldInv (second_empty mv h) was room =
      in_ring told_closed (ground arith) tt (ap pc_of was) mv refl room
  Act-WorldInv (second_done mv) was room =
      in_ring outside (ground arith) tt (ap pc_of was) mv refl room
  Act-WorldInv (time_out e) was room =
      only_task (last_try idle) (ground arith) refl (ground arith) refl
  Act-WorldInv begin_last was room =
      in_ring (last_try (receiving m.dequeue_position)) (ground arith) refl (ap pc_of was)
        start_receive refl room
  Act-WorldInv (try_last {q} {q'} mv r) was room =
      in_ring (last_try q') (ground arith) (receiving-none q' r) (ap pc_of was) mv refl room
  Act-WorldInv (last_empty mv h) was room =
      in_ring last_look (ground arith) tt (ap pc_of was) mv refl room
  Act-WorldInv (last_done mv) was room =
      in_ring outside (ground arith) tt (ap pc_of was) mv refl room
  Act-WorldInv (say_closed e) was room = only_task told_closed (ground arith) tt (ground arith) refl
  Act-WorldInv go_on was room = only_task outside (ground arith) tt (ground arith) refl
  Act-WorldInv (say_timed_out e) was room = only_task outside (ground arith) tt (ground arith) refl
  Act-WorldInv (close_open is_open) was room = close-WorldInv n inv i below was is_open
  Act-WorldInv (close_closed e) was room = only_task outside (ground arith) tt (ground arith) refl
  Act-WorldInv close_readers was room =
      signals ((m.readable_epoch + 1) % u32_mod) m.writable_epoch closing_writers (ground arith) tt
        (ground arith) refl
  Act-WorldInv close_writers was room =
      signals m.readable_epoch ((m.writable_epoch + 1) % u32_mod) outside (ground arith) tt
        (ground arith) refl
