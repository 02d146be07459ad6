-- ===== src/Channel/Threads/Invariant/Step.antt =====
-- include/shmchan/channel.hpp: every access of every thread keeps the invariant.
use shmchan.Common.{ℕ, ◌+◌, ◌%◌, ◌≡◌, inr, arith}
use shmchan.Status.{u32_mod}
use shmchan.Channel.Threads.{
  Memory, index, update, Pc, idle, sending, late_send, saw_free, claimed, filled, receiving,
  late_receive, saw_full, taken, copied, released, HasRoom, Move, start_send, see_free, see_filled,
  pass_by_send, reload_send, win_send, lose_send, copy_in, publish, end_send, start_receive,
  see_full, see_empty, pass_by_receive, reload_receive, win_receive, lose_receive, copy_out,
  release, end_receive,
}
use shmchan.Channel.Threads.Invariant.{Inv}
use shmchan.Channel.Threads.Invariant.Frame.{reads_same, reads_next, epochs-Inv, stay-Inv, known}
use shmchan.Channel.Threads.Invariant.Sends.{fill-Inv, publish-Inv, win_send-Inv}
use shmchan.Channel.Threads.Invariant.Receives.{release-Inv, return-Inv, win_receive-Inv}

module _ {A : Type 0} (m : Memory A) (pc : ℕ → Pc A) (inv : Inv m pc) (i : ℕ) where
  pub Move-Inv :
      {p q : Pc A} {m' : Memory A} → Move m p m' q → pc i ≡ p → HasRoom m' → Inv m' (update pc i q)
  Move-Inv (start_send v) was room =
      stay-Inv m pc inv i (sending v m.enqueue_position) (ground arith) (ground arith)
        (ground arith) (omega arith)
  Move-Inv (see_free {v} {p} same) was room =
      let near = known m pc inv i (sending v p) was in
      stay-Inv m pc inv i (saw_free v p) (ground arith) (ground arith) (ground arith)
        (near, inr (reads_same m pc inv p (omega (arith, inv.room)) same))
  Move-Inv (see_filled n) was room =
      stay-Inv m pc inv i idle (ground arith) (ground arith) (ground arith) tt
  Move-Inv (pass_by_send {v} n n') was room =
      stay-Inv m pc inv i (late_send v) (ground arith) (ground arith) (ground arith) tt
  Move-Inv (reload_send {v}) was room =
      stay-Inv m pc inv i (sending v m.enqueue_position) (ground arith) (ground arith)
        (ground arith) (omega arith)
  Move-Inv (win_send {v} {p} won) was room = win_send-Inv m pc inv i v p won was room
  Move-Inv (lose_send {v}) was room =
      stay-Inv m pc inv i (sending v m.enqueue_position) (ground arith) (ground arith)
        (ground arith) (omega arith)
  Move-Inv (copy_in {v} {p}) was room =
      fill-Inv m pc inv i v p was (known m pc inv i (claimed v p) was)
  Move-Inv (publish {v} {p}) was room =
      publish-Inv m pc inv i v p was (known m pc inv i (filled v p) was)
  Move-Inv end_send was room =
      epochs-Inv m (update pc i idle)
        (stay-Inv m pc inv i idle (ground arith) (ground arith) (ground arith) tt)
        ((m.readable_epoch + 1) % u32_mod) m.writable_epoch
  Move-Inv start_receive was room =
      stay-Inv m pc inv i (receiving m.dequeue_position) (ground arith) (ground arith)
        (ground arith) (omega arith)
  Move-Inv (see_full {p} same) was room =
      let near = known m pc inv i (receiving p) was in
      stay-Inv m pc inv i (saw_full p) (ground arith) (ground arith) (ground arith)
        (near, inr (reads_next m pc inv p (omega (arith, inv.room, inv.ordered)) same))
  Move-Inv (see_empty n) was room =
      stay-Inv m pc inv i idle (ground arith) (ground arith) (ground arith) tt
  Move-Inv (pass_by_receive n n') was room =
      stay-Inv m pc inv i late_receive (ground arith) (ground arith) (ground arith) tt
  Move-Inv reload_receive was room =
      stay-Inv m pc inv i (receiving m.dequeue_position) (ground arith) (ground arith)
        (ground arith) (omega arith)
  Move-Inv (win_receive {p} won) was room = win_receive-Inv m pc inv i p won was
  Move-Inv lose_receive was room =
      stay-Inv m pc inv i (receiving m.dequeue_position) (ground arith) (ground arith)
        (ground arith) (omega arith)
  Move-Inv (copy_out {p}) was room =
      let (before, own, value, fresh) = known m pc inv i (taken p) was in
      stay-Inv m pc inv i (copied (m.storage (index m p)) p) (ground arith) (ground arith)
        (ground arith) (before, own, value, fresh)
  Move-Inv (release {v} {p}) was room =
      release-Inv m pc inv i v p was (known m pc inv i (copied v p) was)
  Move-Inv (end_receive {v} {p}) was room =
      return-Inv m pc inv i v p was (known m pc inv i (released v p) was)
