-- ===== src/Managed/Send/Death.antt =====
-- include/shmchan/managed_channel.hpp: what the next caller makes of a send that died.
use mathlib.Core.List.{map-append}
use shmchan.Common.{
  ℕ, suc, ◌≡◌, ◌+◌, ◌≤◌, ◌<◌, ◌≢◌, ap, ◌∙◌, [], ◌∷◌, ◌++◌, arith, length, map, ltb, if◌then◌else◌,
  Bool-cases, inl, inr, take,
}
use shmchan.Status.{Bytes, u64_mod}
use shmchan.Managed.State.{ManagedMapping, max_size_of}
use shmchan.Managed.Slots.{recover_managed_slots}
use shmchan.Managed.Stores.{perform_all}
use shmchan.Managed.Queue.{contents, collect}
use shmchan.Managed.Invariant.{IsValid, IsRecoverable}
use shmchan.Managed.Receive.Death.{RecoversTo, recover-RecoversTo}
use shmchan.Managed.Send.{select_free, send_stores}
use shmchan.Managed.Send.Search.{select_free_lem}
use shmchan.Managed.Send.Crash.{died-Unsent, died-Sent}

-- What a process leaves that dies after the first `n` stores of publishing `message`.
unfoldable pub send_died : ℕ → ManagedMapping → Bytes → ManagedMapping
send_died n m message =
    perform_all (select_free m) (take n (send_stores m (select_free m) message)) m

-- What such a process leaves, in terms of the mapping `m` before.
pub record Died (n : ℕ) (m : ManagedMapping) (message : Bytes) (c : ManagedMapping) : Type 0 where
  pub recoverable : IsRecoverable c
  pub queue :
      contents c ≡ (if ltb n (length message + 8) then contents m else contents m ++ message ∷ [])
  pub state : c.header.state ≡ m.header.state
  pub format : c.header.format ≡ m.header.format
  pub upper : c.header.next_sequence ≤ m.header.next_sequence + 1

pub send_died-Died :
    (n : ℕ) (m : ManagedMapping) (message : Bytes)
    → IsValid m
    → length message ≤ max_size_of m
    → m.header.free_slots ≢ 0
    → suc m.header.next_sequence < u64_mod
    → Died n m message (send_died n m message)
unfolding send_died contents
send_died-Died n m message v fits room fresh =
    let (below, s, at, is_free) =
      select_free_lem m v.recoverable.some_slots v.recoverable.filled
        (λ e. room (v.free_counted ∙ e)) in
    elim (Bool-cases (ltb n (length message + 8))) [
      | inl early ↦
          let w =
            died-Unsent m (select_free m) s message v.recoverable at is_free fits fresh n
              (ground arith) in
          record {
            recoverable = w.recoverable;
            queue = rw early (ap (map (λ e. e.1)) w.queue);
            state = w.state;
            format = w.format;
            upper = w.upper;
          }
      | inr late ↦
          let w =
            died-Sent m (select_free m) s message v.recoverable at is_free fits fresh n
              (ground arith) in
          record {
            recoverable = w.recoverable;
            queue = rw late (
                ap (map (λ e. e.1)) w.queue
                ∙ map-append (λ e. e.1) (collect m.slots) ((m.header.next_sequence, message) ∷ []));
            state = w.state;
            format = w.format;
            upper = w.upper;
          }
    ]

-- A process dies in a send of a message that fits, on a valid channel with a FREE slot and a
-- sequence left, with `n` of the stores of the critical section done, and the next caller runs
-- `recover_managed_slots`. For every n the recovery succeeds, the mapping is valid and the
-- channel's state is as before. The READY store is store number `length message + 8`: the queue has the
-- message at its end if it was done, and is as before if not.
pub send_died-RecoversTo :
    (n : ℕ) (m : ManagedMapping) (message : Bytes)
    → IsValid m
    → length message ≤ max_size_of m
    → m.header.free_slots ≢ 0
    → suc m.header.next_sequence < u64_mod
    → RecoversTo m
        (if ltb n (length message + 8) then contents m else contents m ++ message ∷ [])
        (recover_managed_slots (send_died n m message))
send_died-RecoversTo n m message v fits room fresh =
    let w = send_died-Died n m message v fits room fresh in
    recover-RecoversTo m (send_died n m message) _ w.recoverable w.queue w.state
