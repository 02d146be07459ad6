-- ===== src/Managed/Send/Delivery.antt =====
-- include/shmchan/managed_channel.hpp: a send that is not interrupted.
use shmchan.Common.{
  ℕ, suc, ◌+◌, ◌-◌, ◌≤◌, ◌<◌, ◌≡◌, ◌≢◌, refl, ap, ap₂, ◌∙◌, subst, List, [], ◌∷◌, ◌++◌, false, some,
  arith, length, get_elem?, map, take-all, length-append, ◌==◌, if◌then◌else◌,
}
use mathlib.Core.List.{map-append}
use shmchan.Status.{Bytes, u64_mod}
use shmchan.Managed.State.{
  ManagedMessageSlot, ManagedSharedHeader, ManagedMapping, free, writing, ready, slot_code,
  capacity_of, max_size_of,
}
use shmchan.Managed.Stores.{Store, perform_all}
use shmchan.Managed.Stores.Effects.{
  slot_effect, header_effect, header_effect-append, updated, perform_all-eq,
}
use shmchan.Managed.Queue.{contents, collect}
use shmchan.Managed.Invariant.{IsValid, count_state}
use shmchan.Managed.Invariant.Scans.{count_state-sum}
use shmchan.Managed.Invariant.Counting.{count_state-set}
use shmchan.Managed.Send.{
  SendStep, sent, publish, select_free, ready_store, account_stores, send_stores,
}
use shmchan.Managed.Send.Search.{select_free_lem}
use shmchan.Managed.Send.Stages.{
  hidden_stores, length-hidden_stores, published, slot_effect-hidden_ready, numbered,
  header_effect-hidden,
}
use shmchan.Managed.Send.Crash.{Sent, died-Sent}

abbrev accounted : ManagedSharedHeader → ℕ → ℕ → Bytes → ManagedSharedHeader
accounted h capacity i message =
    header_effect (account_stores capacity i message) (numbered h h.next_sequence)

module _ (m : ManagedMapping) (v : IsValid m) (message : Bytes)
    (fits : length message ≤ max_size_of m) (room : suc m.header.next_sequence < u64_mod) (i : ℕ)
    (s : ManagedMessageSlot) (at : get_elem? m.slots i ≡ some s)
    (is_free : s.state ≡ slot_code free) where
  abbrev finished : ManagedMapping
  finished =
      updated i (published s m.header.next_sequence message)
        (accounted m.header (capacity_of m) i message) m

  perform-send_stores : perform_all i (send_stores m i message) m ≡ finished
  unfolding send_stores header_effect slot_effect ready_store account_stores
  perform-send_stores =
      perform_all-eq (send_stores m i message) i m at
      ∙ ap₂ (λ s' h'. updated i s' h' m)
          (slot_effect-hidden_ready s m.header.next_sequence message accounts)
          (header_effect-append (hidden_stores m.header.next_sequence message)
              (ready_store ∷ accounts) m.header
            ∙ ap (header_effect (ready_store ∷ accounts))
                (header_effect-hidden m.header m.header.next_sequence message))
    where
      accounts : List Store
      accounts = account_stores (capacity_of m) i message

  length-send_stores : length message + 7 < length (send_stores m i message)
  unfolding send_stores
  length-send_stores = omega (
    arith,
    length-append (hidden_stores m.header.next_sequence message)
        (ready_store ∷ account_stores (capacity_of m) i message),
    length-hidden_stores m.header.next_sequence message,
  )

  finished-Sent : Sent m i s message v.recoverable at is_free fits room finished
  finished-Sent =
      subst (Sent m i s message v.recoverable at is_free fits room)
        (ap (λ l. perform_all i l m)
            (take-all (length (send_stores m i message)) (send_stores m i message) (omega arith))
          ∙ perform-send_stores)
        (died-Sent m i s message v.recoverable at is_free fits room
          (length (send_stores m i message)) length-send_stores)

  counted :
      (code : ℕ)
      → count_state code finished.slots + (if slot_code free == code then 1 else 0)
        ≡ count_state code m.slots + (if slot_code ready == code then 1 else 0)
  counted code =
      subst
        (λ (k : ℕ).
          count_state code finished.slots + (if k == code then 1 else 0)
          ≡ count_state code m.slots + (if slot_code ready == code then 1 else 0))
        is_free (count_state-set m.slots i s (published s m.header.next_sequence message) code at)

  in_all :
      count_state (slot_code free) m.slots
        + count_state (slot_code writing) m.slots
        + count_state (slot_code ready) m.slots
      ≡ length m.slots
  in_all = count_state-sum (max_size_of m) m.header.next_sequence m.slots v.recoverable.slots_ok

  finished-IsValid : IsValid finished
  unfolding header_effect account_stores
  finished-IsValid = record {
    recoverable = finished-Sent.recoverable;
    none_writing = omega (arith, counted (slot_code writing), v.none_writing);
    free_counted = omega (
      arith,
      counted (slot_code free),
      in_all,
      v.free_counted,
      v.recoverable.filled,
      v.recoverable.few_slots,
    );
    writing_counted = omega (arith, v.writing_counted);
    ready_counted = omega (
      arith,
      counted (slot_code ready),
      in_all,
      v.ready_counted,
      v.recoverable.filled,
      v.recoverable.few_slots,
    );
  }

-- What a send that found room has done.
abbrev pub Delivers : ManagedMapping → Bytes → SendStep → Type 0
Delivers m message step =
    (m' : ManagedMapping) × (step ≡ sent m')
    × IsValid m'
    × (contents m' ≡ contents m ++ message ∷ [])
    × (m'.header.state ≡ m.header.state)
    × (m'.header.format ≡ m.header.format)
    × (m'.header.next_sequence ≡ m.header.next_sequence + 1)

-- A send of a message that fits, on a valid channel with a FREE slot and a sequence left: the search
-- and the stores succeed. The result is a mapping that is valid again, holds the message at the end
-- of the queue, is in the same state and format, and has used one sequence.
pub publish-Delivers :
    (m : ManagedMapping) (message : Bytes)
    → IsValid m
    → length message ≤ max_size_of m
    → m.header.free_slots ≢ 0
    → suc m.header.next_sequence < u64_mod
    → Delivers m message (publish m message)
unfolding publish contents header_effect account_stores
publish-Delivers m message v fits room fresh =
    let (below, s, at, is_free) =
      select_free_lem m v.recoverable.some_slots v.recoverable.filled
        (λ e. room (v.free_counted ∙ e)) in
    let i : ℕ = select_free m in
    let fresh' : (m.header.next_sequence == u64_mod - 1) ≡ false = ground arith in
    let found : (select_free m == capacity_of m) ≡ false = ground arith in
    let done : perform_all i (send_stores m i message) m
        ≡ finished m v message fits fresh i s at is_free =
      perform-send_stores m v message fits fresh i s at is_free in
    (
      finished m v message fits fresh i s at is_free,
      rw (fresh', found) (ap sent done),
      finished-IsValid m v message fits fresh i s at is_free,
      ap (map (λ e. e.1)) (finished-Sent m v message fits fresh i s at is_free).queue
          ∙ map-append (λ e. e.1) (collect m.slots) ((m.header.next_sequence, message) ∷ []),
      refl,
      refl,
      omega arith,
    )
