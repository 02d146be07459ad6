-- ===== src/Tests/Managed.antt =====
-- A managed channel of two slots of three bytes, with one message in it.
use shmchan.Common.{◌⊎◌, false, ◌≡◌, refl, [], ◌∷◌, true, false, arith, List}
use shmchan.Managed.State.{
  break_mapping, corrupt_data, ManagedCounters, ManagedFormat, ManagedMapping,
}
use shmchan.Managed.Lock.{nonblocking}
use shmchan.Managed.Slots.{
  recover_managed_slots, validate_managed_slots, validate_scan, slot_case, counts_agree,
}
use shmchan.Managed.Fifo
use shmchan.Managed.Fifo.{put, get, shut, die_put}
use shmchan.Managed.Calls
use shmchan.Managed.Calls.Holds.{Holds}
use shmchan.Managed.Calls.Refine.{run-Fifo}
use shmchan.Managed.Queue.{contents, collect}
use shmchan.Managed.Invariant.{IsRecoverable, IsValid}
use shmchan.Managed.Invariant.Recovery.{Recovers, recover-Recovers}
use shmchan.Managed.Invariant.Validation.{IsConsistent, validate_managed_slots-exact}
use shmchan.Managed.Send.{publish}
use shmchan.Managed.Send.Delivery.{Delivers, publish-Delivers}
use shmchan.Managed.Send.Death.{send_died, send_died-RecoversTo}
use shmchan.Managed.Receive.{payload_of, receive_valid}
use shmchan.Managed.Receive.Take.{Takes, receive_valid-Takes}
use shmchan.Managed.Receive.Crash.{receive_died}
use shmchan.Managed.Receive.Death.{RecoversTo, AfterDeath, receive_died-AfterDeath}

abbrev no_traffic : ManagedCounters
no_traffic = record {
  sent_messages = 0;
  sent_bytes = 0;
  received_messages = 0;
  received_bytes = 0;
  owner_death_recoveries = 0;
  discarded_incomplete_writes = 0;
  send_timeouts = 0;
  receive_timeouts = 0;
  waiting_senders = 0;
  waiting_receivers = 0;
}

abbrev pub two_slots : ManagedFormat
two_slots = record {
  magic = 0x53484d4353494d50;
  layout_version = 1;
  header_size = 448;
  mapping_size = 704;
  protocol_id_value = 5;
  protocol_version = 1;
  message_capacity = 2;
  max_message_size = 3;
  slots_offset = 448;
  payload_offset = 576;
  payload_stride = 64;
  slot_size = 64;
  mutex_size = 40;
  mutex_alignment = 8;
}

abbrev one_sent : ManagedMapping
one_sent = record {
  header = record {
    format = two_slots;
    initialization = 1;
    state = 1;
    reason = 0;
    event_epoch = 1;
    next_sequence = 2;
    next_slot_hint = 1;
    free_slots = 1;
    writing_messages = 0;
    ready_messages = 1;
    counters = no_traffic;
  };
  slots =
      record { state = 2; payload_size = 2; sequence = 1; payload = 7 ∷ 8 ∷ 0 ∷ [] }
      ∷ record { state = 0; payload_size = 0; sequence = 0; payload = 0 ∷ 0 ∷ 0 ∷ [] }
      ∷ [];
}

one_sent-IsValid : IsValid one_sent
one_sent-IsValid = omega arith

contents-one_sent : contents one_sent ≡ (7 ∷ 8 ∷ []) ∷ []
unfolding contents collect payload_of
contents-one_sent = refl

send_died-RecoversTo_example :
    RecoversTo one_sent
      ((7 ∷ 8 ∷ []) ∷ (9 ∷ []) ∷ [])
      (recover_managed_slots (send_died 9 one_sent (9 ∷ [])))
unfolding contents collect payload_of
send_died-RecoversTo_example =
    send_died-RecoversTo 9 one_sent (9 ∷ []) one_sent-IsValid (omega arith) (omega arith)
      (omega arith)

receive_died-AfterDeath_example :
    AfterDeath 2 one_sent
      (7 ∷ 8 ∷ [])
      []
      (recover_managed_slots (receive_died 2 one_sent (7 ∷ 8 ∷ [])))
receive_died-AfterDeath_example =
    receive_died-AfterDeath one_sent (7 ∷ 8 ∷ []) [] 2 one_sent-IsValid contents-one_sent

-- A sender died after its first store.
abbrev half_sent : ManagedMapping
half_sent = record one_sent {
  slots =
      record { state = 2; payload_size = 2; sequence = 1; payload = 7 ∷ 8 ∷ 0 ∷ [] }
      ∷ record { state = 1; payload_size = 0; sequence = 0; payload = 0 ∷ 0 ∷ 0 ∷ [] }
      ∷ [];
}

half_sent-IsRecoverable : IsRecoverable half_sent
half_sent-IsRecoverable = omega arith

recover-Recovers_example : Recovers half_sent (recover_managed_slots half_sent)
recover-Recovers_example = recover-Recovers half_sent half_sent-IsRecoverable

publish-Delivers_example : Delivers one_sent (9 ∷ []) (publish one_sent (9 ∷ []))
publish-Delivers_example =
    publish-Delivers one_sent (9 ∷ []) one_sent-IsValid (omega arith) (omega arith) (omega arith)

receive_valid-Takes_example : Takes nonblocking one_sent (receive_valid nonblocking one_sent)
receive_valid-Takes_example = receive_valid-Takes nonblocking one_sent one_sent-IsValid

validate_managed_slots-exact_example :
    ((validate_managed_slots one_sent ≡ (true, one_sent)) × IsConsistent one_sent)
    ⊎ ((validate_managed_slots one_sent ≡ (false, break_mapping one_sent corrupt_data))
        × (¬ IsConsistent one_sent))
validate_managed_slots-exact_example = validate_managed_slots-exact one_sent (omega arith)

-- A mapping whose count of the free slots is wrong.
abbrev miscounted : ManagedMapping
miscounted = record one_sent { header = record (one_sent.header) { free_slots = 2 } }

miscounted_refused :
    validate_managed_slots miscounted ≡ (false, break_mapping miscounted corrupt_data)
unfolding validate_managed_slots validate_scan slot_case counts_agree
miscounted_refused = refl

-- A sender that dies after its READY store, then three receives round a close.
abbrev turns : List Fifo.Call
turns = die_put 9 (9 ∷ []) ∷ get ∷ shut ∷ get ∷ get ∷ put (3 ∷ []) ∷ []

one_sent-Holds :
    Holds 2 3 6
      (record { mapping = one_sent; orphaned = false })
      (record { items = (7 ∷ 8 ∷ []) ∷ []; is_open = true })
one_sent-Holds = record {
  recoverable = one_sent-IsValid.recoverable;
  valid = λ _. one_sent-IsValid;
  items = contents-one_sent;
  state = refl;
  slots = refl;
  largest = refl;
  sequences = omega arith;
}

run-Fifo_example :
    Calls.run (record { mapping = one_sent; orphaned = false }) turns
    ≡ Fifo.run 2 3 (record { items = (7 ∷ 8 ∷ []) ∷ []; is_open = true }) turns
run-Fifo_example =
    run-Fifo 2 3 turns (record { mapping = one_sent; orphaned = false })
      (record { items = (7 ∷ 8 ∷ []) ∷ []; is_open = true }) one_sent-Holds
