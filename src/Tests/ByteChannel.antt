-- ===== src/Tests/ByteChannel.antt =====
-- A byte channel of 128 bytes, new and after four calls.
use shmchan.Common.{
  if◌then◌else◌, ◌==◌, ℕ, ◌≡◌, refl, arith, List, [], ◌∷◌, ◌++◌, replicate, true, inl, inr, some,
}
use shmchan.Status.{Bytes}
use shmchan.ByteChannel.Memory.{from_bytes, ring_read, ring_write}
use shmchan.ByteChannel.State.{
  ByteRing, copy_to_record, copy_from_record, signal_writable, field_at, bad_total,
}
use shmchan.ByteChannel.Enqueue.{try_enqueue}
use shmchan.ByteChannel.Dequeue.{try_dequeue, reclaim_consumed}
use shmchan.ByteChannel.Copy.{copy_to_record-ring_write, copy_from_record-ring_read}
use shmchan.ByteChannel.Chain.{HasRecord}
use shmchan.ByteChannel.Store.{HoldsQueue, undisturbed, Enqueues, try_enqueue-Enqueues}
use shmchan.ByteChannel.Reclaim.{rounds_for, reclaim_consumed-all}
use shmchan.ByteChannel.Take.{alone, Dequeues, try_dequeue-Dequeues}
use shmchan.ByteChannel.Unwritten.{claimed_by, try_dequeue-claimed_by}
use shmchan.ByteChannel.Send.{try_send}
use shmchan.ByteChannel.Receive.{try_receive}
use shmchan.Channel.Sender.{register, unregister}
use shmchan.ByteChannel.Queue
use shmchan.ByteChannel.Queue.{Call, put, get, shut}
use shmchan.ByteChannel.Calls
use shmchan.ByteChannel.Calls.{turn}
use shmchan.ByteChannel.Refine.{Represents}
use shmchan.ByteChannel.Refine.Runs.{run-Queue}
use shmchan.ByteChannel.Layout.{ByteFormat, create, fresh_ring, validate_mapping, abi_mismatch}
use shmchan.ByteChannel.Layout.Create.{create-Represents}

abbrev word : ℕ → Bytes
word n = n ∷ replicate 7 0

abbrev pub new_ring : ByteRing
new_ring = fresh_ring 128

new_ring-HoldsQueue : HoldsQueue 1000 new_ring []
new_ring-HoldsQueue = record {
  some_room = omega arith;
  whole = refl;
  bounded = omega arith;
  filled = omega arith;
  aligned = refl;
  reclaimed = refl;
  chain = refl;
  within = omega arith;
  no_wrap = omega arith;
}

copy_to_record-ring_write_example :
    copy_to_record 64 (replicate 40 5) new_ring
    ≡ record new_ring { area = ring_write 128 new_ring.area 96 (replicate 40 5) }
copy_to_record-ring_write_example =
    copy_to_record-ring_write new_ring (omega arith) 64 (replicate 40 5) (omega arith)

copy_from_record-ring_read_example :
    copy_from_record 64 40 new_ring ≡ ring_read 128 new_ring.area 96 40
copy_from_record-ring_read_example =
    copy_from_record-ring_read new_ring (omega arith) 64 40 (omega arith)

try_enqueue-Enqueues_example :
    Enqueues 900 new_ring [] (7 ∷ 8 ∷ []) (try_enqueue (undisturbed ∷ []) (7 ∷ 8 ∷ []) new_ring)
try_enqueue-Enqueues_example =
    try_enqueue-Enqueues 900 new_ring [] (7 ∷ 8 ∷ []) (omega arith) (record {
      some_room = omega arith;
      whole = refl;
      bounded = omega arith;
      filled = omega arith;
      aligned = refl;
      reclaimed = refl;
      chain = refl;
      within = omega arith;
      no_wrap = omega arith;
    })

-- A message of 64 bytes that looks like the record of position 160, one of 32 bytes, and both
-- received.
abbrev forgery : Bytes
forgery = word 161 ++ (word 64 ++ (word 2 ++ (replicate 8 0 ++ (9 ∷ 9 ∷ replicate 30 0))))

abbrev prologue : List Call
prologue = put forgery ∷ get ∷ put (replicate 32 1) ∷ get ∷ []

abbrev after_calls : ByteRing → List Call → ByteRing
after_calls b [] = b
after_calls b (c ∷ rest) = after_calls (turn b c).1 rest

abbrev stale : ByteRing
stale = record {
  capacity_bytes = 128;
  write_position = 160;
  claim_position = 160;
  reclaim_position = 160;
  words = record { sender_state = 0; readable_epoch = 4; writable_epoch = 2 };
  area = replicate 32 1 ++ (forgery ++ (word 99 ++ (word 64 ++ (word 32 ++ replicate 8 0))));
}

prologue-stale : after_calls new_ring prologue ≡ stale
unfolding turn try_receive try_dequeue try_send register try_enqueue field_at bad_total unregister
prologue-stale = refl

-- The payload of the first message is a record of the position that the next sender claims.
stale-HasRecord : HasRecord 128 stale.area 160 161 (9 ∷ 9 ∷ [])
unfolding ring_read from_bytes
stale-HasRecord = record { state = refl; total_size = refl; payload_size = refl; payload = refl }

try_dequeue-claimed_by_example :
    Dequeues 900
      (claimed_by (3 ∷ []) stale)
      ((9 ∷ 9 ∷ []) ∷ [])
      (try_dequeue alone (claimed_by (3 ∷ []) stale))
try_dequeue-claimed_by_example =
    try_dequeue-claimed_by 900 stale (3 ∷ []) (9 ∷ 9 ∷ [])
      (record {
        some_room = omega arith;
        whole = refl;
        bounded = omega arith;
        filled = omega arith;
        aligned = refl;
        reclaimed = refl;
        chain = refl;
        within = omega arith;
        no_wrap = omega arith;
      })
      (omega arith) refl stale-HasRecord

-- The same bytes, published.
abbrev one_message : ByteRing
one_message = claimed_by (9 ∷ 9 ∷ []) stale

one_message-HoldsQueue : HoldsQueue 900 one_message ((9 ∷ 9 ∷ []) ∷ [])
one_message-HoldsQueue = record {
  some_room = omega arith;
  whole = refl;
  bounded = omega arith;
  filled = omega arith;
  aligned = refl;
  reclaimed = refl;
  chain = (stale-HasRecord, refl);
  within = omega arith;
  no_wrap = omega arith;
}

try_dequeue-Dequeues_example :
    Dequeues 900 one_message ((9 ∷ 9 ∷ []) ∷ []) (try_dequeue alone one_message)
try_dequeue-Dequeues_example =
    try_dequeue-Dequeues 900 one_message ((9 ∷ 9 ∷ []) ∷ []) one_message-HoldsQueue

-- The record of position 96 is consumed, and not yet reclaimed.
abbrev one_consumed : ByteRing
one_consumed = record stale { reclaim_position = 96 }

one_consumed-HasRecord : HasRecord 128 stale.area 96 99 (replicate 32 1)
unfolding ring_read from_bytes
one_consumed-HasRecord = record {
  state = refl;
  total_size = refl;
  payload_size = refl;
  payload = refl;
}

reclaim_consumed-all_example :
    reclaim_consumed (rounds_for (replicate 32 1 ∷ [])) one_consumed ≡ some (signal_writable stale)
reclaim_consumed-all_example =
    reclaim_consumed-all (replicate 32 1 ∷ []) one_consumed 160 (omega arith) refl refl
      (omega arith) (omega arith) (omega arith) (one_consumed-HasRecord, refl) (inl refl)

abbrev calls : List Call
calls = put (7 ∷ 8 ∷ []) ∷ put (5 ∷ []) ∷ put (6 ∷ []) ∷ get ∷ shut ∷ get ∷ get ∷ put [] ∷ []

run-Queue_example :
    Calls.run new_ring calls ≡ Queue.run 128 (record { items = []; is_open = true }) calls
run-Queue_example =
    run-Queue 128 calls new_ring (record { items = []; is_open = true })
      (record {
        ring = record {
          some_room = omega arith;
          whole = refl;
          bounded = omega arith;
          filled = omega arith;
          aligned = refl;
          reclaimed = refl;
          chain = refl;
          within = omega arith;
          no_wrap = omega arith;
        };
        size = refl;
        word = refl;
      })

create-Represents_example :
    (f : ByteFormat) × (b : ByteRing) × (create 100 ≡ inr (f, b))
    × Represents 128 1000 b (record { items = []; is_open = true })
    × (validate_mapping f 704 ≡ (if f.mapping_size == 704 then inr 128 else inl abi_mismatch))
create-Represents_example = create-Represents 100 1000 704 (omega arith) (omega arith) (omega arith)
