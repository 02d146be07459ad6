-- ===== src/ByteChannel/Store.antt =====
-- include/shmchan/byte_channel.hpp: a sender's stores as writes of the tape, and `try_enqueue` alone
-- on a ring that holds a queue.
use shmchan.Common.{
  ℕ, ◌+◌, ◌*◌, ◌%◌, ◌^◌, ◌≤◌, ◌<◌, ◌≡◌, ◌⊎◌, inl, inr, refl, ap, ◌∙◌, Bool-cases, true, false, List,
  [], ◌∷◌, ◌++◌, arith, length, ◌==◌,
}
use shmchan.Status.{Bytes, u64_mod}
use shmchan.ByteChannel.Memory.{to_bytes, ring_write, length-to_bytes}
use shmchan.ByteChannel.State.{
  ByteRing, record_size, published_token, sub_u64, store_field, copy_to_record, signal_readable,
}
use shmchan.ByteChannel.Enqueue.{
  Round, Enqueue, enqueued, full, write_record, publish_record, lacks_room, try_enqueue,
}
use shmchan.ByteChannel.Copy.{store_field-ring_write, copy_to_record-ring_write}
use shmchan.ByteChannel.Chain.{
  size_of, total_of, total_of-append, record_size-size_of, ring_writes, Chain, Chain-end,
  Chain-append, Chain-kept, AllApart, length-ring_writes,
}
use shmchan.ByteChannel.Chain.Written.{record_writes, HasRecord-written}

-- A ring that nobody is using holds the messages `xs`: published records from the claim position
-- to the write position, with nothing left to reclaim, and positions for `budget` bytes more.
pub record HoldsQueue (budget : ℕ) (b : ByteRing) (xs : List Bytes) : Type 0 where
  pub some_room : 32 < b.capacity_bytes
  pub whole : b.capacity_bytes % 32 ≡ 0
  pub bounded : b.capacity_bytes < 2 ^ 63
  pub filled : b.capacity_bytes ≤ length b.area
  pub aligned : b.claim_position % 32 ≡ 0
  pub reclaimed : b.reclaim_position ≡ b.claim_position
  pub chain : Chain b.capacity_bytes b.area b.claim_position xs b.write_position
  pub within : total_of xs ≤ b.capacity_bytes
  pub no_wrap : b.write_position + budget + b.capacity_bytes < u64_mod

pub total_of-aligned : (xs : List Bytes) → total_of xs % 32 ≡ 0
total_of-aligned [] = refl
total_of-aligned (x ∷ xs) = omega (arith, total_of-aligned xs)

-- A round in which nobody else runs.
abbrev pub undisturbed : Round
undisturbed = record { before = λ b. b; between = λ b. b; fails_weakly = false }

module _ (b : ByteRing) (p : ℕ) (x : Bytes) (some_room : 0 < b.capacity_bytes)
    (whole : b.capacity_bytes % 32 ≡ 0) (aligned : p % 32 ≡ 0) (small : p + 1 < u64_mod)
    (fits : length x ≤ b.capacity_bytes) where
  abbrev cap_of : ℕ
  cap_of = b.capacity_bytes

  abbrev with_area : Bytes → ByteRing
  with_area area = record b { area = area }

  -- One word stored on top of other changes of the area.
  store_on :
      (area : Bytes) (field value : ℕ)
      → field < 4
      → store_field field p value (with_area area)
        ≡ with_area (ring_write cap_of area (p + field * 8) (to_bytes 8 value))
  store_on area field value known =
      store_field-ring_write (with_area area) some_room p whole aligned field known value

  abbrev area_one : Bytes
  area_one = ring_write cap_of b.area (p + 8) (to_bytes 8 (size_of x))

  abbrev area_two : Bytes
  area_two = ring_write cap_of area_one (p + 16) (to_bytes 8 (length x))

  abbrev area_three : Bytes
  area_three = ring_write cap_of area_two (p + 24) (to_bytes 8 0)

  write_record-ring_writes :
      write_record p (size_of x) x b ≡ with_area (ring_write cap_of area_three (p + 32) x)
  unfolding write_record
  write_record-ring_writes =
      ap (copy_to_record p x) (
        ap (store_field 3 p 0) (
          ap (store_field 2 p (length x)) (store_on b.area 1 (size_of x) (omega arith))
          ∙ store_on area_one 2 (length x) (omega arith))
        ∙ store_on area_two 3 0 (omega arith))
      ∙ copy_to_record-ring_write (with_area area_three) some_room p x fits

  -- All stores of a sender, in their order, with the published token as the last.
  pub publish_record-ring_writes :
      publish_record p (write_record p (size_of x) x b)
      ≡ signal_readable (with_area (ring_writes cap_of b.area (record_writes cap_of some_room p x)))
  unfolding publish_record
  publish_record-ring_writes =
      let token : published_token p ≡ p + 1 = omega (arith, small) in
      let here : p + 0 * 8 ≡ p = omega arith in
      rw (write_record-ring_writes, token)
        (ap (λ c. signal_readable c)
          (store_on (ring_write cap_of area_three (p + 32) x) 0 (p + 1) (omega arith)
            ∙ ap
                (λ q. with_area (
                  ring_write cap_of (ring_write cap_of area_three (p + 32) x) q
                    (to_bytes 8 (p + 1))))
                here))

-- What `try_enqueue` does to a ring that holds `xs`: with no room for the record nothing, and
-- otherwise the message is at the end.
abbrev pub Enqueues : ℕ → ByteRing → List Bytes → Bytes → Enqueue → Type 0
Enqueues budget b xs x result =
    (b.capacity_bytes < total_of xs + size_of x) × (result ≡ full b)
    ⊎ (total_of xs + size_of x ≤ b.capacity_bytes)
      × ((b' : ByteRing) × (result ≡ enqueued b')
          × HoldsQueue budget b' (xs ++ x ∷ [])
          × (b'.capacity_bytes ≡ b.capacity_bytes)
          × (b'.words.sender_state ≡ b.words.sender_state))

module _ (budget : ℕ) (b : ByteRing) (xs : List Bytes) (x : Bytes)
    (fits : length x + 32 ≤ b.capacity_bytes) (h : HoldsQueue (budget + size_of x) b xs) where
  used : sub_u64 b.write_position b.reclaim_position ≡ total_of xs
  used = omega (
    arith,
    h.reclaimed,
    h.within,
    h.no_wrap,
    h.bounded,
    Chain-end b.capacity_bytes b.area b.claim_position xs b.write_position h.chain,
  )

  write_aligned : b.write_position % 32 ≡ 0
  write_aligned = omega (
    arith,
    h.aligned,
    total_of-aligned xs,
    Chain-end b.capacity_bytes b.area b.claim_position xs b.write_position h.chain,
  )

  abbrev advanced : ByteRing
  advanced = record b { write_position = b.write_position + size_of x }

  abbrev stores : List (ℕ × Bytes)
  stores = record_writes b.capacity_bytes (omega (arith, h.some_room)) b.write_position x

  no_room :
      lacks_room b.write_position (size_of x) b ≡ true → b.capacity_bytes < total_of xs + size_of x
  unfolding lacks_room
  no_room e = ground (arith, used, h.within)

  some_space :
      lacks_room b.write_position (size_of x) b ≡ false → total_of xs + size_of x ≤ b.capacity_bytes
  unfolding lacks_room
  some_space e = ground (arith, used, h.within)

  size : record_size (length x) ≡ size_of x
  size = record_size-size_of x (omega (arith, fits, h.bounded))

  end_of : b.claim_position + total_of xs ≡ b.write_position
  end_of = Chain-end b.capacity_bytes b.area b.claim_position xs b.write_position h.chain

  module _ (room : total_of xs + size_of x ≤ b.capacity_bytes) where
    abbrev result : ByteRing
    result = signal_readable (record advanced { area = ring_writes b.capacity_bytes b.area stores })

    stores-AllApart :
        AllApart b.capacity_bytes (omega (arith, h.some_room)) stores b.claim_position (total_of xs)
    stores-AllApart = (
      inr (omega (arith, end_of), omega (arith, end_of, length-to_bytes 8 (size_of x), room)),
      (
        inr (omega (arith, end_of), omega (arith, end_of, length-to_bytes 8 (length x), room)),
        (
          inr (omega (arith, end_of), omega (arith, end_of, length-to_bytes 8 0, room)),
          (
            inr (omega (arith, end_of), omega (arith, end_of, room)),
            (
              inr (
                omega (arith, end_of),
                omega (arith, end_of, length-to_bytes 8 (b.write_position + 1), room),
              ),
              tt,
            ),
          ),
        ),
      ),
    )

    result-HoldsQueue : HoldsQueue budget result (xs ++ x ∷ [])
    result-HoldsQueue = record {
      some_room = h.some_room;
      whole = h.whole;
      bounded = h.bounded;
      filled = omega (arith, h.filled, length-ring_writes b.capacity_bytes b.area stores);
      aligned = h.aligned;
      reclaimed = h.reclaimed;
      chain =
          Chain-append b.capacity_bytes (ring_writes b.capacity_bytes b.area stores)
            b.claim_position xs b.write_position x
            (Chain-kept b.capacity_bytes (omega (arith, h.some_room)) b.area stores b.claim_position
              xs b.write_position stores-AllApart h.chain)
            (HasRecord-written b.capacity_bytes (omega (arith, h.some_room)) b.area b.write_position
              x (omega (arith, room)) h.filled (omega (arith, h.no_wrap)));
      within = omega (arith, total_of-append xs x, room);
      no_wrap = omega (arith, h.no_wrap);
    }

    enqueued-result :
        lacks_room b.write_position (size_of x) b ≡ false
        → try_enqueue (undisturbed ∷ []) x b ≡ enqueued result
    unfolding try_enqueue
    enqueued-result e =
        let same : (b.write_position == b.write_position) ≡ true = ground arith in
        let next : (b.write_position + size_of x) % u64_mod ≡ b.write_position + size_of x =
          omega (arith, h.no_wrap) in
        rw (size, e, same, next)
          (ap enqueued (
            publish_record-ring_writes advanced b.write_position x (omega (arith, h.some_room))
              h.whole write_aligned (omega (arith, h.no_wrap, h.some_room)) (omega (arith, fits))))

  enqueue-full :
      lacks_room b.write_position (size_of x) b ≡ true → try_enqueue (undisturbed ∷ []) x b ≡ full b
  unfolding try_enqueue
  enqueue-full e = rw (size, e)

  pub try_enqueue-Enqueues : Enqueues budget b xs x (try_enqueue (undisturbed ∷ []) x b)
  try_enqueue-Enqueues = elim (Bool-cases (lacks_room b.write_position (size_of x) b)) [
    | inl lacks ↦ inl (no_room lacks, enqueue-full lacks)
    | inr room ↦
        let space = some_space room in
        inr (space, (result space, enqueued-result space room, result-HoldsQueue space, refl, refl))
  ]
