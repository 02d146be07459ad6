-- ===== src/ByteChannel/Take.antt =====
-- include/shmchan/byte_channel.hpp: `try_dequeue` and its reclaim, alone on a ring that holds a
-- queue.
use shmchan.Common.{
  ℕ, ◌+◌, ◌-◌, ◌*◌, ◌%◌, ◌≤◌, ◌≡◌, inl, refl, sym, ap, ◌∙◌, true, false, List, [], ◌∷◌, some, arith,
  length, ltb, ◌==◌,
}
use shmchan.Status.{Bytes, u64_mod}
use shmchan.ByteChannel.Memory.{to_bytes, ring_write, length-to_bytes, length-ring_write}
use shmchan.ByteChannel.State.{
  ByteRing, record_alignment, published_token, claimed_token, consumed_token, store_field,
  copy_from_record, signal_readable, signal_writable,
}
use shmchan.ByteChannel.Enqueue.{Round}
use shmchan.ByteChannel.Dequeue.{
  reclaim_loop, reclaim_consumed, Turn, Dequeue, dequeued, nothing, consume, take_record,
  take_claimed, try_dequeue,
}
use shmchan.ByteChannel.Copy.{store_field-ring_write, copy_from_record-ring_read}
use shmchan.ByteChannel.Chain.{size_of, total_of, HasRecord, Chain-end, Chain-kept}
use shmchan.ByteChannel.Chain.Written.{HasRecord-marked}
use shmchan.ByteChannel.Fields.{state_field, total_field, payload_field, good_total}
use shmchan.ByteChannel.Reclaim.{reclaim-stop, reclaim-move, reclaim_consumed-some}
use shmchan.ByteChannel.Store.{HoldsQueue, undisturbed}

-- A turn in which nobody else runs: one round reclaims the record, one finds nothing more.
abbrev pub alone : Turn
alone = record {
  before_write = λ b. b;
  before_claim = λ b. b;
  before_advance = λ b. b;
  reclaims = undisturbed ∷ undisturbed ∷ [];
}

take_record-some :
    (rounds : List Round) (position size : ℕ) (b c : ByteRing)
    → reclaim_consumed rounds (store_field 0 position (consumed_token position) b) ≡ some c
    → take_record rounds position size b ≡ dequeued (copy_from_record position size b) c
unfolding take_record consume
take_record-some rounds position size b c e = rw (e, take_record)

-- What `try_dequeue` does to a ring that holds `xs`: nothing if it is empty, and otherwise it takes
-- the first message.
abbrev pub Dequeues : ℕ → ByteRing → List Bytes → Dequeue → Type 0
Dequeues budget b [] result = result ≡ nothing b
Dequeues budget b (x ∷ rest) result =
    (b' : ByteRing) × (result ≡ dequeued x b')
    × HoldsQueue budget b' rest
    × (b'.capacity_bytes ≡ b.capacity_bytes)
    × (b'.words.sender_state ≡ b.words.sender_state)

module _ (budget : ℕ) (b : ByteRing) (x : Bytes) (rest : List Bytes)
    (h : HoldsQueue budget b (x ∷ rest)) where
  abbrev p : ℕ
  p = b.claim_position

  abbrev cap_of : ℕ
  cap_of = b.capacity_bytes

  abbrev next : ℕ
  next = p + size_of x

  fits : size_of x ≤ cap_of
  fits = omega (arith, h.within)

  end_of : next + total_of rest ≡ b.write_position
  end_of = Chain-end cap_of b.area next rest b.write_position h.chain.1

  -- The area with the claimed token, and with the consumed one.
  abbrev claimed_area : Bytes
  claimed_area = ring_write cap_of b.area p (to_bytes 8 (p + 2))

  abbrev consumed_area : Bytes
  consumed_area = ring_write cap_of claimed_area p (to_bytes 8 (p + 3))

  HasRecord-claimed : HasRecord cap_of claimed_area p (p + 2) x
  HasRecord-claimed =
      HasRecord-marked cap_of (omega (arith, h.some_room)) b.area p (p + 1) (p + 2) x fits h.filled
        (omega (arith, h.no_wrap, end_of)) h.chain.0

  HasRecord-consumed : HasRecord cap_of consumed_area p (p + 3) x
  HasRecord-consumed =
      HasRecord-marked cap_of (omega (arith, h.some_room)) claimed_area p (p + 2) (p + 3) x fits
        (omega (arith, h.filled, length-ring_write cap_of b.area p (to_bytes 8 (p + 2))))
        (omega (arith, h.no_wrap, end_of)) HasRecord-claimed

  store_state :
      (c : ByteRing) (token : ℕ)
      → c.capacity_bytes ≡ cap_of
      → store_field 0 p token c
        ≡ record c { area = ring_write c.capacity_bytes c.area p (to_bytes 8 token) }
  store_state c token same =
      let here : p + 0 * 8 ≡ p = omega arith in
      store_field-ring_write c (omega (arith, same, h.some_room)) p (omega (arith, same, h.whole))
        h.aligned 0 (omega arith) token
      ∙ ap (λ q. record c { area = ring_write c.capacity_bytes c.area q (to_bytes 8 token) }) here

  abbrev claimed : ByteRing
  claimed = record b { area = claimed_area }

  abbrev advanced : ByteRing
  advanced = signal_readable (record claimed { claim_position = next })

  abbrev consumed : ByteRing
  consumed = record advanced { area = consumed_area }

  abbrev reclaimed : ByteRing
  reclaimed = signal_writable (record consumed { reclaim_position = next })

  not_next : (p == next) ≡ false
  not_next = ground arith

  next_mod : (p + size_of x) % u64_mod ≡ next
  next_mod = omega (arith, h.no_wrap, end_of)

  -- The reclaim finds the consumed record, moves over it and stops at the claim position.
  reclaim-reclaimed : reclaim_consumed (undisturbed ∷ undisturbed ∷ []) consumed ≡ some reclaimed
  reclaim-reclaimed =
      let token : consumed_token p ≡ p + 3 = omega (arith, h.no_wrap, end_of) in
      reclaim_consumed-some (undisturbed ∷ undisturbed ∷ []) consumed
        (record consumed { reclaim_position = next })
        (ap (λ q. reclaim_loop (undisturbed ∷ undisturbed ∷ []) q false consumed) h.reclaimed
          ∙ reclaim-move (undisturbed ∷ []) p false consumed x not_next h.reclaimed
              (state_field consumed p (p + 3) x h.some_room h.whole h.aligned HasRecord-consumed
                ∙ sym token)
              (total_field consumed p (p + 3) x h.some_room h.whole h.aligned HasRecord-consumed)
              fits (omega (arith, h.no_wrap, end_of))
          ∙ reclaim-stop [] next true (record consumed { reclaim_position = next }) refl)

  pub reclaimed-HoldsQueue : HoldsQueue budget reclaimed rest
  reclaimed-HoldsQueue = record {
    some_room = h.some_room;
    whole = h.whole;
    bounded = h.bounded;
    filled = omega (
      arith,
      h.filled,
      length-ring_write cap_of b.area p (to_bytes 8 (p + 2)),
      length-ring_write cap_of claimed_area p (to_bytes 8 (p + 3)),
    );
    aligned = omega (arith, h.aligned);
    reclaimed = refl;
    chain =
        Chain-kept cap_of (omega (arith, h.some_room)) b.area
          ((p, to_bytes 8 (p + 2)) ∷ (p, to_bytes 8 (p + 3)) ∷ []) next rest b.write_position
          (
            inl (omega (arith, length-to_bytes 8 (p + 2)), omega (arith, h.within)),
            (inl (omega (arith, length-to_bytes 8 (p + 3)), omega (arith, h.within)), tt),
          )
          h.chain.1;
    within = omega (arith, h.within);
    no_wrap = h.no_wrap;
  }

  take_record-dequeued :
      take_record (undisturbed ∷ undisturbed ∷ []) p (length x) advanced ≡ dequeued x reclaimed
  take_record-dequeued =
      let token : consumed_token p ≡ p + 3 = omega (arith, h.no_wrap, end_of) in
      let value : copy_from_record p (length x) advanced ≡ x =
        copy_from_record-ring_read advanced (omega (arith, h.some_room)) p (length x)
          (omega (arith, fits))
        ∙ HasRecord-claimed.payload in
      take_record-some (undisturbed ∷ undisturbed ∷ []) p (length x) advanced reclaimed (
        ap (reclaim_consumed (undisturbed ∷ undisturbed ∷ []))
          (ap (λ t. store_field 0 p t advanced) token ∙ store_state advanced (p + 3) refl)
        ∙ reclaim-reclaimed)
      ∙ ap (λ v. dequeued v reclaimed) value

  take_claimed-dequeued : take_claimed alone p claimed ≡ dequeued x reclaimed
  unfolding take_claimed
  take_claimed-dequeued =
      let total = total_field claimed p (p + 2) x h.some_room h.whole h.aligned HasRecord-claimed in
      let payload =
        payload_field claimed p (p + 2) x h.some_room h.whole h.aligned HasRecord-claimed in
      let short : ltb (size_of x - record_alignment) (length x) ≡ false = ground arith in
      let held : (p == p) ≡ true = ground arith in
      rw (total, payload, good_total claimed x fits, short, held, next_mod) take_record-dequeued

  try_dequeue-dequeued : try_dequeue alone b ≡ dequeued x reclaimed
  unfolding try_dequeue
  try_dequeue-dequeued =
      let some_there : (p == b.write_position) ≡ false = ground (arith, end_of) in
      let published : (published_token p == published_token p) ≡ true = ground arith in
      let published_one : published_token p ≡ p + 1 = omega (arith, h.no_wrap, end_of) in
      let claimed_two : claimed_token p ≡ p + 2 = omega (arith, h.no_wrap, end_of) in
      let state =
        state_field b p (p + 1) x h.some_room h.whole h.aligned h.chain.0 ∙ sym published_one in
      rw (some_there, state, published, claimed_two, store_state b (p + 2) refl)
        take_claimed-dequeued

pub try_dequeue-Dequeues :
    (budget : ℕ) (b : ByteRing) (xs : List Bytes)
    → HoldsQueue budget b xs
    → Dequeues budget b xs (try_dequeue alone b)
unfolding try_dequeue
try_dequeue-Dequeues budget b [] h =
    let none_there : (b.claim_position == b.write_position) ≡ true = ground (arith, h.chain) in
    rw none_there
try_dequeue-Dequeues budget b (x ∷ rest) h = (
  reclaimed budget b x rest h,
  try_dequeue-dequeued budget b x rest h,
  reclaimed-HoldsQueue budget b x rest h,
  refl,
  refl,
)
