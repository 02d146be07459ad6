-- ===== src/ByteChannel/Reclaim.antt =====
-- include/shmchan/byte_channel.hpp: `reclaim_consumed` alone.
use shmchan.Common.{
  subst, ℕ, ◌+◌, ◌%◌, ◌≤◌, ◌<◌, ◌≡◌, ◌≢◌, ◌⊎◌, inl, inr, refl, sym, ap, ◌∙◌, Bool, true, false,
  List, [], ◌∷◌, some, arith, ◌==◌, if◌then◌else◌,
}
use shmchan.Status.{Bytes, u64_mod}
use shmchan.ByteChannel.State.{ByteRing, consumed_token, field_at, state_of, signal_writable}
use shmchan.ByteChannel.Enqueue.{Round}
use shmchan.ByteChannel.Dequeue.{reclaim_loop, reclaim_consumed}
use shmchan.ByteChannel.Chain.{size_of, total_of, HasRecord}
use shmchan.ByteChannel.Fields.{state_field, total_field, good_total}
use shmchan.ByteChannel.Store.{undisturbed}

-- Two rounds of the reclaim: one that has come to the claim position, and one that moves over a
-- consumed record.
pub reclaim-stop :
    (rounds : List Round) (position : ℕ) (any : Bool) (b : ByteRing)
    → position ≡ b.claim_position
    → reclaim_loop (undisturbed ∷ rounds) position any b ≡ some (any, b)
unfolding reclaim_loop
reclaim-stop rounds position any b e =
    let there : (position == b.claim_position) ≡ true = ground arith in rw there

pub reclaim-move :
    (rounds : List Round) (position : ℕ) (any : Bool) (b : ByteRing) (x : Bytes)
    → (position == b.claim_position) ≡ false
    → b.reclaim_position ≡ position
    → state_of b position ≡ consumed_token position
    → field_at 1 b position ≡ size_of x
    → size_of x ≤ b.capacity_bytes
    → position + size_of x < u64_mod
    → reclaim_loop (undisturbed ∷ rounds) position any b
      ≡ reclaim_loop rounds
          (position + size_of x)
          true
          (record b { reclaim_position = position + size_of x })
unfolding reclaim_loop
reclaim-move rounds position any b x behind own consumed total fits small =
    let token : (consumed_token position == consumed_token position) ≡ true = ground arith in
    let held : (b.reclaim_position == position) ≡ true = ground arith in
    let next : (position + size_of x) % u64_mod ≡ position + size_of x = omega (arith, small) in
    rw (behind, consumed, token, total, good_total b x fits, held, next)

pub reclaim_consumed-some :
    (rounds : List Round) (b c : ByteRing)
    → reclaim_loop rounds b.reclaim_position false b ≡ some (true, c)
    → reclaim_consumed rounds b ≡ some (signal_writable c)
unfolding reclaim_consumed
reclaim_consumed-some rounds b c e = rw (e, reclaim_consumed)

-- Records that have been consumed, from `p` to `end`.
abbrev pub Consumed : ℕ → Bytes → ℕ → List Bytes → ℕ → Type 0
Consumed capacity area p [] end = p ≡ end
Consumed capacity area p (x ∷ rest) end =
    HasRecord capacity area p (p + 3) x × Consumed capacity area (p + size_of x) rest end

Consumed-end :
    (capacity : ℕ) (area : Bytes) (p : ℕ) (xs : List Bytes) (end : ℕ)
    → Consumed capacity area p xs end
    → p + total_of xs ≡ end
Consumed-end capacity area p [] end c = omega (arith, c)
Consumed-end capacity area p (x ∷ xs) end c =
    omega (arith, Consumed-end capacity area (p + size_of x) xs end c.1)

-- Where the loop stops: at the claim position, or at a record that is not consumed.
abbrev pub Stops : ByteRing → ℕ → Type 0
Stops b end =
    (end ≡ b.claim_position) ⊎ (end < b.claim_position) × (state_of b end ≢ consumed_token end)

-- As many undisturbed rounds as there are records, and one more.
abbrev pub rounds_for : List Bytes → List Round
rounds_for [] = undisturbed ∷ []
rounds_for (x ∷ xs) = undisturbed ∷ rounds_for xs

stop-Stops :
    (b : ByteRing) (position : ℕ) (any : Bool)
    → Stops b position
    → reclaim_loop (undisturbed ∷ []) position any b ≡ some (any, b)
unfolding reclaim_loop
stop-Stops b position any (inl e) = reclaim-stop [] position any b e
stop-Stops b position any (inr (behind, other)) =
    let before : (position == b.claim_position) ≡ false = ground arith in
    let not_consumed : (state_of b position == consumed_token position) ≡ false = ground arith in
    rw (before, not_consumed)

-- Whether something has been reclaimed.
abbrev pub flag_after : Bool → List Bytes → Bool
flag_after any [] = any
flag_after any (x ∷ xs) = true

flag_after-true : (xs : List Bytes) → flag_after true xs ≡ true
flag_after-true [] = refl
flag_after-true (x ∷ xs) = refl

Stops-moved :
    (b : ByteRing) (position end : ℕ)
    → Stops b end
    → Stops (record b { reclaim_position = position }) end
unfolding field_at
Stops-moved b position end h = h

reclaim_loop-all :
    (xs : List Bytes) (b : ByteRing) (end : ℕ) (any : Bool)
    → 32 < b.capacity_bytes
    → b.capacity_bytes % 32 ≡ 0
    → b.reclaim_position % 32 ≡ 0
    → total_of xs ≤ b.capacity_bytes
    → b.claim_position + 3 < u64_mod
    → end ≤ b.claim_position
    → Consumed b.capacity_bytes b.area b.reclaim_position xs end
    → Stops b end
    → reclaim_loop (rounds_for xs) b.reclaim_position any b
      ≡ some (flag_after any xs, record b { reclaim_position = end })
reclaim_loop-all [] b end any some_room whole aligned within small below c stops =
    stop-Stops b b.reclaim_position any (subst (Stops b) (sym c) stops)
    ∙ ap (λ q. some (any, record b { reclaim_position = q })) c
reclaim_loop-all (x ∷ xs) b end any some_room whole aligned within small below c stops =
    let p : ℕ = b.reclaim_position in
    let ends = Consumed-end b.capacity_bytes b.area b.reclaim_position (x ∷ xs) end c in
    let behind : (b.reclaim_position == b.claim_position) ≡ false = ground (arith, ends, below) in
    let token : consumed_token b.reclaim_position ≡ b.reclaim_position + 3 =
      omega (arith, ends, below, small) in
    reclaim-move (rounds_for xs) b.reclaim_position any b x behind refl
      (state_field b b.reclaim_position (b.reclaim_position + 3) x some_room whole aligned c.0
        ∙ sym token)
      (total_field b b.reclaim_position (b.reclaim_position + 3) x some_room whole aligned c.0)
      (omega (arith, within)) (omega (arith, ends, below, small))
    ∙ reclaim_loop-all xs (record b { reclaim_position = b.reclaim_position + size_of x }) end true
        some_room whole (omega (arith, aligned)) (omega (arith, within)) small below c.1
        (Stops-moved b (b.reclaim_position + size_of x) end stops)
    ∙ ap (λ f. some (f, record b { reclaim_position = end })) (flag_after-true xs)

-- Consumed records lie from the reclaim position up to `end`, and there the claim position is reached
-- or a record is not consumed. Undisturbed, with one round for each record and one more,
-- `reclaim_consumed` ends: it reclaims all these records and nothing else, and signals the writers
-- exactly if there was one.
pub reclaim_consumed-all :
    (xs : List Bytes) (b : ByteRing) (end : ℕ)
    → 32 < b.capacity_bytes
    → b.capacity_bytes % 32 ≡ 0
    → b.reclaim_position % 32 ≡ 0
    → total_of xs ≤ b.capacity_bytes
    → b.claim_position + 3 < u64_mod
    → end ≤ b.claim_position
    → Consumed b.capacity_bytes b.area b.reclaim_position xs end
    → Stops b end
    → reclaim_consumed (rounds_for xs) b
      ≡ some (
          if flag_after false xs
          then signal_writable (record b { reclaim_position = end })
          else record b { reclaim_position = end })
unfolding reclaim_consumed
reclaim_consumed-all xs b end some_room whole aligned within small below c stops = rw (
  reclaim_loop-all xs b end false some_room whole aligned within small below c stops,
  reclaim_consumed,
)
