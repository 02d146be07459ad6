-- ===== src/ByteChannel/Chain.antt =====
-- The records that lie in the area, one behind the other.
pub mod Written
use shmchan.Common.{
  ℕ, ◌+◌, ◌*◌, ◌/◌, ◌^◌, ◌≤◌, ◌<◌, ◌≡◌, inl, inr, refl, sym, ap, ◌∙◌, List, [], ◌∷◌, ◌++◌, arith,
  length, subst,
}
use shmchan.Status.{Bytes, u64_mod}
use shmchan.ByteChannel.Memory.{
  to_bytes, from_bytes, ring_write, ring_read, IsApart, ring_read-ring_write,
  ring_read-ring_write_self, length-ring_write, from_bytes-to_bytes_eight, length-to_bytes,
}
use shmchan.ByteChannel.State.{record_size}

-- The size of a record, where nothing wraps.
abbrev pub size_of : Bytes → ℕ
size_of x = (length x + 63) / 32 * 32

pub record_size-size_of : (x : Bytes) → length x < 2 ^ 63 → record_size (length x) ≡ size_of x
unfolding record_size
record_size-size_of x small = omega (arith, small)

-- The bytes that messages take.
abbrev pub total_of : List Bytes → ℕ
total_of [] = 0
total_of (x ∷ rest) = size_of x + total_of rest

pub total_of-append :
    (xs : List Bytes) (x : Bytes) → total_of (xs ++ x ∷ []) ≡ total_of xs + size_of x
total_of-append [] x = omega arith
total_of-append (y ∷ xs) x = omega (arith, total_of-append xs x)

module _ (capacity : ℕ) where
  -- Several writes, the first one first.
  abbrev pub ring_writes : Bytes → List (ℕ × Bytes) → Bytes
  ring_writes area [] = area
  ring_writes area ((p, xs) ∷ rest) = ring_writes (ring_write capacity area p xs) rest

  pub length-ring_writes :
      (area : Bytes) (ws : List (ℕ × Bytes)) → length (ring_writes area ws) ≡ length area
  length-ring_writes area [] = refl
  length-ring_writes area ((p, xs) ∷ rest) =
      length-ring_writes (ring_write capacity area p xs) rest ∙ length-ring_write capacity area p xs

  -- The number in the eight bytes at `p`.
  abbrev pub word_at : Bytes → ℕ → ℕ
  word_at area p = from_bytes (ring_read capacity area p 8)

  -- A record at `p` that holds `x` and has the state `token`.
  pub record HasRecord (area : Bytes) (p token : ℕ) (x : Bytes) : Type 0 where
    pub state : word_at area p ≡ token
    pub total_size : word_at area (p + 8) ≡ size_of x
    pub payload_size : word_at area (p + 16) ≡ length x
    pub payload : ring_read capacity area (p + 32) (length x) ≡ x

  -- Published records from `p` to `end`, which hold the messages in order.
  abbrev pub Chain : Bytes → ℕ → List Bytes → ℕ → Type 0
  Chain area p [] end = p ≡ end
  Chain area p (x ∷ rest) end = HasRecord area p (p + 1) x × Chain area (p + size_of x) rest end

  pub Chain-end :
      (area : Bytes) (p : ℕ) (xs : List Bytes) (end : ℕ)
      → Chain area p xs end
      → p + total_of xs ≡ end
  Chain-end area p [] end c = omega (arith, c)
  Chain-end area p (x ∷ xs) end c = omega (arith, Chain-end area (p + size_of x) xs end c.1)

  pub Chain-append :
      (area : Bytes) (p : ℕ) (xs : List Bytes) (end : ℕ) (x : Bytes)
      → Chain area p xs end
      → HasRecord area end (end + 1) x
      → Chain area p (xs ++ x ∷ []) (end + size_of x)
  Chain-append area p [] end x e h =
      (subst (λ q. HasRecord area q (q + 1) x) (sym e) h, ap (λ q. q + size_of x) e)
  Chain-append area p (y ∷ xs) end x c h = (c.0, Chain-append area (p + size_of y) xs end x c.1 h)

  module _ (some_room : 0 < capacity) where
    -- Writes that do not meet the `n` bytes from `q` on.
    abbrev pub AllApart : List (ℕ × Bytes) → ℕ → ℕ → Type 0
    AllApart [] q n = Unit {0}
    AllApart ((p, xs) ∷ ws) q n = IsApart capacity some_room p (length xs) q n × AllApart ws q n

    pub AllApart-part :
        (ws : List (ℕ × Bytes)) (q n q' n' : ℕ)
        → AllApart ws q n
        → q ≤ q'
        → q' + n' ≤ q + n
        → AllApart ws q' n'
    AllApart-part [] q n q' n' h lo hi = tt
    AllApart-part ((p, xs) ∷ ws) q n q' n' (inl h, rest) lo hi =
        (inl (omega arith, omega arith), AllApart-part ws q n q' n' rest lo hi)
    AllApart-part ((p, xs) ∷ ws) q n q' n' (inr h, rest) lo hi =
        (inr (omega arith, omega arith), AllApart-part ws q n q' n' rest lo hi)

    ring_read-ring_writes :
        (area : Bytes) (ws : List (ℕ × Bytes)) (q n : ℕ)
        → AllApart ws q n
        → ring_read capacity (ring_writes area ws) q n ≡ ring_read capacity area q n
    ring_read-ring_writes area [] q n h = refl
    ring_read-ring_writes area ((p, xs) ∷ ws) q n h =
        ring_read-ring_writes (ring_write capacity area p xs) ws q n h.1
        ∙ ring_read-ring_write capacity some_room area p xs q n h.0

    pub HasRecord-kept :
        (area : Bytes) (ws : List (ℕ × Bytes)) (p token : ℕ) (x : Bytes)
        → AllApart ws p (size_of x)
        → HasRecord area p token x
        → HasRecord (ring_writes area ws) p token x
    HasRecord-kept area ws p token x apart h = record {
      state = ap from_bytes (kept p 8 (omega arith) (omega arith)) ∙ h.state;
      total_size = ap from_bytes (kept (p + 8) 8 (omega arith) (omega arith)) ∙ h.total_size;
      payload_size = ap from_bytes (kept (p + 16) 8 (omega arith) (omega arith)) ∙ h.payload_size;
      payload = kept (p + 32) (length x) (omega arith) (omega arith) ∙ h.payload;
    }
      where
        kept :
            (q n : ℕ)
            → p ≤ q
            → q + n ≤ p + size_of x
            → ring_read capacity (ring_writes area ws) q n ≡ ring_read capacity area q n
        kept q n lo hi =
            ring_read-ring_writes area ws q n (AllApart-part ws p (size_of x) q n apart lo hi)

    pub Chain-kept :
        (area : Bytes) (ws : List (ℕ × Bytes)) (p : ℕ) (xs : List Bytes) (end : ℕ)
        → AllApart ws p (total_of xs)
        → Chain area p xs end
        → Chain (ring_writes area ws) p xs end
    Chain-kept area ws p [] end apart c = c
    Chain-kept area ws p (x ∷ xs) end apart c = (
      HasRecord-kept area ws p (p + 1) x
          (AllApart-part ws p (total_of (x ∷ xs)) p (size_of x) apart (omega arith) (omega arith))
          c.0,
      Chain-kept area ws (p + size_of x) xs end
          (AllApart-part ws p (total_of (x ∷ xs)) (p + size_of x) (total_of xs) apart (omega arith)
            (omega arith))
          c.1,
    )
