-- ===== src/ByteChannel/Memory.antt =====
-- Reads and writes of a byte area, straight and going round at its capacity.
use native.Mathlib.Nat.{mod-add-mod, mod-eq_of_lt, mod-eq-sub-mod, mod-lt}
use shmchan.Common.{
  ℕ, zero, suc, ◌+◌, ◌-◌, ◌*◌, ◌/◌, ◌%◌, ◌^◌, ◌≤◌, ◌<◌, ◌≡◌, ◌≢◌, ◌⊎◌, inl, inr, refl, sym, ap, ap₂,
  ◌∙◌, [], ◌∷◌, ◌++◌, arith, length, length-set, get_or, get_or-set_self, get_or-set_ne, set,
  dec_lt,
}
use shmchan.Status.{Bytes}

-- `memcpy` into the area and out of it.
unfoldable pub write_at : Bytes → ℕ → Bytes → Bytes
write_at area i [] = area
write_at area i (x ∷ xs) = write_at (set area i x) (i + 1) xs

unfoldable pub read_at : Bytes → ℕ → ℕ → Bytes
read_at area i zero = []
read_at area i (suc n) = get_or area i 0 ∷ read_at area (i + 1) n

-- The bytes of an integer of `width` bytes, least significant first, as on x86-64; and back.
unfoldable pub to_bytes : (width n : ℕ) → Bytes
to_bytes zero n = []
to_bytes (suc width) n = (n % 256) ∷ to_bytes width (n / 256)

unfoldable pub from_bytes : Bytes → ℕ
from_bytes [] = 0
from_bytes (b ∷ bs) = b + 256 * from_bytes bs

pub length-to_bytes : (width n : ℕ) → length (to_bytes width n) ≡ width
unfolding to_bytes
length-to_bytes zero n = refl
length-to_bytes (suc width) n = ap suc (length-to_bytes width (n / 256))

pub from_bytes-to_bytes_eight : (n : ℕ) → n < 2 ^ 64 → from_bytes (to_bytes 8 n) ≡ n
unfolding to_bytes from_bytes
from_bytes-to_bytes_eight n h = omega (arith, h)

-- The reference: `n` bytes from position `p` of an endless tape that is kept in `capacity` bytes.
module _ (capacity : ℕ) where
  unfoldable pub ring_write : Bytes → ℕ → Bytes → Bytes
  ring_write area p [] = area
  ring_write area p (x ∷ xs) = ring_write (set area (p % capacity) x) (p + 1) xs

  unfoldable pub ring_read : Bytes → ℕ → ℕ → Bytes
  ring_read area p zero = []
  ring_read area p (suc n) = get_or area (p % capacity) 0 ∷ ring_read area (p + 1) n

  pub length-ring_write :
      (area : Bytes) (p : ℕ) (xs : Bytes) → length (ring_write area p xs) ≡ length area
  unfolding ring_write
  length-ring_write area p [] = refl
  length-ring_write area p (x ∷ xs) =
      length-ring_write (set area (p % capacity) x) (p + 1) xs ∙ length-set area (p % capacity) x

  pub length-ring_read : (area : Bytes) (p n : ℕ) → length (ring_read area p n) ≡ n
  unfolding ring_read
  length-ring_read area p zero = refl
  length-ring_read area p (suc n) = ap suc (length-ring_read area (p + 1) n)

  pub ring_write-append :
      (area : Bytes) (p : ℕ) (xs ys : Bytes)
      → ring_write area p (xs ++ ys) ≡ ring_write (ring_write area p xs) (p + length xs) ys
  unfolding ring_write
  ring_write-append area p [] ys = ap (λ q. ring_write area q ys) (omega arith)
  ring_write-append area p (x ∷ xs) ys =
      ring_write-append (set area (p % capacity) x) (p + 1) xs ys
      ∙ ap (λ q. ring_write (ring_write (set area (p % capacity) x) (p + 1) xs) q ys) (omega arith)

  pub ring_read-add :
      (area : Bytes) (p m n : ℕ)
      → ring_read area p (m + n) ≡ ring_read area p m ++ ring_read area (p + m) n
  unfolding ring_read
  ring_read-add area p zero n =
      let none_first : zero + n ≡ n = omega arith in
      let here : p + zero ≡ p = omega arith in rw (none_first, here)
  ring_read-add area p (suc m) n =
      let shift : suc m + n ≡ suc (m + n) = omega arith in
      let on : p + 1 + m ≡ p + suc m = omega arith in
      rw shift (
        ap (λ r. get_or area (p % capacity) 0 ∷ r)
          (ring_read-add area (p + 1) m n
            ∙ ap (λ q. ring_read area (p + 1) m ++ ring_read area q n) on))

  module _ (some_room : 0 < capacity) where
    -- Positions less than a capacity apart do not share a byte.
    mod-ne : (a k : ℕ) → 0 < k → k < capacity → a % capacity ≢ (a + k) % capacity
    mod-ne a k lo hi e =
        let h = mod-lt a some_room in
        let e' : (a % capacity + k) % capacity ≡ a % capacity = mod-add-mod a capacity k ∙ sym e in
        elim (dec_lt (a % capacity + k) capacity) [
          | yes small ↦ omega (arith, mod-eq_of_lt small)
          | no big ↦ omega (
            arith,
            mod-eq-sub-mod {n = a % capacity + k} {m = capacity} (omega arith),
            mod-eq_of_lt {n = a % capacity + k - capacity} {m = capacity} (omega arith),
          )
        ]

    -- A write at `p` and a read of `n` bytes at `q` that do not meet.
    abbrev pub IsApart : (p m q n : ℕ) → Type 0
    IsApart p m q n = (p + m ≤ q) × (q + n ≤ p + capacity) ⊎ (q + n ≤ p) × (p + m ≤ q + capacity)

    ring_read-set :
        (area : Bytes) (p x q n : ℕ)
        → IsApart p 1 q n
        → ring_read (set area (p % capacity) x) q n ≡ ring_read area q n
    unfolding ring_read
    ring_read-set area p x q zero h = refl
    ring_read-set area p x q (suc n) (inl (after, inside)) =
        ap₂ ◌∷◌
          (get_or-set_ne area (p % capacity) (q % capacity) x 0 (λ e.
            mod-ne p (q - p) (omega arith) (omega arith)
              (e ∙ ap (λ r. r % capacity) (omega arith))))
          (ring_read-set area p x (q + 1) n (inl (omega arith, omega arith)))
    ring_read-set area p x q (suc n) (inr (before, inside)) =
        ap₂ ◌∷◌
          (get_or-set_ne area (p % capacity) (q % capacity) x 0 (λ e.
            mod-ne q (p - q) (omega arith) (omega arith)
              (sym e ∙ ap (λ r. r % capacity) (omega arith))))
          (ring_read-set area p x (q + 1) n (inr (omega arith, omega arith)))

    pub ring_read-ring_write :
        (area : Bytes) (p : ℕ) (xs : Bytes) (q n : ℕ)
        → IsApart p (length xs) q n
        → ring_read (ring_write area p xs) q n ≡ ring_read area q n
    unfolding ring_write
    ring_read-ring_write area p [] q n h = refl
    ring_read-ring_write area p (x ∷ xs) q n (inl h) =
        ring_read-ring_write (set area (p % capacity) x) (p + 1) xs q n
          (inl (omega arith, omega arith))
        ∙ ring_read-set area p x q n (inl (omega arith, omega arith))
    ring_read-ring_write area p (x ∷ xs) q n (inr h) =
        ring_read-ring_write (set area (p % capacity) x) (p + 1) xs q n
          (inr (omega arith, omega arith))
        ∙ ring_read-set area p x q n (inr (omega arith, omega arith))

    pub ring_read-ring_write_self :
        (area : Bytes) (p : ℕ) (xs : Bytes)
        → capacity ≤ length area
        → length xs ≤ capacity
        → ring_read (ring_write area p xs) p (length xs) ≡ xs
    unfolding ring_write ring_read
    ring_read-ring_write_self area p [] room fits = refl
    ring_read-ring_write_self area p (x ∷ xs) room fits = ap₂ ◌∷◌ first (
        ring_read-ring_write_self (set area (p % capacity) x) (p + 1) xs
          (omega (arith, length-set area (p % capacity) x, room)) (omega (arith, fits)))
      where
        kept :
            ring_read (ring_write (set area (p % capacity) x) (p + 1) xs) p 1
            ≡ ring_read (set area (p % capacity) x) p 1
        kept =
            ring_read-ring_write (set area (p % capacity) x) (p + 1) xs p 1
              (inr (omega arith, omega (arith, fits)))

        first : get_or (ring_write (set area (p % capacity) x) (p + 1) xs) (p % capacity) 0 ≡ x
        first =
            ap (λ (l : Bytes). get_or l 0 0) kept
            ∙ get_or-set_self area (p % capacity) x 0 (omega (arith, mod-lt p some_room, room))

    next_mod : (p : ℕ) → p % capacity + 1 < capacity → (p + 1) % capacity ≡ p % capacity + 1
    next_mod p h = sym (mod-add-mod p capacity 1) ∙ mod-eq_of_lt h

    -- A straight copy that ends inside the area.
    pub write_at-ring_write :
        (area : Bytes) (i p : ℕ) (xs : Bytes)
        → i ≡ p % capacity
        → i + length xs ≤ capacity
        → write_at area i xs ≡ ring_write area p xs
    unfolding write_at ring_write
    write_at-ring_write area i p [] e h = refl
    write_at-ring_write area i p (x ∷ []) e h = ap (λ j. set area j x) e
    write_at-ring_write area i p (x ∷ y ∷ xs) e h =
        write_at-ring_write (set area i x) (i + 1) (p + 1) (y ∷ xs)
          (omega (arith, e, next_mod p (omega (arith, e, h)))) (omega (arith, h))
        ∙ ap (λ j. ring_write (set area j x) (p + 1) (y ∷ xs)) e

    pub read_at-ring_read :
        (area : Bytes) (i p n : ℕ)
        → i ≡ p % capacity
        → i + n ≤ capacity
        → read_at area i n ≡ ring_read area p n
    unfolding read_at ring_read
    read_at-ring_read area i p zero e h = refl
    read_at-ring_read area i p (suc zero) e h = ap (λ j. get_or area j 0 ∷ []) e
    read_at-ring_read area i p (suc (suc n)) e h = ap₂ ◌∷◌ (ap (λ j. get_or area j 0) e) (
        read_at-ring_read area (i + 1) (p + 1) (suc n)
          (omega (arith, e, next_mod p (omega (arith, e, h)))) (omega (arith, h)))
