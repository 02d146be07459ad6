-- ===== src/ByteChannel/Copy.antt =====
-- include/shmchan/byte_channel.hpp: the accesses to records, as reads and writes of the tape.
use native.Mathlib.Nat.{mod-add-mod, mod-eq_of_lt, mod-lt, div-add-mod, mod_self, mul_assoc}
use shmchan.Common.{
  ℕ, zero, suc, ◌+◌, ◌-◌, ◌*◌, ◌/◌, ◌%◌, ◌≤◌, ◌<◌, ◌≡◌, refl, sym, ap, ap₂, ◌∙◌, inl, inr, true,
  false, [], ◌∷◌, ◌++◌, arith, length, take, drop, min, ◌==◌, take-all, ◌⊎◌, dec_le,
  take-append-drop, length-take, length-drop,
}
use shmchan.Status.{Bytes}
use shmchan.ByteChannel.Memory.{
  write_at, read_at, to_bytes, from_bytes, ring_write, ring_read, ring_write-append, ring_read-add,
  write_at-ring_write, read_at-ring_read,
}
use shmchan.ByteChannel.State.{
  ByteRing, field_at, store_field, copy_to_record, copy_from_record, record_alignment,
}

pub mod-aligned : (n c : ℕ) → c % 32 ≡ 0 → n % 32 ≡ 0 → n % c % 32 ≡ 0
mod-aligned n c whole aligned =
    let e : c ≡ 32 * (c / 32) = omega (arith, whole) in
    let product : c * (n / c) ≡ 32 * (c / 32 * (n / c)) =
      ap (λ (t : ℕ). t * (n / c)) e ∙ mul_assoc 32 (c / 32) (n / c) in
    multiples (c * (n / c)) (c / 32 * (n / c)) (n % c) n product (div-add-mod n c) aligned
  where
    multiples : (a m r n : ℕ) → a ≡ 32 * m → a + r ≡ n → n % 32 ≡ 0 → r % 32 ≡ 0
    multiples a m r n e f h = omega (arith, e, f, h)

module _ (b : ByteRing) (some_room : 0 < b.capacity_bytes) where
  abbrev cap_of : ℕ
  cap_of = b.capacity_bytes

  module _ (position : ℕ) where
    abbrev payload_offset : ℕ
    payload_offset = (position % cap_of + record_alignment) % cap_of

    payload_at : payload_offset ≡ (position + record_alignment) % cap_of
    payload_at = mod-add-mod position cap_of record_alignment

    below : payload_offset < cap_of
    below = mod-lt (position % cap_of + record_alignment) some_room

    -- The byte after the last of the area is the first.
    wraps : (position + record_alignment + (cap_of - payload_offset)) % cap_of ≡ 0
    wraps =
        sym (mod-add-mod (position + record_alignment) cap_of (cap_of - payload_offset))
        ∙ ap (λ r. (r + (cap_of - payload_offset)) % cap_of) (sym payload_at)
        ∙ ap (λ r. r % cap_of) (omega (arith, below))
        ∙ mod_self cap_of

    abbrev first_size : ℕ → ℕ
    first_size size = min size (cap_of - payload_offset)

    -- A copy that does not reach the end of the area is one `memcpy`, any other is two.
    size-cases :
        (size : ℕ)
        → (first_size size ≡ size) × (payload_offset + size ≤ cap_of)
          ⊎ (first_size size ≡ cap_of - payload_offset) × (first_size size < size)
    size-cases size = elim (dec_le (payload_offset + size) cap_of) [
      | yes h ↦ inl (omega arith, h)
      | no h ↦ inr (omega (arith, below), omega (arith, below))
    ]

    split_write :
        (area message : Bytes) (n : ℕ)
        → n ≡ cap_of - payload_offset
        → n < length message
        → length message ≤ cap_of
        → write_at (write_at area payload_offset (take n message)) 0 (drop n message)
          ≡ ring_write cap_of area (position + record_alignment) message
    split_write area message n e more fits =
        let taken : length (take n message) ≡ n = length-take n message (omega (arith, more)) in
        let start : (position + record_alignment + length (take n message)) % cap_of ≡ 0 =
          ap (λ k. (position + record_alignment + k) % cap_of) (taken ∙ e) ∙ wraps in
        let front =
          write_at-ring_write cap_of some_room area payload_offset (position + record_alignment)
            (take n message) payload_at (omega (arith, taken, e, below)) in
        let back =
          write_at-ring_write cap_of some_room
            (ring_write cap_of area (position + record_alignment) (take n message)) 0
            (position + record_alignment + length (take n message)) (drop n message) (sym start)
            (omega (arith, length-drop n message, fits)) in
        ap (λ r. write_at r 0 (drop n message)) front
        ∙ back
        ∙ sym (
            ring_write-append cap_of area (position + record_alignment) (take n message)
              (drop n message))
        ∙ ap (ring_write cap_of area (position + record_alignment)) (take-append-drop n message)

    -- The two copies of `copy_to_record` are one write of the tape.
    pub copy_to_record-ring_write :
        (message : Bytes)
        → length message ≤ cap_of
        → copy_to_record position message b
          ≡ record b { area = ring_write cap_of b.area (position + record_alignment) message }
    unfolding copy_to_record ring_write
    copy_to_record-ring_write [] fits = refl
    copy_to_record-ring_write (x ∷ xs) fits =
        let n : ℕ = length (x ∷ xs) in
        let some_bytes : (length (x ∷ xs) == 0) ≡ false = ground arith in
        elim (size-cases (length (x ∷ xs))) [
          | inl (whole, inside) ↦
              let test : (first_size (length (x ∷ xs)) == length (x ∷ xs)) ≡ true = ground arith in
              rw (some_bytes, test, whole)
                (ap (λ (r : Bytes). record b { area = r })
                  (ap (write_at b.area payload_offset)
                      (take-all (length (x ∷ xs)) (x ∷ xs) (omega arith))
                    ∙ write_at-ring_write cap_of some_room b.area payload_offset
                        (position + record_alignment) (x ∷ xs) payload_at inside))
          | inr (part, more) ↦
              let test : (first_size (length (x ∷ xs)) == length (x ∷ xs)) ≡ false = ground arith in
              rw (some_bytes, test)
                (ap (λ (r : Bytes). record b { area = r })
                  (split_write b.area (x ∷ xs) (first_size (length (x ∷ xs))) part more fits))
        ]

    split_read :
        (size n : ℕ)
        → n ≡ cap_of - payload_offset
        → n < size
        → size ≤ cap_of
        → read_at b.area payload_offset n ++ read_at b.area 0 (size - n)
          ≡ ring_read cap_of b.area (position + record_alignment) size
    split_read size n e more fits =
        let whole : n + (size - n) ≡ size = omega (arith, more) in
        let start : (position + record_alignment + n) % cap_of ≡ 0 =
          ap (λ k. (position + record_alignment + k) % cap_of) e ∙ wraps in
        ap₂ ◌++◌
          (read_at-ring_read cap_of some_room b.area payload_offset (position + record_alignment) n
            payload_at (omega (arith, e, below)))
          (read_at-ring_read cap_of some_room b.area 0 (position + record_alignment + n) (size - n)
            (sym start) (omega (arith, fits)))
        ∙ sym (ring_read-add cap_of b.area (position + record_alignment) n (size - n))
        ∙ ap (ring_read cap_of b.area (position + record_alignment)) whole

    -- The two copies of `copy_from_record` are one read of the tape.
    pub copy_from_record-ring_read :
        (size : ℕ)
        → size ≤ cap_of
        → copy_from_record position size b
          ≡ ring_read cap_of b.area (position + record_alignment) size
    unfolding copy_from_record ring_read
    copy_from_record-ring_read zero fits = refl
    copy_from_record-ring_read (suc k) fits =
        let some_bytes : (suc k == 0) ≡ false = ground arith in
        elim (size-cases (suc k)) [
          | inl (whole, inside) ↦
              let test : (first_size (suc k) == suc k) ≡ true = ground arith in
              rw (some_bytes, test, whole)
                (read_at-ring_read cap_of some_room b.area payload_offset
                  (position + record_alignment) (suc k) payload_at inside)
          | inr (part, more) ↦
              let test : (first_size (suc k) == suc k) ≡ false = ground arith in
              rw (some_bytes, test) (split_read (suc k) (first_size (suc k)) part more fits)
        ]

    -- A header lies straight in the area, since positions and capacity are multiples of its size.
    module _ (whole : cap_of % 32 ≡ 0) (aligned : position % 32 ≡ 0) (field : ℕ)
        (known : field < 4) where
      straight : position % cap_of + field * 8 + 8 ≤ cap_of
      straight =
          omega (arith, mod-lt position some_room, mod-aligned position cap_of whole aligned, whole)

      field_offset : position % cap_of + field * 8 ≡ (position + field * 8) % cap_of
      field_offset =
          sym (
            mod-eq_of_lt {n = position % cap_of + field * 8} {m = cap_of} (omega (arith, straight)))
          ∙ mod-add-mod position cap_of (field * 8)

      pub field_at-ring_read :
          field_at field b position ≡ from_bytes (ring_read cap_of b.area (position + field * 8) 8)
      unfolding field_at
      field_at-ring_read = ap from_bytes (
          read_at-ring_read cap_of some_room b.area (position % cap_of + field * 8)
            (position + field * 8) 8 field_offset straight)

      pub store_field-ring_write :
          (value : ℕ)
          → store_field field position value b
            ≡ record b { area = ring_write cap_of b.area (position + field * 8) (to_bytes 8 value) }
      unfolding store_field
      store_field-ring_write value =
          ap (λ (r : Bytes). record b { area = r })
            (write_at-ring_write cap_of some_room b.area (position % cap_of + field * 8)
              (position + field * 8) (to_bytes 8 value) field_offset straight)
