-- ===== src/Channel/Layout/Create.antt =====
-- include/shmchan/channel.hpp: a new channel and its open.
use native.Mathlib.Nat.{le-div_iff_mul-le, le-mul_of_pos_right}
use shmchan.Common.{
  Bool, not, ℕ, zero, suc, ◌+◌, ◌-◌, ◌/◌, ◌*◌, ◌^◌, ◌≤◌, ◌<◌, ◌≡◌, refl, ap, sym, ◌∙◌, arith, inl,
  inr, true, false, ltb, ◌==◌, ◌&&◌, if◌then◌else◌, some, get_elem?, subst,
}
use shmchan.Status.{u64_mod}
use shmchan.Channel.Send.{Fixed}
use shmchan.Channel.Layout.{
  Element, slot_size, Format, checked_mapping_size, slots_from, create, fresh_format, fresh_channel,
  validate_mapping, abi_mismatch,
}

-- The size of an object for so many elements.
abbrev pub size_for : Element → ℕ → ℕ
size_for e capacity = 512 + capacity * slot_size e

module _ (e : Element) (capacity : ℕ) (some_slots : 0 < capacity)
    (fits : size_for e capacity < 2 ^ 63) where
  size_ok : checked_mapping_size e capacity ≡ inr (size_for e capacity)
  unfolding checked_mapping_size
  size_ok =
      let positive : 0 < slot_size e = omega arith in
      let above : capacity ≤ capacity * slot_size e = le-mul_of_pos_right capacity positive in
      let held : capacity * slot_size e ≤ u64_mod - 1 - 512 = omega (arith, fits) in
      let divided : capacity ≤ (u64_mod - 1 - 512) / slot_size e =
        (le-div_iff_mul-le positive).1 held in
      let t1 : (capacity == 0) ≡ false = ground arith in
      let t2 : ltb (2 ^ 63 - 1) capacity ≡ false = ground arith in
      let t3 : ltb ((u64_mod - 1 - 512) / slot_size e) capacity ≡ false = ground (arith, divided) in
      let t4 : ltb (2 ^ 63 - 1) (512 + capacity * slot_size e) ≡ false = ground (arith, fits) in
      rw (t1, t2, t3, t4)

-- The two tests of the size are one, and those of the constants hold.
all_tests :
    {A : Type 0} (x y : A) (a b c : Bool)
    → (if not (a && a && true && true && true && true && true && b && c) then x else y)
      ≡ (if a && b && c then y else x)
all_tests x y false b c = refl
all_tests x y true false c = refl
all_tests x y true true false = refl
all_tests x y true true true = refl

module _ (e e' : Element) (capacity : ℕ) (some_slots : 0 < capacity)
    (fits : size_for e capacity < 2 ^ 63) (alike : e'.size ≡ e.size) where
  same_slots : slot_size e' ≡ slot_size e
  same_slots = ap (λ n. (8 + n + 63) / 64 * 64) alike

  checked : checked_mapping_size e' capacity ≡ inr (size_for e capacity)
  checked =
      size_ok e' capacity some_slots
        (subst (λ n. 512 + capacity * n < 2 ^ 63) (sym same_slots) fits)
      ∙ ap (λ n. inr (512 + capacity * n)) same_slots

  capacity_u64 : ltb (u64_mod - 1) capacity ≡ false
  capacity_u64 =
      let positive : 0 < slot_size e = omega arith in
      let above : capacity ≤ capacity * slot_size e = le-mul_of_pos_right capacity positive in
      ground (arith, fits, above)

  validates :
      (size : ℕ)
      → validate_mapping e' (fresh_format e capacity (size_for e capacity)) size ≡ (
          if (size_for e capacity == size)
            && (e.alignment == e'.alignment)
            && (e.type_tag == e'.type_tag)
          then inr capacity
          else inl abi_mismatch)
  unfolding validate_mapping
  validates size =
      let t1 : (capacity == 0) ≡ false = ground arith in
      let t3 : (slot_size e == slot_size e') ≡ true = ground (arith, same_slots) in
      let t4 : (e.size == e'.size) ≡ true = ground (arith, alike) in
      rw (checked, validate_mapping)
        (rw (t1, capacity_u64, t3, t4)
          (all_tests _ _ (size_for e capacity == size) (e.alignment == e'.alignment)
            (e.type_tag == e'.type_tag)))

module _ {A : Type 0} (blank : A) where
  get_elem?-slots_from :
      (index count i : ℕ)
      → i < count
      → get_elem? (slots_from blank index count) i
        ≡ some (record { sequence = index + i; storage = blank })
  unfolding slots_from
  get_elem?-slots_from index zero i inside = ground (arith, inside)
  get_elem?-slots_from index (suc count) zero inside =
      ap (λ n. some (record { sequence = n; storage = blank })) (omega arith)
  get_elem?-slots_from index (suc count) (suc i) inside =
      get_elem?-slots_from (index + 1) count i (omega (arith, inside))
      ∙ ap (λ n. some (record { sequence = n; storage = blank })) (omega arith)

-- For a capacity above 0 whose object is smaller than 2 ^ 63 bytes, `create` succeeds with that
-- capacity, and the slot of each index starts with the index as its sequence. For an element type of
-- the same size, `validate_mapping` accepts the new object exactly at its own size and with the same
-- alignment and type tag, and otherwise says that the type or the ABI does not match.
pub create-validate_mapping :
    {A : Type 0} (blank : A) (e e' : Element) (capacity size : ℕ)
    → 0 < capacity
    → size_for e capacity < 2 ^ 63
    → e'.size ≡ e.size
    → (f : Format) × (c : Fixed A) × (create blank e capacity ≡ inr (f, c))
      × (c.ring.capacity ≡ capacity)
      × ((i : ℕ)
          → i < capacity
          → get_elem? c.ring.slots i ≡ some (record { sequence = i; storage = blank }))
      × (validate_mapping e' f size ≡ (
          if (f.mapping_size == size)
            && (e.alignment == e'.alignment)
            && (e.type_tag == e'.type_tag)
          then inr capacity
          else inl abi_mismatch))
unfolding create
create-validate_mapping blank e e' capacity size some_slots fits alike = (
  fresh_format e capacity (size_for e capacity),
  fresh_channel blank capacity,
  rw (size_ok e capacity some_slots fits, create),
  refl,
  (λ i inside.
      get_elem?-slots_from blank 0 capacity i inside
      ∙ ap (λ n. some (record { sequence = n; storage = blank })) (omega arith)),
  validates e e' capacity some_slots fits alike size,
)
