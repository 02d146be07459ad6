-- ===== src/Managed/Layout/Areas.antt =====
-- include/shmchan/managed_channel.hpp: the areas that a layout gives to the header, the slots and
-- the payloads.
use native.Mathlib.Nat.{le-div_iff_mul-le, mul-le-mul}
use shmchan.Common.{
  ℕ, ◌+◌, ◌-◌, ◌*◌, ◌/◌, ◌%◌, ◌^◌, ◌≤◌, ◌<◌, ◌≡◌, refl, Bool-cases, inl, inr, false, arith, ltb,
  ◌==◌, ◌||◌, subst,
}
use shmchan.Status.{u32_mod, u64_mod}
use shmchan.Managed.Layout.{
  Result, ok, error, ManagedLayout, managed_align_up, layout_areas, checked_managed_layout,
}

-- Aligned to 64 above `value`, by less than 64.
align_up-64 :
    (value : ℕ)
    → value < u64_mod - 64
    → (value ≤ managed_align_up value 64) × (managed_align_up value 64 < value + 64)
unfolding managed_align_up
align_up-64 value small = omega (arith, small)

align_up-aligned : (value : ℕ) → managed_align_up value 64 % 64 ≡ 0
unfolding managed_align_up
align_up-aligned value = omega arith

align_up-low : (value : ℕ) → value < u32_mod → managed_align_up value 64 ≤ 2 ^ 32
unfolding managed_align_up
align_up-low value small = omega (arith, small)

-- The header, the slots and the payload areas follow each other and fill the mapping exactly.
pub record HasAreas (header_size capacity max_message_size : ℕ) (l : ManagedLayout) : Type 0 where
  pub positive : 0 < capacity
  pub small : max_message_size < u32_mod
  pub header : header_size ≤ l.slots_offset
  pub slots : l.slots_offset + capacity * 64 ≤ l.payload_offset
  pub payloads : l.payload_offset + capacity * l.payload_stride ≡ l.mapping_size
  pub message : max_message_size ≤ l.payload_stride
  pub whole : l.mapping_size < 2 ^ 63

-- A result of the layout is an error, or such areas.
abbrev AllAreas : ℕ → ℕ → ℕ → Result ManagedLayout → Type 0
AllAreas header_size capacity max (ok l) = HasAreas header_size capacity max l
AllAreas header_size capacity max (error e) = Unit

-- Where the payload areas begin.
abbrev payloads_at : ℕ → ℕ → ℕ
payloads_at capacity slots_offset =
    managed_align_up ((slots_offset + capacity * 64 % u64_mod) % u64_mod) 64

payloads_at-after :
    (capacity slots_offset : ℕ)
    → slots_offset % 64 ≡ 0
    → slots_offset < u64_mod
    → ltb ((u64_mod - 1 - slots_offset) / 64) capacity ≡ false
    → (slots_offset + capacity * 64 ≤ payloads_at capacity slots_offset)
      × (payloads_at capacity slots_offset < u64_mod)
unfolding managed_align_up
payloads_at-after capacity slots_offset aligned inside few =
    let few' : capacity ≤ (u64_mod - 1 - slots_offset) / 64 = ground arith in
    omega (arith, aligned, few', inside)

payloads-exact :
    (capacity stride start : ℕ)
    → 0 < stride
    → start < u64_mod
    → ltb ((u64_mod - 1 - start) / stride) capacity ≡ false
    → (start + capacity * stride % u64_mod) % u64_mod ≡ start + capacity * stride
payloads-exact capacity stride start nonzero inside few =
    let few' : capacity ≤ (u64_mod - 1 - start) / stride = ground arith in
    let product : capacity * stride ≤ u64_mod - 1 - start = (le-div_iff_mul-le nonzero).0 few' in
    let n : ℕ = capacity * stride in exact n product
  where
    exact : (n : ℕ) → n ≤ u64_mod - 1 - start → (start + n % u64_mod) % u64_mod ≡ start + n
    exact n h = omega (arith, h, inside)

not-ltb : {a b : ℕ} → b ≤ a → ltb a b ≡ false
not-ltb h = ground arith

start-near :
    {capacity slots_offset : ℕ}
    → slots_offset ≤ 2 ^ 32
    → capacity ≤ 2 ^ 30
    → payloads_at capacity slots_offset ≤ 2 ^ 40
unfolding managed_align_up
start-near low few = omega (arith, low, few)

small_product : (n start : ℕ) → n ≤ 2 ^ 62 → start ≤ 2 ^ 40 → n ≤ u64_mod - 1 - start
small_product n start h near = omega (arith, h, near)

whole_small : (n start : ℕ) → n ≤ 2 ^ 62 → start ≤ 2 ^ 40 → ltb (2 ^ 63 - 1) (start + n) ≡ false
whole_small n start h near = ground arith

module _ (header_size capacity max : ℕ) where
  module _ (stride slots_offset : ℕ) (positive : 0 < capacity) (small : max < u32_mod)
      (fits : max ≤ stride) (nonzero : 0 < stride) (header : header_size ≤ slots_offset)
      (aligned : slots_offset % 64 ≡ 0) (inside : slots_offset < u64_mod) where
    abbrev start : ℕ
    start = payloads_at capacity slots_offset

    layout_areas-AllAreas :
        AllAreas header_size capacity max (layout_areas header_size capacity stride slots_offset)
    unfolding layout_areas
    layout_areas-AllAreas = elim (Bool-cases (ltb ((u64_mod - 1 - slots_offset) / 64) capacity)) [
      | inl big ↦ rw big tt
      | inr few ↦
          let (after, below) = payloads_at-after capacity slots_offset aligned inside few in
          elim (Bool-cases (ltb ((u64_mod - 1 - start) / stride) capacity)) [
            | inl big ↦ rw (few, big) tt
            | inr room ↦
                let exact = payloads-exact capacity stride start nonzero below room in
                elim (Bool-cases (ltb (2 ^ 63 - 1) (start + capacity * stride))) [
                  | inl big ↦ rw (few, room, exact, big) tt
                  | inr whole ↦
                      rw (few, room, exact, whole)
                        record {
                          positive = positive;
                          small = small;
                          header = header;
                          slots = after;
                          payloads = refl;
                          message = fits;
                          whole = ground arith;
                        }
                ]
          ]
    ]

    layout_areas-ok :
        capacity ≤ 2 ^ 30
        → stride ≤ 2 ^ 32
        → slots_offset ≤ 2 ^ 32
        → (l : ManagedLayout) × (layout_areas header_size capacity stride slots_offset ≡ ok l)
    unfolding layout_areas
    layout_areas-ok few narrow low =
        let room : ltb ((u64_mod - 1 - slots_offset) / 64) capacity ≡ false = ground arith in
        let product : capacity * stride ≤ 2 ^ 30 * 2 ^ 32 = mul-le-mul few narrow in
        let near = start-near low few in
        let room' : ltb ((u64_mod - 1 - start) / stride) capacity ≡ false =
          not-ltb ((le-div_iff_mul-le nonzero).1 (small_product _ _ product near)) in
        let exact = payloads-exact capacity stride start nonzero (omega (arith, near)) room' in
        let whole = whole_small _ _ product near in rw (room, room', exact, whole) (_, refl)

  module _ (below : header_size < u32_mod) where
    checked_managed_layout-AllAreas :
        AllAreas header_size capacity max (checked_managed_layout header_size capacity max)
    unfolding checked_managed_layout
    checked_managed_layout-AllAreas = elim (Bool-cases ((capacity == 0) || (max == 0))) [
      | inl zero ↦ rw zero tt
      | inr positive ↦ elim (Bool-cases (ltb (u32_mod - 1) max)) [
        | inl big ↦ rw (positive, big) tt
        | inr small ↦
            let never : ltb (u64_mod - 1 - 63) max ≡ false = ground arith in
            let (fits, close) = align_up-64 max (ground arith) in
            let (header, near) = align_up-64 header_size (omega (arith, below)) in
            rw (positive, small, never)
              (layout_areas-AllAreas (managed_align_up max 64) (managed_align_up header_size 64)
                (ground arith) (ground arith) fits (ground arith) header
                (align_up-aligned header_size) (omega (arith, near, below)))
      ]
    ]

-- The layout of a channel, for a header below 2 ^ 32 bytes: the header, one descriptor for each
-- slot and one payload area for each slot follow each other without overlap, a payload area has
-- room for a message of the largest size, the areas end where the mapping ends, and no computation
-- has wrapped around: the mapping is below 2 ^ 63 bytes.
pub checked_managed_layout-HasAreas :
    (header_size capacity max : ℕ) (l : ManagedLayout)
    → header_size < u32_mod
    → checked_managed_layout header_size capacity max ≡ ok l
    → HasAreas header_size capacity max l
checked_managed_layout-HasAreas header_size capacity max l below e =
    subst (AllAreas header_size capacity max) e
      (checked_managed_layout-AllAreas header_size capacity max below)

pub checked_managed_layout-ok :
    (header_size capacity max : ℕ)
    → header_size < u32_mod
    → 0 < capacity
    → capacity ≤ 2 ^ 30
    → 0 < max
    → max < u32_mod
    → (l : ManagedLayout) × (checked_managed_layout header_size capacity max ≡ ok l)
unfolding checked_managed_layout
checked_managed_layout-ok header_size capacity max below positive few some small =
    let positive' : ((capacity == 0) || (max == 0)) ≡ false = ground arith in
    let small' : ltb (u32_mod - 1) max ≡ false = ground arith in
    let never : ltb (u64_mod - 1 - 63) max ≡ false = ground arith in
    rw (positive', small', never)
      (layout_areas-ok header_size capacity max (managed_align_up max 64)
        (managed_align_up header_size 64) positive small (align_up-64 max (omega (arith, small))).0
        (omega (arith, some, align_up-64 max (omega (arith, small))))
        (align_up-64 header_size (omega (arith, below))).0 (align_up-aligned header_size)
        (omega (arith, align_up-low header_size below)) few (align_up-low max small)
        (align_up-low header_size below))
